-- ===== src/Network/Fold.antt =====
-- The searches for targets do not see case.
use kineircd.Prelude.{ℕ, ◌≡◌, refl, sym, ap, ◌∙◌, arith, Bool, [], ◌∷◌, is_empty}
use kineircd.Prelude.Text.{Text, find_first_of, one_of}
use kineircd.Name.{irctolower, irc_to_lower}
use kineircd.Registry.{find_entity}
use kineircd.Registry.EntityMap.{Entities, find}
use kineircd.Network.{Lists, find_client, find_message_target, find_server_target}

abbrev wildcards : Text
wildcards = b'*' ∷ b'?' ∷ []

one_of-irctolower : (c : ℕ) → one_of wildcards (irctolower c) ≡ one_of wildcards c
unfolding one_of irctolower
one_of-irctolower c = ground arith

find_wildcard-fold :
    (s : Text) → find_first_of wildcards (irc_to_lower s) ≡ find_first_of wildcards s
unfolding find_first_of irc_to_lower
find_wildcard-fold [] = refl
find_wildcard-fold (c ∷ s) = rw (one_of-irctolower c, find_wildcard-fold s)

is_empty-fold : (s : Text) → is_empty (irc_to_lower s) ≡ is_empty s
unfolding irc_to_lower
is_empty-fold [] = refl
is_empty-fold (c ∷ s) = refl

find_entity-fold :
    (m : Entities) (a b : Text)
    → irc_to_lower a ≡ irc_to_lower b
    → find_entity m a ≡ find_entity m b
unfolding find_entity
find_entity-fold m a b e = ap (λ k. find k m) e

-- Two names that fold to the same text find the same client, the same target of a message and the
-- same server.
pub targets-fold :
    (l : Lists) (server_of : ℕ → ℕ) (services : Bool) (a b : Text)
    → irc_to_lower a ≡ irc_to_lower b
    → (find_client l a ≡ find_client l b)
      × (find_message_target l a services ≡ find_message_target l b services)
      × (find_server_target l server_of a ≡ find_server_target l server_of b)
unfolding find_client find_message_target find_server_target
targets-fold l server_of services a b e =
    let wild : find_first_of wildcards a ≡ find_first_of wildcards b =
      sym (find_wildcard-fold a) ∙ ap (find_first_of wildcards) e ∙ find_wildcard-fold b in
    let empty : is_empty a ≡ is_empty b = sym (is_empty-fold a) ∙ ap is_empty e ∙ is_empty-fold b in
    let users = find_entity-fold l.users a b e in
    let others = find_entity-fold l.services a b e in
    let servers = find_entity-fold l.servers a b e in (ground arith, ground arith, ground arith)
