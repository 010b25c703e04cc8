-- ===== src/Irc2User/UserHost/Entries.antt =====
-- The entries of USERHOST and USERIP.
use kineircd.Prelude.{
  ℕ, zero, suc, ◌+◌, ◌≡◌, ◌≢◌, ap, sym, ◌∙◌, true, false, List, [], ◌∷◌, ◌++◌, none, some,
  if◌then◌else◌, All, take, ltb, append_assoc, append-nil, arith, Option-cases, inl, inr,
}
use kineircd.Prelude.Text.{Text}
use kineircd.Network.{Lists}
use kineircd.Registry.{find_entity}
use kineircd.Irc2User.Spaced.{spaced, added-spaced, nonempty-snoc}
use kineircd.Irc2User.Who.{Person, shown_host}
use kineircd.Irc2User.UserHost.{entry, visit, handle_userhost, handle_userip}

nonempty-append : (s t : Text) → t ≢ [] → s ++ t ≢ []
nonempty-append [] t h e = h e
nonempty-append (c ∷ s) t h e = cc

entry-nonempty :
    (delocalise : Text → Text) (p : Person) (address : Text) → entry delocalise p address ≢ []
unfolding entry
entry-nonempty delocalise p address =
    let mark : ℕ = if p.is_away then b'-' else b'?' in
    let star : Text = if p.is_operator then b'*' ∷ [] else [] in
    nonempty-append (delocalise p.nickname ++ star ++ b'=' ∷ mark ∷ delocalise p.username)
      (b'@' ∷ address) (λ e. cc)

module _ (lists : Lists) (localise : Text → Text) (entry_of : ℕ → Text) where
  -- The specification: the entries of the users who are found, in order.
  abbrev pub entries : List Text → List Text
  entries [] = []
  entries (p ∷ ps) = elim (find_entity lists.users (localise p)) [
    | none ↦ entries ps
    | some user ↦ entry_of user ∷ entries ps
  ]

  module _ (nonempty : (user : ℕ) → entry_of user ≢ []) where
    visit-entries :
        (ps g : List Text) (k n : ℕ)
        → k + n ≡ 5
        → All (λ w. w ≢ []) g
        → visit lists localise entry_of ps n (spaced g) ≡ spaced (g ++ entries (take k ps))
    unfolding visit
    visit-entries [] g zero n e h = ap spaced (sym (append-nil g))
    visit-entries [] g (suc k) n e h = ap spaced (sym (append-nil g))
    visit-entries (p ∷ ps) g zero n e h =
        let full : ltb 5 (n + 1) ≡ true = ground arith in
        rw (visit, full) (ap spaced (sym (append-nil g)))
    visit-entries (p ∷ ps) g (suc k) n e h =
        let room : ltb 5 (n + 1) ≡ false = ground arith in
        elim (Option-cases (find_entity lists.users (localise p))) [
          | inl f ↦ rw (visit, room, f, entries) (visit-entries ps g k (n + 1) (omega arith) h)
          | inr (user, f) ↦
              let tag = entry_of user in
              rw (visit, room, f, entries, added-spaced g tag h)
                (visit-entries ps (g ++ tag ∷ []) k (n + 1) (omega arith)
                    (nonempty-snoc g tag h (nonempty user))
                  ∙ ap spaced (append_assoc g (tag ∷ []) (entries (take k ps))))
        ]

module _ (lists : Lists) (person_of : ℕ → Person) where
  -- USERHOST answers for the first five names: the entries of the users who are found, in the
  -- order that was asked, with a space between each two; the host is the virtual one where the
  -- user hides the other from the asker.
  pub handle_userhost-spaced :
      (localise delocalise : Text → Text) (ps : List Text)
      → handle_userhost lists person_of localise delocalise ps
        ≡ spaced (
            entries lists localise
              (λ user. entry delocalise (person_of user) (delocalise (shown_host (person_of user))))
              (take 5 ps))
  unfolding handle_userhost
  handle_userhost-spaced localise delocalise ps =
      visit-entries lists localise
        (λ user. entry delocalise (person_of user) (delocalise (shown_host (person_of user))))
        (λ user. entry-nonempty delocalise (person_of user) _) ps [] 5 0 (omega arith) tt

  -- The same of USERIP, whose names are not localised and whose text is as it is.
  pub handle_userip-spaced :
      (address_of virtual_address_of : ℕ → Text) (ps : List Text)
      → handle_userip lists person_of address_of virtual_address_of ps
        ≡ spaced (
            entries lists
              (λ t. t)
              (λ user.
                entry
                  (λ t. t)
                  (person_of user)
                  (if (person_of user).hide_host then virtual_address_of user else address_of user))
              (take 5 ps))
  unfolding handle_userip
  handle_userip-spaced address_of virtual_address_of ps =
      visit-entries lists (λ t. t) _ (λ user. entry-nonempty (λ t. t) (person_of user) _) ps [] 5 0
        (omega arith) tt
