-- ===== src/Irc2User/Who/Fields.antt =====
-- The fields of a line that WHO sends where the asker chose them.
use kineircd.Prelude.{
  ℕ, ◌≡◌, ◌≢◌, sym, ◌∙◌, Bool, true, false, List, [], ◌∷◌, ◌++◌, if◌then◌else◌, All, drop,
  append-nil, append_assoc, ap,
}
use kineircd.Prelude.Text.{Text, codes}
use kineircd.Irc2User.Spaced.{spaced, added-spaced, nonempty-snoc}
use kineircd.Irc2User.Who.Flags.{Options}
use kineircd.Irc2User.Who.{Person, shown_host, person_flags, add_field, idle_text, special_output}

-- The fields that are wanted, of those given.
abbrev pub wanted : List (Bool × Text) → List Text
wanted [] = []
wanted ((b, field) ∷ fs) = let rest = wanted fs in if b then field ∷ rest else rest

abbrev add_fields : List (Bool × Text) → Text → Text
add_fields [] output = output
add_fields ((b, field) ∷ fs) output = add_fields fs (add_field b field output)

add_fields-spaced :
    (fs : List (Bool × Text)) (g : List Text)
    → All (λ f. f.1 ≢ []) fs
    → All (λ w. w ≢ []) g
    → add_fields fs (spaced g) ≡ spaced (g ++ wanted fs)
unfolding add_field
add_fields-spaced [] g h k = ap spaced (sym (append-nil g))
add_fields-spaced ((true, field) ∷ fs) g h k = rw (added-spaced g field k) (
    add_fields-spaced fs (g ++ field ∷ []) h.1 (nonempty-snoc g field k h.0)
    ∙ ap spaced (append_assoc g (field ∷ []) (wanted fs)))
add_fields-spaced ((false, field) ∷ fs) g h k = add_fields-spaced fs g h.1 k

first_field :
    (b : Bool) (query : Text) (fs : List (Bool × Text))
    → All (λ f. f.1 ≢ []) ((b, query) ∷ fs)
    → add_fields fs (if b then query else []) ≡ spaced (wanted ((b, query) ∷ fs))
first_field true query fs h = add_fields-spaced fs (query ∷ []) h.1 (h.0, tt)
first_field false query fs h = add_fields-spaced fs [] h.1 tt

module _ (convert : ℕ → Text) where
  -- The fields in their predetermined order, each with whether it was asked for.
  abbrev pub fields : Options → Person → List (Bool × Text)
  fields o p =
      let f = o.output in
      (f.query_type, o.query_type)
      ∷ (f.channel_name, b'*' ∷ [])
      ∷ (f.username, p.username)
      ∷ (f.address, b'*' ∷ [])
      ∷ (f.hostname, shown_host p)
      ∷ (f.server, codes "server.name")
      ∷ (f.nickname, p.nickname)
      ∷ (f.flags, person_flags p)
      ∷ (f.hops, convert p.hop_count)
      ∷ (f.idle_time, idle_text convert p.idle_time)
      ∷ (f.description, b':' ∷ p.description)
      ∷ []

  -- Provided that no field is empty, the line is the fields that were asked for, in their
  -- predetermined order whatever the order of the letters, with a space between each two.
  pub special_output-spaced :
      (o : Options) (p : Person)
      → All (λ f. f.1 ≢ []) (fields o p)
      → special_output convert o p ≡ spaced (wanted (fields o p))
  unfolding special_output
  special_output-spaced o p h = first_field o.output.query_type o.query_type (drop 1 (fields o p)) h
