-- ===== src/Irc2User/Who/Shown.antt =====
-- Whom WHO shows, and what of them.
use kineircd.Prelude.{
  if_again, ℕ, zero, suc, ◌+◌, ◌-◌, ◌%◌, ◌^◌, ◌<◌, ◌≡◌, refl, ap, Bool, true, false, ◌||◌, List, [],
  ◌∷◌, ◌++◌, if◌then◌else◌, ◌==◌, leb, take, length, arith, Bool-cases, inl, inr,
}
use kineircd.Prelude.Text.{Text}
use kineircd.Irc2User.Who.Flags.{Options}
use kineircd.Irc2User.Who.{
  Person, Reply, end_of_who, too_many_matches, shown_host, is_match, who_line, is_shown, visit,
  request, handle_who,
}

-- A user whose host name is blank where it is hidden.
unfoldable pub blank : Person → Person
blank p = record p { hostname = if p.hide_host then [] else p.hostname }

-- What the asker may know: no hidden user, and no host name of a user who hides it.
abbrev pub discreet : List Person → List Person
discreet [] = []
discreet (p ∷ ps) = let rest = discreet ps in if p.hidden then rest else blank p ∷ rest

shown_host-blank : (p : Person) → shown_host (blank p) ≡ shown_host p
unfolding shown_host blank
shown_host-blank p = if_again p.hide_host (λ t. t) p.virtual_hostname [] p.hostname

module _ (matches : Text → Text → Bool) (convert : ℕ → Text) where
  -- The specification: the lines of the users who pass the tests, in the order of the registry.
  abbrev pub lines : Options → Text → List Person → List Reply
  lines o mask [] = []
  lines o mask (p ∷ ps) =
      let rest = lines o mask ps in
      if is_shown matches o mask p then who_line convert o p ∷ rest else rest

  visit-operator :
      (o : Options) (mask : Text) (people : List Person) (n : ℕ)
      → visit matches convert true o mask people n ≡ (lines o mask people, n)
  unfolding visit
  visit-operator o mask [] n = refl
  visit-operator o mask (p ∷ people) n = elim (Bool-cases (is_shown matches o mask p)) [
    | inl e ↦ rw (visit, e, visit-operator o mask people n)
    | inr e ↦ rw (visit, e, visit-operator o mask people n)
  ]

  visit-take :
      (o : Options) (mask : Text) (people : List Person) (n : ℕ)
      → suc n < 2 ^ 32
      → visit matches convert false o mask people (suc n)
        ≡ (take (suc n) (lines o mask people), suc n - length (lines o mask people))
  unfolding visit
  visit-take o mask [] n h = ap (λ k. ([], k)) (omega arith)
  visit-take o mask (p ∷ people) zero h = elim (Bool-cases (is_shown matches o mask p)) [
    | inr e ↦ rw (visit, e, visit-take o mask people zero h)
    | inl e ↦ let z : 1 - suc (length (lines o mask people)) ≡ 0 = omega arith in rw (visit, e, z)
  ]
  visit-take o mask (p ∷ people) (suc n) h = elim (Bool-cases (is_shown matches o mask p)) [
    | inr e ↦ rw (visit, e, visit-take o mask people (suc n) h)
    | inl e ↦
        let left : (suc (suc n) + 0xffff_ffff) % 2 ^ 32 ≡ suc n = omega arith in
        let z : suc (suc n) - suc (length (lines o mask people))
            ≡ suc n - length (lines o mask people) =
          omega arith in
        rw (visit, e, left, visit-take o mask people n (omega arith), z) (ground arith)
  ]

  -- The lines are those of the users whom the asker may see and who pass the tests, in the order
  -- of the registry. An operator gets all of them; for anybody else there are at most 100, and the
  -- complaint of too many follows the end exactly where there are 100 or more.
  pub handle_who-lines :
      (asker_is_operator : Bool) (people : List Person) (ps : List Text)
      → let (mask, o) = request ps in
        let found = lines o mask people in
        handle_who matches convert asker_is_operator people ps ≡ (
          if asker_is_operator
          then found ++ end_of_who mask ∷ []
          else take 100 found
            ++ end_of_who mask
              ∷ (if leb 100 (length found) then too_many_matches mask ∷ [] else []))
  unfolding handle_who
  handle_who-lines true people ps =
      let (mask, o) = request ps in rw (visit-operator o mask people 100)
  handle_who-lines false people ps =
      let (mask, o) = request ps in
      let found = lines o mask people in
      let full : ((100 - length found) == 0) ≡ leb 100 (length found) = ground arith in
      rw (visit-take o mask people 99 (omega arith), full)

  is_shown-hidden :
      (o : Options) (mask : Text) (p : Person) → p.hidden ≡ true → is_shown matches o mask p ≡ false
  unfolding is_shown
  is_shown-hidden o mask p h = elim (Bool-cases (is_match matches o mask p)) [
    | inl e ↦ simp (e, h)
    | inr e ↦ simp (e, h)
  ]

  is_shown-blank :
      (o : Options) (mask : Text) (p : Person)
      → is_shown matches o mask (blank p) ≡ is_shown matches o mask p
  unfolding is_shown is_match blank
  is_shown-blank o mask p = rw (
      if_again p.hide_host (λ t. matches mask t || matches mask p.virtual_hostname)
        (matches mask p.virtual_hostname) [] p.hostname)

  who_line-blank : (o : Options) (p : Person) → who_line convert o (blank p) ≡ who_line convert o p
  unfolding who_line blank
  who_line-blank o p = rw (shown_host-blank p)

  lines-discreet :
      (o : Options) (mask : Text) (people : List Person)
      → lines o mask (discreet people) ≡ lines o mask people
  lines-discreet o mask [] = refl
  lines-discreet o mask (p ∷ people) = elim (Bool-cases p.hidden) [
    | inl e ↦ simp (e, is_shown-hidden o mask p e, lines-discreet o mask people)
    | inr e ↦ simp (e, is_shown-blank o mask p, who_line-blank o p, lines-discreet o mask people)
  ]

  -- WHO is discreet: its replies are the same as if no hidden user existed, and as if the users
  -- who hide their host had none.
  pub handle_who-discreet :
      (asker_is_operator : Bool) (people : List Person) (ps : List Text)
      → handle_who matches convert asker_is_operator (discreet people) ps
        ≡ handle_who matches convert asker_is_operator people ps
  handle_who-discreet asker_is_operator people ps =
      let (mask, o) = request ps in
      rw (
        handle_who-lines asker_is_operator (discreet people) ps,
        handle_who-lines asker_is_operator people ps,
        lines-discreet o mask people,
      )
