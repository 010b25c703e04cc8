-- ===== src/Language/Segments.antt =====
-- The segments of a tag, which are handed to the caller one by one.
use kineircd.Prelude.{
  ℕ, zero, suc, ◌<◌, ◌≡◌, refl, Bool, true, List, [], ◌∷◌, Option, none, some, arith, if◌then◌else◌,
  ◌==◌, length, take, drop, get_elem?, Option-cases, inl, inr,
}
use kineircd.Prelude.Text.{Text, find_first_of}
use kineircd.Language.{LanguageData, Surroundings, process, call_out, get_each}

-- The specification: the text is cut at its newline markers, into the first segment and the
-- others.
unfoldable pub segments : Text → Text × List Text
segments [] = ([], [])
segments (c ∷ cs) = let (l, ls) = segments cs in if c == 0x85 then ([], l ∷ ls) else (c ∷ l, ls)

segments-none : (s : Text) → find_first_of (0x85 ∷ []) s ≡ none → segments s ≡ (s, [])
unfolding segments find_first_of
segments-none [] h = refl
segments-none (c ∷ s) h = ground (arith, segments-none s)

segments-some :
    (s : Text) (n : ℕ)
    → find_first_of (0x85 ∷ []) s ≡ some n
    → segments s ≡ (take n s, (segments (drop (suc n) s)).0 ∷ (segments (drop (suc n) s)).1)
unfolding segments find_first_of
segments-some [] n h = cc
segments-some (c ∷ s) zero h = ground arith
segments-some (c ∷ s) (suc n) h =
    let e : find_first_of (0x85 ∷ []) s ≡ some n = ground arith in
    ground (arith, segments-some s n e)

length-behind :
    (s : Text) (n : ℕ)
    → find_first_of (0x85 ∷ []) s ≡ some n
    → suc (length (drop (suc n) s)) < suc (length s)
unfolding find_first_of
length-behind [] n h = cc
length-behind (c ∷ s) zero h = omega arith
length-behind (c ∷ s) (suc n) h =
    let e : find_first_of (0x85 ∷ []) s ≡ some n = ground arith in
    omega (arith, length-behind s n e)

module _ {ℓ} {S : Type ℓ} (env : Surroundings) (parameters : Option (List Text))
    (call_function : Text → S → Bool × S) where
  -- The caller gets the processed segments in order, up to the first that it refuses.
  abbrev pub offer : Text → List Text → S → S
  offer t [] s = (call_function (process env parameters t) s).1
  offer t (u ∷ us) s =
      let (go_on, s') = call_function (process env parameters t) s in
      let more = offer u us s' in if go_on then more else s'

  call_out-offer :
      (fuel : ℕ) (rest : Text) (s : S)
      → length rest < fuel
      → call_out env parameters call_function fuel rest s
        ≡ some (offer (segments rest).0 (segments rest).1 s)
  unfolding call_out
  call_out-offer zero rest s h = elim h [ ]
  call_out-offer (suc fuel) rest s h = elim (Option-cases (find_first_of (0x85 ∷ []) rest)) [
    | inl e ↦ rw (e, call_out, segments-none rest e)
    | inr (n, e) ↦
        let t = take n rest in
        let s' = (call_function (process env parameters t) s).1 in
        let ih =
          call_out-offer fuel (drop (suc n) rest) s' (omega (arith, length-behind rest n e)) in
        rw (e, call_out, segments-some rest n e) (ground (arith, ih))
  ]

  -- `get` with a callback returns on every tag that is there: the caller is handed the processed
  -- segments of the tag in order, and none behind the first that it refuses.
  pub get_each-offer :
      (i : ℕ) (l : LanguageData) (tag : Text) (s : S)
      → get_elem? l.tag_data i ≡ some (some tag)
      → get_each env parameters call_function (suc i) l s
        ≡ some (true, offer (segments tag).0 (segments tag).1 s)
  unfolding get_each
  get_each-offer i l tag s e =
      rw (e, get_each, call_out-offer (suc (length tag)) tag s (omega arith))
