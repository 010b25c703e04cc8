-- ===== src/Language/Calls.antt =====
-- The other forms of Languages::get: the one with a call for each segment of a tag
-- (home/kineircd/src/lib/language/interface.cpp), the one by a language's code, and those with one to six
-- parameters (home/kineircd/include/kineircd/languages.h).
use kineircd.Prelude.{
  ℕ, ◌≡◌, refl, Bool, true, false, List, [], ◌∷◌, ◌++◌, Option, none, some, Option-cases, inl, inr,
  Bool-cases, ◌<◌, ◌≤◌, ◌+◌, if◌then◌else◌, arith,
}
use kineircd.Prelude.Text.{Text}
use kineircd.Language.Fallback.{replacement_object}

-- A language is null or its address; `get_each` is LanguageData::get with the call, which gives no
-- result where it uses a null tag.
module _ {ℓ} {S : Type ℓ} (get_each : ℕ → S → Option (Bool × S))
    (call_function : Text → S → Bool × S) (default_language : Option ℕ) where
  -- The call with the replacement, whose answer is not used.
  abbrev give_up : S → S
  give_up s = (call_function replacement_object s).1

  unfoldable pub call_default : S → Option S
  call_default s = elim default_language [
    | none ↦ some (give_up s)
    | some d ↦ elim (get_each d s) [
      | none ↦ none
      | some (called, s') ↦ some (if called then s' else give_up s')
    ]
  ]

  unfoldable pub get_calls : Option ℕ → S → Option S
  unfolding call_default
  get_calls none s = some (give_up s)
  get_calls (some l) s = elim (get_each l s) [
    | none ↦ none
    | some (called, s') ↦ let more = call_default s' in if called then some s' else more
  ]

  -- Where no null tag is used, and each call adds to a count, as the calls of a language do if there
  -- are any: there is at least one call.
  module _ (count : S → ℕ) (each : ℕ → S → Bool × S)
      (answers : (l : ℕ) (s : S) → get_each l s ≡ some (each l s))
      (calls : (text : Text) (s : S) → count s < count (call_function text s).1)
      (grows : (l : ℕ) (s : S)
        → (if (each l s).0 then count s + 1 else count s) ≤ count (each l s).1) where
    behind :
        (b : Bool) (s s' : S)
        → (if b then count s + 1 else count s) ≤ count s'
        → (t : S) × (some (if b then s' else give_up s') ≡ some t) × (count s < count t)
    behind true s s' h = (s', refl, omega (arith, h))
    behind false s s' h = (give_up s', refl, omega (arith, h, calls replacement_object s'))

    call_default-calls : (s : S) → (s' : S) × (call_default s ≡ some s') × (count s < count s')
    unfolding call_default
    call_default-calls s = elim (Option-cases default_language) [
      | inl e ↦ rw (call_default, e) (give_up s, refl, calls replacement_object s)
      | inr (d, e) ↦
          rw (call_default, e, answers d s) (behind (each d s).0 s (each d s).1 (grows d s))
    ]

    get_calls-calls :
        (l : Option ℕ) (s : S) → (s' : S) × (get_calls l s ≡ some s') × (count s < count s')
    unfolding get_calls
    get_calls-calls none s = (give_up s, refl, calls replacement_object s)
    get_calls-calls (some l) s = elim (Bool-cases (each l s).0) [
      | inl e ↦ rw (get_calls, answers l s, e) ((each l s).1, refl, ground (arith, e, grows l s))
      | inr e ↦
          let (s', found, more) = call_default-calls (each l s).1 in
          rw (get_calls, answers l s, e, found) (s', refl, ground (arith, e, grows l s, more))
    ]

-- By a language's code; `find_by_code` gives null or the language.
unfoldable pub get_by_code : (Text → Option ℕ) → (Option ℕ → Text) → Text → Text
get_by_code find_by_code get code = get (find_by_code code)

unfoldable pub get_calls_by_code {ℓ} :
    {S : Type ℓ} → (Text → Option ℕ) → (Option ℕ → S → Option S) → Text → S → Option S
get_calls_by_code find_by_code get code s = get (find_by_code code) s

-- std::vector::push_back
abbrev push_back : List Text → Text → List Text
push_back ps p = ps ++ p ∷ []

-- The forms with parameters; `get` is the form with a list of them, for the language and the tag.
module _ (get : List Text → Text) where
  unfoldable pub get_with_1 : Text → Text
  get_with_1 p0 = get (push_back [] p0)

  unfoldable pub get_with_2 : Text → Text → Text
  get_with_2 p0 p1 = get (push_back (push_back [] p0) p1)

  unfoldable pub get_with_3 : Text → Text → Text → Text
  get_with_3 p0 p1 p2 = get (push_back (push_back (push_back [] p0) p1) p2)

  unfoldable pub get_with_4 : Text → Text → Text → Text → Text
  get_with_4 p0 p1 p2 p3 = get (push_back (push_back (push_back (push_back [] p0) p1) p2) p3)

  unfoldable pub get_with_5 : Text → Text → Text → Text → Text → Text
  get_with_5 p0 p1 p2 p3 p4 =
      get (push_back (push_back (push_back (push_back (push_back [] p0) p1) p2) p3) p4)

  unfoldable pub get_with_6 : Text → Text → Text → Text → Text → Text → Text
  get_with_6 p0 p1 p2 p3 p4 p5 =
      get
        (push_back (push_back (push_back (push_back (push_back (push_back [] p0) p1) p2) p3) p4) p5)
