-- ===== src/Language/Fallback.antt =====
-- The text of a tag for a user: Languages::get, home/kineircd/src/lib/language/interface.cpp.
use kineircd.Prelude.{
  ap, ◌∙◌, Option-cases, ℕ, ◌≡◌, refl, false, List, [], ◌∷◌, Option, none, some, if◌then◌else◌,
  is_empty, Bool-cases, inl, inr,
}
use kineircd.Prelude.Text.{Text}

abbrev pub replacement_object : Text
replacement_object = 0xfffc ∷ []

-- A language is null or its address; `get` is LanguageData::get for the tag and its parameters.
module _ (get : ℕ → Text) (default_language : Option ℕ) where
  -- The default language, or the replacement.
  unfoldable pub get_default : Text
  get_default = elim default_language [
    | none ↦ replacement_object
    | some d ↦ let text = get d in if is_empty text then replacement_object else text
  ]

  unfoldable pub get_one : Option ℕ → Text
  unfolding get_default
  get_one none = replacement_object
  get_one (some l) = let text = get l in if is_empty text then get_default else text

  -- The loop over the languages of the list.
  unfoldable pub get_listed : List (Option ℕ) → Text
  unfolding get_default
  get_listed [] = get_default
  get_listed (none ∷ ls) = replacement_object
  get_listed (some l ∷ ls) =
      let text = get l in let rest = get_listed ls in if is_empty text then rest else text

  unfoldable pub get_first : List (Option ℕ) → Text
  unfolding get_listed
  get_first [] = replacement_object
  get_first (none ∷ ls) = replacement_object
  get_first (some l ∷ ls) = get_listed (some l ∷ ls)

  -- The specification: the first text that is not empty.
  abbrev pub first_text : List Text → Text
  first_text [] = replacement_object
  first_text (text ∷ texts) = if is_empty text then first_text texts else text

  -- The texts in the order of preference: those of the languages, and then the default language's. A
  -- null language ends them, and neither what is behind it nor the default language is asked.
  abbrev pub default_texts : List Text
  default_texts = elim default_language [ none ↦ [] | some d ↦ get d ∷ [] ]

  abbrev pub preferred : List (Option ℕ) → List Text
  preferred [] = default_texts
  preferred (none ∷ ls) = []
  preferred (some l ∷ ls) = get l ∷ preferred ls

  first_text-nonempty : (ts : List Text) → is_empty (first_text ts) ≡ false
  first_text-nonempty [] = refl
  first_text-nonempty (t ∷ ts) = elim (Bool-cases (is_empty t)) [
    | inl e ↦ rw (first_text, e) (first_text-nonempty ts)
    | inr e ↦ rw (first_text, e) e
  ]

  get_listed-first : (ls : List (Option ℕ)) → get_listed ls ≡ first_text (preferred ls)
  unfolding get_listed
  get_listed-first [] = elim (Option-cases default_language) [
    | inl e ↦ rw (get_default, e)
    | inr (d, e) ↦ rw (get_default, e)
  ]
  get_listed-first (none ∷ ls) = refl
  get_listed-first (some l ∷ ls) = rw (get_listed-first ls)

  -- Without a list of languages nothing is asked, the default language included.
  abbrev pub asked : List (Option ℕ) → List Text
  asked [] = []
  asked (l ∷ ls) = preferred (l ∷ ls)

  -- Whatever the list of languages: the text is the first that is not empty, in the order of the
  -- languages and then of the default language. A null language in the list ends the search, the
  -- default language is then not asked, and for an empty list nothing is asked. Where nothing that is
  -- asked has a text, it is the replacement, so that the text is never empty.
  pub get_first-preferred :
      (ls : List (Option ℕ))
      → (get_first ls ≡ first_text (asked ls)) × (is_empty (get_first ls) ≡ false)
  unfolding get_first
  get_first-preferred [] = (refl, refl)
  get_first-preferred (none ∷ ls) = (refl, refl)
  get_first-preferred (some l ∷ ls) =
      let first = get_listed-first (some l ∷ ls) in
      (first, ap is_empty first ∙ first_text-nonempty (preferred (some l ∷ ls)))
