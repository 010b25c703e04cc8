-- ===== src/Logger/Decided.antt =====
-- Which messages a log mask of the configuration lets through.
use kineircd.Prelude.{
  ℕ, ◌≡◌, refl, ◌∙◌, Bool, true, false, ◌||◌, List, [], ◌∷◌, Option, none, some, if◌then◌else◌,
  ◌==◌, length, get_elem?, arith,
}
use kineircd.Prelude.Text.{Text, codes, text_eq}
use kineircd.Logger.{
  Mask, MaskMapper, find_mapper, get_mask_mapper, nothing, everything, toggle, find_word, read_word,
  apply_word, apply_words, var_handle_log_mask, log,
}

past_end {ℓ} : {A : Type ℓ} (xs : List A) → get_elem? xs (length xs) ≡ none
past_end [] = refl
past_end (x ∷ xs) = past_end xs

-- Whatever is looked for, in whatever table, getMaskMapper reads the entry behind the last one.
pub get_mask_mapper_fault :
    (is_it : ℕ → MaskMapper → Bool) (table : List MaskMapper) → get_mask_mapper is_it table ≡ none
unfolding get_mask_mapper find_mapper
get_mask_mapper_fault is_it [] = refl
get_mask_mapper_fault is_it (m ∷ table) = rw (past_end table, find_mapper) refl

abbrev pub or_else : Option Bool → Bool → Bool
or_else none b = b
or_else (some a) b = a

-- A later word stands before an earlier one.
settle :
    (later says_it : Option Bool) (y : Bool) {x : Bool}
    → x ≡ or_else says_it y
    → or_else later x ≡ or_else (elim later [ none ↦ says_it | some on ↦ some on ]) y
settle none says_it y e = e
settle (some on) says_it y e = refl

module _ (to_upper : Text → Text) (table : List MaskMapper) where
  -- What a word says of a kind of message: on, off, or nothing.
  pub says : ℕ → Bool × Text → Option Bool
  says bit (on, word) =
      if text_eq word (codes "NOTHING") || text_eq word (codes "NONE")
      then none
      else if text_eq word (codes "EVERYTHING") || text_eq word (codes "ALL")
      then some on
      else elim (find_word word table) [ none ↦ none | some i ↦ if bit == i then some on else none ]

  -- What the last value that says something says.
  pub decided : ℕ → List Text → Option Bool
  decided bit [] = none
  decided bit (value ∷ values) = elim (decided bit values) [
    | some on ↦ some on
    | none ↦ says bit (read_word to_upper table value)
  ]

  apply_word-says :
      (bit : ℕ) (w : Bool × Text) (mask : Mask)
      → apply_word to_upper table w mask bit ≡ or_else (says bit w) (mask bit)
  unfolding apply_word says
  apply_word-says bit (on, word) mask = ground (arith, toggle)

  apply_words-decided :
      (bit : ℕ) (values : List Text) (mask : Mask)
      → apply_words to_upper table values mask bit ≡ or_else (decided bit values) (mask bit)
  unfolding apply_words decided
  apply_words-decided bit [] mask = refl
  apply_words-decided bit (v ∷ vs) mask =
      apply_words-decided bit vs (apply_word to_upper table (read_word to_upper table v) mask)
      ∙ settle (decided bit vs) (says bit (read_word to_upper table v)) (mask bit)
          (apply_word-says bit (read_word to_upper table v) mask)

  -- Whether a kind of message is logged under values: the empty list is for all.
  pub logged : ℕ → List Text → Bool
  logged bit [] = true
  logged bit (value ∷ values) = or_else (decided bit (value ∷ values)) false

  -- Without values, everything is logged. Else a kind of message is logged exactly if the last
  -- value that speaks of it, by its name or as one of all, turns it on.
  pub log-logged :
      (bit : ℕ) (values : List Text)
      → log (var_handle_log_mask to_upper table values) bit ≡ logged bit values
  unfolding log var_handle_log_mask logged everything nothing
  log-logged bit [] = refl
  log-logged bit (v ∷ vs) = apply_words-decided bit (v ∷ vs) nothing
