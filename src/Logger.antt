-- ===== src/Logger.antt =====
-- Loggers: home/kineircd/include/kineircd/logger.h.tpl and home/kineircd/src/lib/logger.cpp.tpl, with
-- the masks of kineircd/autogen/logger.def. A mask of 32 bits is given by its bits, and the mask of
-- one kind of message by its place in the table.
pub mod Decided
pub mod File
pub mod Lines
use kineircd.Prelude.{
  ℕ, zero, suc, Bool, true, false, ◌||◌, not, List, [], ◌∷◌, Option, none, some, if◌then◌else◌,
  length, get_elem?, get_or, drop, ◌==◌,
}
use kineircd.Prelude.Text.{Text, codes, text_eq}

abbrev pub Mask : Type 0
Mask = ℕ → Bool

unfoldable pub nothing : Mask
nothing bit = false

unfoldable pub everything : Mask
everything bit = true

-- `mask |= 1 << bit` and `mask &= ~(1 << bit)`.
unfoldable pub toggle : Bool → ℕ → Mask → Mask
toggle on bit mask b = if b == bit then on else mask b

-- An entry of the table, at the place of its mask.
pub record MaskMapper : Type 0 where
  pub character : ℕ
  pub name : Text
  pub name_upper : Text

-- The loops of getMaskMapper, from the number of entries down to 1; the test is one of the mask, of
-- the character or of the name. There is no result where the table is read behind its end.
unfoldable pub find_mapper : (ℕ → MaskMapper → Bool) → List MaskMapper → ℕ → Option MaskMapper
find_mapper is_it table zero = get_elem? table 0
find_mapper is_it table (suc i) = elim (get_elem? table (suc i)) [
  | none ↦ none
  | some m ↦ let rest = find_mapper is_it table i in if is_it (suc i) m then some m else rest
]

unfoldable pub get_mask_mapper : (ℕ → MaskMapper → Bool) → List MaskMapper → Option MaskMapper
unfolding find_mapper
get_mask_mapper is_it table = find_mapper is_it table (length table)

-- The place of the first entry whose upper-cased name is the word.
unfoldable pub find_word : Text → List MaskMapper → Option ℕ
unfolding text_eq
find_word word [] = none
find_word word (m ∷ table) =
    let rest = find_word word table in
    if text_eq word m.name_upper then some 0 else elim rest [ none ↦ none | some i ↦ some (suc i) ]

module _ (to_upper : Text → Text) (table : List MaskMapper) where
  -- Whether a value of the configuration toggles on, and its word.
  unfoldable pub read_word : Text → Bool × Text
  read_word value =
      let c = get_or value 0 0 in
      if c == b'-'
      then (false, drop 1 (to_upper value))
      else if c == b'+'
      then (true, drop 1 (to_upper value))
      else (true, to_upper value)

  -- A word that is not known changes nothing.
  unfoldable pub apply_word : Bool × Text → Mask → Mask
  unfolding text_eq nothing everything toggle
  apply_word (on, word) mask =
      if text_eq word (codes "NOTHING") || text_eq word (codes "NONE")
      then mask
      else if text_eq word (codes "EVERYTHING") || text_eq word (codes "ALL")
      then (if on then everything else nothing)
      else elim (find_word word table) [ none ↦ mask | some bit ↦ toggle on bit mask ]

  unfoldable pub apply_words : List Text → Mask → Mask
  unfolding read_word apply_word
  apply_words [] mask = mask
  apply_words (value ∷ values) mask = apply_words values (apply_word (read_word value) mask)

  unfoldable pub var_handle_log_mask : List Text → Mask
  unfolding apply_words everything nothing
  var_handle_log_mask [] = everything
  var_handle_log_mask (value ∷ values) = apply_words (value ∷ values) nothing

-- Whether the line is passed to logLine.
unfoldable pub log : Mask → ℕ → Bool
log mask bit = mask bit
