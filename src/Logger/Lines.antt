-- ===== src/Logger/Lines.antt =====
-- The lines that the logger to a file writes.
use kineircd.Prelude.{
  ℕ, ◌+◌, ◌%◌, ◌≡◌, ◌≢◌, ◌≤◌, ◌<◌, ◌↔◌, refl, ap, ap₂, ◌∙◌, Bool, true, false, ◌||◌, List, [], ◌∷◌,
  ◌++◌, none, some, if◌then◌else◌, ◌==◌, All, arith,
}
use kineircd.Prelude.Text.{Text}
use kineircd.Logger.{MaskMapper}
use kineircd.Logger.Decided.{get_mask_mapper_fault}
use kineircd.Logger.File.{
  Moment, short_hour, convert, convert_time, mapped, write_format, log_line, in_front,
}

-- The hour on the clock, from 1 to 12.
pub clock_hour : ℕ → ℕ
clock_hour hour = (hour + 11) % 12 + 1

-- The 12-hour clock is right from 13 hours on, and only there.
pub short_hour_iff : (hour : ℕ) → hour < 24 → (short_hour hour ≡ clock_hour hour) ↔ (13 ≤ hour)
unfolding short_hour clock_hour
short_hour_iff hour h = (λ e. ground arith, λ e. ground arith)

-- A format in pieces: a character, or a percent sign with a character.
pub data Piece : Type 0 where
  letter conversion : ℕ → Piece

unfoldable pub IsPlain : Piece → Type 0
IsPlain (letter c) = c ≢ b'%'
IsPlain (conversion c) = Unit

pub encode : List Piece → Text
encode [] = []
encode (letter c ∷ ps) = c ∷ encode ps
encode (conversion c ∷ ps) = b'%' ∷ c ∷ encode ps

-- The conversions that name the mask.
pub names_mask : List Piece → Bool
names_mask [] = false
names_mask (letter c ∷ ps) = names_mask ps
names_mask (conversion c ∷ ps) = (c == b'!' || c == b'#' || c == b'@') || names_mask ps

in_front_if :
    (a b : Bool) (x y : Text)
    → in_front (if a then none else some x) (if b then none else some y)
      ≡ (if a || b then none else some (x ++ y))
in_front_if true b x y = refl
in_front_if false true x y = refl
in_front_if false false x y = refl

module _ (table : List MaskMapper) (mask : ℕ) (str : Text) (t : Moment) where
  pub shown : List Piece → Text
  shown [] = []
  shown (letter c ∷ ps) = c ∷ shown ps
  shown (conversion c ∷ ps) =
      (if c == b'$' then str else if c == b'%' then b'%' ∷ [] else convert_time t c) ++ shown ps

  mapped_fault : (text : MaskMapper → Text) → mapped table mask str t text ≡ none
  unfolding mapped
  mapped_fault text = rw (get_mask_mapper_fault (λ place m. place == mask) table, mapped) refl

  convert_shown :
      (c : ℕ)
      → convert table mask str t c ≡ (
          if c == b'!' || c == b'#' || c == b'@'
          then none
          else some (if c == b'$' then str else if c == b'%' then b'%' ∷ [] else convert_time t c))
  unfolding convert
  convert_shown c = ground (
    arith,
    mapped_fault (λ m. m.character ∷ []),
    mapped_fault (λ m. m.name),
    mapped_fault (λ m. m.name_upper),
  )

  write_conversion :
      (c : ℕ) (format : Text)
      → write_format table mask str t (b'%' ∷ c ∷ format)
        ≡ in_front (convert table mask str t c) (write_format table mask str t format)
  unfolding write_format
  write_conversion c format = refl

  write_letter :
      (c : ℕ) (format : Text)
      → (c == b'%') ≡ false
      → write_format table mask str t (c ∷ format)
        ≡ in_front (some (c ∷ [])) (write_format table mask str t format)
  unfolding write_format
  write_letter c [] h = rw h
  write_letter c (d ∷ format) h = rw h refl

  -- Where a format names the mask, by its character or its names, the line reads behind the table
  -- of masks. Else an open file gets the characters as they are and each conversion's text, in order.
  pub log_line-encode :
      (ps : List Piece)
      → All IsPlain ps
      → log_line table mask str t true (encode ps)
        ≡ (if names_mask ps then none else some (shown ps))
  unfolding log_line encode names_mask shown IsPlain
  log_line-encode [] h = unfold write_format in refl
  log_line-encode (letter c ∷ ps) (p, h) =
      write_letter c (encode ps) (ground (arith, p))
      ∙ ap (in_front (some (c ∷ []))) (log_line-encode ps h)
      ∙ in_front_if false (names_mask ps) (c ∷ []) (shown ps)
  log_line-encode (conversion c ∷ ps) (p, h) =
      write_conversion c (encode ps)
      ∙ ap₂ in_front (convert_shown c) (log_line-encode ps h)
      ∙ in_front_if (c == b'!' || c == b'#' || c == b'@') (names_mask ps) _ (shown ps)
