-- ===== src/Logger/File.antt =====
-- The logger to a file: home/kineircd/src/mod_filelog/filelog.cpp. The time is broken up by the C
-- library; `none` is a read behind the end of the table of masks.
use kineircd.Prelude.{
  ℕ, ◌+◌, ◌-◌, ◌/◌, ◌%◌, Bool, List, [], ◌∷◌, ◌++◌, Option, none, some, if◌then◌else◌, ltb, ◌==◌,
}
use kineircd.Prelude.Text.{Text, codes}
use kineircd.Prelude.Decimal.{decimal, field}
use kineircd.Logger.{MaskMapper, get_mask_mapper}

-- struct tm, with the seconds of the epoch.
pub record Moment : Type 0 where
  pub second : ℕ
  pub minute : ℕ
  pub hour : ℕ
  pub month_day : ℕ
  pub month : ℕ
  pub year : ℕ
  pub week_day : ℕ
  pub year_day : ℕ
  pub epoch : ℕ

-- The hour of the 12-hour clock.
unfoldable pub short_hour : ℕ → ℕ
short_hour hour = if ltb hour 12 then hour + 1 else hour - 12

unfoldable pub noon : ℕ → Text → Text → Text
noon hour am pm = if ltb hour 12 then am else pm

unfoldable pub two : ℕ → Text
unfolding field
two n = field b'0' 2 n

-- The conversions without a mask; one that is not known gives nothing.
module _ (t : Moment) where
  unfoldable pub convert_hour : ℕ → Text
  unfolding short_hour noon two field
  convert_hour c =
      if c == b'H'
      then two t.hour
      else if c == b'I'
      then two (short_hour t.hour)
      else if c == b'k'
      then field b' ' 2 t.hour
      else if c == b'l'
      then field b' ' 2 (short_hour t.hour)
      else if c == b'p'
      then noon t.hour (codes "AM") (codes "PM")
      else if c == b'P'
      then noon t.hour (codes "am") (codes "pm")
      else if c == b'r'
      then two (short_hour t.hour)
        ++ (b':'
            ∷ (two t.minute
                ++ (b':' ∷ (two t.second ++ (b' ' ∷ noon t.hour (codes "AM") (codes "PM"))))))
      else if c == b'R'
      then two t.hour ++ (b':' ∷ two t.minute)
      else if c == b'T'
      then two t.hour ++ (b':' ∷ (two t.minute ++ (b':' ∷ two t.second)))
      else []

  unfoldable pub convert_time : ℕ → Text
  unfolding convert_hour decimal
  convert_time c =
      if c == b'C'
      then decimal ((t.year + 1900) / 100)
      else if c == b'd'
      then two t.month_day
      else if c == b'e'
      then field b' ' 2 t.month_day
      else if c == b'j'
      then field b'0' 3 t.year_day
      else if c == b'm'
      then two (t.month + 1)
      else if c == b'M'
      then two t.minute
      else if c == b'n'
      then 0x0a ∷ []
      else if c == b's'
      then decimal t.epoch
      else if c == b'S'
      then two t.second
      else if c == b't'
      then 0x09 ∷ []
      else if c == b'u'
      then decimal (t.week_day + 1)
      else if c == b'w'
      then decimal t.week_day
      else if c == b'y'
      then two (t.year % 100)
      else if c == b'Y'
      then decimal (t.year + 1900)
      else convert_hour c

-- A text in front of what is written behind it.
abbrev pub in_front : Option Text → Option Text → Option Text
in_front none rest = none
in_front (some text) none = none
in_front (some text) (some rest) = some (text ++ rest)

-- A line and its mask, by its place in the table.
module _ (table : List MaskMapper) (mask : ℕ) (str : Text) (t : Moment) where
  unfoldable pub mapped : (MaskMapper → Text) → Option Text
  unfolding get_mask_mapper
  mapped text = elim (get_mask_mapper (λ place m. place == mask) table) [
    | none ↦ none
    | some m ↦ some (text m)
  ]

  -- The character behind a percent sign.
  unfoldable pub convert : ℕ → Option Text
  unfolding mapped convert_time
  convert c =
      if c == b'!'
      then mapped (λ m. m.character ∷ [])
      else if c == b'#'
      then mapped (λ m. m.name)
      else if c == b'@'
      then mapped (λ m. m.name_upper)
      else if c == b'$'
      then some str
      else if c == b'%'
      then some (b'%' ∷ [])
      else some (convert_time t c)

  -- The loop over the format: a percent sign at its end stops it.
  unfoldable pub write_format : Text → Option Text
  unfolding convert
  write_format [] = some []
  write_format (c ∷ []) = if c == b'%' then some [] else some (c ∷ [])
  write_format (c ∷ d ∷ format) =
      let converted = in_front (convert d) (write_format format) in
      let copied = in_front (some (c ∷ [])) (write_format (d ∷ format)) in
      if c == b'%' then converted else copied

  -- What the file gets, if it is open.
  unfoldable pub log_line : Bool → Text → Option Text
  unfolding write_format
  log_line ok format = if ok then write_format format else some []
