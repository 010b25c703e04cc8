-- ===== src/Language/Escapes.antt =====
-- The data of a line of a language file: the substitution of its escapes, and the characters that
-- are replaced after the conversion. Languages::loadFile,
-- home/kineircd/src/lib/language/interface.cpp, with the map of lib/language/subst.cpp.tpl.
pub mod Reading
pub mod Glyphs
use kineircd.Prelude.{
  is_empty, ℕ, zero, suc, ◌+◌, ◌-◌, ◌*◌, Bool, true, false, ◌&&◌, ◌||◌, List, [], ◌∷◌, Option, none,
  some, if◌then◌else◌, ltb, leb, ◌==◌, get_or, drop, length,
}
use kineircd.Prelude.Text.{Text, is_digit}

-- The substitution of an escaped character; `more` are the characters of the definitions file.
abbrev pub lookup_char : List (ℕ × ℕ) → ℕ → Option ℕ
lookup_char [] c = none
lookup_char ((a, b) ∷ rest) c = let found = lookup_char rest c in if a == c then some b else found

abbrev pub substitution_map : List (ℕ × ℕ) → List (ℕ × ℕ)
substitution_map more = (b'n', 0x85) ∷ (b's', 0x20) ∷ (b't', 0x09) ∷ (b'\\', b'\\') ∷ more

-- strtol with base 8 of three decimal digits: it stops at a digit that is not octal.
unfoldable pub octal : ℕ → ℕ → ℕ → ℕ
octal a b c =
    let x = a - 0x30 in
    let y = b - 0x30 in
    let z = c - 0x30 in
    if ltb 7 x then 0 else if ltb 7 y then x else if ltb 7 z then x * 8 + y else (x * 8 + y) * 8 + z

-- The char for the value; one that is no char, or NUL, is NUL.
unfoldable pub char_of : ℕ → ℕ
char_of value = if ltb 0 value && ltb value 256 then value else 0

-- Whether three digits are next.
unfoldable pub three_digits : Text → Bool
unfolding is_digit
three_digits s =
    ltb 2 (length s)
    && is_digit (get_or s 0 0)
    && is_digit (get_or s 1 0)
    && is_digit (get_or s 2 0)

abbrev pub append_found : Option ℕ → Text → Text
append_found none s = s
append_found (some c) s = c ∷ s

module _ (more : List (ℕ × ℕ)) where
  -- The loop over the data; the fuel bounds its steps.
  unfoldable pub substitute_from : ℕ → Text → Text
  unfolding three_digits octal char_of
  substitute_from zero s = []
  substitute_from (suc fuel) [] = []
  substitute_from (suc fuel) (c ∷ s) =
      let percent = substitute_from fuel (drop 1 s) in
      let digits = substitute_from fuel (drop 3 s) in
      let rest = substitute_from fuel s in
      if c == b'%'
      then if get_or s 0 0 == b'%' then b'%' ∷ percent else 0 ∷ rest
      else if c == b'\\'
      then if three_digits s
        then char_of (octal (get_or s 0 0) (get_or s 1 0) (get_or s 2 0)) ∷ digits
        else append_found (lookup_char (substitution_map more) (get_or s 0 0)) percent
      else c ∷ rest

  -- The length of the data is fuel enough.
  unfoldable pub substitute : Text → Text
  unfolding substitute_from
  substitute s = substitute_from (length s) s

-- The data behind the loop: the last of three digits is overwritten by their character.
unfoldable pub overwritten_from : ℕ → Text → Text
unfolding three_digits octal char_of
overwritten_from zero s = []
overwritten_from (suc fuel) [] = []
overwritten_from (suc fuel) (c ∷ s) =
    let a = get_or s 0 0 in
    let b = get_or s 1 0 in
    let digits = overwritten_from fuel (drop 3 s) in
    let two = overwritten_from fuel (drop 1 s) in
    let rest = overwritten_from fuel s in
    if c == b'%'
    then if a == b'%' then c ∷ a ∷ two else c ∷ rest
    else if c == b'\\'
    then if three_digits s
      then c ∷ a ∷ b ∷ char_of (octal a b (get_or s 2 0)) ∷ digits
      else c ∷ (if is_empty s then [] else a ∷ two)
    else c ∷ rest

unfoldable pub overwritten : Text → Text
unfolding overwritten_from
overwritten s = overwritten_from (length s) s

-- The replacement of one character of the converted data.
unfoldable pub replace_glyph : ℕ → ℕ
replace_glyph c =
    if (c == 0x01) || (c == 0x08) || (leb 0x0a c && leb c 0x0d) || (leb 0x11 c && leb c 0x14)
    then c + 0x2400
    else if c == 0x7f
    then 0x2421
    else if (c == 0x85) || (c == 0x8d) || (leb 0xfffc c && leb c 0xffff)
    then 0xfffd
    else c

unfoldable pub replace_glyphs : Text → Text
unfolding replace_glyph
replace_glyphs [] = []
replace_glyphs (c ∷ s) = replace_glyph c ∷ replace_glyphs s

-- The text of a line's data: its escapes, the conversion to the internal character set, and the
-- replacement; `none` where the conversion fails.
unfoldable pub read_data : List (ℕ × ℕ) → (Text → Option Text) → Text → Option Text
unfolding substitute replace_glyphs
read_data more convert line_data = elim (convert (substitute more line_data)) [
  | none ↦ none
  | some text ↦ some (replace_glyphs text)
]
