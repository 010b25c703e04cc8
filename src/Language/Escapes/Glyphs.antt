-- ===== src/Language/Escapes/Glyphs.antt =====
-- The characters that are left after the replacement.
use kineircd.Prelude.{ℕ, ◌≡◌, refl, Bool, false, ◌||◌, ◌&&◌, [], ◌∷◌, All, arith, leb, ◌==◌, ap₂}
use kineircd.Prelude.Text.{Text}
use kineircd.Language.Escapes.{replace_glyph, replace_glyphs}

-- A character that the loop is to remove.
unfoldable pub is_naughty : ℕ → Bool
is_naughty c =
    (c == 0x01)
    || (c == 0x08)
    || (leb 0x0a c && leb c 0x0d)
    || (leb 0x11 c && leb c 0x14)
    || (c == 0x7f)
    || (c == 0x85)
    || (c == 0x8d)
    || (c == 0xfffc)
    || (leb 0xfffe c && leb c 0xffff)

replace_glyph-clean : (c : ℕ) → is_naughty (replace_glyph c) ≡ false
unfolding is_naughty replace_glyph
replace_glyph-clean c = ground arith

replace_glyph-same : (c : ℕ) → is_naughty c ≡ false → replace_glyph c ≡ c
unfolding is_naughty replace_glyph
replace_glyph-same c h = ground arith

-- After the replacement no character is left that the loop is to remove; one that is none of them
-- is as before; and to replace once more changes nothing.
pub replace_glyphs-clean :
    (s : Text)
    → All (λ c. is_naughty c ≡ false) (replace_glyphs s)
      × (All (λ c. is_naughty c ≡ false) s → replace_glyphs s ≡ s)
      × (replace_glyphs (replace_glyphs s) ≡ replace_glyphs s)
unfolding replace_glyphs
replace_glyphs-clean [] = (tt, λ h. refl, refl)
replace_glyphs-clean (c ∷ s) =
    let (clean, same, twice) = replace_glyphs-clean s in
    (
      (replace_glyph-clean c, clean),
      λ h. ap₂ (λ x y. x ∷ y) (replace_glyph-same c h.0) (same h.1),
      ap₂ (λ x y. x ∷ y) (replace_glyph-same (replace_glyph c) (replace_glyph-clean c)) twice,
    )
