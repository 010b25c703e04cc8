-- ===== src/Language/Wide.antt =====
-- Languages::toWideStr, home/kineircd/include/kineircd/languages.h: a byte becomes a character as a
-- signed char does, which it is on the usual machines; a wchar_t has 32 bits.
use kineircd.Prelude.{
  ℕ, ◌+◌, ◌-◌, ◌^◌, ◌<◌, ◌≡◌, ◌↔◌, refl, ap₂, [], ◌∷◌, All, arith, if◌then◌else◌, ltb,
}
use kineircd.Prelude.Text.{Text}

unfoldable pub to_wide_char : ℕ → ℕ
to_wide_char c = if ltb c 128 then c else 2 ^ 32 - 256 + c

unfoldable pub to_wide_str : Text → Text
unfolding to_wide_char
to_wide_str [] = []
to_wide_str (c ∷ s) = to_wide_char c ∷ to_wide_str s

to_wide_char_iff : (c : ℕ) → (to_wide_char c ≡ c) ↔ (c < 128)
unfolding to_wide_char
to_wide_char_iff c = (λ e. ground arith, λ h. ground arith)

-- Exactly a text in ASCII has the same characters when it is wide.
pub to_wide_str_iff : (s : Text) → (to_wide_str s ≡ s) ↔ All (λ c. c < 128) s
unfolding to_wide_str
to_wide_str_iff [] = (λ e. tt, λ h. refl)
to_wide_str_iff (c ∷ s) = (
  λ e. ((to_wide_char_iff c).0 cc, (to_wide_str_iff s).0 cc),
  λ h. ap₂ ◌∷◌ ((to_wide_char_iff c).1 h.0) ((to_wide_str_iff s).1 h.1),
)
