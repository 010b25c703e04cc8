-- ===== src/Prelude/Decimal.antt =====
-- Numbers as an output stream prints them: in decimal, and in a field with a fill character.
use Prim.Native.Nat.{ℕ, zero, suc, ◌+◌, ◌-◌, ◌*◌, ◌/◌, ◌%◌, ◌<◌}
use mathlib.Core.Path.{◌≡◌, refl, ◌∙◌}
use mathlib.Core.Logic.{inl, inr}
use mathlib.Core.List.{[], ◌∷◌, ◌++◌}
use native.Mathlib.Omega.{arith}
use kineircd.Prelude.Tests.{ltb, if◌then◌else◌, Bool-cases}
use kineircd.Prelude.Lists.{length}
use kineircd.Prelude.Text.{Text}

-- The digits of a number on fuel; the number itself is enough, since it is more than its tenth.
unfoldable pub decimal_from : ℕ → ℕ → Text
decimal_from zero n = (0x30 + n % 10) ∷ []
decimal_from (suc fuel) n =
    let front = decimal_from fuel (n / 10) in
    if ltb n 10 then (0x30 + n) ∷ [] else front ++ (0x30 + n % 10) ∷ []

unfoldable pub decimal : ℕ → Text
unfolding decimal_from
decimal n = decimal_from n n

-- The number that digits write, behind the number before them.
abbrev pub value : ℕ → Text → ℕ
value n [] = n
value n (c ∷ s) = value (n * 10 + (c - 0x30)) s

value-snoc : (s : Text) (n c : ℕ) → value n (s ++ c ∷ []) ≡ value n s * 10 + (c - 0x30)
value-snoc [] n c = refl
value-snoc (d ∷ s) n c = value-snoc s (n * 10 + (d - 0x30)) c

value-decimal_from : (fuel n : ℕ) → n < fuel * 10 + 10 → value 0 (decimal_from fuel n) ≡ n
unfolding decimal_from
value-decimal_from zero n h = omega arith
value-decimal_from (suc fuel) n h = elim (Bool-cases (ltb n 10)) [
  | inl e ↦ rw e (omega arith)
  | inr e ↦ rw e (
      value-snoc (decimal_from fuel (n / 10)) 0 (0x30 + n % 10)
      ∙ omega (arith, value-decimal_from fuel (n / 10) (omega arith)))
]

-- The digits are read back.
pub value-decimal : (n : ℕ) → value 0 (decimal n) ≡ n
unfolding decimal
value-decimal n = value-decimal_from n n (omega arith)

unfoldable pub fill : ℕ → ℕ → Text
fill c zero = []
fill c (suc n) = c ∷ fill c n

-- setfill and setw.
unfoldable pub field : ℕ → ℕ → ℕ → Text
unfolding decimal fill
field c width n = fill c (width - length (decimal n)) ++ decimal n
