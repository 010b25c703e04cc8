-- ===== src/Prelude/Text.antt =====
-- Text as the source's std::string and std::wstring: a list of code units. The operations of the
-- C++ standard library that the source uses, and the "C" locale's character classes.
use Prim.Native.Char.{code}
use Prim.Native.String.{String}
use Prim.Native.Nat.{ℕ, zero, suc, ◌+◌}
use mathlib.Core.Path.{◌≡◌, refl}
use mathlib.Core.Logic.{◌↔◌}
use mathlib.Core.Bool.{Bool, true, false, ◌&&◌, ◌||◌}
use mathlib.Core.Option.{Option, none, some}
use mathlib.Core.List.{List, [], ◌∷◌}
use native.Mathlib.Omega.{arith}
use kineircd.Prelude.Tests.{leb, ◌==◌, if◌then◌else◌}

abbrev pub Text : Type 0
Text = List ℕ

-- The code units of a literal.
abbrev pub codes : String → Text
codes String.[] = []
codes (String.◌∷◌ c s) = code c ∷ codes s

-- operator==
unfoldable pub text_eq : Text → Text → Bool
text_eq [] [] = true
text_eq [] (b ∷ bs) = false
text_eq (a ∷ as') [] = false
text_eq (a ∷ as') (b ∷ bs) = (a == b) && text_eq as' bs

pub text_eq_iff : (s t : Text) → (text_eq s t ≡ true) ↔ (s ≡ t)
unfolding text_eq
text_eq_iff [] [] = (λ _. refl, λ _. refl)
text_eq_iff [] (b ∷ bs) = (λ e. cc, λ e. cc)
text_eq_iff (a ∷ s) [] = (λ e. cc, λ e. cc)
text_eq_iff (a ∷ s) (b ∷ t) =
    (λ e. ground (arith, text_eq_iff s t), λ e. ground (arith, text_eq_iff s t))

pub text_eq_refl : (s : Text) → text_eq s s ≡ true
text_eq_refl s = (text_eq_iff s s).1 refl

-- Membership in a set of code units.
unfoldable pub one_of : Text → ℕ → Bool
one_of [] c = false
one_of (k ∷ ks) c = (c == k) || one_of ks c

-- A C string literal ends at its first NUL.
unfoldable pub c_string : Text → Text
c_string [] = []
c_string (c ∷ cs) = if c == 0 then [] else c ∷ c_string cs

-- The test `strncmp(s, t, n) == 0` on C strings.
unfoldable pub strncmp_eq : ℕ → Text → Text → Bool
strncmp_eq zero s t = true
strncmp_eq (suc n) [] [] = true
strncmp_eq (suc n) [] (d ∷ t) = d == 0
strncmp_eq (suc n) (c ∷ s) [] = c == 0
strncmp_eq (suc n) (c ∷ s) (d ∷ t) = let rest = strncmp_eq n s t in (c == d) && ((c == 0) || rest)

-- Whether find_first_of(set) finds a place, and the text before that place (all of it for npos).
unfoldable pub find_first_of : Text → Text → Option ℕ
unfolding one_of
find_first_of set [] = none
find_first_of set (c ∷ cs) =
    let rest = find_first_of set cs in
    if one_of set c then some 0 else elim rest [ none ↦ none | some n ↦ some (suc n) ]

pub find_first_of_nil : (s : Text) → find_first_of [] s ≡ none
unfolding find_first_of
find_first_of_nil [] = refl
find_first_of_nil (c ∷ s) = rw (find_first_of_nil s)

-- isdigit, isalpha, isalnum, tolower and toupper in the "C" locale. A code unit outside ASCII is
-- in no class and is its own image.
unfoldable pub is_digit : ℕ → Bool
is_digit c = leb 0x30 c && leb c 0x39

unfoldable pub is_upper : ℕ → Bool
is_upper c = leb 0x41 c && leb c 0x5a

unfoldable pub is_lower : ℕ → Bool
is_lower c = leb 0x61 c && leb c 0x7a

unfoldable pub is_alpha : ℕ → Bool
unfolding is_upper is_lower
is_alpha c = is_upper c || is_lower c

unfoldable pub is_alnum : ℕ → Bool
unfolding is_alpha is_digit
is_alnum c = is_alpha c || is_digit c

unfoldable pub to_lower : ℕ → ℕ
unfolding is_upper
to_lower c = if is_upper c then c + 32 else c
