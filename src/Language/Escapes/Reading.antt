-- ===== src/Language/Escapes/Reading.antt =====
-- What can be written in a language file.
use kineircd.Prelude.{
  sym, subst, ==_iff, ℕ, zero, suc, ◌+◌, ◌/◌, ◌%◌, ◌≡◌, ◌≤◌, ◌<◌, refl, ap, ◌∙◌, Bool, true, false,
  Option, some, List, [], ◌∷◌, ◌++◌, All, arith, ◌==◌, ltb, if◌then◌else◌, length, drop, Bool-cases,
  inl, inr,
}
use kineircd.Prelude.Text.{Text, is_digit}
use kineircd.Language.Escapes.Glyphs.{is_naughty, replace_glyphs-clean}
use kineircd.Language.Escapes.{read_data, substitute_from, substitute, octal, char_of, three_digits}

length-drop : (n : ℕ) (s : Text) → length (drop n s) ≤ length s
length-drop zero s = omega arith
length-drop (suc n) [] = omega arith
length-drop (suc n) (c ∷ s) = omega (arith, length-drop n s)

-- A character as an escape: a percent sign doubled, a backslash doubled, and any other as it is.
abbrev pub written : ℕ → Text
written c =
    if c == b'%' then b'%' ∷ b'%' ∷ [] else if c == b'\\' then b'\\' ∷ b'\\' ∷ [] else c ∷ []

-- A character in three octal digits.
abbrev pub in_octal : ℕ → Text
in_octal c = b'\\' ∷ (0x30 + c / 64) ∷ (0x30 + (c / 8) % 8) ∷ (0x30 + c % 8) ∷ []

-- Text as it can be written, with the characters in octal that the test chooses.
abbrev pub write : (ℕ → Bool) → Text → Text
write in_digits [] = []
write in_digits (c ∷ s) = (if in_digits c then in_octal c else written c) ++ write in_digits s

-- A character that three octal digits can be written for, where the test chooses it.
abbrev pub IsChosen : (ℕ → Bool) → ℕ → Type 0
IsChosen in_digits c = in_digits c ≡ true → (0 < c) × (c < 256)

three_digits-backslash : (s : Text) → three_digits (b'\\' ∷ s) ≡ false
unfolding three_digits is_digit
three_digits-backslash s = elim (Bool-cases (ltb 2 (suc (length s)))) [
  | inl e ↦ rw e
  | inr e ↦ rw e
]

three_digits-octal : (c : ℕ) (s : Text) → c < 256 → three_digits (drop 1 (in_octal c) ++ s) ≡ true
unfolding three_digits is_digit
three_digits-octal c s h = ground arith

octal-digits : (c : ℕ) → c < 256 → octal (0x30 + c / 64) (0x30 + (c / 8) % 8) (0x30 + c % 8) ≡ c
unfolding octal
octal-digits c h = ground arith

char_of-char : (c : ℕ) → 0 < c → c < 256 → char_of c ≡ c
unfolding char_of
char_of-char c h k = ground arith

module _ (more : List (ℕ × ℕ)) where
  -- More fuel than the length changes nothing.
  substitute_from-fuel :
      (m n : ℕ) (s : Text)
      → length s ≤ m
      → length s ≤ n
      → substitute_from more m s ≡ substitute_from more n s
  unfolding substitute_from
  substitute_from-fuel zero zero s h k = refl
  substitute_from-fuel zero (suc n) [] h k = refl
  substitute_from-fuel zero (suc n) (c ∷ s) h k = elim h [ ]
  substitute_from-fuel (suc m) zero [] h k = refl
  substitute_from-fuel (suc m) zero (c ∷ s) h k = elim k [ ]
  substitute_from-fuel (suc m) (suc n) [] h k = refl
  substitute_from-fuel (suc m) (suc n) (c ∷ s) h k =
      let a =
        substitute_from-fuel m n (drop 1 s) (omega (arith, length-drop 1 s))
          (omega (arith, length-drop 1 s)) in
      let b =
        substitute_from-fuel m n (drop 3 s) (omega (arith, length-drop 3 s))
          (omega (arith, length-drop 3 s)) in
      let d = substitute_from-fuel m n s (omega arith) (omega arith) in
      rw (substitute_from, a, b, d)

  more_fuel : (n : ℕ) (s : Text) → length s ≤ n → substitute_from more n s ≡ substitute more s
  unfolding substitute
  more_fuel n s h = substitute_from-fuel n (length s) s h (omega arith)

  substitute-plain :
      (c : ℕ) (s : Text)
      → (c == b'%') ≡ false
      → (c == b'\\') ≡ false
      → substitute more (c ∷ s) ≡ c ∷ substitute more s
  unfolding substitute substitute_from
  substitute-plain c s h k = rw (substitute_from, h, k)

  substitute-percent : (s : Text) → substitute more (b'%' ∷ b'%' ∷ s) ≡ b'%' ∷ substitute more s
  unfolding substitute substitute_from
  substitute-percent s = ap (λ r. b'%' ∷ r) (more_fuel (suc (length s)) s (omega arith))

  substitute-backslash :
      (s : Text) → substitute more (b'\\' ∷ b'\\' ∷ s) ≡ b'\\' ∷ substitute more s
  unfolding substitute substitute_from
  substitute-backslash s =
      rw (substitute_from, three_digits-backslash s)
        (ap (λ r. b'\\' ∷ r) (more_fuel (suc (length s)) s (omega arith)))

  substitute-written : (c : ℕ) (s : Text) → substitute more (written c ++ s) ≡ c ∷ substitute more s
  substitute-written c s = elim (Bool-cases (c == b'%')) [
    | inl e ↦
        let is : c ≡ b'%' = (==_iff c b'%').0 e in
        subst (λ x. substitute more (written x ++ s) ≡ x ∷ substitute more s) (sym is)
          (substitute-percent s)
    | inr e ↦ elim (Bool-cases (c == b'\\')) [
      | inl f ↦
          let is : c ≡ b'\\' = (==_iff c b'\\').0 f in
          subst (λ x. substitute more (written x ++ s) ≡ x ∷ substitute more s) (sym is)
            (substitute-backslash s)
      | inr f ↦ rw (e, f) (substitute-plain c s e f)
    ]
  ]

  substitute-octal :
      (c : ℕ) (s : Text)
      → 0 < c
      → c < 256
      → substitute more (in_octal c ++ s) ≡ c ∷ substitute more s
  unfolding substitute substitute_from
  substitute-octal c s h k =
      rw (substitute_from, three_digits-octal c s k, octal-digits c k, char_of-char c h k)
        (ap (λ r. c ∷ r) (more_fuel (suc (suc (suc (length s)))) s (omega arith)))

  -- What is written with the escapes is given back by their substitution.
  pub substitute-write :
      (in_digits : ℕ → Bool) (s : Text)
      → All (IsChosen in_digits) s
      → substitute more (write in_digits s) ≡ s
  unfolding substitute substitute_from
  substitute-write in_digits [] h = refl
  substitute-write in_digits (c ∷ s) h = elim (Bool-cases (in_digits c)) [
    | inl e ↦
        let (low, high) = h.0 e in
        rw e (
          substitute-octal c (write in_digits s) low high
          ∙ ap (λ r. c ∷ r) (substitute-write in_digits s h.1))
    | inr e ↦ rw e (
        substitute-written c (write in_digits s)
        ∙ ap (λ r. c ∷ r) (substitute-write in_digits s h.1))
  ]

-- Every text can be written with the escapes of language files so that read_data, which takes the
-- trimmed data of a line, gives the conversion of the text: a percent sign and a backslash doubled, any
-- character of 1 to 255 in three octal digits where one likes, and all else as it is. The conversion
-- must succeed, without a character that the reading replaces.
pub read_data-write :
    (more : List (ℕ × ℕ)) (convert : Text → Option Text) (in_digits : ℕ → Bool) (s converted : Text)
    → All (IsChosen in_digits) s
    → convert s ≡ some converted
    → All (λ c. is_naughty c ≡ false) converted
    → read_data more convert (write in_digits s) ≡ some converted
unfolding read_data
read_data-write more convert in_digits s converted h e clean =
    rw (read_data, substitute-write more in_digits s h, e)
      (ap some ((replace_glyphs-clean converted).1 clean))
