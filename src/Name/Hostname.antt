-- ===== src/Name/Hostname.antt =====
-- Server names: Server::Name::checkValidity, home/kineircd/src/lib/server.cpp. The counts stay
-- within the length of the name, which is at most 255, so the source's `unsigned int` is exact.
use kineircd.Prelude.{
  ℕ, zero, suc, ◌+◌, ◌≤◌, ◌<◌, ◌≡◌, ◌≢◌, ◌⊎◌, inl, inr, ◌↔◌, List, [], ◌∷◌, arith, length, Bool,
  true, ◌||◌, if◌then◌else◌, ltb, ◌==◌, Bool-cases, ==_iff, subst,
}
use native.Mathlib.Numerals.{add-one}
use kineircd.Prelude.Text.{Text, is_alpha, is_alnum}
use kineircd.Error.{
  Error, no_error, name_too_long, name_has_bad_chars, server_name_has_dot_dot,
  server_name_has_no_dot,
}

-- The test of a character that is no dot: only a letter may begin a label.
label_char : ℕ → ℕ → Bool
unfolding is_alpha is_alnum
label_char position c = if position == 1 then is_alpha c else is_alnum c || c == b'-'

-- The loop: the previous character, the dots so far, the length of the label so far, and the rest
-- of the name.
check_from : ℕ → ℕ → ℕ → Text → Error
unfolding label_char
check_from prev dots label [] = if dots == 0 then server_name_has_no_dot else no_error
check_from prev dots label (c ∷ cs) =
    let next_label = check_from c (dots + 1) 0 cs in
    let same_label = check_from c dots (label + 1) cs in
    if c == b'.'
    then if label == 0
      then server_name_has_dot_dot
      else if prev == b'-'
      then name_has_bad_chars
      else next_label
    else if ltb 63 (label + 1)
    then name_too_long
    else if label_char (label + 1) c
    then same_label
    else name_has_bad_chars

unfoldable pub check_validity : Text → Error
unfolding check_from
check_validity name = if ltb 255 (length name) then name_too_long else check_from 0 0 0 name

-- The specification: the name is cut at its dots, into the first label and the others.
pub labels : Text → Text × List Text
labels [] = ([], [])
labels (c ∷ cs) = let (l, ls) = labels cs in if c == b'.' then ([], l ∷ ls) else (c ∷ l, ls)

-- What may stand in a label behind `n` characters of it.
abbrev pub IsLabelChar : ℕ → ℕ → Type 0
IsLabelChar zero c = ((0x41 ≤ c) × (c ≤ 0x5a)) ⊎ ((0x61 ≤ c) × (c ≤ 0x7a))
IsLabelChar (suc n) c =
    ((0x30 ≤ c) × (c ≤ 0x39)) ⊎ ((0x41 ≤ c) × (c ≤ 0x5a)) ⊎ ((0x61 ≤ c) × (c ≤ 0x7a)) ⊎ (c ≡ b'-')

abbrev pub IsLabelFrom : ℕ → Text → Type 0
IsLabelFrom n [] = Unit {0}
IsLabelFrom n (c ∷ cs) = IsLabelChar n c × IsLabelFrom (suc n) cs

abbrev pub last_or : ℕ → Text → ℕ
last_or d [] = d
last_or d (c ∷ cs) = last_or c cs

-- The labels of a name, behind `n` characters of the first, the last of which is `prev`. A label
-- has at most 63 characters; one with a dot behind it is not empty and does not end with '-'.
abbrev pub AreLabelsFrom : ℕ → ℕ → Text → List Text → Type 0
AreLabelsFrom prev n l [] = IsLabelFrom n l × (n + length l ≤ 63)
AreLabelsFrom prev n l (m ∷ ms) =
    IsLabelFrom n l
    × (n + length l ≤ 63)
    × (0 < n + length l)
    × (last_or prev l ≢ b'-')
    × AreLabelsFrom b'.' 0 m ms

label_char_iff : (n c : ℕ) → (label_char (n + 1) c ≡ true) ↔ IsLabelChar n c
unfolding label_char
label_char_iff zero c = (λ e. ground arith, λ h. ground arith)
label_char_iff (suc n) c = (λ e. ground arith, λ h. ground arith)

AreLabelsFrom-cons :
    (prev n c : ℕ) (l : Text) (ls : List Text)
    → AreLabelsFrom prev n (c ∷ l) ls
      ↔ (IsLabelChar n c × (suc n ≤ 63) × AreLabelsFrom c (suc n) l ls)
AreLabelsFrom-cons prev n c l [] =
    (λ h. (h.0.0, omega arith, (h.0.1, omega arith)), λ h. ((h.0, h.2.0), omega arith))
AreLabelsFrom-cons prev n c l (m ∷ ms) = (
  λ h. (h.0.0, omega arith, (h.0.1, omega arith, omega arith, h.3, h.4)),
  λ h. ((h.0, h.2.0), omega arith, omega arith, h.2.3, h.2.4),
)

-- The two branches of the loop, over the answer `r` for the rest of the name.
at_dot :
    (prev dots n : ℕ) (l : Text) (ls : List Text) (r : Error)
    → n ≤ 63
    → ((r ≡ no_error) ↔ (AreLabelsFrom b'.' 0 l ls × (0 < dots + 1 + length ls)))
    → ((if n == 0 then server_name_has_dot_dot else if prev == b'-' then name_has_bad_chars else r)
        ≡ no_error)
      ↔ (AreLabelsFrom prev n [] (l ∷ ls) × (0 < dots + length (l ∷ ls)))
at_dot prev dots n l ls r small ih = (
  λ e. ((tt, omega arith, ground arith, ground arith, (ih.0 (ground arith)).0), omega arith),
  λ h. ground (arith, ih.1 (h.0.4, omega arith)),
)

at_char :
    (prev dots n c : ℕ) (l : Text) (ls : List Text) (r : Error)
    → n ≤ 63
    → (suc n ≤ 63 → (r ≡ no_error) ↔ (AreLabelsFrom c (suc n) l ls × (0 < dots + length ls)))
    → ((if ltb 63 (n + 1)
          then name_too_long
          else if label_char (n + 1) c
          then r
          else name_has_bad_chars)
        ≡ no_error)
      ↔ (AreLabelsFrom prev n (c ∷ l) ls × (0 < dots + length ls))
at_char prev dots n c l ls r small ih = (
  λ e.
      let fits : suc n ≤ 63 = ground arith in
      let rest = (ih fits).0 (ground arith) in
      (
        (AreLabelsFrom-cons prev n c l ls).1 ((label_char_iff n c).0 (ground arith), fits, rest.0),
        rest.1,
      ),
  λ h.
      let parts = (AreLabelsFrom-cons prev n c l ls).0 h.0 in
      ground (arith, (label_char_iff n c).1 parts.0, (ih parts.1).1 (parts.2, h.1), parts.1),
)

check_from_iff :
    (prev dots n : ℕ) (s : Text)
    → n ≤ 63
    → (check_from prev dots n s ≡ no_error)
      ↔ (AreLabelsFrom prev n (labels s).0 (labels s).1 × (0 < dots + length (labels s).1))
unfolding check_from labels
check_from_iff prev dots n [] h = (λ e. ((tt, omega arith), ground arith), λ k. ground arith)
check_from_iff prev dots n (c ∷ cs) h = elim (Bool-cases (c == b'.')) [
  | inl e ↦ rw e (
      at_dot prev dots n _ _ _ h (
        subst
          (λ k. (check_from c (dots + 1) 0 cs ≡ no_error) ↔ (
            AreLabelsFrom k 0 (labels cs).0 (labels cs).1 × (0 < dots + 1 + length (labels cs).1)))
          ((==_iff c b'.').0 e) (check_from_iff c (dots + 1) 0 cs (omega arith))))
  | inr e ↦ rw e (
      at_char prev dots n c _ _ _ h (λ fits.
        subst
          (λ k.
            (check_from c dots (n + 1) cs ≡ no_error)
            ↔ (AreLabelsFrom c k (labels cs).0 (labels cs).1 × (0 < dots + length (labels cs).1)))
          (add-one n) (check_from_iff c dots (n + 1) cs (omega arith))))
]

-- A server name is valid exactly when it has at most 255 characters, at least one dot, and labels
-- that begin with a letter, go on with letters, digits and '-', and have at most 63 characters;
-- every label that has a dot behind it is not empty and does not end with '-'. The last label may
-- be empty, and may end with '-'.
pub hostname_iff :
    (name : Text)
    → (check_validity name ≡ no_error) ↔ (
        (length name ≤ 255)
        × (0 < length (labels name).1)
        × AreLabelsFrom 0 0 (labels name).0 (labels name).1)
unfolding check_validity
hostname_iff name = (
  λ e.
      let h = (check_from_iff 0 0 0 name (omega arith)).0 (ground arith) in
      (ground arith, omega arith, h.0),
  λ h. ground (arith, (check_from_iff 0 0 0 name (omega arith)).1 (h.2, omega arith)),
)
