-- ===== src/Irc2User/Services/Limit.antt =====
-- The limit on the targets of SQUERY.
use kineircd.Prelude.{
  ap, ◌∙◌, ℕ, zero, suc, ◌+◌, ◌%◌, ◌^◌, ◌≡◌, ◌<◌, refl, true, false, List, [], ◌∷◌, ◌++◌, some,
  arith, All, Bool-cases, inl, inr, if◌then◌else◌,
}
use kineircd.Prelude.Text.{Text}
use kineircd.Irc2.Tokens.{Tokens, AreTokens}
use kineircd.Irc2.Tokens.Listed.{IsTarget, targets_text, listed-words}
use kineircd.Irc2User.Services.{Event, too_many_targets, Surroundings, ask, visit, handle_squery}

module _ (env : Surroundings) (text : Text) where
  -- The specification: with `n` targets allowed, they are asked in order; the list is cut where it
  -- is longer, with one complaint.
  abbrev pub asked : ℕ → List Text → List Event
  asked n [] = []
  asked zero (w ∷ ws) = too_many_targets ∷ []
  asked (suc n) (w ∷ ws) = ask env text w ++ asked n ws

  -- What an operator gets.
  abbrev pub all_asked : List Text → List Event
  all_asked [] = []
  all_asked (w ∷ ws) = ask env text w ++ all_asked ws

  visit-asked :
      (ws : List Text) (n : ℕ)
      → env.is_operator ≡ false
      → suc n < 2 ^ 32
      → visit env text ws (suc n) ≡ asked n ws
  unfolding visit
  visit-asked [] n o k = refl
  visit-asked (w ∷ ws) zero o k = rw (visit, o)
  visit-asked (w ∷ ws) (suc n) o k =
      let left : (suc (suc n) + 0xffff_ffff) % 2 ^ 32 ≡ suc n = omega arith in
      rw (visit, left, visit-asked ws n o (omega arith)) (ground arith)

  visit-operator :
      (ws : List Text) (n : ℕ) → env.is_operator ≡ true → visit env text ws n ≡ all_asked ws
  unfolding visit
  visit-operator [] n o = refl
  visit-operator (w ∷ ws) n o =
      rw (visit, o, visit-operator ws ((n + 0xffff_ffff) % 2 ^ 32) o) (ground arith)

  visit-limit :
      (ws : List Text) (n : ℕ)
      → suc n < 2 ^ 32
      → visit env text ws (suc n) ≡ (if env.is_operator then all_asked ws else asked n ws)
  visit-limit ws n k = elim (Bool-cases env.is_operator) [
    | inl o ↦ visit-operator ws (suc n) o ∙ simp o
    | inr o ↦ visit-asked ws n o k ∙ simp o
  ]

-- With a tokenizer that is as Irc2/Tokens asks, and a limit of n + 1 in the range of its type: a
-- query to targets without commas, and without a space in front. An operator's goes to all of
-- them. Anybody else's goes to the first n, in order, and the rest get one complaint.
pub handle_squery-asked :
    (t : Tokens)
    → AreTokens t
    → (env : Surroundings) (text : Text) (n : ℕ) (ws ps : List Text) → env.max_targets ≡ suc n
    → suc n < 2 ^ 32
    → All IsTarget ws
    → handle_squery t env (targets_text ws ∷ text ∷ ps)
      ≡ some (if env.is_operator then all_asked env text ws else asked env text n ws)
unfolding handle_squery
handle_squery-asked t l env text n ws ps e k a =
    rw (handle_squery, listed-words t l ws a)
      (ap some (ap (visit env text ws) e ∙ visit-limit env text ws n k))
