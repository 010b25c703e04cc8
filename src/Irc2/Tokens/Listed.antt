-- ===== src/Irc2/Tokens/Listed.antt =====
-- A parameter that lists words with commas between them: the loops of the source that take its
-- tokens one after the other until there are no more.
use kineircd.Prelude.{
  ap, ℕ, zero, suc, ◌≡◌, ◌≢◌, ◌<◌, ◌≤◌, refl, true, List, [], ◌∷◌, ◌++◌, Option, none, some, arith,
  All, length, length-append, get_or, if◌then◌else◌, Bool-cases, inl, inr,
}
use kineircd.Prelude.Text.{Text}
use kineircd.Irc2.Tokens.{Tokens, AreTokens, IsWord}

-- The tokens that the loop takes; `none` means that the fuel ran out.
unfoldable pub take_tokens : (t : Tokens) → ℕ → t.Stream → Option (List Text)
take_tokens t zero s = none
take_tokens t (suc fuel) s =
    let (word, s') = t.next b',' s in
    let rest = take_tokens t fuel s' in
    if t.has_more s then elim rest [ none ↦ none | some words ↦ some (word ∷ words) ] else some []

-- The length of the parameter is fuel enough.
unfoldable pub listed : (t : Tokens) → Text → Option (List Text)
unfolding take_tokens
listed t parameter = take_tokens t (suc (length parameter)) (t.tokens parameter)

-- A target: no comma, and no space in front.
abbrev pub IsTarget : Text → Type 0
IsTarget w = IsWord b',' w × (get_or w 0 0 ≢ b' ')

-- The list of targets as a parameter.
abbrev pub targets_text : List Text → Text
targets_text [] = []
targets_text (w ∷ []) = w
targets_text (w ∷ v ∷ ws) = w ++ b',' ∷ targets_text (v ∷ ws)

pub length-targets_text : (ws : List Text) → All IsTarget ws → length ws ≤ length (targets_text ws)
length-targets_text [] h = omega arith
length-targets_text ([] ∷ ws) h = absurd (h.0.0.0 refl)
length-targets_text ((c ∷ w) ∷ []) h = omega arith
length-targets_text ((c ∷ w) ∷ v ∷ ws) h =
    omega (arith, length-append w (b',' ∷ targets_text (v ∷ ws)), length-targets_text (v ∷ ws) h.1)

module _ (t : Tokens) (l : AreTokens t) where
  has_target : (w s : Text) → IsTarget w → t.has_more (t.tokens (w ++ s)) ≡ true
  has_target [] s h = absurd (h.0.0 refl)
  has_target (c ∷ w) s h = l.has_more_cons c (w ++ s) h.1

  pub next_target :
      (w : Text) (ws : List Text)
      → All IsTarget (w ∷ ws)
      → (t.has_more (t.tokens (targets_text (w ∷ ws))) ≡ true)
        × (t.next b',' (t.tokens (targets_text (w ∷ ws))) ≡ (w, t.tokens (targets_text ws)))
  next_target [] [] h = absurd (h.0.0.0 refl)
  next_target (c ∷ w) [] h = (l.has_more_cons c w h.0.1, l.next_last b',' (c ∷ w) h.0.0)
  next_target w (v ∷ ws) h = (
    has_target w (b',' ∷ targets_text (v ∷ ws)) h.0,
    l.next_word b',' w (targets_text (v ∷ ws)) h.0.0,
  )

  take_tokens-total :
      (fuel : ℕ) (s : t.Stream)
      → l.left s < fuel
      → (words : List Text) × (take_tokens t fuel s ≡ some words)
  unfolding take_tokens
  take_tokens-total zero s h = elim h [ ]
  take_tokens-total (suc fuel) s h = elim (Bool-cases (t.has_more s)) [
    | inr e ↦ ([], rw (take_tokens, e))
    | inl e ↦
        let (words, f) =
          take_tokens-total fuel (t.next b',' s).1 (omega (arith, l.left-next_more b',' s e)) in
        ((t.next b',' s).0 ∷ words, rw (take_tokens, e, f))
  ]

  pub listed-total : (parameter : Text) → (words : List Text) × (listed t parameter ≡ some words)
  unfolding listed
  listed-total parameter =
      take_tokens-total (suc (length parameter)) (t.tokens parameter)
        (omega (arith, l.left-tokens parameter))

  take_tokens-words :
      (fuel : ℕ) (ws : List Text)
      → length ws < fuel
      → All IsTarget ws
      → take_tokens t fuel (t.tokens (targets_text ws)) ≡ some ws
  unfolding take_tokens
  take_tokens-words zero ws h a = elim h [ ]
  take_tokens-words (suc fuel) [] h a = rw (take_tokens, l.has_more_nil)
  take_tokens-words (suc fuel) (w ∷ ws) h a =
      let (more, first) = next_target w ws a in
      rw (take_tokens, more, ap (λ f. f.1) first, take_tokens-words fuel ws (omega arith) a.1)
        (ap (λ f. some (f.0 ∷ ws)) first)

  -- Words without commas, and without a space in front, are the tokens of the list of them.
  pub listed-words : (ws : List Text) → All IsTarget ws → listed t (targets_text ws) ≡ some ws
  unfolding listed
  listed-words ws a =
      take_tokens-words (suc (length (targets_text ws))) ws
        (omega (arith, length-targets_text ws a)) a
