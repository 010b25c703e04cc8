-- ===== src/Irc2/Tokens.antt =====
-- AIS::Util::StringTokens and AIS::Util::String::toUpper, from the library aisutil, which is not in
-- the repository: the operations that the source calls, and what it relies on.
pub mod Listed
use kineircd.Prelude.{ℕ, ◌≡◌, ◌≢◌, ◌≤◌, ◌<◌, Bool, true, false, [], ◌∷◌, ◌++◌, All, length}
use kineircd.Prelude.Text.{Text}

-- `next` is `nextToken`, with the delimiter that the source gives (a space if it gives none).
pub record Tokens : Type 1 where
  pub Stream : Type 0
  pub tokens : Text → Stream
  pub has_more : Stream → Bool
  pub next : ℕ → Stream → Text × Stream
  pub rest : Stream → Text
  pub to_upper : Text → Text

-- No character of the word is the delimiter.
abbrev pub IsWord : ℕ → Text → Type 0
IsWord d w = (w ≢ []) × All (λ c. c ≢ d) w

-- Taking a token makes progress; a token ends at the delimiter, which is taken with it; `rest` is
-- what has not been taken.
pub record AreTokens (t : Tokens) : Type 1 where
  pub left : t.Stream → ℕ
  pub left-tokens : (s : Text) → left (t.tokens s) ≤ length s
  pub left-next : (d : ℕ) (s : t.Stream) → left (t.next d s).1 ≤ left s
  pub left-next_more : (d : ℕ) (s : t.Stream) → t.has_more s ≡ true → left (t.next d s).1 < left s
  pub next_word :
      (d : ℕ) (w s : Text) → IsWord d w → t.next d (t.tokens (w ++ d ∷ s)) ≡ (w, t.tokens s)
  pub next_last : (d : ℕ) (w : Text) → IsWord d w → t.next d (t.tokens w) ≡ (w, t.tokens [])
  pub has_more_nil : t.has_more (t.tokens []) ≡ false
  pub has_more_cons : (c : ℕ) (s : Text) → c ≢ b' ' → t.has_more (t.tokens (c ∷ s)) ≡ true
  pub rest-tokens : (s : Text) → t.rest (t.tokens s) ≡ s
