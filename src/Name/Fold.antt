-- ===== src/Name/Fold.antt =====
-- Case folding of names (Name::IRCtoLower).
use kineircd.Prelude.{
  ℕ, ◌<◌, ◌≡◌, refl, ap, ap₂, ◌⊎◌, inl, inr, ◌↔◌, [], ◌∷◌, arith, All, length, suc, subst,
}
use kineircd.Prelude.Text.{Text}
use kineircd.Name.{irctolower, irc_to_lower}

-- A character that has no lower-case form but itself.
abbrev pub IsFolded : ℕ → Type 0
IsFolded c = ((c < 0x41) ⊎ (0x5e < c))

irctolower-IsFolded : (c : ℕ) → IsFolded (irctolower c)
unfolding irctolower
irctolower-IsFolded c = ground arith

irctolower_of_IsFolded : (c : ℕ) → IsFolded c → irctolower c ≡ c
unfolding irctolower
irctolower_of_IsFolded c (inl h) = ground arith
irctolower_of_IsFolded c (inr h) = ground arith

fold-IsFolded : (s : Text) → All IsFolded (irc_to_lower s)
unfolding irc_to_lower
fold-IsFolded [] = tt
fold-IsFolded (c ∷ s) = (irctolower-IsFolded c, fold-IsFolded s)

length-irc_to_lower : (s : Text) → length (irc_to_lower s) ≡ length s
unfolding irc_to_lower
length-irc_to_lower [] = refl
length-irc_to_lower (c ∷ s) = ap suc (length-irc_to_lower s)

pub irc_to_lower_of_IsFolded : (s : Text) → All IsFolded s → irc_to_lower s ≡ s
unfolding irc_to_lower
irc_to_lower_of_IsFolded [] h = refl
irc_to_lower_of_IsFolded (c ∷ s) h =
    ap₂ ◌∷◌ (irctolower_of_IsFolded c h.0) (irc_to_lower_of_IsFolded s h.1)

-- A folded name is as long as the name, no character of it lies between 'A' and '^', and the
-- names without such characters are exactly those that folding leaves as they are.
pub irc_to_lower-IsFolded :
    (s : Text)
    → All IsFolded (irc_to_lower s)
      × (length (irc_to_lower s) ≡ length s)
      × (All IsFolded s ↔ (irc_to_lower s ≡ s))
irc_to_lower-IsFolded s = (
  fold-IsFolded s,
  length-irc_to_lower s,
  (irc_to_lower_of_IsFolded s, λ e. subst (All IsFolded) e (fold-IsFolded s)),
)

pub irc_to_lower_idem : (s : Text) → irc_to_lower (irc_to_lower s) ≡ irc_to_lower s
irc_to_lower_idem s = irc_to_lower_of_IsFolded (irc_to_lower s) (fold-IsFolded s)
