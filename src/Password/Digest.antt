-- ===== src/Password/Digest.antt =====
-- What the digest of a password tells apart.
use kineircd.Prelude.{ℕ, ◌≡◌, ◌≢◌, ◌↔◌, refl, ap₂, [], ◌∷◌, ◌++◌, All, arith}
use kineircd.Prelude.Text.{Text}
use kineircd.Name.{irc_to_lower, irctolower}
use kineircd.Password.{password_text}

delimited :
    (s t p q : Text)
    → All (λ c. c ≢ 0xffff) s
    → All (λ c. c ≢ 0xffff) t
    → s ++ (0xffff ∷ p) ≡ t ++ (0xffff ∷ q)
    → (s ≡ t) × (p ≡ q)
delimited [] [] p q h k e = (refl, cc)
delimited [] (d ∷ t) p q h k e = absurd (k.0 cc)
delimited (c ∷ s) [] p q h k e = absurd (h.0 cc)
delimited (c ∷ s) (d ∷ t) p q h k e = let (same, rest) = delimited s t p q h.1 k.1 cc in (cc, rest)

irctolower_delimiter : (c : ℕ) → c ≢ 0xffff → irctolower c ≢ 0xffff
unfolding irctolower
irctolower_delimiter c h e = ground arith

irc_to_lower_delimiter :
    (s : Text) → All (λ c. c ≢ 0xffff) s → All (λ c. c ≢ 0xffff) (irc_to_lower s)
unfolding irc_to_lower
irc_to_lower_delimiter [] h = tt
irc_to_lower_delimiter (c ∷ s) h = (irctolower_delimiter c h.0, irc_to_lower_delimiter s h.1)

-- For nicknames without the delimiter: the texts of the digest are the same exactly if the nicknames
-- are, whatever their case, and the passwords are the same.
pub password_text_iff :
    (nick other p q : Text)
    → All (λ c. c ≢ 0xffff) nick
    → All (λ c. c ≢ 0xffff) other
    → (password_text nick p ≡ password_text other q)
      ↔ ((irc_to_lower nick ≡ irc_to_lower other) × (p ≡ q))
unfolding password_text
password_text_iff nick other p q h k = (
  delimited (irc_to_lower nick) (irc_to_lower other) p q (irc_to_lower_delimiter nick h)
      (irc_to_lower_delimiter other k),
  λ e. ap₂ (λ s t. s ++ (0xffff ∷ t)) e.0 e.1,
)
