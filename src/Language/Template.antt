-- ===== src/Language/Template.antt =====
-- Substitution in tags, against the pieces that a tag is made of.
use kineircd.Prelude.{
  ℕ, zero, suc, ◌+◌, ◌%◌, ◌<◌, ◌≡◌, ◌≢◌, refl, ap, ◌∙◌, List, [], ◌∷◌, ◌++◌, Option, none, some,
  arith, All, if◌then◌else◌, ltb, Option-cases, inl, inr, get_elem?,
}
use kineircd.Prelude.Text.{Text, find_first_of}
use kineircd.Language.{Surroundings, plain, parameter, expand, process}

-- A character, a parameter by its number, or something of the surroundings.
pub data Piece : Type 0 where
  letter : ℕ → Piece
  parameter_number : ℕ → Piece
  administrator administrator_contact administrator_location : Piece
  server server_description network : Piece

-- A character is no marker, and there are letters for 40 parameters.
abbrev pub IsPiece : Piece → Type 0
IsPiece (letter c) = (c ≢ 0) × (c ≢ 0x85)
IsPiece (parameter_number n) = n < 40
IsPiece _ = Unit

abbrev parameter_letter : ℕ → ℕ
parameter_letter n =
    if ltb n 10 then b'p' else if ltb n 20 then b'P' else if ltb n 30 then b'q' else b'Q'

-- The piece as the data of a tag holds it.
abbrev encode_piece : Piece → Text
encode_piece (letter c) = c ∷ []
encode_piece (parameter_number n) = 0 ∷ parameter_letter n ∷ (0x30 + n % 10) ∷ []
encode_piece administrator = 0 ∷ b'a' ∷ []
encode_piece administrator_contact = 0 ∷ b'A' ∷ []
encode_piece administrator_location = 0 ∷ b'L' ∷ []
encode_piece server = 0 ∷ b'n' ∷ []
encode_piece server_description = 0 ∷ b'd' ∷ []
encode_piece network = 0 ∷ b'N' ∷ []

abbrev pub encode : List Piece → Text
encode [] = []
encode (p ∷ ps) = encode_piece p ++ encode ps

-- The text of a parameter, counted from 0: the replacement character where the list is too short.
abbrev pub nth : List Text → ℕ → Text
nth [] n = 0xfffd ∷ []
nth (text ∷ texts) zero = text
nth (text ∷ texts) (suc n) = nth texts n

-- The same, where the list may be missing.
abbrev pub given : Option (List Text) → ℕ → Text
given none n = 0xfffd ∷ []
given (some texts) n = nth texts n

get_elem-nth :
    (ps : List Text) (n : ℕ)
    → (elim (get_elem? ps n) [ none ↦ 0xfffd ∷ [] | some text ↦ text ]) ≡ nth ps n
get_elem-nth [] n = refl
get_elem-nth (p ∷ ps) zero = refl
get_elem-nth (p ∷ ps) (suc n) = get_elem-nth ps n

module _ (env : Surroundings) (parameters : Option (List Text)) where
  parameter_lem : (n : ℕ) → parameter env parameters n ≡ given parameters n
  unfolding parameter
  parameter_lem n = elim (Option-cases parameters) [
    | inl e ↦ rw (parameter, e) refl
    | inr (ps, e) ↦ rw (parameter, e) (get_elem-nth ps n)
  ]

  -- The text that stands for the piece.
  abbrev meaning : Piece → Text
  meaning (letter c) = c ∷ []
  meaning (parameter_number n) = given parameters n
  meaning administrator = env.administrator_name
  meaning administrator_contact = env.administrator_contact
  meaning administrator_location = env.administrator_location
  meaning server = env.server_name
  meaning server_description = env.server_description
  meaning network = elim env.network_name [ none ↦ 0xfffc ∷ [] | some name ↦ name ]

  abbrev pub meanings : List Piece → Text
  meanings [] = []
  meanings (p ∷ ps) = meaning p ++ meanings ps

  expand-piece :
      (p : Piece) (rest : Text)
      → IsPiece p
      → expand env parameters plain (encode_piece p ++ rest)
        ≡ meaning p ++ expand env parameters plain rest
  unfolding expand
  expand-piece (letter c) rest h = ground arith
  expand-piece (parameter_number n) rest h = ground (arith, parameter_lem n)
  expand-piece administrator rest h = refl
  expand-piece administrator_contact rest h = refl
  expand-piece administrator_location rest h = refl
  expand-piece server rest h = refl
  expand-piece server_description rest h = refl
  expand-piece network rest h = refl

  expand-encode :
      (ps : List Piece) → All IsPiece ps → expand env parameters plain (encode ps) ≡ meanings ps
  unfolding expand
  expand-encode [] h = refl
  expand-encode (p ∷ ps) h =
      expand-piece p (encode ps) h.0 ∙ ap (λ t. meaning p ++ t) (expand-encode ps h.1)

  letters-encode :
      (ps : List Piece) → find_first_of (0 ∷ []) (encode ps) ≡ none → encode ps ≡ meanings ps
  unfolding find_first_of
  letters-encode [] h = refl
  letters-encode (letter c ∷ ps) h = ground (arith, letters-encode ps)
  letters-encode (parameter_number n ∷ ps) h = cc
  letters-encode (administrator ∷ ps) h = cc
  letters-encode (administrator_contact ∷ ps) h = cc
  letters-encode (administrator_location ∷ ps) h = cc
  letters-encode (server ∷ ps) h = cc
  letters-encode (server_description ∷ ps) h = cc
  letters-encode (network ∷ ps) h = cc

  -- A tag that is made of pieces (characters that are no markers, parameters with numbers below
  -- 40, and things of the surroundings) is processed to the texts that stand for them, in order: a
  -- character for itself, a parameter for its text in the list (the replacement character if the
  -- list is missing or too short), and the surroundings for what they give.
  pub process-encode :
      (ps : List Piece) → All IsPiece ps → process env parameters (encode ps) ≡ meanings ps
  unfolding process
  process-encode ps h = elim (Option-cases (find_first_of (0 ∷ []) (encode ps))) [
    | inl e ↦ rw (e, process) (letters-encode ps e)
    | inr (n, e) ↦ rw (e, process) (expand-encode ps h)
  ]
