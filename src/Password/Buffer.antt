-- ===== src/Password/Buffer.antt =====
-- The buffer of the utility, for texts without illegal sequences.
use kineircd.Prelude.{
  ℕ, ◌-◌, ◌*◌, ◌%◌, ◌≤◌, ◌≡◌, refl, false, ◌||◌, List, [], ◌∷◌, ◌++◌, none, if◌then◌else◌, is_empty,
  length, length-append, ltb, inl, inr, arith, Bool-cases,
}
use kineircd.Prelude.Text.{Text}
use kineircd.Charset.{Iconv}
use kineircd.Charset.Converted.{whole_all}
use kineircd.Password.{
  overrun, converted, convert_field, hash, fault, ended, Typed, make_hash, main, password_text,
}

-- What iconv does with a legal input for whose encoding it is told that there is room.
pub record IsEncoder {D : Type 0} (c : Iconv D) (IsLegal : D → Text → Type 0)
    (encoding : D → Text → Text) : Type 0 where
  pub converts :
      (d : D) (input : Text) (room : ℕ)
      → IsLegal d input
      → length (encoding d input) ≤ room
      → ((c.iconv d input room).failure ≡ none)
        × ((c.iconv d input room).written ≡ encoding d input)

module _ {D : Type 0} (c : Iconv D) (IsLegal : D → Text → Type 0) (encoding : D → Text → Text) where
  -- The room that iconv is told, the bytes of a text with those of the reset before it, and the
  -- descriptor behind it.
  abbrev pub told : ℕ
  told = 1024 * c.width * c.width

  abbrev pub bytes : D → Text → Text
  bytes d input = (c.reset d told).0 ++ encoding (c.reset d told).1 input

  abbrev pub after : D → Text → D
  after d input = (c.iconv (c.reset d told).1 input (told - length (c.reset d told).0)).descriptor

  -- A text without illegal sequences, of whole characters, for which iconv thinks there is room.
  pub record Suits (d : D) (input : Text) : Type 0 where
    pub is_legal : IsLegal (c.reset d told).1 input
    pub within : length (bytes d input) ≤ told
    pub multiple : length (bytes d input) % c.width ≡ 0

  module _ (is_encoder : IsEncoder c IsLegal encoding) where
    convert_field_lem :
        (d : D) (input : Text)
        → Suits d input
        → convert_field c d input ≡ (
            if ltb (1024 * c.width) (length (bytes d input))
            then overrun
            else converted (bytes d input) (after d input))
    unfolding convert_field
    convert_field_lem d input s =
        let (shift, start) = c.reset d told in
        let (fine, all) =
          is_encoder.converts start input (told - length shift) s.is_legal
            (omega (arith, s.within, length-append shift (encoding start input))) in
        rw (convert_field, fine, all, whole_all c.width (bytes d input) s.multiple) refl

    -- With a nickname and a password on the command line, both in the character set of the locale:
    -- the hash is printed if both fit into the buffer of 1024 characters. If the nickname or the
    -- password is longer, up to as many times as a character has bytes, the utility writes behind it.
    pub main_script :
        (internal codeset : Text) (chars to_text : Text → Text) (typed : Typed) (d : D)
        (nickname password : Text) (rest : List Text)
        → c.iconv_open internal codeset ≡ inl d
        → is_empty nickname ≡ false
        → is_empty password ≡ false
        → Suits d nickname
        → Suits (after d nickname) password
        → main c internal codeset chars to_text typed (nickname ∷ password ∷ rest) ≡ (
            if ltb (1024 * c.width) (length (bytes d nickname))
              || ltb (1024 * c.width) (length (bytes (after d nickname) password))
            then fault
            else ended
                (hash (
                    to_text (
                      password_text
                        (chars (bytes d nickname))
                        (chars (bytes (after d nickname) password))))
                  ∷ [])
                0)
    unfolding main make_hash
    main_script internal codeset chars to_text typed d nickname password rest o n p s t =
        let first = convert_field_lem d nickname s in
        let second = convert_field_lem (after d nickname) password t in
        elim (Bool-cases (ltb (1024 * c.width) (length (bytes d nickname)))) [
          | inl e ↦ rw (main, n, p, make_hash, o, first, e) refl
          | inr e ↦
              elim (Bool-cases
                (ltb (1024 * c.width) (length (bytes (after d nickname) password)))) [
                  | inl f ↦ rw (main, n, p, make_hash, o, first, e, second, f) refl
                  | inr f ↦ rw (main, n, p, make_hash, o, first, e, second, f) refl
                ]
        ]
