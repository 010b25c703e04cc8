-- ===== src/Password.antt =====
-- The hash of a password, home/kineircd/include/kineircd/password.h, and the utility that writes one
-- for the configuration, kineircd/src/utils/ircpasswd.cpp. The digest of aisutil with its text is a
-- parameter, and so are iconv, the characters that bytes hold, and what is typed in.
pub mod Digest
pub mod Buffer
use kineircd.Prelude.{
  ℕ, ◌+◌, ◌-◌, ◌*◌, Bool, true, false, ◌||◌, List, [], ◌∷◌, ◌++◌, Option, none, some, if◌then◌else◌,
  is_empty, length, ltb, inl, inr,
}
use kineircd.Prelude.Text.{Text, codes}
use kineircd.Name.{irc_to_lower}
use kineircd.Charset.{Iconv, whole}

-- The text of which the digest is made: dataDelimiter stands behind the nickname.
unfoldable pub password_text : Text → Text → Text
unfolding irc_to_lower
password_text nickname password = irc_to_lower nickname ++ (0xffff ∷ password)

-- A conversion writes behind the buffer, fails, or gives a text and the descriptor.
pub data Field (D : Type 0) : Type 0 where
  overrun unable : Field D
  converted : Text → D → Field D

-- The buffer has 1024 characters. iconv is told that there is room for `sizeof(buffer)` times the
-- size of a character.
unfoldable pub convert_field : {D : Type 0} → Iconv D → D → Text → Field D
unfolding whole
convert_field c d input =
    let buffer = 1024 * c.width in
    let room = buffer * c.width in
    let (shift, start) = c.reset d room in
    let answer = c.iconv start input (room - length shift) in
    let bytes = shift ++ answer.written in
    if ltb buffer (length bytes) then overrun else elim answer.failure [
      | none ↦ converted (whole c.width bytes) answer.descriptor
      | some e ↦ unable
    ]

-- What is printed: the greeting, the questions (with a nickname that was given), a complaint, the
-- hash alone, and the lines for the configuration.
pub data Line : Type 0 where
  greeting : Line
  ask_nickname : Option Text → Line
  ask_password : Line
  no_charset : Line
  unable_nickname unable_password : Line
  hash : Text → Line
  configuration : Text → Text → Line

-- The utility reads or writes behind its buffer, or ends with a status.
pub data Outcome : Type 0 where
  fault : Outcome
  ended : List Line → ℕ → Outcome

-- What is typed in.
pub record Typed : Type 0 where
  pub nickname : Text
  pub password : Text

module _ {D : Type 0} (c : Iconv D) (internal codeset : Text) (chars to_text : Text → Text) where
  -- From the conversions on; `show` is how the hash is printed.
  unfoldable pub make_hash : (Text → Line) → List Line → Text → Text → Outcome
  unfolding convert_field password_text
  make_hash show before nickname password = elim (c.iconv_open internal codeset) [
    | inr e ↦ ended (before ++ no_charset ∷ []) 1
    | inl d ↦ elim (convert_field c d nickname) [
      | overrun ↦ fault
      | unable ↦ ended (before ++ unable_nickname ∷ []) 1
      | converted nick after ↦ elim (convert_field c after password) [
        | overrun ↦ fault
        | unable ↦ ended (before ++ unable_password ∷ []) 1
        | converted pass last ↦
            ended (before ++ show (to_text (password_text (chars nick) (chars pass))) ∷ []) 0
      ]
    ]
  ]

  -- main, with the arguments behind the program's name.
  unfoldable pub main : Typed → List Text → Outcome
  unfolding make_hash
  main typed [] =
      make_hash (configuration typed.nickname) (greeting ∷ ask_nickname none ∷ ask_password ∷ [])
        typed.nickname typed.password
  main typed (nickname ∷ []) =
      make_hash (configuration nickname)
        (greeting ∷ ask_nickname (some nickname) ∷ ask_password ∷ []) nickname typed.password
  main typed (nickname ∷ password ∷ rest) =
      if is_empty nickname || is_empty password
      then ended [] 1
      else make_hash hash [] nickname password
