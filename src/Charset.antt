-- ===== src/Charset.antt =====
-- Character sets: convertChars (home/kineircd/src/lib/charconv.h) and changeConvDesc
-- (home/kineircd/src/lib/protocol.cpp). Texts are bytes here, also wide ones. `iconv` and
-- `iconv_open` are parameters; a descriptor that is open is its state, and the `(iconv_t)(-1)` that
-- the source compares with is `none`.
pub mod Converted
pub mod Stuck
use kineircd.Prelude.{
  ℕ, zero, suc, ◌-◌, ◌*◌, ◌/◌, Bool, true, false, List, [], ◌∷◌, ◌++◌, Option, none, some, length,
  take, ◌⊎◌, inl, inr,
}
use kineircd.Prelude.Text.{Text}
use kineircd.Error.{Error, no_error, unknown_charset, unknown_error}

-- The values of errno that the source tells apart.
pub data Errno : Type 0 where
  e2big eilseq einval other : Errno

-- What a call of iconv does: the error if it returns -1, the input that is left, what it writes,
-- and the descriptor from then on.
pub record Answer (D : Type 0) : Type 0 where
  pub failure : Option Errno
  pub left : Text
  pub written : Text
  pub descriptor : D

-- The sizes of the buffer (ICONV_BUFFER_SIZE) and of a character of the output; iconv with a
-- descriptor, an input and the room in the buffer; what iconv without an input writes to a buffer,
-- and the descriptor after it; iconv without a buffer either; iconv_open.
pub record Iconv (D : Type 0) : Type 0 where
  pub size : ℕ
  pub width : ℕ
  pub iconv : D → Text → ℕ → Answer D
  pub reset : D → ℕ → Text × D
  pub rewind : D → D
  pub iconv_open : Text → Text → D ⊎ Errno

-- The bytes of the characters that lie whole in a buffer.
unfoldable pub whole : ℕ → Text → Text
whole width buffer = take (length buffer / width * width) buffer

-- What is returned, the output and the descriptor.
abbrev pub Converted : Type 0 → Type 0
Converted D = Bool × Text × Option D

-- The loop, on fuel.
unfoldable pub convert_loop :
    {D : Type 0} → Iconv D → ℕ → D → Text → Text → Text → Option (Converted D)
unfolding whole
convert_loop c zero d buffer input output = none
convert_loop c (suc fuel) d buffer input output =
    let answer = c.iconv d input (c.size - length buffer) in
    let filled = output ++ whole c.width (buffer ++ answer.written) in
    let more = convert_loop c fuel answer.descriptor [] answer.left filled in
    elim answer.failure [
      | none ↦ some (true, filled, some answer.descriptor)
      | some e ↦ elim e [
        | e2big ↦ more
        | eilseq ↦ more
        | einval ↦ some (false, output, some answer.descriptor)
        | other ↦ some (false, output, some answer.descriptor)
      ]
    ]

unfoldable pub convert_chars :
    {D : Type 0} → Iconv D → ℕ → Option D → Text → Text → Option (Converted D)
unfolding convert_loop
convert_chars c fuel none input output = some (false, output, none)
convert_chars c fuel (some d) input output =
    let (shift, start) = c.reset d c.size in convert_loop c fuel start shift input output

-- localiseStr and delocaliseStr: the text and the descriptor. The size of the input is enough for
-- an input without illegal sequences.
unfoldable pub convert_str : {D : Type 0} → Iconv D → Option D → Text → Option (Text × Option D)
unfolding convert_chars
convert_str c conv_desc input = elim (convert_chars c (suc (length input)) conv_desc input []) [
  | none ↦ none
  | some (happy, output, after) ↦ some (output, after)
]

-- The error and the descriptor, by what iconv_open returns.
unfoldable pub opened : {D : Type 0} → Iconv D → D ⊎ Errno → Error × Option D
opened c (inl d) = (no_error, some (c.rewind d))
opened c (inr e2big) = (unknown_error, none)
opened c (inr eilseq) = (unknown_error, none)
opened c (inr einval) = (unknown_charset, none)
opened c (inr other) = (unknown_error, none)

-- The descriptors that are closed, the error and the new descriptor.
unfoldable pub change_conv_desc :
    {D : Type 0} → Iconv D → Option D → Text → Text → List D × (Error × Option D)
unfolding opened
change_conv_desc c none charset_to charset_from =
    ([], opened c (c.iconv_open charset_to charset_from))
change_conv_desc c (some d) charset_to charset_from =
    (d ∷ [], opened c (c.iconv_open charset_to charset_from))

-- The descriptors of a protocol. The functions take the name of KINE_INTERNAL_CHARSET as well.
pub record Descriptors (D : Type 0) : Type 0 where
  pub input : Option D
  pub output : Option D

unfoldable pub change_output_charset :
    {D : Type 0} → Iconv D → Text → Descriptors D → Text → List D × Error × Descriptors D
unfolding change_conv_desc
change_output_charset c internal p charset =
    let (closed, (error, after)) = change_conv_desc c p.output charset internal in
    (closed, error, record p { output = after })

unfoldable pub change_input_charset :
    {D : Type 0} → Iconv D → Text → Descriptors D → Text → List D × Error × Descriptors D
unfolding change_conv_desc
change_input_charset c internal p charset =
    let (closed, (error, after)) = change_conv_desc c p.input internal charset in
    (closed, error, record p { input = after })
