-- ===== src/Charset/Converted.antt =====
-- What convertChars gives for an input without illegal sequences, however small the buffer is.
use kineircd.Prelude.{
  ℕ, zero, suc, ◌+◌, ◌-◌, ◌*◌, ◌/◌, ◌%◌, ◌≤◌, ◌<◌, ◌≡◌, refl, sym, ap, ◌∙◌, true, [], ◌∷◌, ◌++◌,
  append_assoc, none, some, length, length-append, take, arith, ◌⊎◌, inl, inr,
}
use kineircd.Prelude.Text.{Text}
use kineircd.Charset.{Iconv, e2big, whole, convert_loop, convert_chars, convert_str}
use native.Mathlib.Nat.{div-add-mod, mul_comm, mod-add-mod, zero-mod}

take-length : (t : Text) → take (length t) t ≡ t
take-length [] = refl
take-length (x ∷ t) = ap (◌∷◌ x) (take-length t)

pub whole_all : (w : ℕ) (t : Text) → length t % w ≡ 0 → whole w t ≡ t
unfolding whole
whole_all w t h =
    let n : length t / w * w ≡ length t =
      omega (arith, mul_comm (length t / w) w, div-add-mod (length t) w) in
    ap (λ k. take k t) n ∙ take-length t

length-append-mod :
    (w : ℕ) (s t : Text) → length s % w ≡ 0 → length t % w ≡ 0 → length (s ++ t) % w ≡ 0
length-append-mod w s t h k =
    let z : 0 + length t ≡ length t = omega arith in
    ap (λ n. n % w) (length-append s t)
    ∙ sym (mod-add-mod (length s) w (length t))
    ∙ ap (λ n. (n + length t) % w) h
    ∙ ap (λ n. n % w) z
    ∙ k

-- iconv writes whole characters. With room for `largest` bytes it writes the whole encoding of a
-- legal input, or it says E2BIG, has read a part of the input and written what that part encodes to.
pub record IsConversion {D : Type 0} (c : Iconv D) (IsLegal : D → Text → Type 0)
    (encoding : D → Text → Text) (largest : ℕ) : Type 0 where
  pub fits : largest ≤ c.size
  pub converts :
      (d : D) (input : Text) (room : ℕ)
      → IsLegal d input
      → largest ≤ room
      → (length (c.iconv d input room).written % c.width ≡ 0)
        × (((c.iconv d input room).failure ≡ none)
              × ((c.iconv d input room).written ≡ encoding d input)
            ⊎ ((c.iconv d input room).failure ≡ some e2big)
              × (length (c.iconv d input room).left < length input)
              × IsLegal (c.iconv d input room).descriptor (c.iconv d input room).left
              × (encoding d input
                  ≡ (c.iconv d input room).written
                    ++ encoding (c.iconv d input room).descriptor (c.iconv d input room).left))

module _ {D : Type 0} (c : Iconv D) (IsLegal : D → Text → Type 0) (encoding : D → Text → Text)
    (largest : ℕ) (is_conversion : IsConversion c IsLegal encoding largest) where
  convert_loop-encoding :
      (fuel : ℕ) (d : D) (buffer input output : Text)
      → IsLegal d input
      → length buffer + largest ≤ c.size
      → length buffer % c.width ≡ 0
      → length input < fuel
      → (e : D) × (convert_loop c fuel d buffer input output
          ≡ some (true, output ++ (buffer ++ encoding d input), some e))
  unfolding convert_loop
  convert_loop-encoding zero d buffer input output l r w h = elim h [ ]
  convert_loop-encoding (suc fuel) d buffer input output l r w h =
      let room = c.size - length buffer in
      let (multiple, answers) = is_conversion.converts d input room l (omega arith) in
      let kept =
        whole_all c.width (buffer ++ (c.iconv d input room).written)
          (length-append-mod c.width buffer (c.iconv d input room).written w multiple) in
      elim answers [
        | inl (fine, all) ↦
            ((c.iconv d input room).descriptor, rw (convert_loop, fine, kept, all) refl)
        | inr (full, less, legal, split) ↦
            let wrote = (c.iconv d input room).written in
            let rest = encoding (c.iconv d input room).descriptor (c.iconv d input room).left in
            let (e, run) =
              convert_loop-encoding fuel (c.iconv d input room).descriptor []
                (c.iconv d input room).left (output ++ (buffer ++ (c.iconv d input room).written))
                legal (omega (arith, is_conversion.fits)) (zero-mod c.width) (omega arith) in
            (
              e,
              rw
                  (
                    convert_loop,
                    full,
                    kept,
                    run,
                    split,
                    append_assoc output (buffer ++ wrote) rest,
                    append_assoc buffer wrote rest,
                  )
                  refl,
            )
      ]

  -- An input without illegal sequences is converted whole, through any number of buffers: the text
  -- is what iconv writes for a reset and then the encoding of the input. A buffer must have room
  -- for that reset with one more character, of whole characters each.
  pub convert_str-encoding :
      (d : D) (input : Text)
      → IsLegal (c.reset d c.size).1 input
      → length (c.reset d c.size).0 + largest ≤ c.size
      → length (c.reset d c.size).0 % c.width ≡ 0
      → (e : D) × (convert_str c (some d) input
          ≡ some ((c.reset d c.size).0 ++ encoding (c.reset d c.size).1 input, some e))
  unfolding convert_str convert_chars
  convert_str-encoding d input l r w =
      let (shift, start) = c.reset d c.size in
      let (e, run) =
        convert_loop-encoding (suc (length input)) start shift input [] l r w (omega arith) in
      (e, rw (convert_str, convert_chars, run) refl)
