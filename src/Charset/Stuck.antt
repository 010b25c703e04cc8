-- ===== src/Charset/Stuck.antt =====
-- What convertChars does with an illegal sequence, and what changeConvDesc leaves.
use kineircd.Prelude.{
  arith, ℕ, zero, suc, ◌-◌, ◌≡◌, ◌≢◌, ◌↔◌, refl, true, [], ◌++◌, Option, none, some, length, ◌⊎◌,
  inl, inr,
}
use kineircd.Prelude.Text.{Text}
use kineircd.Error.{is_ok}
use kineircd.Charset.{
  Iconv, whole, eilseq, einval, e2big, other, convert_loop, convert_chars, change_conv_desc, opened,
  Errno,
}

-- iconv stands before an illegal sequence: it says EILSEQ and stays, whatever the room.
abbrev pub IsStuck : {D : Type 0} → Iconv D → D → Text → Type 0
IsStuck c d input =
    (room : ℕ)
    → ((c.iconv d input room).failure ≡ some eilseq)
      × ((c.iconv d input room).left ≡ input)
      × ((c.iconv d input room).descriptor ≡ d)

module _ {D : Type 0} (c : Iconv D) where
  convert_loop-stuck :
      (fuel : ℕ) (d : D) (buffer input output : Text)
      → IsStuck c d input
      → convert_loop c fuel d buffer input output ≡ none
  unfolding convert_loop
  convert_loop-stuck zero d buffer input output h = refl
  convert_loop-stuck (suc fuel) d buffer input output h =
      let room = c.size - length buffer in
      let (illegal, same, stays) = h room in
      let filled = output ++ whole c.width (buffer ++ (c.iconv d input room).written) in
      rw (convert_loop, illegal, same, stays) (convert_loop-stuck fuel d [] input filled h)

  -- An input with an illegal sequence is never converted: where iconv stops before the sequence,
  -- convertChars calls it again with the same, whatever the number of rounds.
  pub convert_chars_stuck :
      (fuel : ℕ) (d : D) (input output : Text)
      → (c.iconv (c.reset d c.size).1 input (c.size - length (c.reset d c.size).0)).failure
        ≡ some eilseq
      → IsStuck c
          (c.iconv (c.reset d c.size).1 input (c.size - length (c.reset d c.size).0)).descriptor
          (c.iconv (c.reset d c.size).1 input (c.size - length (c.reset d c.size).0)).left
      → convert_chars c fuel (some d) input output ≡ none
  unfolding convert_chars convert_loop
  convert_chars_stuck zero d input output e h = refl
  convert_chars_stuck (suc fuel) d input output e h =
      let room = c.size - length (c.reset d c.size).0 in
      rw (convert_chars, convert_loop, e)
        (convert_loop-stuck fuel (c.iconv (c.reset d c.size).1 input room).descriptor []
          (c.iconv (c.reset d c.size).1 input room).left
          (output
            ++ whole c.width
                ((c.reset d c.size).0 ++ (c.iconv (c.reset d c.size).1 input room).written))
          h)

opened_iff :
    {D : Type 0} (c : Iconv D) (r : D ⊎ Errno)
    → (is_ok (opened c r).0 ≡ true) ↔ ((opened c r).1 ≢ none)
unfolding opened
opened_iff c (inl d) = (λ _. ground arith, λ _. refl)
opened_iff c (inr e2big) = (λ h. ground arith, λ h. elim (h refl) [ ])
opened_iff c (inr eilseq) = (λ h. ground arith, λ h. elim (h refl) [ ])
opened_iff c (inr einval) = (λ h. ground arith, λ h. elim (h refl) [ ])
opened_iff c (inr other) = (λ h. ground arith, λ h. elim (h refl) [ ])

-- Exactly a change without an error leaves a descriptor: after one that fails the former character
-- set is gone.
pub change_conv_desc_iff :
    {D : Type 0} (c : Iconv D) (conv_desc : Option D) (to from : Text)
    → (is_ok (change_conv_desc c conv_desc to from).1.0 ≡ true)
      ↔ ((change_conv_desc c conv_desc to from).1.1 ≢ none)
unfolding change_conv_desc
change_conv_desc_iff c none to from = opened_iff c (c.iconv_open to from)
change_conv_desc_iff c (some d) to from = opened_iff c (c.iconv_open to from)
