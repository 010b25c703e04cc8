-- ===== src/Examples/Charsets.antt =====
-- Character sets, and the functions for Scheme.
use kineircd.Prelude.{
  ℕ, zero, suc, ◌+◌, ◌%◌, ◌≡◌, ◌≤◌, ◌<◌, refl, sym, ap, ◌∙◌, true, false, List, [], ◌∷◌, ◌++◌,
  Option, none, some, arith, inl, inr, is_empty, length, length-append, length-take, take, drop,
  take-append-drop, drop_all, leb, if◌then◌else◌, Bool-cases, ◌==◌, append-nil,
}
use kineircd.Prelude.Text.{Text, codes}
use kineircd.Error.{no_error, unknown_charset}
use kineircd.Charset.{
  Iconv, e2big, eilseq, einval, convert_chars, convert_str, change_output_charset,
}
use kineircd.Charset.Converted.{IsConversion, convert_str-encoding}
use kineircd.Charset.Stuck.{convert_chars_stuck}
use kineircd.Irc2User.Scheme.{string, bool, undefined, inum, is_client_online, is_channel_online}
use kineircd.Examples.Instances.{lists}

-- iconv between equal character sets, with a buffer of two bytes: a descriptor is a number.
abbrev copying : Iconv ℕ
copying = record {
  size = 2;
  width = 1;
  iconv = λ d input room. record {
    failure = if leb (length input) room then none else some e2big;
    left = drop room input;
    written = take room input;
    descriptor = suc d;
  };
  reset = λ d room. ([], d);
  rewind = λ d. d;
  iconv_open = λ to from. inl 5;
}

take_all : (n : ℕ) (t : Text) → length t ≤ n → take n t ≡ t
take_all n t h =
    let whole = take-append-drop n t in
    let nothing = drop_all n t h in
    sym (append-nil (take n t)) ∙ ap (λ s. take n t ++ s) (sym nothing) ∙ whole

length-drop : (n : ℕ) (t : Text) → 0 < n → n < length t → length (drop n t) < length t
length-drop n t p h =
    omega (
      arith,
      ap length (take-append-drop n t),
      length-append (take n t) (drop n t),
      length-take n t,
    )

copying-IsConversion : IsConversion copying (λ d input. Unit {0}) (λ d input. input) 1
copying-IsConversion = record {
  fits = omega arith;
  converts = λ d input room l r. elim (Bool-cases (leb (length input) room)) [
    | inl e ↦ (omega arith, inl (rw e refl, take_all room input (ground arith)))
    | inr e ↦ (
      omega arith,
      inr (
        rw e refl,
        length-drop room input (omega arith) (ground arith),
        tt,
        sym (take-append-drop room input),
      ),
    )
  ];
}

convert_str-encoding_example :
    (e : ℕ) × (convert_str copying (some 0) (codes "hello") ≡ some (codes "hello", some e))
convert_str-encoding_example =
    convert_str-encoding copying (λ d input. Unit {0}) (λ d input. input) 1 copying-IsConversion 0
      (codes "hello") tt (omega arith) refl

-- The input from the first 255 on, which is illegal here.
abbrev stopped : Text → Text
stopped [] = []
stopped (c ∷ s) = if c == 255 then c ∷ s else stopped s

abbrev refusing : Iconv ℕ
refusing = record {
  size = 2048;
  width = 4;
  iconv = λ d input room. record {
    failure = if is_empty (stopped input) then none else some eilseq;
    left = stopped input;
    written = [];
    descriptor = d;
  };
  reset = λ d room. ([], d);
  rewind = λ d. d;
  iconv_open = λ to from. inr einval;
}

convert_chars_stuck_example :
    convert_chars refusing 100 (some 0) (b'a' ∷ b'b' ∷ 255 ∷ b'c' ∷ []) [] ≡ none
convert_chars_stuck_example =
    convert_chars_stuck refusing 100 0 (b'a' ∷ b'b' ∷ 255 ∷ b'c' ∷ []) [] refl
      (λ room. (refl, refl, refl))

converts_through_buffers :
    convert_str copying (some 0) (codes "hello") ≡ some (codes "hello", some 3)
unfolding convert_str convert_chars
converts_through_buffers = refl

changed_charset :
    change_output_charset copying
      (codes "UCS-4-INTERNAL")
      record { input = none; output = some 9 }
      (codes "UTF-8")
    ≡ (9 ∷ [], no_error, record { input = none; output = some 5 })
unfolding change_output_charset
changed_charset = refl

unknown_charset_is_none :
    change_output_charset refusing
      (codes "UCS-4-INTERNAL")
      record { input = none; output = some 9 }
      (codes "nonsense")
    ≡ (9 ∷ [], unknown_charset, record { input = none; output = none })
unfolding change_output_charset
unknown_charset_is_none = refl

fred_is_online : is_client_online lists (string (codes "Fred")) ≡ bool true
unfolding is_client_online kineircd.Registry.find_entity kineircd.Registry.EntityMap.find
    kineircd.Prelude.Text.text_eq kineircd.Name.irc_to_lower
fred_is_online = refl

no_channel_online : is_channel_online lists (inum 3) ≡ undefined
unfolding is_channel_online
no_channel_online = refl
