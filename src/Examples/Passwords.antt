-- ===== src/Examples/Passwords.antt =====
-- The password utility, with four bytes to a character.
use kineircd.Prelude.{ℕ, ◌≡◌, refl, [], ◌∷◌, ◌++◌, none, inl, inr, arith}
use kineircd.Prelude.Text.{Text, codes}
use kineircd.Prelude.Decimal.{fill}
use kineircd.Charset.{Iconv, other}
use kineircd.Password.{
  Typed, hash, ended, fault, greeting, ask_nickname, ask_password, no_charset, main, password_text,
}
use kineircd.Password.Buffer.{IsEncoder, Suits, main_script}

abbrev wide : Text → Text
wide [] = []
wide (c ∷ s) = c ∷ 0 ∷ 0 ∷ 0 ∷ wide s

abbrev narrow : Text → Text
narrow (c ∷ x ∷ y ∷ z ∷ s) = c ∷ narrow s
narrow _ = []

abbrev widening : Iconv ℕ
widening = record {
  size = 4096;
  width = 4;
  iconv =
      λ d input room. record { failure = none; left = []; written = wide input; descriptor = d };
  reset = λ d room. ([], d);
  rewind = λ d. d;
  iconv_open = λ to from. inl 3;
}

widening-IsEncoder : IsEncoder widening (λ d input. Unit {0}) (λ d input. wide input)
widening-IsEncoder = record { converts = λ d input room l r. (refl, refl) }

nobody : Typed
nobody = record { nickname = []; password = [] }

fred_is_plain : Suits widening (λ d input. Unit {0}) (λ d input. wide input) 3 (codes "Fred")
fred_is_plain = record { is_legal = tt; within = omega arith; multiple = refl }

secret_is_plain : Suits widening (λ d input. Unit {0}) (λ d input. wide input) 3 (codes "secret")
secret_is_plain = record { is_legal = tt; within = omega arith; multiple = refl }

main_script_example :
    main widening
      (codes "UCS-4-INTERNAL")
      (codes "UTF-8")
      narrow
      (λ t. t)
      nobody
      (codes "Fred" ∷ codes "secret" ∷ [])
    ≡ ended (hash (password_text (codes "Fred") (codes "secret")) ∷ []) 0
main_script_example =
    main_script widening (λ d input. Unit {0}) (λ d input. wide input) widening-IsEncoder
      (codes "UCS-4-INTERNAL") (codes "UTF-8") narrow (λ t. t) nobody 3 (codes "Fred")
      (codes "secret") [] refl refl refl fred_is_plain secret_is_plain

hashes_folded : password_text (codes "Fred") (codes "s") ≡ codes "fred" ++ 0xffff ∷ codes "s"
unfolding password_text
hashes_folded = refl

-- A nickname of 1025 characters.
overruns :
    main widening
      (codes "UCS-4-INTERNAL")
      (codes "UTF-8")
      narrow
      (λ t. t)
      nobody
      (fill b'a' 1025 ∷ codes "secret" ∷ [])
    ≡ fault
unfolding main fill
overruns = refl

no_locale :
    main
      (record widening { iconv_open = λ to from. inr other })
      (codes "UCS-4-INTERNAL")
      (codes "nonsense")
      narrow
      (λ t. t)
      nobody
      []
    ≡ ended (greeting ∷ ask_nickname none ∷ ask_password ∷ no_charset ∷ []) 1
unfolding main
no_locale = refl
