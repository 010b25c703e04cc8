-- ===== src/Irc2/Input/Total.antt =====
-- parseLine ends on every line.
use kineircd.Prelude.{ℕ, zero, suc, ◌≢◌, ◌<◌, List, [], ◌∷◌, ◌++◌, none, arith, length}
use kineircd.Prelude.Text.{Text}
use kineircd.Irc2.Tokens.{Tokens, AreTokens}
use kineircd.Irc2.Input.{parameters_from, finish, parse, Parsed, out_of_fuel, out_of_range}

module _ (t : Tokens) (l : AreTokens t) where
  parameters_from-ne-none :
      (fuel : ℕ) (s : t.Stream) (ps : List Text)
      → l.left s < fuel
      → parameters_from t fuel s ps ≢ none
  unfolding parameters_from
  parameters_from-ne-none zero s ps h = elim h [ ]
  parameters_from-ne-none (suc fuel) s ps h = ground (
    arith,
    l.left-next_more b' ' s,
    parameters_from-ne-none fuel (t.next b' ' s).1 (ps ++ (t.next b' ' s).0 ∷ []),
  )

  finish-ne-out_of_fuel :
      (fuel : ℕ) (origin command : Text) (s : t.Stream)
      → l.left s < fuel
      → finish t fuel origin command s ≢ out_of_fuel
  unfolding finish
  finish-ne-out_of_fuel fuel origin command s h = ground (arith, parameters_from-ne-none fuel s [])

  with_origin :
      (fuel : ℕ) (first command : Text) (s : t.Stream)
      → l.left s < fuel
      → (let parsed : Parsed = elim first [
        | [] ↦ out_of_range
        | c ∷ origin ↦ finish t fuel origin command s
      ] in
          parsed)
        ≢ out_of_fuel
  with_origin fuel [] command s h = λ e. cc
  with_origin fuel (c ∷ origin) command s h = finish-ne-out_of_fuel fuel origin command s h

  -- With a tokenizer that is as Irc2/Tokens asks, the length of the line is fuel enough for every
  -- line: the loop over the parameters ends.
  pub parse-ne-out_of_fuel : (line : Text) → parse t line ≢ out_of_fuel
  unfolding parse
  parse-ne-out_of_fuel line =
      let s = t.tokens line in
      let s' = (t.next b' ' s).1 in
      let s'' = (t.next b' ' s').1 in
      let first = (t.next b' ' s).0 in
      ground (
        arith,
        l.left-tokens line,
        l.left-next b' ' s,
        l.left-next b' ' s',
        finish-ne-out_of_fuel (suc (length line)) [] (t.to_upper first) s',
        with_origin (suc (length line)) first (t.to_upper (t.next b' ' s').0) s'',
      )
