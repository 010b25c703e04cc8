-- ===== src/Irc2/Input.antt =====
-- Input::parseLine, home/kineircd/src/lib_irc2/input.cpp.
pub mod Total
pub mod RoundTrip
pub mod Numeric
use kineircd.Prelude.{
  ℕ, zero, suc, ◌+◌, ◌%◌, ◌^◌, List, [], ◌∷◌, ◌++◌, Option, none, some, if◌then◌else◌, ◌==◌, get_or,
  drop, length, is_empty,
}
use kineircd.Prelude.Text.{Text}
use kineircd.Irc2.Tokens.{Tokens}

-- What becomes of a line. `out_of_range` is the exception of substr() on an empty token;
-- `out_of_fuel` does not occur (see Input/Total).
pub data Parsed : Type 0 where
  message : Text → Text → List Text → Parsed
  ignored : Parsed
  out_of_range : Parsed
  out_of_fuel : Parsed

module _ (t : Tokens) where
  open t use {Stream, tokens, has_more, next, rest, to_upper}

  -- The last parameter, from its first token.
  trailing : Text → Stream → Text
  trailing thingy s = if has_more s then drop 1 thingy ++ b' ' ∷ rest s else drop 1 thingy

  -- The loop that grabs the parameters, behind those that it has.
  parameters_from : ℕ → Stream → List Text → Option (List Text)
  unfolding trailing
  parameters_from zero s parameters = none
  parameters_from (suc fuel) s parameters =
      let (thingy, s') = next b' ' s in
      let more = parameters_from fuel s' (parameters ++ thingy ∷ []) in
      if has_more s
      then if get_or thingy 0 0 == b':' then some (parameters ++ trailing thingy s' ∷ []) else more
      else some parameters

  -- The message handler is called if there is a command.
  finish : ℕ → Text → Text → Stream → Parsed
  unfolding parameters_from
  finish fuel origin command s = elim (parameters_from fuel s []) [
    | none ↦ out_of_fuel
    | some parameters ↦ if is_empty command then ignored else message origin command parameters
  ]

  -- Reading the first character of an empty line gives NUL.
  unfoldable pub parse : Text → Parsed
  unfolding finish
  parse line =
      let fuel = suc (length line) in
      let (first, s) = next b' ' (tokens line) in
      let (second, s') = next b' ' s in
      if get_or line 0 0 == b':'
      then elim first [ [] ↦ out_of_range | c ∷ origin ↦ finish fuel origin (to_upper second) s' ]
      else finish fuel [] (to_upper first) s

  -- With the counter of received messages, an unsigned long of 64 bits.
  unfoldable pub parse_line : Text → ℕ → ℕ × Parsed
  unfolding parse
  parse_line line message_count = ((message_count + 1) % 2 ^ 64, parse line)
