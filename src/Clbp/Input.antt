-- ===== src/Clbp/Input.antt =====
-- Input::handleInput, home/kineircd/src/lib_clbp/input.cpp: chunks of data are cut into lines. The
-- derived protocol's `parseLine` is the argument `parse`: it is given the input queue as it stands
-- at the call, the line, and the protocol's state.
pub mod Lines
use kineircd.Prelude.{
  ℕ, zero, suc, ◌+◌, Bool, true, false, ◌&&◌, List, [], ◌∷◌, ◌++◌, Option, none, some,
  if◌then◌else◌, ◌==◌, take, drop, get_or, length,
}
use kineircd.Prelude.Text.{Text, find_first_of}

-- Output::EOL_CR_LF
abbrev pub eol : Text
eol = 13 ∷ 10 ∷ []

-- The second half of a "\r\n" is skipped. Reading at the end of the data gives NUL.
skip_lf : ℕ → Text → Text
skip_lf c after = if c == 13 && get_or after 0 0 == 10 then drop 1 after else after

module _ {ℓ} {S : Type ℓ} (parse : Text → Text → S → S) where
  -- One round for each line. `rest` is the data from `pos` on, and `queue` the input queue. `none`
  -- means that the fuel ran out.
  scan : ℕ → Text → Text → Text → S → Option (Text × S)
  unfolding find_first_of skip_lf
  scan zero all rest queue s = none
  scan (suc fuel) all rest queue s = elim (find_first_of eol rest) [
    | none ↦ some (queue ++ all, s)
    | some n ↦
        let s' = parse queue (queue ++ take n rest) s in
        let after = skip_lf (get_or rest n 0) (drop (suc n) rest) in
        let more = scan fuel all after [] s' in elim after [ [] ↦ some ([], s') | c ∷ cs ↦ more ]
  ]

  -- A line takes at least one character, so the length of the data is fuel enough.
  unfoldable pub handle_input : Text → Text → S → Option (Text × S)
  unfolding scan
  handle_input chunk queue s = scan (suc (length chunk)) chunk chunk queue s
