-- ===== src/Clbp/Output.antt =====
-- The output queue: home/kineircd/src/lib_clbp/output.cpp and
-- home/kineircd/include/kineircd/libclbp/output.h.
pub mod Drain
use kineircd.Prelude.{ℕ, Bool, [], ◌++◌, if◌then◌else◌, leb, is_empty, not, take, drop, length, min}
use kineircd.Prelude.Text.{Text}

unfoldable pub output_raw : Text → Text → Text
output_raw message queue = queue ++ message

-- The end of line characters are those of the protocol.
unfoldable pub output_line : Text → Text → Text → Text
unfolding output_raw
output_line eol_chars message queue = output_raw eol_chars (output_raw message queue)

-- The output that is withdrawn, and the queue that is left.
unfoldable pub withdraw_output : ℕ → Text → Text × Text
withdraw_output amount queue =
    let n = min amount (length queue) in
    (take n queue, if leb amount (length queue) then drop n queue else [])

unfoldable pub more_output : Text → Bool
more_output queue = not (is_empty queue)
