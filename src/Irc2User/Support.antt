-- ===== src/Irc2User/Support.antt =====
-- Protocol::sendISUPPORT, home/kineircd/src/mod_irc2user/protocol.cpp: the tags of RPL_ISUPPORT in
-- as many replies as are needed.
pub mod Chunks
pub mod Tags
pub mod Middle
pub mod Named
pub mod Parsed
use kineircd.Prelude.{
  ℕ, suc, ◌+◌, ◌-◌, ◌%◌, ◌^◌, Bool, true, false, ◌||◌, List, [], ◌∷◌, ◌++◌, if◌then◌else◌, ltb,
  is_empty, length,
}
use kineircd.Prelude.Text.{Text}

-- maxOutputLength, an unsigned int of 32 bits, from the lengths of the suffix, the nickname and
-- the server's name; maxMessageSize is 512.
unfoldable pub max_output_length : ℕ → ℕ → ℕ → ℕ
max_output_length suffix nickname server =
    (2 ^ 64 + 512 - (suffix + nickname + server + 10)) % 2 ^ 32

-- The loop: the outputs that are sent. maxParams is 15. A tag that ends a chunk starts the next
-- one with the count at 0.
unfoldable pub send_chunks : ℕ → ℕ → Text → List Text → List Text
send_chunks limit params output [] = if is_empty output then [] else output ∷ []
send_chunks limit params output (tag ∷ tags) =
    let purge = ltb 13 (params + 1) || ltb limit (length output + length tag) in
    let added = if is_empty output then tag else output ++ b' ' ∷ tag in
    let fresh = send_chunks limit 0 tag tags in
    let same = send_chunks limit (params + 1) added tags in if purge then output ∷ fresh else same

unfoldable pub send_isupport : ℕ → ℕ → ℕ → List Text → List Text
unfolding max_output_length send_chunks
send_isupport suffix nickname server tags =
    send_chunks (max_output_length suffix nickname server) 0 [] tags
