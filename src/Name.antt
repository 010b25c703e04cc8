-- ===== src/Name.antt =====
-- Entity names: home/kineircd/src/lib/name.cpp, and the validity checks of client.cpp, server.cpp
-- and channel.cpp beside it. A name is a list of wide characters. `checkValidity` is const, so
-- reading the character at the end of a name gives NUL.
pub mod Fold
pub mod Nickname
pub mod Hostname
pub mod ChannelName
pub mod NetworkName
use kineircd.Prelude.{ℕ, map, if◌then◌else◌, ◌==◌}
use kineircd.Prelude.Text.{Text, to_lower}

-- irctolower: the national characters of a nickname have lower-case forms too.
unfoldable pub irctolower : ℕ → ℕ
unfolding to_lower
irctolower c =
    if c == b'['
    then b'{'
    else if c == b']'
    then b'}'
    else if c == 0x5c
    then b'|'
    else if c == b'^'
    then b'~'
    else to_lower c

unfoldable pub irc_to_lower : Text → Text
unfolding irctolower
irc_to_lower = map irctolower
