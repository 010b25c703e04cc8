-- ===== src/Irc2User/Who/Flags.antt =====
-- The options of WHO: the filter, the fields to match, the fields to send, and the query type.
use kineircd.Prelude.{ℕ, Bool, true, false, ◌||◌, [], ◌∷◌, if◌then◌else◌, not, is_empty, ◌==◌}
use kineircd.Prelude.Text.{Text, one_of}

-- The union matchFlags.
pub record MatchFlags : Type 0 where
  pub address : Bool
  pub description : Bool
  pub hostname : Bool
  pub nick : Bool
  pub server : Bool
  pub username : Bool

-- The union outputFlags.
pub record OutputFlags : Type 0 where
  pub address : Bool
  pub channel_name : Bool
  pub description : Bool
  pub flags : Bool
  pub hops : Bool
  pub hostname : Bool
  pub idle_time : Bool
  pub nickname : Bool
  pub query_type : Bool
  pub server : Bool
  pub username : Bool

pub record Options : Type 0 where
  pub operators : Bool
  pub matching : MatchFlags
  pub output : OutputFlags
  pub query_type : Text

-- The test `conflux == 0`.
unfoldable pub no_match_flags : MatchFlags → Bool
no_match_flags f =
    not (f.address || f.description || f.hostname || f.nick || f.server || f.username)

unfoldable pub no_output_flags : OutputFlags → Bool
no_output_flags f = not (
    f.address || f.channel_name || f.description || f.flags || f.hops || f.hostname || f.idle_time
    || f.nickname || f.query_type || f.server || f.username)

abbrev pub all_match_flags : MatchFlags
all_match_flags = record {
  address = true;
  description = true;
  hostname = true;
  nick = true;
  server = true;
  username = true;
}

-- The options before any character is read; the query type is a star.
abbrev pub no_options : Options
no_options = record {
  operators = false;
  matching = record {
    address = false;
    description = false;
    hostname = false;
    nick = false;
    server = false;
    username = false;
  };
  output = record {
    address = false;
    channel_name = false;
    description = false;
    flags = false;
    hops = false;
    hostname = false;
    idle_time = false;
    nickname = false;
    query_type = false;
    server = false;
    username = false;
  };
  query_type = b'*' ∷ [];
}

-- The first switch. A character of no case changes nothing.
unfoldable pub match_switch : ℕ → Options → Options
unfolding one_of
match_switch c o =
    let m = o.matching in
    if one_of (b'h' ∷ b'H' ∷ []) c
    then record o { matching = record m { hostname = true } }
    else if one_of (b'i' ∷ b'I' ∷ []) c
    then record o { matching = record m { address = true } }
    else if one_of (b'n' ∷ b'N' ∷ []) c
    then record o { matching = record m { nick = true } }
    else if one_of (b'o' ∷ b'O' ∷ []) c
    then record o { operators = true }
    else if one_of (b'r' ∷ b'R' ∷ []) c
    then record o { matching = record m { description = true } }
    else if one_of (b's' ∷ b'S' ∷ []) c
    then record o { matching = record m { server = true } }
    else if one_of (b'u' ∷ b'U' ∷ []) c
    then record o { matching = record m { username = true } }
    else o

-- The second switch.
unfoldable pub output_switch : ℕ → Options → Options
unfolding one_of
output_switch c o =
    let f = o.output in
    if one_of (b'c' ∷ b'C' ∷ []) c
    then record o { output = record f { channel_name = true } }
    else if one_of (b'd' ∷ b'D' ∷ []) c
    then record o { output = record f { hops = true } }
    else if one_of (b'f' ∷ b'F' ∷ []) c
    then record o { output = record f { flags = true } }
    else if one_of (b'h' ∷ b'H' ∷ []) c
    then record o { output = record f { hostname = true } }
    else if one_of (b'i' ∷ b'I' ∷ []) c
    then record o { output = record f { address = true } }
    else if one_of (b'l' ∷ b'L' ∷ []) c
    then record o { output = record f { idle_time = true } }
    else if one_of (b'n' ∷ b'N' ∷ []) c
    then record o { output = record f { nickname = true } }
    else if one_of (b'r' ∷ b'R' ∷ []) c
    then record o { output = record f { description = true } }
    else if one_of (b's' ∷ b'S' ∷ []) c
    then record o { output = record f { server = true } }
    else if one_of (b't' ∷ b'T' ∷ []) c
    then record o { output = record f { query_type = true } }
    else if one_of (b'u' ∷ b'U' ∷ []) c
    then record o { output = record f { username = true } }
    else o

-- The first loop, to a percent sign, a comma or the end; the text is what is left at its place.
unfoldable pub read_matching : Text → Options → Options × Text
unfolding match_switch
read_matching [] o = (o, [])
read_matching (c ∷ s) o =
    let rest = read_matching s (match_switch c o) in
    if (c == b'%') || (c == b',') then (o, c ∷ s) else rest

-- The second loop, to a comma or the end.
unfoldable pub read_output : Text → Options → Options × Text
unfolding output_switch
read_output [] o = (o, [])
read_output (c ∷ s) o =
    let rest = read_output s (output_switch c o) in if c == b',' then (o, c ∷ s) else rest

-- The second loop, where a percent sign is next.
unfoldable pub after_matching : Options × Text → Options × Text
unfolding read_output
after_matching (o, []) = (o, [])
after_matching (o, c ∷ s) = if c == b'%' then read_output s o else (o, c ∷ s)

-- The query type, where a comma is next and something follows it.
unfoldable pub after_output : Options × Text → Options
after_output (o, []) = o
after_output (o, c ∷ s) =
    if c == b',' then if is_empty s then o else record o { query_type = s } else o

-- Where no field is to be matched, all of them are.
unfoldable pub read_options : Text → Options
unfolding read_matching after_matching after_output no_match_flags
read_options s =
    let o = after_output (after_matching (read_matching s no_options)) in
    if no_match_flags o.matching then record o { matching = all_match_flags } else o
