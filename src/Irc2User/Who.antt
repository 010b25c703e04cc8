-- ===== src/Irc2User/Who.antt =====
-- WHO: Protocol::handleWHO, home/kineircd/src/mod_irc2user/handlers.cpp.
pub mod Flags
pub mod Shown
pub mod Fields
use kineircd.Prelude.{
  ℕ, zero, suc, ◌+◌, ◌%◌, ◌^◌, Bool, true, false, ◌&&◌, ◌||◌, not, List, [], ◌∷◌, ◌++◌, Option,
  none, some, if◌then◌else◌, is_empty, ◌==◌,
}
use kineircd.Prelude.Text.{Text, codes, text_eq}
use Flags.{Options, read_options, no_output_flags}

-- A user as the asker sees it: hideHostFrom and isHiddenFrom are for the asker. The idle time is
-- that of a local user.
pub record Person : Type 0 where
  pub nickname : Text
  pub username : Text
  pub hostname : Text
  pub virtual_hostname : Text
  pub description : Text
  pub hide_host : Bool
  pub hidden : Bool
  pub is_operator : Bool
  pub is_away : Bool
  pub selective_hearing : Bool
  pub hop_count : ℕ
  pub idle_time : Option ℕ

-- RPL_WHOREPLY (the username, the hostname, the nickname, the flags and the last parameter; the
-- channel and the server are constants), RPL_WHOSPCRPL, RPL_ENDOFWHO and ERR_TOOMANYMATCHES.
pub data Reply : Type 0 where
  who_reply : Text → Text → Text → Text → Text → Reply
  who_special : Text → Reply
  end_of_who : Text → Reply
  too_many_matches : Text → Reply

-- The host that the asker is given.
unfoldable pub shown_host : Person → Text
shown_host p = if p.hide_host then p.virtual_hostname else p.hostname

-- The flags of a user; no channel is ever found.
unfoldable pub person_flags : Person → Text
person_flags p =
    (if p.is_away then b'G' ∷ [] else b'H' ∷ [])
    ++ (if p.is_operator then b'*' ∷ [] else [])
    ++ (if p.selective_hearing then b'd' ∷ [] else [])

-- The end of the output, with a space before the field where the output is not empty.
unfoldable pub add_field : Bool → Text → Text → Text
add_field wanted field output =
    if wanted then (if is_empty output then field else output ++ b' ' ∷ field) else output

-- The mask and the options of the parameters.
unfoldable pub request : List Text → Text × Options
unfolding read_options
request [] = (b'*' ∷ [], read_options [])
request (mask ∷ []) = (mask, read_options [])
request (mask ∷ options ∷ ps) = (mask, read_options options)

-- `matches` is AIS::Util::StringMask, with the mask first.
module _ (matches : Text → Text → Bool) where
  -- Whether the user passes the first test of the loop.
  unfoldable pub is_match : Options → Text → Person → Bool
  is_match o mask p =
      let m = o.matching in
      text_eq mask (b'0' ∷ [])
      || (m.address && false)
      || (m.description && matches mask p.description)
      || (m.hostname
          && (if p.hide_host
              then matches mask p.virtual_hostname
              else matches mask p.hostname || matches mask p.virtual_hostname))
      || (m.nick && matches mask p.nickname)
      || (m.server && false)
      || (m.username && matches mask p.username)

  -- The tests before a user is sent.
  unfoldable pub is_shown : Options → Text → Person → Bool
  unfolding is_match
  is_shown o mask p = is_match o mask p && not p.hidden && not (o.operators && not p.is_operator)

-- `convert` writes a number.
module _ (convert : ℕ → Text) where
  abbrev pub idle_text : Option ℕ → Text
  idle_text none = b'0' ∷ []
  idle_text (some seconds) = convert seconds

  -- The output for the fields that were asked.
  unfoldable pub special_output : Options → Person → Text
  unfolding add_field person_flags shown_host
  special_output o p =
      let f = o.output in
      let output = if f.query_type then o.query_type else [] in
      let output = add_field f.channel_name (b'*' ∷ []) output in
      let output = add_field f.username p.username output in
      let output = add_field f.address (b'*' ∷ []) output in
      let output = add_field f.hostname (shown_host p) output in
      let output = add_field f.server (codes "server.name") output in
      let output = add_field f.nickname p.nickname output in
      let output = add_field f.flags (person_flags p) output in
      let output = add_field f.hops (convert p.hop_count) output in
      let output = add_field f.idle_time (idle_text p.idle_time) output in
      add_field f.description (b':' ∷ p.description) output

  unfoldable pub who_line : Options → Person → Reply
  unfolding special_output shown_host person_flags no_output_flags
  who_line o p =
      if no_output_flags o.output
      then who_reply p.username (shown_host p) p.nickname (person_flags p)
          (convert p.hop_count ++ b' ' ∷ p.description)
      else who_special (special_output o p)

module _ (matches : Text → Text → Bool) (convert : ℕ → Text) where
  -- The loop over the users, with the number of lines left, an unsigned int of 32 bits.
  unfoldable pub visit : Bool → Options → Text → List Person → ℕ → List Reply × ℕ
  unfolding is_shown who_line
  visit asker_is_operator o mask [] lines = ([], lines)
  visit asker_is_operator o mask (p ∷ ps) lines =
      let shown = is_shown matches o mask p in
      let line = if shown then who_line convert o p ∷ [] else [] in
      let counted = shown && not asker_is_operator in
      let left = if counted then (lines + 0xffff_ffff) % 2 ^ 32 else lines in
      let (after, n) = visit asker_is_operator o mask ps left in
      if counted && (left == 0) then (line, left) else (line ++ after, n)

  unfoldable pub handle_who : Bool → List Person → List Text → List Reply
  unfolding request visit
  handle_who asker_is_operator people ps =
      let (mask, o) = request ps in
      let (replies, lines) = visit asker_is_operator o mask people 100 in
      replies ++ end_of_who mask ∷ (if lines == 0 then too_many_matches mask ∷ [] else [])
