-- ===== src/Irc2User/Names.antt =====
-- Protocol::sendNames and Protocol::sendLanguageList,
-- home/kineircd/src/mod_irc2user/protocol.cpp.
pub mod Replies
pub mod Languages
use kineircd.Prelude.{
  ℕ, ◌+◌, ◌-◌, ◌%◌, ◌^◌, Bool, true, false, ◌||◌, ◌&&◌, not, List, [], ◌∷◌, ◌++◌, Option, none,
  some, if◌then◌else◌, ltb, is_empty, length,
}
use kineircd.Prelude.Text.{Text, codes}

-- A member of a channel, for the user who asks.
pub record Member : Type 0 where
  pub nickname : Text
  pub hidden : Bool

-- The user who asks, and the channel.
pub record Asker : Type 0 where
  pub is_operator : Bool
  pub is_staff : Bool
  pub is_member : Bool
  pub channel_hidden : Bool

abbrev pub can_see : Asker → Member → Bool
can_see a m = a.is_operator || a.is_staff || a.is_member || (not a.channel_hidden && not m.hidden)

-- maxOutputLength, an unsigned int of 32 bits, from the lengths of the user's nickname and the
-- server's name; maxMessageSize is 512.
unfoldable pub max_reply_length : ℕ → ℕ → ℕ
max_reply_length nickname server = (2 ^ 64 + 512 - (nickname + server + 15)) % 2 ^ 32

module _ (delocalise : Text → Text) (limit : ℕ) (a : Asker) where
  -- The loop: the replies that are sent.
  unfoldable pub send_names_from : Text → List Member → List Text
  send_names_from reply [] = if is_empty reply then [] else reply ∷ []
  send_names_from reply (m ∷ ms) =
      let name = delocalise m.nickname in
      let added = if is_empty reply then name else reply ++ b' ' ∷ name in
      let skipped = send_names_from reply ms in
      let fresh = send_names_from name ms in
      let same = send_names_from added ms in
      if can_see a m
      then if ltb limit (length reply + length m.nickname + 2) then reply ∷ fresh else same
      else skipped

  unfoldable pub send_names : List Member → List Text
  unfolding send_names_from
  send_names ms = send_names_from [] ms

-- The code and the name of a language.
pub record Language : Type 0 where
  pub code : Text
  pub name : Text

-- The codes, behind those that are there. A null language has the code that stands for none.
unfoldable pub language_codes : Text → Text → List (Option Language) → Text
language_codes null_code langs [] = langs
language_codes null_code langs (l ∷ ls) =
    let comma = if is_empty langs then [] else langs ++ b',' ∷ [] in
    language_codes null_code (comma ++ (elim l [ none ↦ null_code | some x ↦ x.code ])) ls

-- The codes and the name that RPL_YOURLANGUAGEIS has; `none` is the use of the first language
-- where there is none, or where it is null.
unfoldable pub send_language_list : Text → List (Option Language) → Option (Text × Text)
unfolding language_codes
send_language_list null_code [] = none
send_language_list null_code (none ∷ ls) = none
send_language_list null_code (some l ∷ ls) =
    some (language_codes null_code [] (some l ∷ ls), l.name)
