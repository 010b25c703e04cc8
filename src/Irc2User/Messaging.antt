-- ===== src/Irc2User/Messaging.antt =====
-- PRIVMSG and NOTICE: Protocol::doMessage, home/kineircd/src/mod_irc2user/messaging.cpp.
pub mod Targets
pub mod Silence
pub mod Total
use kineircd.Prelude.{
  ℕ, zero, suc, ◌+◌, ◌-◌, ◌%◌, ◌^◌, Bool, true, false, ◌||◌, List, [], ◌∷◌, ◌++◌, Option, none,
  some, if◌then◌else◌, ltb, is_empty, length, not,
}
use kineircd.Prelude.Text.{Text}
use kineircd.Error.{Error, no_error, unsupported_by_entity, is_ok}
use kineircd.Network.{Lists, find_message_target}
use kineircd.Irc2.Tokens.{Tokens}

-- What the command does, in order: the calls of sendMessage and sendNotice of a receiver (its
-- address), and the numerics. `cannot_send` tells whether the target is a channel, and whether it
-- does not support messages.
pub data Event : Type 0 where
  message_to : ℕ → Text → Event
  notice_to : ℕ → Text → Event
  away : ℕ → Event
  cannot_send : Text → Bool → Bool → Event
  no_such_nick : Text → Event
  too_many_targets : Event
  no_recipient : Event
  no_text_to_send : Event

-- The user's standing, the configuration's limit (an unsigned int of 32 bits), the character set
-- conversion, the registry, and the receivers, whose sendMessage is virtual.
pub record Surroundings : Type 0 where
  pub is_operator : Bool
  pub max_targets : ℕ
  pub localise : Text → Text
  pub lists : Lists
  pub answer : ℕ → Text → Error
  pub is_away : ℕ → Bool
  pub is_channel : ℕ → Bool

abbrev pub is_unsupported : Error → Bool
is_unsupported unsupported_by_entity = true
is_unsupported _ = false

module _ (env : Surroundings) (is_notice : Bool) (text : Text) where
  open env use {is_operator, localise, lists, answer, is_away, is_channel}

  -- The numeric goes out only for a PRIVMSG.
  unfoldable pub complain : Event → List Event
  complain e = if is_notice then [] else e ∷ []

  unfoldable pub send : Text → ℕ → List Event
  send target receiver =
      let message = localise text in
      let error = answer receiver message in
      if is_notice
      then notice_to receiver message ∷ []
      else if is_ok error
      then message_to receiver message ∷ (if is_away receiver then away receiver ∷ [] else [])
      else message_to receiver message
        ∷ cannot_send target (is_channel receiver) (is_unsupported error)
        ∷ []

  -- One target of the list.
  unfoldable pub tell : Text → List Event
  unfolding complain send
  tell target =
      if is_empty target
      then complain (no_such_nick target)
      else elim (find_message_target lists (localise target) true) [
        | none ↦ complain (no_such_nick target)
        | some receiver ↦ send target receiver
      ]

module _ (t : Tokens) (env : Surroundings) (is_notice : Bool) (text : Text) where
  open t use {Stream, tokens, has_more, next}

  -- The loop; `targets` is the number that is left, which `--` takes around below 0. `none` means
  -- that the fuel ran out.
  unfoldable pub visit : ℕ → ℕ → Stream → Option (List Event)
  unfolding tell complain
  visit zero targets s = none
  visit (suc fuel) targets s =
      let (target, s') = next b',' s in
      let left = (targets + 0xffff_ffff) % 2 ^ 32 in
      let told = tell env is_notice text target in
      let more = visit fuel left s' in
      if not (has_more s)
      then some []
      else if ltb 0 left || env.is_operator
      then elim more [ none ↦ none | some events ↦ some (told ++ events) ]
      else some (complain env is_notice text too_many_targets)

-- The length of the list of targets is fuel enough.
unfoldable pub do_message : Tokens → Surroundings → Bool → List Text → Option (List Event)
unfolding visit complain
do_message t env is_notice [] = some (complain env is_notice [] no_recipient)
do_message t env is_notice (targets ∷ []) = some (complain env is_notice [] no_text_to_send)
do_message t env is_notice (targets ∷ text ∷ ps) =
    visit t env is_notice text (suc (length targets)) env.max_targets (t.tokens targets)
