-- ===== src/Irc2User/Services.antt =====
-- SQUERY: handleSQUERY, home/kineircd/src/mod_irc2user/handlers.cpp.
pub mod Limit
use kineircd.Prelude.{
  ℕ, ◌+◌, ◌%◌, ◌^◌, Bool, true, false, ◌||◌, List, [], ◌∷◌, ◌++◌, Option, none, some, if◌then◌else◌,
  ltb,
}
use kineircd.Prelude.Text.{Text}
use kineircd.Error.{Error, is_ok}
use kineircd.Network.{Lists, find_message_target}
use kineircd.Irc2.Tokens.{Tokens}
use kineircd.Irc2.Tokens.Listed.{listed}

-- What the command does: the call of sendQuery of a service (its address), and the numerics.
-- `no_such_service` tells whether the target is there and is no service.
pub data Event : Type 0 where
  query : ℕ → Text → Event
  cannot_send : Text → Event
  no_such_service : Text → Bool → Event
  too_many_targets no_recipient no_text_to_send : Event

-- The user's standing, the configuration's limit (an unsigned int of 32 bits), the registry, and
-- the services, whose sendQuery is virtual.
pub record Surroundings : Type 0 where
  pub is_operator : Bool
  pub max_targets : ℕ
  pub localise : Text → Text
  pub delocalise : Text → Text
  pub lists : Lists
  pub is_service : ℕ → Bool
  pub name_of : ℕ → Text
  pub answer : ℕ → Text → Error

module _ (env : Surroundings) (text : Text) where
  open env use {is_operator, localise, delocalise, lists, is_service, name_of, answer}

  -- One target.
  unfoldable pub ask : Text → List Event
  unfolding find_message_target
  ask target = elim (find_message_target lists (localise target) true) [
    | none ↦ no_such_service target false ∷ []
    | some receiver ↦
        let message = localise text in
        if is_service receiver
        then query receiver message
          ∷ (if is_ok (answer receiver message)
              then []
              else cannot_send (delocalise (name_of receiver)) ∷ [])
        else no_such_service target true ∷ []
  ]

  -- The loop, with the number that is left, which `--` takes around below 0.
  unfoldable pub visit : List Text → ℕ → List Event
  unfolding ask
  visit [] targets = []
  visit (target ∷ ts) targets =
      let left = (targets + 0xffff_ffff) % 2 ^ 32 in
      let rest = visit ts left in
      if ltb 0 left || is_operator then ask target ++ rest else too_many_targets ∷ []

unfoldable pub handle_squery : Tokens → Surroundings → List Text → Option (List Event)
unfolding visit listed
handle_squery t env [] = some (no_recipient ∷ [])
handle_squery t env (recipients ∷ []) = some (no_text_to_send ∷ [])
handle_squery t env (recipients ∷ text ∷ ps) = elim (listed t recipients) [
  | none ↦ none
  | some targets ↦ some (visit env text targets env.max_targets)
]
