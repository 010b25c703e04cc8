-- ===== src/Irc2User/Help.antt =====
-- HELP: handleHELP, home/kineircd/src/mod_irc2user/handlers.cpp, with hasAccess of
-- home/kineircd/src/mod_irc2user/commands.h.tpl (see Commands).
pub mod Accessible
use kineircd.Prelude.{
  ℕ, Bool, true, false, ◌&&◌, List, [], ◌∷◌, ◌++◌, Option, none, some, if◌then◌else◌, get_or, drop,
  ◌==◌,
}
use kineircd.Prelude.Text.{Text}
use kineircd.Irc2User.Commands.{CommandInfo, Commands, Standing, has_access}

-- The notices: the usage of a command (its tag), or that it has no parameters, its information (its
-- tag), and the end, with the mask.
pub data Notice : Type 0 where
  usage : Text → ℕ → Notice
  no_parameters : Text → Notice
  information : Text → ℕ → Notice
  help_end : Text → Notice

-- The mask, and whether the help is the extended one.
unfoldable pub help_request : List Text → Text × Bool
help_request [] = (b'*' ∷ [], false)
help_request (p ∷ ps) = if get_or p 0 0 == b'-' then (drop 1 p, true) else (p, false)

-- `matches` is AIS::Util::StringMask, with the mask first; the two tags of a command are null
-- where it has none.
module _ (matches : Text → Text → Bool) (help_usage help_info : Text → Option ℕ) where
  unfoldable pub command_help : Bool → Text → List Notice
  command_help extended name =
      let first : Notice = elim (help_usage name) [
        | none ↦ no_parameters name
        | some tag ↦ usage name tag
      ] in
      let more : List Notice = elim (help_info name) [
        | none ↦ []
        | some tag ↦ information name tag ∷ []
      ] in
      first ∷ (if extended then more else [])

  -- The loop over the commands.
  unfoldable pub visit : Standing → Bool → Text → Commands → List Notice
  unfolding command_help has_access
  visit user extended mask [] = []
  visit user extended mask ((name, info) ∷ list) =
      let rest = visit user extended mask list in
      if matches mask name && has_access info.access user
      then command_help extended name ++ rest
      else rest

  unfoldable pub handle_help : Standing → Commands → List Text → List Notice
  unfolding visit help_request
  handle_help user list ps =
      let (mask, extended) = help_request ps in visit user extended mask list ++ help_end mask ∷ []
