-- ===== src/Irc2User/UserHost.antt =====
-- USERHOST and USERIP: handleUSERHOST and handleUSERIP,
-- home/kineircd/src/mod_irc2user/handlers.cpp.
pub mod Entries
use kineircd.Prelude.{
  ℕ, ◌+◌, Bool, List, [], ◌∷◌, ◌++◌, Option, none, some, if◌then◌else◌, is_empty, ltb,
}
use kineircd.Prelude.Text.{Text}
use kineircd.Network.{Lists}
use kineircd.Registry.{find_entity}
use kineircd.Irc2User.Who.{Person, shown_host}

-- What is written of a user: the name, a star for an operator, the away mark, the username and the
-- address.
unfoldable pub entry : (Text → Text) → Person → Text → Text
entry delocalise p address =
    delocalise p.nickname
    ++ (if p.is_operator then b'*' ∷ [] else [])
    ++ b'=' ∷ (if p.is_away then b'-' else b'?') ∷ delocalise p.username
    ++ b'@' ∷ address

-- The user at an address in memory, and the text of the entry.
module _ (lists : Lists) (localise : Text → Text) (entry_of : ℕ → Text) where
  -- The loop, with the count of the parameters and the output.
  unfoldable pub visit : List Text → ℕ → Text → Text
  unfolding find_entity
  visit [] count output = output
  visit (p ∷ ps) count output =
      let n = count + 1 in
      let skipped = visit ps n output in
      if ltb 5 n then output else elim (find_entity lists.users (localise p)) [
        | none ↦ skipped
        | some user ↦
            visit ps n (if is_empty output then entry_of user else output ++ b' ' ∷ entry_of user)
      ]

module _ (lists : Lists) (person_of : ℕ → Person) where
  unfoldable pub handle_userhost : (Text → Text) → (Text → Text) → List Text → Text
  unfolding visit entry shown_host
  handle_userhost localise delocalise ps =
      visit lists localise
        (λ user. entry delocalise (person_of user) (delocalise (shown_host (person_of user)))) ps 0
        []

  -- `address_of` and `virtual_address_of` are the network addresses.
  unfoldable pub handle_userip : (ℕ → Text) → (ℕ → Text) → List Text → Text
  unfolding visit entry
  handle_userip address_of virtual_address_of ps =
      visit lists (λ t. t)
        (λ user.
          entry (λ t. t) (person_of user)
            (if (person_of user).hide_host then virtual_address_of user else address_of user))
        ps 0 []
