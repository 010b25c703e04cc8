-- ===== src/Membership.antt =====
-- The users of a server: Server::addUser (home/kineircd/src/lib/server.cpp) and User::quit
-- (home/kineircd/src/lib/user.cpp), which keep the registry and the two user counts in step.
pub mod Counts
use kineircd.Prelude.{ℕ, Bool, true, false, ◌==◌, if◌then◌else◌}
use kineircd.Prelude.Text.{Text}
use kineircd.Error.{Error, no_error, servers_dont_match, is_ok}
use kineircd.Name.Nickname
use kineircd.Registry.{Entity, add_entity, remove_entity}
use kineircd.Registry.EntityMap.{Entities}

-- AIS::Util::PeakCount<unsigned int>, which is not in the repository: `++` and `--`.
pub record Counter : Type 1 where
  pub Count : Type 0
  pub value : Count → ℕ
  pub increase : Count → Count
  pub decrease : Count → Count

pub record User : Type 0 where
  pub entity : Entity
  pub server : ℕ

module _ (c : Counter) where
  open c use {Count, value, increase, decrease}

  -- The registry's users, the count that each server (an address) keeps, and the network's count.
  pub record Network : Type 0 where
    pub users : Entities
    pub server_count : ℕ → Count
    pub user_count : Count

  abbrev update : ℕ → (Count → Count) → (ℕ → Count) → ℕ → Count
  update server f counts s = if s == server then f (counts s) else counts s

  unfoldable pub add_user : ℕ → ℕ → User → Network → Error × Network
  add_user limit server user n =
      if user.server == server
      then (let (error, users') = add_entity (Nickname.check_validity limit) n.users user.entity in
          if is_ok error
          then (
            error,
            record n {
              users = users';
              server_count = update server increase n.server_count;
              user_count = increase n.user_count;
            },
          )
          else (error, record n { users = users' }))
      else (servers_dont_match, n)

  -- The counts go down before the registry is asked, whatever it answers.
  unfoldable pub quit : User → Network → Error × Network
  quit user n =
      let (error, users') = remove_entity n.users user.entity in
      (
        error,
        record n {
          users = users';
          server_count = update user.server decrease n.server_count;
          user_count = decrease n.user_count;
        },
      )

  -- The other overload: the reason is not used.
  abbrev quit_with_reason : Text → User → Network → Error × Network
  quit_with_reason reason user n = quit user n
