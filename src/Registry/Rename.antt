-- ===== src/Registry/Rename.antt =====
-- The cases of change_user_nickname that its callers can meet.
use kineircd.Prelude.{ℕ, ◌≡◌, ◌≢◌, refl, arith, true, false, some}
use kineircd.Prelude.Text.{Text, text_eq, text_eq_iff}
use kineircd.Error.{no_error}
use kineircd.Name.{irc_to_lower}
use kineircd.Name.Nickname
use kineircd.Registry.EntityMap.{Entities, find, erase, insert_present, find-erase}
use kineircd.Registry.{Entity, find_entity, change_user_nickname}
use kineircd.Registry.Refinement.{same}

-- A user who is registered under one name only is renamed to a valid nickname that another user
-- holds. The answer is that all went well, and no name finds the user any more: the entry of the
-- old name is erased before the insertion under the new name, which the map refuses. The other
-- user keeps the nickname.
pub change_user_nickname_taken :
    (limit : ℕ) (users : Entities) (user : Entity) (new_nickname : Text) (other : ℕ)
    → other ≢ user.address
    → find_entity users new_nickname ≡ some other
    → find_entity users user.name ≡ some user.address
    → ((n : Text) → find_entity users n ≡ some user.address → same user.name n ≡ true)
    → Nickname.check_validity limit new_nickname ≡ no_error
    → let (error, users') = change_user_nickname limit users user new_nickname in
      (error ≡ no_error)
      × (find_entity users' new_nickname ≡ some other)
      × ((n : Text) → find_entity users' n ≢ some user.address)
unfolding change_user_nickname find_entity
change_user_nickname_taken limit users user new other ne taken own only valid =
    let old_key = irc_to_lower user.name in
    let new_key = irc_to_lower new in
    let left = erase old_key users in
    let apart : text_eq new_key old_key ≡ false = ground (arith, text_eq_iff new_key old_key) in
    let kept : find new_key left ≡ some other = ground (
      arith,
      text_eq_iff new_key old_key,
      text_eq_iff old_key new_key,
      find-erase old_key new_key users,
    ) in
    rw (apart, own, valid, insert_present new_key user.address left kept)
      (refl, kept, λ n e. ground (arith, find-erase old_key (irc_to_lower n) users, only n))
