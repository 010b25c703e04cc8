-- ===== src/Registry.antt =====
-- The registry, the place where all entities live: home/kineircd/src/lib/registry.cpp. An entity
-- is its address in memory with its present name. `findEntity` and its kin are templates over the
-- kind of entity; `check` is the `checkValidity` of that kind.
pub mod EntityMap
pub mod Invariant
pub mod Refinement
pub mod Rename
pub mod Own
use kineircd.Prelude.{ℕ, true, false, List, [], Option, none, some, if◌then◌else◌}
use kineircd.Prelude.Text.{Text, text_eq}
use kineircd.Error.{Error, no_error, entity_exists, unregistered_entity, is_ok}
use kineircd.Name.{irc_to_lower}
use kineircd.Name.Nickname
use EntityMap.{Entities, find, insert, erase}

pub record Entity : Type 0 where
  pub address : ℕ
  pub name : Text

unfoldable pub find_entity : Entities → Text → Option ℕ
find_entity list name = find (irc_to_lower name) list

unfoldable pub add_entity : (Text → Error) → Entities → Entity → Error × Entities
unfolding find_entity
add_entity check list entity =
    if is_ok (check entity.name)
    then elim (find_entity list entity.name) [
      | none ↦ (no_error, insert (irc_to_lower entity.name) entity.address list)
      | some _ ↦ (entity_exists, list)
    ]
    else (check entity.name, list)

unfoldable pub remove_entity : Entities → Entity → Error × Entities
remove_entity list entity = elim (find (irc_to_lower entity.name) list) [
  | some _ ↦ (no_error, erase (irc_to_lower entity.name) list)
  | none ↦ (unregistered_entity, list)
]

-- The user keeps its nickname here: the caller changes it. `limit` is the configuration's maximum
-- nickname length.
unfoldable pub change_user_nickname : ℕ → Entities → Entity → Text → Error × Entities
change_user_nickname limit users user new_nickname =
    if text_eq (irc_to_lower new_nickname) (irc_to_lower user.name)
    then (no_error, users)
    else elim (find (irc_to_lower user.name) users) [
      | some _ ↦
          if is_ok (Nickname.check_validity limit new_nickname)
          then (
            no_error,
            insert (irc_to_lower new_nickname) user.address (erase (irc_to_lower user.name) users),
          )
          else (Nickname.check_validity limit new_nickname, users)
      | none ↦ (unregistered_entity, users)
    ]
