-- ===== src/Irc2User/Welcome/Refused.antt =====
-- A user whose name is taken when the connection becomes that of a user.
use kineircd.Prelude.{ℕ, ◌≡◌, refl, ◌∙◌, ◌==◌, true, none, some, arith}
use kineircd.Prelude.Text.{Text, text_eq_refl}
use kineircd.Error.{Error, no_error, entity_exists, is_ok}
use kineircd.Name.{irc_to_lower}
use kineircd.Name.Nickname
use kineircd.Registry.{Entity, add_entity, remove_entity, find_entity}
use kineircd.Registry.EntityMap.{Entities, find, erase, find-erase}
use kineircd.Membership.{Counter, User, Network, add_user, quit}
use kineircd.Irc2User.Welcome.{Greeting, charsets, construct}

add_entity_taken :
    (check : Text → Error) (users : Entities) (entity : Entity) (holder : ℕ)
    → find_entity users entity.name ≡ some holder
    → is_ok (check entity.name) ≡ true
    → add_entity check users entity ≡ (entity_exists, users)
unfolding add_entity
add_entity_taken check users entity holder h v = rw (add_entity, v, h) refl

remove_entity_held :
    (users : Entities) (entity : Entity) (holder : ℕ)
    → find (irc_to_lower entity.name) users ≡ some holder
    → remove_entity users entity ≡ (no_error, erase (irc_to_lower entity.name) users)
unfolding remove_entity
remove_entity_held users entity holder h = rw (remove_entity, h) refl

module _ (c : Counter) (limit server : ℕ) (language_error : Error) (delocalise : Text → Text) where
  add_user_taken :
      (user : User) (n : Network c) (holder : ℕ)
      → find_entity n.users user.entity.name ≡ some holder
      → is_ok (Nickname.check_validity limit user.entity.name) ≡ true
      → user.server ≡ server
      → add_user c limit server user n ≡ (entity_exists, n)
  unfolding add_user
  add_user_taken user n holder h v s =
      let own : (user.server == server) ≡ true = ground arith in
      let taken = add_entity_taken (Nickname.check_validity limit) n.users user.entity holder h v in
      rw (add_user, own, taken) refl

  quit_taken :
      (user : User) (n : Network c) (holder : ℕ)
      → find_entity n.users user.entity.name ≡ some holder
      → ((quit c user n).0 ≡ no_error)
        × (find_entity (quit c user n).1.users user.entity.name ≡ none)
  unfolding quit find_entity
  quit_taken user n holder h =
      let key = irc_to_lower user.entity.name in
      let erased : find key (erase key n.users) ≡ none =
        find-erase key key n.users ∙ rw (text_eq_refl key) refl in
      rw (quit, remove_entity_held n.users user.entity holder h) (refl, erased)

  -- A user with a valid name that somebody else holds: the connection still becomes that of a user,
  -- who is told nothing; when that user quits, the name is removed from the registry although it
  -- belongs to its holder.
  pub construct_taken :
      (g : Greeting) (user : User) (n : Network c) (holder : ℕ)
      → find_entity n.users user.entity.name ≡ some holder
      → is_ok (Nickname.check_validity limit user.entity.name) ≡ true
      → user.server ≡ server
      → let made = construct c limit server language_error delocalise g user n in
        (made.0 ≡ charsets)
        × ((quit c user made.1).0 ≡ no_error)
        × (find_entity (quit c user made.1).1.users user.entity.name ≡ none)
  unfolding construct
  construct_taken g user n holder h v s =
      rw (construct, add_user_taken user n holder h v s)
        (refl, (quit_taken user n holder h).0, (quit_taken user n holder h).1)
