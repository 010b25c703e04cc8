-- ===== src/Membership/Counts.antt =====
-- The network's user count against the registry.
use kineircd.Prelude.{ℕ, ◌+◌, ◌≡◌, refl, arith, length, none, some, [], ◌∷◌, ◌<◌, ◌≢◌}
use kineircd.Error.{unregistered_entity}
use kineircd.Name.{irc_to_lower}
use kineircd.Registry.{add_entity, remove_entity, find_entity}
use kineircd.Registry.EntityMap.{
  Entities, AreDistinct, length-insert, length-erase, insert-AreDistinct, erase-AreDistinct,
}
use kineircd.Membership.{Counter, User, Network, add_user, quit}

-- What `++` and `--` do to the value of a count, away from the ends of its range.
pub record IsCounter (c : Counter) : Type 0 where
  pub value-increase :
      (x : c.Count) → c.value x < 0xffff_ffff → c.value (c.increase x) ≡ c.value x + 1
  pub value-decrease : (x : c.Count) → 0 < c.value x → c.value (c.decrease x) + 1 ≡ c.value x

nonempty : (m : Entities) → m ≢ [] → 0 < length m
nonempty [] k = absurd (k refl)
nonempty (x ∷ m) k = omega arith

module _ (c : Counter) (l : IsCounter c) where
  -- The network's count is the number of users that the registry holds.
  pub record IsCounted (n : Network c) : Type 0 where
    pub distinct : AreDistinct n.users
    pub counted : c.value n.user_count ≡ length n.users

  -- While the number of users is below the counter's maximum, adding a user keeps the network's
  -- count right, whether the user is accepted or not.
  pub add_user-IsCounted :
      (limit server : ℕ) (user : User) (n : Network c)
      → length n.users < 0xffff_ffff
      → IsCounted n
      → IsCounted (add_user c limit server user n).1
  unfolding add_user add_entity find_entity
  add_user-IsCounted limit server user n room h = record {
    distinct = ground (
      arith,
      h.distinct,
      insert-AreDistinct (irc_to_lower user.entity.name) user.entity.address n.users,
    );
    counted = ground (
      arith,
      h.counted,
      l.value-increase n.user_count,
      length-insert (irc_to_lower user.entity.name) user.entity.address n.users,
    );
  }

  -- A user whose name the registry holds quits: the network's count, if it was right, stays right.
  pub quit-IsCounted :
      (user : User) (n : Network c) (a : ℕ)
      → find_entity n.users user.entity.name ≡ some a
      → IsCounted n
      → IsCounted (quit c user n).1
  unfolding quit remove_entity find_entity
  quit-IsCounted user n a e h =
      let k = irc_to_lower user.entity.name in
      record {
        distinct = ground (arith, h.distinct, erase-AreDistinct k n.users);
        counted =
            ground (
              arith,
              h.counted,
              l.value-decrease n.user_count,
              length-erase k a n.users h.distinct,
            );
      }

  -- The count is right and there are users. A user that the registry does not hold quits, as after
  -- a refused add_user: the call reports an error and leaves the registry as it was, but the count
  -- falls below the number of users.
  pub quit_unregistered :
      (user : User) (n : Network c)
      → find_entity n.users user.entity.name ≡ none
      → n.users ≢ []
      → IsCounted n
      → ((quit c user n).0 ≡ unregistered_entity)
        × ((quit c user n).1.users ≡ n.users)
        × (c.value (quit c user n).1.user_count < length n.users)
  unfolding quit remove_entity find_entity
  quit_unregistered user n e some_user h = (
    rw (e, remove_entity),
    rw (e, remove_entity),
    omega (arith, l.value-decrease n.user_count, h.counted, nonempty n.users some_user),
  )
