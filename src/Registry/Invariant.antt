-- ===== src/Registry/Invariant.antt =====
-- What holds of an entity list between two calls of the registry.
use kineircd.Prelude.{ℕ, ◌≡◌, List, [], ◌∷◌, arith}
use kineircd.Prelude.Text.{Text}
use kineircd.Error.{Error}
use kineircd.Name.{irc_to_lower}
use kineircd.Name.Fold.{irc_to_lower_idem}
use kineircd.Registry.EntityMap.{
  Entities, insert, erase, AreDistinct, insert-AreDistinct, erase-AreDistinct,
}
use kineircd.Registry.{Entity, add_entity, remove_entity, change_user_nickname}

-- A call of the registry.
pub data Operation : Type 0 where
  add : Entity → Operation
  remove : Entity → Operation
  rename : Entity → Text → Operation

module _ (check : Text → Error) (limit : ℕ) where
  abbrev pub step : Entities → Operation → Error × Entities
  step list (add entity) = add_entity check list entity
  step list (remove entity) = remove_entity list entity
  step list (rename user new_nickname) = change_user_nickname limit list user new_nickname

  abbrev pub run : Entities → List Operation → Entities
  run list [] = list
  run list (o ∷ os) = run (step list o).1 os

abbrev pub AreFolded : Entities → Type 0
AreFolded [] = Unit {0}
AreFolded ((k, a) ∷ m) = (irc_to_lower k ≡ k) × AreFolded m

-- Each key stands once in the list, and is the folded form of a name.
pub record IsWellFormed (m : Entities) : Type 0 where
  pub distinct : AreDistinct m
  pub folded : AreFolded m

erase-AreFolded : (k : Text) (m : Entities) → AreFolded m → AreFolded (erase k m)
unfolding erase
erase-AreFolded k [] h = tt
erase-AreFolded k ((j, a) ∷ m) h = ground (arith, erase-AreFolded k m h.1)

insert-AreFolded :
    (name : Text) (a : ℕ) (m : Entities) → AreFolded m → AreFolded (insert (irc_to_lower name) a m)
unfolding insert
insert-AreFolded name a m h = ground (arith, irc_to_lower_idem name)

insert-IsWellFormed :
    (name : Text) (a : ℕ) (m : Entities)
    → IsWellFormed m
    → IsWellFormed (insert (irc_to_lower name) a m)
insert-IsWellFormed name a m w = record {
  distinct = insert-AreDistinct (irc_to_lower name) a m w.distinct;
  folded = insert-AreFolded name a m w.folded;
}

erase-IsWellFormed : (k : Text) (m : Entities) → IsWellFormed m → IsWellFormed (erase k m)
erase-IsWellFormed k m w = record {
  distinct = erase-AreDistinct k m w.distinct;
  folded = erase-AreFolded k m w.folded;
}

module _ (check : Text → Error) (limit : ℕ) where
  step-IsWellFormed :
      (list : Entities) (o : Operation)
      → IsWellFormed list
      → IsWellFormed (step check limit list o).1
  unfolding add_entity remove_entity change_user_nickname
  step-IsWellFormed list (add e) w = ground (arith, insert-IsWellFormed e.name e.address list w)
  step-IsWellFormed list (remove e) w =
      ground (arith, erase-IsWellFormed (irc_to_lower e.name) list w)
  step-IsWellFormed list (rename u new) w =
      let gone = erase-IsWellFormed (irc_to_lower u.name) list w in
      ground (arith, insert-IsWellFormed new u.address (erase (irc_to_lower u.name) list) gone)

  -- After any calls of the registry on a well-formed list, each key stands once in the list and is the
  -- folded form of a name.
  pub run-IsWellFormed :
      (list : Entities) (os : List Operation)
      → IsWellFormed list
      → IsWellFormed (run check limit list os)
  run-IsWellFormed list [] w = w
  run-IsWellFormed list (o ∷ os) w =
      run-IsWellFormed (step check limit list o).1 os (step-IsWellFormed list o w)
