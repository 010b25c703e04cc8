-- ===== src/Registry/Refinement.antt =====
-- The directory that the registry promises: a function from names to addresses that does not see
-- case. The entity lists implement it.
use kineircd.Prelude.{
  ℕ, ◌≡◌, inl, inr, arith, Option, Option-cases, Bool, none, some, if◌then◌else◌, fun_ext,
}
use kineircd.Prelude.Text.{Text, text_eq, text_eq_iff}
use kineircd.Error.{Error, no_error, entity_exists, unregistered_entity, is_ok}
use kineircd.Name.{irc_to_lower}
use kineircd.Name.Nickname
use kineircd.Registry.EntityMap.{
  Entities, find, insert, erase, find-insert, insert_present, find-erase,
}
use kineircd.Registry.{find_entity, add_entity, remove_entity, change_user_nickname}
use kineircd.Registry.Invariant.{Operation, add, remove, rename, step}

abbrev pub Directory : Type 0
Directory = Text → Option ℕ

-- Two names that differ in case only.
abbrev pub same : Text → Text → Bool
same a b = text_eq (irc_to_lower a) (irc_to_lower b)

-- A name that has an address keeps it.
abbrev pub enter : Text → ℕ → Directory → Directory
enter name a d n = if same name n then elim (d name) [ none ↦ some a | some b ↦ some b ] else d n

abbrev pub forget : Text → Directory → Directory
forget name d n = if same name n then none else d n

abbrev pub view : Entities → Directory
view list name = find_entity list name

find-enter :
    (list : Entities) (name n : Text) (a : ℕ)
    → find_entity (insert (irc_to_lower name) a list) n ≡ enter name a (view list) n
unfolding find_entity
find-enter list name n a = elim (Option-cases (find (irc_to_lower name) list)) [
  | inl e ↦ rw e (find-insert (irc_to_lower name) (irc_to_lower n) a list e)
  | inr (b, e) ↦
      rw (e, insert_present (irc_to_lower name) a list e)
        (ground (arith, text_eq_iff (irc_to_lower name) (irc_to_lower n)))
]

view-insert :
    (list : Entities) (name : Text) (a : ℕ)
    → view (insert (irc_to_lower name) a list) ≡ enter name a (view list)
view-insert list name a = fun_ext (λ n. find-enter list name n a)

view-erase :
    (list : Entities) (name : Text)
    → view (erase (irc_to_lower name) list) ≡ forget name (view list)
unfolding find_entity
view-erase list name = fun_ext (λ n. find-erase (irc_to_lower name) (irc_to_lower n) list)

module _ (check : Text → Error) (limit : ℕ) where
  -- What a call promises of the directory, and its answer.
  abbrev pub promise : Directory → Operation → Error × Directory
  promise d (add e) =
      if is_ok (check e.name)
      then elim (d e.name) [
        | none ↦ (no_error, enter e.name e.address d)
        | some _ ↦ (entity_exists, d)
      ]
      else (check e.name, d)
  promise d (remove e) = elim (d e.name) [
    | none ↦ (unregistered_entity, d)
    | some _ ↦ (no_error, forget e.name d)
  ]
  promise d (rename u new) = if same new u.name then (no_error, d) else elim (d u.name) [
    | none ↦ (unregistered_entity, d)
    | some _ ↦
        if is_ok (Nickname.check_validity limit new)
        then (no_error, enter new u.address (forget u.name d))
        else (Nickname.check_validity limit new, d)
  ]

  -- Every call of the registry gives the answer of the directory and leaves the directory that it
  -- promises: lookups after the call, by any name in any case, are those of the directory.
  pub step-promise :
      (list : Entities) (o : Operation)
      → ((step check limit list o).0 ≡ (promise (view list) o).0)
        × (view (step check limit list o).1 ≡ (promise (view list) o).1)
  unfolding add_entity remove_entity change_user_nickname find_entity
  step-promise list (add e) = ground (arith, view-insert list e.name e.address)
  step-promise list (remove e) = ground (arith, view-erase list e.name)
  step-promise list (rename u new) =
      let left = erase (irc_to_lower u.name) list in
      ground (arith, view-insert left new u.address, view-erase list u.name)
