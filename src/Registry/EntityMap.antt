-- ===== src/Registry/EntityMap.antt =====
-- The KINE_HASH_MAP_TYPE containers of home/kineircd/src/lib/registry.h: maps from folded names to
-- the addresses of entities, with the find, insert and erase of the C++ standard library.
use kineircd.Prelude.{
  ℕ, suc, ◌≡◌, refl, List, [], ◌∷◌, arith, length, if◌then◌else◌, Option, none, some, Option-cases,
  inl, inr,
}
use kineircd.Prelude.Text.{Text, text_eq, text_eq_iff}

abbrev pub Entities : Type 0
Entities = List (Text × ℕ)

unfoldable pub find : Text → Entities → Option ℕ
find k [] = none
find k ((j, a) ∷ m) = if text_eq j k then some a else find k m

-- insert() leaves the map as it is if it holds the key.
unfoldable pub insert : Text → ℕ → Entities → Entities
unfolding find
insert k a m = elim (find k m) [ none ↦ (k, a) ∷ m | some _ ↦ m ]

unfoldable pub erase : Text → Entities → Entities
erase k [] = []
erase k ((j, a) ∷ m) = let rest = erase k m in if text_eq j k then rest else (j, a) ∷ rest

-- No key stands in the map twice.
abbrev pub AreDistinct : Entities → Type 0
AreDistinct [] = Unit {0}
AreDistinct ((k, a) ∷ m) = (find k m ≡ none) × AreDistinct m

pub find-insert :
    (k j : Text) (a : ℕ) (m : Entities)
    → find k m ≡ none
    → find j (insert k a m) ≡ (if text_eq k j then some a else find j m)
unfolding insert find
find-insert k j a m h = rw (h, insert)

pub insert_present :
    (k : Text) (a : ℕ) {b : ℕ} (m : Entities) → find k m ≡ some b → insert k a m ≡ m
unfolding insert
insert_present k a m h = rw (h, insert)

pub find-erase :
    (k j : Text) (m : Entities) → find j (erase k m) ≡ (if text_eq k j then none else find j m)
unfolding find erase
find-erase k j [] = ground arith
find-erase k j ((i, a) ∷ m) =
    ground (arith, text_eq_iff k j, text_eq_iff i k, text_eq_iff i j, find-erase k j m)

pub insert-AreDistinct :
    (k : Text) (a : ℕ) (m : Entities) → AreDistinct m → AreDistinct (insert k a m)
unfolding insert
insert-AreDistinct k a m d = elim (Option-cases (find k m)) [
  | inl e ↦ rw (e, insert) (e, d)
  | inr (b, e) ↦ rw (insert_present k a m e) d
]

pub erase-AreDistinct : (k : Text) (m : Entities) → AreDistinct m → AreDistinct (erase k m)
unfolding erase
erase-AreDistinct k [] d = tt
erase-AreDistinct k ((j, a) ∷ m) d = ground (arith, erase-AreDistinct k m d.1, find-erase k j m)

pub erase_absent : (k : Text) (m : Entities) → find k m ≡ none → erase k m ≡ m
unfolding erase find
erase_absent k [] h = refl
erase_absent k ((j, a) ∷ m) h = ground (arith, erase_absent k m)

pub length-insert :
    (k : Text) (a : ℕ) (m : Entities) → find k m ≡ none → length (insert k a m) ≡ suc (length m)
unfolding insert
length-insert k a m h = rw (h, insert)

pub length-erase :
    (k : Text) (a : ℕ) (m : Entities)
    → AreDistinct m
    → find k m ≡ some a
    → length m ≡ suc (length (erase k m))
unfolding erase find
length-erase k a [] d h = cc
length-erase k a ((j, b) ∷ m) d h =
    ground (arith, text_eq_iff j k, length-erase k a m d.1, erase_absent k m)
