-- ===== src/Daemon/Sets.antt =====
-- Membership in the sets of descriptors.
use kineircd.Prelude.{
  ℕ, ◌≡◌, ap, sym, ◌∙◌, true, false, ◌||◌, ◌&&◌, not, List, [], ◌∷◌, ◌==◌, ==_iff, arith,
  Bool-cases, inl, inr,
}
use kineircd.Daemon.{member, insert, erase}

pub true-false : true ≡ false → ⊥
true-false e = cc

pub member-insert : (x y : ℕ) (s : List ℕ) → member x (insert y s) ≡ (y == x) || member x s
unfolding member insert
member-insert x y s = elim (Bool-cases (member y s)) [
  | inr e ↦ rw (insert, e)
  | inl e ↦ elim (Bool-cases (y == x)) [
    | inr f ↦ rw (insert, e, f)
    | inl f ↦ rw (insert, e, f) (ap (λ z. member z s) (sym ((==_iff y x).0 f)) ∙ e)
  ]
]

pub member-erase : (x y : ℕ) (s : List ℕ) → member x (erase y s) ≡ not (y == x) && member x s
unfolding member erase
member-erase x y [] = ground arith
member-erase x y (z ∷ s) = ground (arith, member-erase x y s)

pub member-tail :
    (y x : ℕ) (s : List ℕ) → (y == x) ≡ false → member x (y ∷ s) ≡ true → member x s ≡ true
unfolding member
member-tail y x s e h = ground (arith, e, h)

pub member-differs :
    (x y : ℕ) (s : List ℕ) → member x s ≡ true → member y s ≡ false → (y == x) ≡ false
member-differs x y s h k = elim (Bool-cases (y == x)) [
  | inr e ↦ e
  | inl e ↦ absurd (true-false (sym h ∙ ap (λ z. member z s) (sym ((==_iff y x).0 e)) ∙ k))
]

pub erased :
    (x y : ℕ) (s : List ℕ) → (y == x) ≡ false → member x s ≡ true → member x (erase y s) ≡ true
erased x y s e h = rw (member-erase x y s, e, h)

pub left :
    (x y : ℕ) (s : List ℕ) → member x (erase y s) ≡ true → ((y == x) ≡ false) × (member x s ≡ true)
left x y s h = elim (Bool-cases (y == x)) [
  | inl e ↦ absurd (true-false (sym h ∙ member-erase x y s ∙ rw e))
  | inr e ↦ (e, sym (member-erase x y s ∙ rw e) ∙ h)
]
