-- ===== src/Irc2User/Names/Replies.antt =====
-- How the members of a channel are spread over the replies.
use kineircd.Prelude.{
  ℕ, ◌+◌, ◌-◌, ◌≡◌, ◌≢◌, ◌≤◌, refl, ap, subst, List, [], ◌∷◌, ◌++◌, if◌then◌else◌, ltb, length, All,
  arith, Bool-cases, inl, inr, map, append_assoc,
}
use kineircd.Prelude.Text.{Text}
use kineircd.Irc2User.Spaced.{
  spaced, concat, is_empty-spaced, added-spaced, nonempty-snoc, length-snoc,
}
use kineircd.Irc2User.Names.{Member, Asker, can_see, send_names_from, send_names}

-- The replies are the names in order, in groups, each below the limit.
pub record AreReplies (limit : ℕ) (names outputs : List Text) : Type 0 where
  pub groups : List (List Text)
  pub sent : outputs ≡ map spaced groups
  pub complete : concat groups ≡ names
  pub short : All (λ o. length o ≤ limit - 1) outputs

AreReplies-cons :
    (limit : ℕ) (g names outputs : List Text)
    → length (spaced g) ≤ limit - 1
    → AreReplies limit names outputs
    → AreReplies limit (g ++ names) (spaced g ∷ outputs)
AreReplies-cons limit g names outputs short h = record {
  groups = g ∷ h.groups;
  sent = ap (λ os. spaced g ∷ os) h.sent;
  complete = ap (λ ws. g ++ ws) h.complete;
  short = (short, h.short);
}

AreReplies-nil : (limit : ℕ) → AreReplies limit [] []
AreReplies-nil limit = record { groups = []; sent = refl; complete = refl; short = tt }

module _ (delocalise : Text → Text) (limit : ℕ) (a : Asker) where
  -- A member whose nickname fits in a reply, and is not longer when it is delocalised.
  abbrev pub Fits : Member → Type 0
  Fits m =
      (delocalise m.nickname ≢ [])
      × (length (delocalise m.nickname) ≤ length m.nickname)
      × (length m.nickname + 2 ≤ limit)

  -- The specification: the nicknames of the members that the user can see, in order.
  abbrev pub visible : List Member → List Text
  visible [] = []
  visible (m ∷ ms) =
      let rest = visible ms in if can_see a m then delocalise m.nickname ∷ rest else rest

  send_names_from-AreReplies :
      (g : List Text) (ms : List Member)
      → length (spaced g) ≤ limit - 1
      → All (λ w. w ≢ []) g
      → All Fits ms
      → AreReplies limit (g ++ visible ms) (send_names_from delocalise limit a (spaced g) ms)
  unfolding send_names_from
  send_names_from-AreReplies [] [] s n f = AreReplies-nil limit
  send_names_from-AreReplies (w ∷ g) [] s n f =
      rw (is_empty-spaced (w ∷ g) n) (AreReplies-cons limit (w ∷ g) [] [] s (AreReplies-nil limit))
  send_names_from-AreReplies g (m ∷ ms) s n f = elim (Bool-cases (can_see a m)) [
    | inr e ↦ rw e (send_names_from-AreReplies g ms s n f.1)
    | inl e ↦
        let name = delocalise m.nickname in
        elim (Bool-cases (ltb limit (length (spaced g) + length m.nickname + 2))) [
          | inl long ↦
              rw (e, long)
                (AreReplies-cons limit g (name ∷ visible ms) _ s
                  (send_names_from-AreReplies (name ∷ []) ms (omega (arith, f.0)) (f.0.0, tt) f.1))
          | inr fits ↦
              let next = g ++ name ∷ [] in
              let below : length (spaced next) ≤ limit - 1 =
                ground (arith, length-snoc g name, f.0) in
              rw (e, fits, added-spaced g name n)
                (subst
                  (λ ws. AreReplies limit ws (send_names_from delocalise limit a (spaced next) ms))
                  (append_assoc g (name ∷ []) (visible ms))
                  (send_names_from-AreReplies next ms below (nonempty-snoc g name n f.0.0) f.1))
        ]
  ]

  -- If no nickname is empty, every nickname with two characters more is within the limit, and none
  -- is longer when it is delocalised, then the members that the user can see are sent, each once
  -- and in order, and every reply stays below the limit.
  pub send_names-AreReplies :
      (ms : List Member)
      → All Fits ms
      → AreReplies limit (visible ms) (send_names delocalise limit a ms)
  unfolding send_names
  send_names-AreReplies ms f = send_names_from-AreReplies [] ms (omega arith) tt f
