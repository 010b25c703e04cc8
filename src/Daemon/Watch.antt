-- ===== src/Daemon/Watch.antt =====
-- The descriptors that the main loop watches.
use kineircd.Prelude.{
  ℕ, ◌≡◌, ◌<◌, refl, ap, sym, subst, ◌∙◌, true, false, List, [], ◌∷◌, Option, none, some, ◌==◌,
  ==_iff, arith, ltb, Bool-cases, Option-cases, inl, inr,
}
use kineircd.Prelude.Text.{codes}
use kineircd.Daemon.{
  Daemon, Event, Poll, member, find_protocol, primary, watch, watched, fd_setsize, new_connection,
  accept_one, accept_all, serve, drop_connection, turn, start_watching, watch_listeners,
}
use kineircd.Daemon.Sets.{true-false, member-insert, member-tail, member-differs, erased, left}

-- A descriptor that select looks at.
abbrev pub IsWatched : Daemon → ℕ → Type 0
IsWatched d fd = (member fd d.in_set ≡ true) × (fd < d.max_descriptors)

-- The listeners and the connections are watched, and no connection has a listener's descriptor.
abbrev pub AreWatched : List ℕ → Daemon → Type 0
AreWatched listeners d =
    ((fd : ℕ) → member fd listeners ≡ true → IsWatched d fd)
    × ((fd : ℕ) → member fd d.connections ≡ true → IsWatched d fd × (member fd listeners ≡ false))

watched-IsWatched :
    (fd : ℕ) (d : Daemon)
    → IsWatched (watched fd d) fd
      × ((other : ℕ) → IsWatched d other → IsWatched (watched fd d) other)
unfolding watched
watched-IsWatched fd d = (
  (ground (arith, member-insert fd fd d.in_set), ground arith),
  λ other h. (ground (arith, h.0, member-insert other fd d.in_set), ground (arith, h.1)),
)

-- The listeners and what was watched before are watched; the connections are as before.
abbrev AreAdded : List ℕ → Daemon → Option Daemon → Type 0
AreAdded fds d none = Unit
AreAdded fds d (some s) =
    ((fd : ℕ) → member fd fds ≡ true → IsWatched s fd)
    × ((other : ℕ) → IsWatched d other → IsWatched s other)
    × (s.connections ≡ d.connections)

AreAdded-watched :
    (l : ℕ) (fds : List ℕ) (d : Daemon) (o : Option Daemon)
    → AreAdded fds (watched l d) o
    → AreAdded (l ∷ fds) d o
unfolding watched
AreAdded-watched l fds d none h = tt
AreAdded-watched l fds d (some s) (each, others, same) =
    let (first, kept) = watched-IsWatched l d in
    (
      λ fd h. elim (Bool-cases (l == fd)) [
        | inl e ↦ subst (IsWatched s) ((==_iff l fd).0 e) (others l first)
        | inr e ↦ each fd (member-tail l fd fds e h)
      ],
      λ other h. others other (kept other h),
      same,
    )

watch_listeners-AreAdded : (fds : List ℕ) (d : Daemon) → AreAdded fds d (watch_listeners fds d)
unfolding watch_listeners member
watch_listeners-AreAdded [] d =
    (λ fd h. absurd cc, λ other h. (ground (arith, h.0, member-insert other 0 d.in_set), h.1), refl)
watch_listeners-AreAdded (l ∷ fds) d = elim (Bool-cases (ltb l fd_setsize)) [
  | inr e ↦ rw (watch_listeners, watch, e) tt
  | inl e ↦
      rw (watch_listeners, watch, e)
        (AreAdded-watched l fds d (watch_listeners fds (watched l d))
          (watch_listeners-AreAdded fds (watched l d)))
]

-- accept gives no descriptor that a listener has.
abbrev pub IsFresh : List ℕ → Poll → Type 0
IsFresh listeners p =
    (listener fd : ℕ) → p.accepted listener ≡ some fd → member fd listeners ≡ false

-- What is left of the invariant where there is a result.
abbrev pub StillWatched : List ℕ → Option (List Event × Daemon) → Type 0
StillWatched listeners none = Unit
StillWatched listeners (some (events, d)) = AreWatched listeners d

connect-AreWatched :
    (listeners : List ℕ) (fd : ℕ) (d : Daemon)
    → AreWatched listeners d
    → member fd listeners ≡ false
    → AreWatched listeners (record (watched fd d) { connections = fd ∷ (watched fd d).connections })
unfolding watched
connect-AreWatched listeners fd d h k =
    let (here, others) = watched-IsWatched fd d in
    (
      λ x m. others x (h.0 x m),
      λ x m. elim (Bool-cases (fd == x)) [
        | inl e ↦
            let same = (==_iff fd x).0 e in
            (
              subst (IsWatched (watched fd d)) same here,
              ap (λ z. member z listeners) (sym same) ∙ k,
            )
        | inr e ↦
            let (w, n) = h.1 x (member-tail fd x (watched fd d).connections e m) in (others x w, n)
      ],
    )

drop_connection-AreWatched :
    (listeners : List ℕ) (fd : ℕ) (d : Daemon)
    → AreWatched listeners d
    → member fd listeners ≡ false
    → AreWatched listeners (drop_connection fd d)
unfolding drop_connection
drop_connection-AreWatched listeners fd d h k = (
  λ x m.
      let (w, below) = h.0 x m in
      (erased x fd d.in_set (member-differs x fd listeners m k) w, below),
  λ x m.
      let (differs, there) = left x fd d.connections m in
      let ((w, below), n) = h.1 x there in ((erased x fd d.in_set differs w, below), n),
)

-- The connection that is dropped is one of the connections.
abbrev MayDrop : List ℕ → Option ℕ → Type 0
MayDrop fds none = Unit
MayDrop fds (some fd) = member fd fds ≡ true

later : (c : ℕ) (fds : List ℕ) (gone : Option ℕ) → MayDrop fds gone → MayDrop (c ∷ fds) gone
unfolding member
later c fds none h = tt
later c fds (some fd) h = ground (arith, h)

serve-MayDrop : (p : Poll) (fds : List ℕ) → MayDrop fds (serve p fds).1
unfolding serve member
serve-MayDrop p [] = tt
serve-MayDrop p (c ∷ fds) =
    let rest = later c fds (serve p fds).1 (serve-MayDrop p fds) in
    elim (Bool-cases (p.readable c)) [
      | inr e ↦ rw (serve, e) rest
      | inl e ↦ elim (Bool-cases (p.input_ok c)) [
        | inl f ↦ rw (serve, e, f) rest
        | inr f ↦ rw (serve, e, f) (ground arith)
      ]
    ]

new_connection-StillWatched :
    (listeners : List ℕ) (socket : Option ℕ) (d : Daemon)
    → ((fd : ℕ) → socket ≡ some fd → member fd listeners ≡ false)
    → AreWatched listeners d
    → StillWatched listeners (new_connection socket d)
unfolding new_connection
new_connection-StillWatched listeners none d f h = h
new_connection-StillWatched listeners (some fd) d f h = elim (Bool-cases (ltb fd fd_setsize)) [
  | inr e ↦ rw (new_connection, watch, e) tt
  | inl e ↦ elim (Option-cases (find_protocol primary (codes "IRC/2") (watched fd d))) [
    | inl g ↦ rw (new_connection, watch, e, g) tt
    | inr (info, g) ↦
        rw (new_connection, watch, e, g) (connect-AreWatched listeners fd d h (f fd refl))
  ]
]

accept_one-StillWatched :
    (listeners : List ℕ) (p : Poll) (l : ℕ) (d : Daemon)
    → IsFresh listeners p
    → AreWatched listeners d
    → StillWatched listeners (accept_one p l d)
unfolding accept_one
accept_one-StillWatched listeners p l d f h = elim (Bool-cases (p.readable l)) [
  | inl e ↦ rw (accept_one, e) (new_connection-StillWatched listeners (p.accepted l) d (f l) h)
  | inr e ↦ rw (accept_one, e) h
]

accept_all-StillWatched :
    (listeners : List ℕ) (p : Poll) (ls : List ℕ) (d : Daemon)
    → IsFresh listeners p
    → AreWatched listeners d
    → StillWatched listeners (accept_all p ls d)
unfolding accept_all
accept_all-StillWatched listeners p [] d f h = h
accept_all-StillWatched listeners p (l ∷ ls) d f h =
    let first = accept_one-StillWatched listeners p l d f h in
    elim (Option-cases (accept_one p l d)) [
      | inl e ↦ rw (accept_all, e) tt
      | inr ((events, d'), e) ↦
          let rest =
            accept_all-StillWatched listeners p ls d' f (subst (StillWatched listeners) e first) in
          elim (Option-cases (accept_all p ls d')) [
            | inl g ↦ rw (accept_all, e, g) tt
            | inr ((more, d''), g) ↦ rw (accept_all, e, g) (subst (StillWatched listeners) g rest)
          ]
    ]

-- A turn of the main loop, where accept gives no descriptor that a listener has: it keeps select
-- looking at every listener and at every connection that is left, and the highest descriptor
-- above all of them.
pub turn-AreWatched :
    (listeners : List ℕ) (p : Poll) (d : Daemon)
    → IsFresh listeners p
    → AreWatched listeners d
    → StillWatched listeners (turn p listeners d)
unfolding turn
turn-AreWatched listeners p d f h =
    let accepted = accept_all-StillWatched listeners p listeners d f h in
    elim (Option-cases (accept_all p listeners d)) [
      | inl e ↦ rw (turn, e) tt
      | inr ((events, d'), e) ↦
          let w : AreWatched listeners d' = subst (StillWatched listeners) e accepted in
          elim (Option-cases (serve p d'.connections).1) [
            | inl g ↦ rw (turn, e, g) w
            | inr (fd, g) ↦
                let there = subst (MayDrop d'.connections) g (serve-MayDrop p d'.connections) in
                rw (turn, e, g) (drop_connection-AreWatched listeners fd d' w (w.1 fd there).1)
          ]
    ]

-- What is watched before the first turn, where there is a result.
abbrev pub StartWatched : List ℕ → Option Daemon → Type 0
StartWatched listeners none = Unit
StartWatched listeners (some d) = AreWatched listeners d

AreAdded-StartWatched :
    (listeners : List ℕ) (d : Daemon) (o : Option Daemon)
    → d.connections ≡ []
    → AreAdded listeners d o
    → StartWatched listeners o
unfolding member
AreAdded-StartWatched listeners d none h a = tt
AreAdded-StartWatched listeners d (some s) h (each, others, same) =
    (each, λ fd m. absurd (true-false (sym m ∙ ap (member fd) (same ∙ h))))

-- Before the first turn, where there is no connection, every listener is looked at.
pub start_watching-StartWatched :
    (listeners : List ℕ) (d : Daemon)
    → d.connections ≡ []
    → StartWatched listeners (start_watching listeners d)
unfolding start_watching
start_watching-StartWatched listeners d h =
    let empty = record d { in_set = []; out_set = []; max_descriptors = 0 } in
    AreAdded-StartWatched listeners empty (watch_listeners listeners empty) h
      (watch_listeners-AreAdded listeners empty)
