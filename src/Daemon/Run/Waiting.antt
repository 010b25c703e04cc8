-- ===== src/Daemon/Run/Waiting.antt =====
-- The main loop never ends, and watches what it has.
use kineircd.Prelude.{ℕ, ◌≡◌, subst, List, [], ◌∷◌, Option-cases, inl, inr, All}
use kineircd.Daemon.{Daemon, Event, start_watching}
use kineircd.Daemon.Watch.{
  AreWatched, IsFresh, StillWatched, turn-AreWatched, start_watching-StartWatched, StartWatched,
}
use kineircd.Daemon.Run.{
  normal, Selected, failed, timed_out, ready, Outcome, fault, returned, waiting, behind, react,
  main_loop, run,
}

-- accept gives no descriptor that a listener has.
abbrev pub IsFreshAnswer : List ℕ → Selected → Type 0
IsFreshAnswer listeners failed = Unit
IsFreshAnswer listeners timed_out = Unit
IsFreshAnswer listeners (ready p) = IsFresh listeners p

-- The loop has not returned; what it waits for includes all that it has.
abbrev pub IsWaiting : List ℕ → Outcome → Type 0
IsWaiting listeners fault = Unit
IsWaiting listeners (returned happy events d) = ⊥
IsWaiting listeners (waiting events d) = AreWatched listeners d

behind-IsWaiting :
    (listeners : List ℕ) (events : List Event) (o : Outcome)
    → IsWaiting listeners o
    → IsWaiting listeners (behind events o)
unfolding behind
behind-IsWaiting listeners events fault h = tt
behind-IsWaiting listeners events (returned happy more d) h = h
behind-IsWaiting listeners events (waiting more d) h = h

react-StillWatched :
    (s : Selected) (listeners : List ℕ) (d : Daemon)
    → IsFreshAnswer listeners s
    → AreWatched listeners d
    → StillWatched listeners (react normal s listeners d)
unfolding react
react-StillWatched failed listeners d f h = h
react-StillWatched timed_out listeners d f h = h
react-StillWatched (ready p) listeners d f h = turn-AreWatched listeners p d f h

main_loop-IsWaiting :
    (ss : List Selected) (listeners : List ℕ) (d : Daemon)
    → All (IsFreshAnswer listeners) ss
    → AreWatched listeners d
    → IsWaiting listeners (main_loop normal ss listeners d)
unfolding main_loop
main_loop-IsWaiting [] listeners d f h = h
main_loop-IsWaiting (s ∷ ss) listeners d (f, fs) h =
    let turned = react-StillWatched s listeners d f h in
    elim (Option-cases (react normal s listeners d)) [
      | inl e ↦ rw (main_loop, e) tt
      | inr ((events, d'), e) ↦
          rw (main_loop, e)
            (behind-IsWaiting listeners events (main_loop normal ss listeners d')
              (main_loop-IsWaiting ss listeners d' fs (subst (StillWatched listeners) e turned)))
    ]

-- The main loop of a daemon that came up, without connections: whatever select answers, turn after
-- turn, as long as accept gives no descriptor that a listener has, it has not returned. As long as no
-- null pointer is used and no descriptor is outside of the sets of select, which is undefined behaviour,
-- select looks at every listener and every connection that is left.
pub run-IsWaiting :
    (ss : List Selected) (listeners : List ℕ) (d : Daemon)
    → d.connections ≡ []
    → All (IsFreshAnswer listeners) ss
    → IsWaiting listeners (run normal ss listeners d)
unfolding run
run-IsWaiting ss listeners d h f =
    let started = start_watching-StartWatched listeners d h in
    elim (Option-cases (start_watching listeners d)) [
      | inl e ↦ rw (run, e) tt
      | inr (d', e) ↦
          rw (run, e)
            (main_loop-IsWaiting ss listeners d' f (subst (StartWatched listeners) e started))
    ]
