-- ===== src/Daemon/Run.antt =====
-- The main loop from its start: Daemon::run and the constructor, home/kineircd/src/lib/daemon.cpp.
-- The modules and the listeners are started before (Modules and Listener). What select answers, turn
-- by turn, is a list.
pub mod Waiting
use kineircd.Prelude.{
  ℕ, ◌≡◌, ◌<◌, refl, ap, sym, subst, ◌∙◌, true, false, Bool, List, [], ◌∷◌, ◌++◌, Option, none,
  some, if◌then◌else◌, Option-cases, inl, inr, All,
}
use kineircd.Prelude.Text.{Text, codes}
use kineircd.Daemon.{Daemon, Event, Poll, turn, start_watching}
use kineircd.Daemon.Watch.{
  AreWatched, IsFresh, StillWatched, turn-AreWatched, start_watching-StartWatched,
}

pub data Runlevel : Type 0 where
  init normal shutdown : Runlevel

-- The constructor, with the lines of Version::versionInfo: the state and the text of INFO.
unfoldable pub new_daemon : List Text → Runlevel × (Daemon × List Text)
new_daemon version_info = (
  normal,
  (
    record {
      protocols = [];
      loggers = [];
      connections = [];
      in_set = [];
      out_set = [];
      max_descriptors = 0;
      received_bytes = 0;
    },
    version_info,
  ),
)

-- An answer of select: an error, nothing ready in time, or what is ready.
pub data Selected : Type 0 where
  failed timed_out : Selected
  ready : Poll → Selected

-- How the loop stands behind the answers: a null pointer was used or a descriptor was
-- outside of the sets, run returned, or it waits.
pub data Outcome : Type 0 where
  fault : Outcome
  returned : Bool → List Event → Daemon → Outcome
  waiting : List Event → Daemon → Outcome

-- The events of a turn before what follows.
unfoldable pub behind : List Event → Outcome → Outcome
behind events fault = fault
behind events (returned happy more d) = returned happy (events ++ more) d
behind events (waiting more d) = waiting (events ++ more) d

abbrev pub is_shutdown : Runlevel → Bool
is_shutdown shutdown = true
is_shutdown _ = false

abbrev pub is_init : Runlevel → Bool
is_init init = true
is_init _ = false

-- The switch on the answer of select. In the first stage nothing is done.
unfoldable pub react : Runlevel → Selected → List ℕ → Daemon → Option (List Event × Daemon)
unfolding turn
react runlevel failed listeners d = some ([], d)
react runlevel timed_out listeners d = some ([], d)
react runlevel (ready p) listeners d = if is_init runlevel then some ([], d) else turn p listeners d

-- The main loop, by the answers of select. Nothing in the source changes the runlevel.
unfoldable pub main_loop : Runlevel → List Selected → List ℕ → Daemon → Outcome
unfolding react behind
main_loop runlevel [] listeners d = waiting [] d
main_loop runlevel (s ∷ ss) listeners d = elim (react runlevel s listeners d) [
  | none ↦ fault
  | some (events, d') ↦
      let rest = main_loop runlevel ss listeners d' in
      if is_shutdown runlevel then returned true events d' else behind events rest
]

abbrev is_normal : Runlevel → Bool
is_normal normal = true
is_normal _ = false

unfoldable pub run : Runlevel → List Selected → List ℕ → Daemon → Outcome
unfolding main_loop start_watching
run runlevel ss listeners d =
    if is_normal runlevel
    then elim (start_watching listeners d) [
      | none ↦ fault
      | some d' ↦ main_loop runlevel ss listeners d'
    ]
    else returned false [] d
