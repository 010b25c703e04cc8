-- ===== src/Examples/Daemons.antt =====
-- The daemon.
use kineircd.Prelude.{List, ℕ, ◌≡◌, ◌==◌, ◌&&◌, refl, true, false, [], ◌∷◌, some, arith}
use kineircd.Prelude.Text.{codes}
use kineircd.Daemon.Loggers.{
  Op, register, deregister, perform_all, times, receivers, once, is_registered, log-once,
}
use kineircd.Daemon.{log, user, find_protocol, Daemon, Poll, member, connected, sent_output}
use kineircd.Daemon.Run.{init, normal, failed, timed_out, ready, fault, returned, waiting, run}
use kineircd.Daemon.Run.Waiting.{IsWaiting, run-IsWaiting}
use kineircd.Modules.Irc2.{
  irc2_registrar, irc2_user, creates_for_listener, creates_for_registrant, System, Place, start,
}
use kineircd.Modules.Irc2.Shipped.{start-start}

abbrev pub idle : Daemon
idle = record {
  protocols = [];
  loggers = [];
  connections = [];
  in_set = [];
  out_set = [];
  max_descriptors = 0;
  received_bytes = 0;
}

abbrev with_protocol : Daemon
with_protocol = record idle { protocols = (0, 7) ∷ [] }

-- The listener has the descriptor 4; its new connection has 5.
abbrev poll : Poll
poll = record {
  readable = λ fd. fd == 4;
  writable = λ fd. true;
  accepted = λ listener. some 5;
  input_ok = λ fd. false;
}

fresh : (listener fd : ℕ) → poll.accepted listener ≡ some fd → member fd (4 ∷ []) ≡ false
unfolding member
fresh listener fd e = ground (arith, e)

-- Behind the turn, the connection with the descriptor 5 is gone, and select was interrupted.
run-IsWaiting_example :
    IsWaiting (4 ∷ []) (run normal (ready poll ∷ failed ∷ timed_out ∷ []) (4 ∷ []) with_protocol)
run-IsWaiting_example =
    run-IsWaiting (ready poll ∷ failed ∷ timed_out ∷ []) (4 ∷ []) with_protocol refl
      (fresh, (tt, (tt, tt)))

run_refused : run init (ready poll ∷ []) (4 ∷ []) idle ≡ returned false [] idle
unfolding run
run_refused = refl

run_fault : run normal (ready poll ∷ []) (4 ∷ []) idle ≡ fault
unfolding run find_protocol
run_fault = refl

run_waits :
    run normal (ready poll ∷ failed ∷ []) (4 ∷ []) with_protocol
    ≡ waiting (connected 5 ∷ sent_output 5 ∷ []) (record with_protocol {
      connections = 5 ∷ [];
      in_set = 5 ∷ 0 ∷ 4 ∷ [];
      max_descriptors = 6;
    })
unfolding run find_protocol
run_waits = refl

abbrev place : Place
place = record {
  to_upper = λ t. t;
  dictionary = record { entries = []; highest = 0 };
  library_map = (codes "IRC2_X", 0) ∷ [];
  module_map = λ part. [];
  info = λ part. elim part [ irc2_registrar ↦ 11 | irc2_user ↦ 12 ];
  library_parameter = 100;
  module_parameter = 200;
}

abbrev system : System
system = record { daemon = idle; references = 0; tag_maps = []; has_isupport = false }

-- The registrar first: the protocol of users is that of the registrar.
start-start_example :
    let after = (start place irc2_registrar system).1 in
    ((start place irc2_registrar system).0 ≡ true)
    × ((start place irc2_user after).0 ≡ false)
    × (find_protocol user (codes "IRC/2") (start place irc2_user after).1.daemon
        ≡ some (place.info irc2_registrar))
    × ((creates_for_listener irc2_registrar && creates_for_registrant irc2_registrar) ≡ false)
start-start_example = start-start place irc2_registrar irc2_user system refl user (codes "IRC/2")

library_in_use :
    let after = (start place irc2_user (start place irc2_registrar system).1).1 in
    (after.references ≡ 2) × (after.tag_maps ≡ 200 ∷ 100 ∷ [])
unfolding start
library_in_use = (refl, refl)

abbrev operations : List Op
operations = register 7 ∷ register 8 ∷ register 7 ∷ deregister 8 ∷ []

log-once_example :
    times 7 (receivers (log (codes "up") 1 (perform_all operations idle)))
    ≡ once (is_registered 7 operations false)
log-once_example = log-once (codes "up") 1 7 operations idle refl
