-- ===== src/Modules/Loggers.antt =====
-- The modules of the loggers: home/kineircd/src/mod_filelog, mod_syslog and mod_channellog, module.cpp.
-- A logger is its address, which `new` gives.
use kineircd.Prelude.{
  ℕ, ◌≡◌, refl, ap, ◌∙◌, true, false, Bool, List, [], ◌∷◌, Option, none, some, arith,
}
use kineircd.Daemon.{Daemon, member, insert, erase, register_logger, deregister_logger}

-- The daemon with the logger of one module; the null pointer is `none`.
pub record State : Type 0 where
  pub daemon : Daemon
  pub logger : Option ℕ

unfoldable pub create : Daemon → State
create d = record { daemon = d; logger = none }

-- The module's start.
unfoldable pub start : ℕ → State → Bool × State
unfolding register_logger
start address s =
    let (done, d) = register_logger address s.daemon in
    (done, record { daemon = d; logger = some address })

-- The module's destructor.
unfoldable pub destroy : State → Daemon
unfolding deregister_logger
destroy s = elim s.logger [ none ↦ s.daemon | some l ↦ (deregister_logger l s.daemon).1 ]

-- The member of mod_channellog that takes the logger from the daemon; a null pointer is used
-- where the module has not started.
unfoldable pub stop : State → Option State
unfolding deregister_logger
stop s = elim s.logger [
  | none ↦ none
  | some l ↦ some (record s { daemon = (deregister_logger l s.daemon).1 })
]

erase_absent : (x : ℕ) (s : List ℕ) → member x s ≡ false → erase x s ≡ s
unfolding member erase
erase_absent x [] h = refl
erase_absent x (y ∷ s) h = ground (arith, erase_absent x s)

erase_added : (x : ℕ) (s : List ℕ) → member x s ≡ false → erase x (x ∷ s) ≡ s
unfolding erase
erase_added x s h = ground (arith, erase_absent x s h)

register_logger-loggers :
    (x : ℕ) (d : Daemon)
    → member x d.loggers ≡ false
    → ((register_logger x d).0 ≡ true) × ((register_logger x d).1.loggers ≡ x ∷ d.loggers)
unfolding register_logger insert
register_logger-loggers x d h = rw (register_logger, h) (refl, refl)

erase-register_logger :
    (x : ℕ) (d : Daemon)
    → member x d.loggers ≡ false
    → erase x (register_logger x d).1.loggers ≡ d.loggers
erase-register_logger x d h =
    ap (erase x) (register_logger-loggers x d h).1 ∙ erase_added x d.loggers h

-- With the address of a logger that the daemon does not have, the module starts, and its destructor
-- leaves the daemon with the loggers that it had before.
pub destroy-start :
    (address : ℕ) (d : Daemon)
    → member address d.loggers ≡ false
    → ((start address (create d)).0 ≡ true)
      × ((destroy (start address (create d)).1).loggers ≡ d.loggers)
unfolding start destroy create deregister_logger
destroy-start address d h =
    ((register_logger-loggers address d h).0, erase-register_logger address d h)

-- A module that is stopped first leaves the same.
pub stop-start :
    (address : ℕ) (d : Daemon)
    → member address d.loggers ≡ false
    → (s : State) × (stop (start address (create d)).1 ≡ some s)
      × (s.daemon.loggers ≡ d.loggers)
      × ((destroy s).loggers ≡ d.loggers)
unfolding start stop destroy create deregister_logger
stop-start address d h =
    let same = erase-register_logger address d h in
    (
      record (start address (create d)).1 {
        daemon = (deregister_logger address (register_logger address d).1).1;
      },
      refl,
      same,
      ap (erase address) same ∙ erase_absent address d.loggers h,
    )
