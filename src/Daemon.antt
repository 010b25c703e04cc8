-- ===== src/Daemon.antt =====
-- The daemon: home/kineircd/src/lib/daemon.cpp. A protocol, a logger and a socket's descriptor are
-- numbers: a descriptor is an int of 32 bits, so that the -1 of a socket that failed is 2 ^ 32 - 1.
pub mod Loggers
pub mod Sets
pub mod Protocols
pub mod Watch
pub mod Run
use kineircd.Prelude.{
  ℕ, ◌+◌, Bool, true, false, ◌&&◌, ◌||◌, not, List, [], ◌∷◌, ◌++◌, Option, none, some,
  if◌then◌else◌, leb, ltb, ◌==◌,
}
use kineircd.Prelude.Text.{Text, codes}

-- Membership in a set, its insertion and its removal: std::set and fd_set.
unfoldable pub member : ℕ → List ℕ → Bool
member x [] = false
member x (y ∷ s) = (y == x) || member x s

unfoldable pub insert : ℕ → List ℕ → List ℕ
unfolding member
insert x s = if member x s then s else x ∷ s

unfoldable pub erase : ℕ → List ℕ → List ℕ
erase x [] = []
erase x (y ∷ s) = let rest = erase x s in if y == x then rest else y ∷ rest

-- The connections are given by their descriptors.
pub record Daemon : Type 0 where
  pub protocols : List (ℕ × ℕ)
  pub loggers : List ℕ
  pub connections : List ℕ
  pub in_set : List ℕ
  pub out_set : List ℕ
  pub max_descriptors : ℕ
  pub received_bytes : ℕ

-- ProtocolInfo::Type
pub data ProtocolType : Type 0 where
  registrar_extension primary network server service user : ProtocolType

-- The key of a description: the constructor sets it to the null pointer behind the type and the
-- name, with which it is in a union.
unfoldable pub protocol_key : ProtocolType → Text → ℕ
protocol_key type name = 0

-- std::map::find, by the key.
unfoldable pub find_key : List (ℕ × ℕ) → ℕ → Option ℕ
find_key [] key = none
find_key ((k, info) ∷ protocols) key =
    let found = find_key protocols key in if k == key then some info else found

unfoldable pub find_protocol : ProtocolType → Text → Daemon → Option ℕ
unfolding find_key protocol_key
find_protocol type name d = find_key d.protocols (protocol_key type name)

unfoldable pub register_protocol : ProtocolType → Text → ℕ → Daemon → Bool × Daemon
unfolding find_key protocol_key
register_protocol type name info d =
    let key = protocol_key type name in
    elim (find_key d.protocols key) [
      | some other ↦ (false, d)
      | none ↦ (true, record d { protocols = (key, info) ∷ d.protocols })
    ]

-- The source has no body.
unfoldable pub deregister_protocol : ℕ → Daemon → Daemon
deregister_protocol info d = d

unfoldable pub register_logger : ℕ → Daemon → Bool × Daemon
unfolding member insert
register_logger logger d =
    if member logger d.loggers
    then (false, d)
    else (true, record d { loggers = insert logger d.loggers })

unfoldable pub deregister_logger : ℕ → Daemon → Bool × Daemon
unfolding member erase
deregister_logger logger d =
    (member logger d.loggers, record d { loggers = erase logger d.loggers })

-- The loop over the loggers, with the line and its mask.
unfoldable pub log_to : Text → ℕ → List ℕ → List (ℕ × (Text × ℕ))
log_to line mask [] = []
log_to line mask (l ∷ ls) = (l, (line, mask)) ∷ log_to line mask ls

unfoldable pub log : Text → ℕ → Daemon → List (ℕ × (Text × ℕ))
unfolding log_to
log line mask d = log_to line mask d.loggers

-- What the main loop does with a connection (its descriptor).
pub data Event : Type 0 where
  connected handled_input sent_output dropped : ℕ → Event

-- FD_SETSIZE of the C library.
abbrev pub fd_setsize : ℕ
fd_setsize = 1024

-- A descriptor is in the set that is watched for input.
unfoldable pub watched : ℕ → Daemon → Daemon
unfolding insert
watched fd d = record d {
  in_set = insert fd d.in_set;
  max_descriptors = if leb d.max_descriptors fd then fd + 1 else d.max_descriptors;
}

-- FD_SET, which has no defined result where the descriptor is outside of the sets.
unfoldable pub watch : ℕ → Daemon → Option Daemon
unfolding watched
watch fd d = if ltb fd fd_setsize then some (watched fd d) else none

-- The socket of the listener's accept, where there is one. There is no result where its descriptor
-- is outside of the sets, and where the registrar's protocol is not registered, and the null pointer is
-- used.
unfoldable pub new_connection : Option ℕ → Daemon → Option (List Event × Daemon)
unfolding watch find_protocol
new_connection none d = some ([], d)
new_connection (some fd) d = elim (watch fd d) [
  | none ↦ none
  | some d' ↦ elim (find_protocol primary (codes "IRC/2") d') [
    | none ↦ none
    | some info ↦ some (connected fd ∷ [], record d' { connections = fd ∷ d'.connections })
  ]
]

-- What select and accept answer, and whether a connection's handleInput succeeds.
pub record Poll : Type 0 where
  pub readable : ℕ → Bool
  pub writable : ℕ → Bool
  pub accepted : ℕ → Option ℕ
  pub input_ok : ℕ → Bool

-- A listener, which has a new connection where it is readable.
unfoldable pub accept_one : Poll → ℕ → Daemon → Option (List Event × Daemon)
unfolding new_connection
accept_one p listener d =
    if p.readable listener then new_connection (p.accepted listener) d else some ([], d)

-- The loop over the listeners.
unfoldable pub accept_all : Poll → List ℕ → Daemon → Option (List Event × Daemon)
unfolding accept_one
accept_all p [] d = some ([], d)
accept_all p (listener ∷ listeners) d = elim (accept_one p listener d) [
  | none ↦ none
  | some (events, d') ↦ elim (accept_all p listeners d') [
    | none ↦ none
    | some (more, d'') ↦ some (events ++ more, d'')
  ]
]

-- The loop over the connections: the events, and the connection that is dropped, which ends it.
unfoldable pub serve : Poll → List ℕ → List Event × Option ℕ
serve p [] = ([], none)
serve p (fd ∷ fds) =
    let (events, gone) = serve p fds in
    let out = if p.writable fd then sent_output fd ∷ [] else [] in
    if p.readable fd
    then if p.input_ok fd
      then (handled_input fd ∷ out ++ events, gone)
      else (handled_input fd ∷ dropped fd ∷ [], some fd)
    else (out ++ events, gone)

unfoldable pub drop_connection : ℕ → Daemon → Daemon
unfolding erase
drop_connection fd d = record d {
  connections = erase fd d.connections;
  in_set = erase fd d.in_set;
  out_set = erase fd d.out_set;
}

-- A turn of the main loop in which select found something.
unfoldable pub turn : Poll → List ℕ → Daemon → Option (List Event × Daemon)
unfolding accept_all serve drop_connection
turn p listeners d = elim (accept_all p listeners d) [
  | none ↦ none
  | some (events, d') ↦
      let (more, gone) = serve p d'.connections in
      some (events ++ more, elim gone [ none ↦ d' | some fd ↦ drop_connection fd d' ])
]

-- The loop over the listeners, and the descriptor 0, which does not count for the highest.
unfoldable pub watch_listeners : List ℕ → Daemon → Option Daemon
unfolding watch
watch_listeners [] d = some (record d { in_set = insert 0 d.in_set })
watch_listeners (fd ∷ fds) d = elim (watch fd d) [ none ↦ none | some d' ↦ watch_listeners fds d' ]

-- Before the main loop.
unfoldable pub start_watching : List ℕ → Daemon → Option Daemon
unfolding watch_listeners
start_watching listeners d =
    watch_listeners listeners (record d { in_set = []; out_set = []; max_descriptors = 0 })
