-- ===== src/Network.antt =====
-- Finding entities: MyNetwork (home/kineircd/src/lib/mynetwork.cpp, mynetwork.h) over the lists of
-- the registry, and the target searches of home/kineircd/src/lib_irc2/utility.cpp.
pub mod Fold
use kineircd.Prelude.{ℕ, Bool, [], ◌∷◌, Option, none, some, if◌then◌else◌, is_empty, ◌++◌}
use kineircd.Prelude.Text.{Text, find_first_of}
use kineircd.Registry.{find_entity}
use kineircd.Registry.EntityMap.{Entities}

-- The lists of the registry, as far as they are searched by name.
pub record Lists : Type 0 where
  pub users : Entities
  pub services : Entities
  pub servers : Entities
  pub networks : Entities
  pub channels : Entities

unfoldable pub find_client : Lists → Text → Option ℕ
find_client l name = elim (find_entity l.users name) [
  | some client ↦ some client
  | none ↦ find_entity l.services name
]

-- The test for a channel is `false` in the source.
unfoldable pub find_message_target : Lists → Text → Bool → Option ℕ
find_message_target l target include_services =
    if is_empty target then none else elim (find_entity l.users target) [
      | some receiver ↦ some receiver
      | none ↦ if include_services then find_entity l.services target else none
    ]

-- `server_of` is the server that a client is connected to. A mask finds nothing.
unfoldable pub find_server_target : Lists → (ℕ → ℕ) → Text → Option ℕ
unfolding find_client find_first_of
find_server_target l server_of mask = elim (find_first_of (b'*' ∷ b'?' ∷ []) mask) [
  | none ↦ elim (find_entity l.servers mask) [
    | some server ↦ some server
    | none ↦ elim (find_client l mask) [ some client ↦ some (server_of client) | none ↦ none ]
  ]
  | some n ↦ none
]
