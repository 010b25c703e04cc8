-- ===== src/Listener.antt =====
-- Listeners: home/kineircd/src/lib/listener/listener.cpp, list.cpp and config.cpp, with
-- home/kineircd/include/kineircd/listener.h. What a socket answers is an argument.
pub mod Config
pub mod Named
pub mod Retries
pub mod Start
use kineircd.Prelude.{ℕ, ◌+◌, ◌%◌, ◌^◌, Bool, true, false, List, [], ◌∷◌, if◌then◌else◌}
use kineircd.Prelude.Text.{Text}

-- The socket is given by its address and its port.
pub record Listener : Type 0 where
  pub address : Text
  pub port : ℕ
  pub listen_backlog : ℕ
  pub flags : ℕ
  pub listening : Bool
  pub accept_count : ℕ

unfoldable pub new_listener : Text → ℕ → ℕ → ℕ → Listener
new_listener address port listen_backlog flags = record {
  address = address;
  port = port;
  listen_backlog = listen_backlog;
  flags = flags;
  listening = false;
  accept_count = 0;
}

-- An accept, with what the socket answers.
unfoldable pub accept {ℓ} : {A : Type ℓ} → A → Listener → A × Listener
accept answer l = (answer, record l { accept_count = (l.accept_count + 1) % 2 ^ 64 })

-- Whether a socket's listen succeeds is `can_listen`.
module _ (can_listen : Listener → Bool) where
  unfoldable pub listen : Listener → Bool × Listener
  listen l =
      if l.listening
      then (false, l)
      else if can_listen l
      then (true, record l { listening = true })
      else (false, l)

  unfoldable pub start_all : List Listener → List Listener
  unfolding listen
  start_all [] = []
  start_all (l ∷ ls) = (listen l).1 ∷ start_all ls
