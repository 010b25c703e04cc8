-- ===== src/Connection.antt =====
-- A connection between a socket and a protocol: home/kineircd/src/lib/connection.cpp and
-- home/kineircd/include/kineircd/connection.h, with addReceivedBytes of daemon.h. What the socket
-- reads and how much of a text it writes are arguments.
pub mod Polled
pub mod Sent
use kineircd.Prelude.{
  ℕ, ◌+◌, ◌%◌, ◌^◌, ◌≡◌, Bool, true, false, ◌&&◌, not, Option, none, some, if◌then◌else◌, is_empty,
  length,
}
use kineircd.Prelude.Text.{Text}
use kineircd.Daemon.{Daemon, insert, erase}

-- What a connection asks of its protocol: whether the protocol says goodbye to the connection is
-- the first result of its handleInput. Withdrawing makes no output.
pub record Protocol (S : Type 0) : Type 0 where
  pub handle_input : Text → S → Bool × S
  pub more_output : S → Bool
  pub withdraw_output : ℕ → S → Text × S
  pub withdraw-more :
      (n : ℕ) (s : S) → more_output (withdraw_output n s).1 ≡ true → more_output s ≡ true

pub record Connection (S : Type 0) : Type 0 where
  pub fd : ℕ
  pub protocol : S
  pub sent_bytes : ℕ
  pub received_bytes : ℕ
  pub connected_time : ℕ
  pub last_spoke : ℕ
  pub connected : Bool

-- A connection with its protocol set.
unfoldable pub connect : {S : Type 0} → ℕ → Bool → ℕ → S → Connection S
connect fd is_okay now protocol = record {
  fd = fd;
  protocol = protocol;
  sent_bytes = 0;
  received_bytes = 0;
  connected_time = now;
  last_spoke = now;
  connected = is_okay;
}

unfoldable pub goodbye : {S : Type 0} → Connection S → Connection S
goodbye c = record c { connected = false }

-- The bytes are an unsigned int.
unfoldable pub add_received_bytes : ℕ → Daemon → Daemon
add_received_bytes bytes d = record d {
  received_bytes = (d.received_bytes + bytes % 2 ^ 32) % 2 ^ 64;
}

-- The state of the new protocol takes the place of the old one's.
unfoldable pub set_protocol : {S T : Type 0} → T → Connection S → Connection T
set_protocol protocol c = record {
  fd = c.fd;
  protocol = protocol;
  sent_bytes = c.sent_bytes;
  received_bytes = c.received_bytes;
  connected_time = c.connected_time;
  last_spoke = c.last_spoke;
  connected = c.connected;
}

module _ {S : Type 0} (p : Protocol S) where
  -- A text that is not empty is counted and given to the protocol.
  unfoldable pub receive : Text → ℕ → Connection S → Connection S
  unfolding goodbye
  receive line now c =
      let (leaves, protocol) = p.handle_input line c.protocol in
      let c' = record c {
        protocol = protocol;
        received_bytes = (c.received_bytes + length line) % 2 ^ 64;
        last_spoke = now;
      } in
      if leaves then goodbye c' else c'

  -- The poller is told of output that waits.
  unfoldable pub poll_output : Connection S → Daemon → Daemon
  unfolding insert
  poll_output c d =
      if p.more_output c.protocol then record d { out_set = insert c.fd d.out_set } else d

  -- There is no text where the read fails.
  unfoldable pub handle_input :
      Option Text → ℕ → Connection S → Daemon → Bool × (Connection S × Daemon)
  unfolding receive poll_output add_received_bytes
  handle_input read now c d = if not c.connected then (false, (c, d)) else elim read [
    | none ↦ (false, (c, d))
    | some line ↦
        if is_empty line
        then (true, (c, poll_output c d))
        else let c' = receive line now c in
          (true, (c', poll_output c' (add_received_bytes (length line) d)))
  ]

  -- The text that is given to the socket, which writes as much as `written` says.
  unfoldable pub send_output :
      ℕ → (Text → ℕ) → Connection S → Daemon → Text × (Connection S × Daemon)
  unfolding erase
  send_output block written c d =
      let (text, protocol) = p.withdraw_output block c.protocol in
      let c' = record c {
        protocol = protocol;
        sent_bytes = (c.sent_bytes + written text) % 2 ^ 64;
      } in
      (
        text,
        (c', if p.more_output protocol then d else record d { out_set = erase c.fd d.out_set }),
      )
