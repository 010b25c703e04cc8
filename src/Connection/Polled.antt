-- ===== src/Connection/Polled.antt =====
-- The poller knows of every connection with output that waits.
use kineircd.Prelude.{
  ℕ, ◌≡◌, refl, ◌∙◌, Bool, true, false, not, List, [], ◌∷◌, Option, none, some, ==_iff, is_empty,
  length, if◌then◌else◌,
}
use kineircd.Prelude.Text.{Text}
use kineircd.Daemon.{Daemon, member, insert}
use kineircd.Daemon.Sets.{member-insert}
use kineircd.Connection.{
  Protocol, Connection, handle_input, send_output, receive, poll_output, add_received_bytes,
}

-- What the main loop does with a connection: a read of the socket and its time, or a write with
-- the size of a block and what the socket takes of a text.
pub data Event : Type 0 where
  read : Option Text → ℕ → Event
  write : ℕ → (Text → ℕ) → Event

member-insert_self : (x : ℕ) (s : List ℕ) → member x (insert x s) ≡ true
member-insert_self x s = member-insert x x s ∙ rw ((==_iff x x).1 refl)

-- What holds of both results of a test.
pub either : {A : Type 0} (P : A → Type 0) (b : Bool) {x y : A} → P x → P y → P (if b then x else y)
either P true h k = h
either P false h k = k

module _ {S : Type 0} (p : Protocol S) where
  unfoldable pub perform : Event → Connection S → Daemon → Connection S × Daemon
  perform (read text now) c d = (handle_input p text now c d).1
  perform (write block written) c d = (send_output p block written c d).1

  unfoldable pub perform_all : List Event → Connection S → Daemon → Connection S × Daemon
  perform_all [] c d = (c, d)
  perform_all (e ∷ es) c d = let (c', d') = perform e c d in perform_all es c' d'

  -- A connection with output that waits is watched for writing.
  unfoldable pub IsPolled : Connection S → Daemon → Type 0
  IsPolled c d = p.more_output c.protocol ≡ true → member c.fd d.out_set ≡ true

  poll_output-IsPolled : (c : Connection S) (d : Daemon) → IsPolled c (poll_output p c d)
  unfolding IsPolled poll_output
  poll_output-IsPolled c d h = rw h (member-insert_self c.fd d.out_set)

  -- The connection and the daemon behind a call whose other result is a Boolean.
  Fits : Bool × (Connection S × Daemon) → Type 0
  Fits r = IsPolled r.1.0 r.1.1

  handle_input-IsPolled :
      (text : Option Text) (now : ℕ) (c : Connection S) (d : Daemon)
      → IsPolled c d
      → Fits (handle_input p text now c d)
  unfolding handle_input Fits
  handle_input-IsPolled none now c d h = either Fits (not c.connected) h h
  handle_input-IsPolled (some line) now c d h =
      let c' = receive p line now c in
      either Fits (not c.connected) h (
        either Fits (is_empty line) (poll_output-IsPolled c d)
          (poll_output-IsPolled c' (add_received_bytes (length line) d)))

  send_output-IsPolled :
      (block : ℕ) (written : Text → ℕ) (c : Connection S) (d : Daemon)
      → IsPolled c d
      → let (_, (c', d')) = send_output p block written c d in IsPolled c' d'
  unfolding send_output IsPolled
  send_output-IsPolled block written c d h k = rw k (h (p.withdraw-more block c.protocol k))

  perform-IsPolled :
      (e : Event) (c : Connection S) (d : Daemon)
      → IsPolled c d
      → let (c', d') = perform e c d in IsPolled c' d'
  unfolding perform Fits
  perform-IsPolled (read text now) c d h = handle_input-IsPolled text now c d h
  perform-IsPolled (write block written) c d h = send_output-IsPolled block written c d h

  -- Whatever is read and written, in whatever order, a connection whose protocol has more output
  -- is watched for writing, when it was so before. The output that other connections give to its
  -- protocol is not among these events.
  pub perform_all-IsPolled :
      (es : List Event) (c : Connection S) (d : Daemon)
      → IsPolled c d
      → let (c', d') = perform_all es c d in IsPolled c' d'
  unfolding perform_all
  perform_all-IsPolled [] c d h = h
  perform_all-IsPolled (e ∷ es) c d h =
      let (c', d') = perform e c d in perform_all-IsPolled es c' d' (perform-IsPolled e c d h)
