-- ===== src/Connection/Sent.antt =====
-- A connection over a line based protocol: the output queue of home/kineircd/src/lib_clbp/output.cpp
-- behind the poller.
use kineircd.Prelude.{
  ℕ, ◌≡◌, refl, sym, ap, ◌∙◌, Bool, true, false, not, ◌&&◌, ◌||◌, List, [], ◌∷◌, ◌++◌, none, some,
  Bool-cases, inl, inr, arith, is_empty, if◌then◌else◌, append_assoc, append-nil, leb, drop_all,
  min,
}
use kineircd.Prelude.Text.{Text}
use kineircd.Clbp.Output.{output_raw, withdraw_output, more_output}
use kineircd.Clbp.Output.Drain.{withdraw-append}
use kineircd.Daemon.{Daemon}
use kineircd.Connection.{Protocol, Connection, handle_input, send_output, receive, goodbye}
use kineircd.Connection.Polled.{Event, read, write, perform, perform_all, either}

withdraw-empty : (n : ℕ) → (withdraw_output n []).1 ≡ []
unfolding withdraw_output
withdraw-empty n = elim (Bool-cases (leb n 0)) [
  | inl e ↦ rw e (drop_all (min n 0) [] (ground arith))
  | inr e ↦ rw e refl
]

pub withdraw-more :
    (n : ℕ) (queue : Text)
    → more_output (withdraw_output n queue).1 ≡ true
    → more_output queue ≡ true
unfolding more_output
withdraw-more n [] h = sym (ap more_output (withdraw-empty n)) ∙ h
withdraw-more n (c ∷ queue) h = refl

-- A nested test beside the same test with the first two results joined.
gate :
    {A B : Type 0} (P : A → B → Type 0) (b c : Bool) {x y z : A} {u v : B}
    → P x u
    → P y u
    → P z v
    → P (if b then x else if c then y else z) (if b || c then u else v)
gate P true c h k m = h
gate P false true h k m = k
gate P false false h k m = m

-- What a protocol does with a text: whether it says goodbye, its next state and its output.
module _ {X : Type 0} (parse : Text → X → Bool × (X × Text)) where
  -- The protocol with its output queue.
  unfoldable pub line_based : Protocol (X × Text)
  line_based = record {
    handle_input = λ line (x, queue).
        let (leaves, (x', output)) = parse line x in (leaves, (x', output_raw output queue));
    more_output = λ (x, queue). more_output queue;
    withdraw_output =
        λ n (x, queue). let (text, left) = withdraw_output n queue in (text, (x, left));
    withdraw-more = λ n (x, queue). withdraw-more n queue;
  }

  -- The text that an event gives to the socket, and that of events in order.
  unfoldable pub sent : Event → Connection (X × Text) → Daemon → Text
  sent (read text now) c d = []
  sent (write block written) c d = (send_output line_based block written c d).0

  pub sent_all : List Event → Connection (X × Text) → Daemon → Text
  sent_all [] c d = []
  sent_all (e ∷ es) c d = let (c', d') = perform line_based e c d in sent e c d ++ sent_all es c' d'

  -- What the protocol answers to an event, without any queue: the output, whether the connection
  -- is still there, and the state.
  pub answer : Bool → Event → X → Text × (Bool × X)
  answer connected (write block written) x = ([], (connected, x))
  answer connected (read none now) x = ([], (connected, x))
  answer connected (read (some line) now) x =
      if not connected || is_empty line
      then ([], (connected, x))
      else let (leaves, (x', output)) = parse line x in (output, (not leaves && connected, x'))

  pub answers : Bool → List Event → X → Text
  answers connected [] x = []
  answers connected (e ∷ es) x =
      let (output, (connected', x')) = answer connected e x in output ++ answers connected' es x'

  -- Output is moved from the protocol's answer to the queue, or from the queue to the socket.
  IsMoved : Connection (X × Text) → Text → Connection (X × Text) → Text × (Bool × X) → Type 0
  IsMoved c text c' (output, (connected', x')) =
      (text ++ c'.protocol.1 ≡ c.protocol.1 ++ output)
      × ((c'.connected ≡ connected') × (c'.protocol.0 ≡ x'))

  still : (c : Connection (X × Text)) → IsMoved c [] c ([], (c.connected, c.protocol.0))
  unfolding IsMoved
  still c = (sym (append-nil c.protocol.1), (refl, refl))

  receive-IsMoved :
      (line : Text) (now : ℕ) (c : Connection (X × Text))
      → let (leaves, (x', output)) = parse line c.protocol.0 in
        IsMoved c [] (receive line_based line now c) (output, (not leaves && c.connected, x'))
  unfolding IsMoved receive goodbye output_raw line_based
  receive-IsMoved line now c = elim (Bool-cases (parse line c.protocol.0).0) [
    | inl e ↦ rw e (refl, (refl, refl))
    | inr e ↦ rw e (refl, (refl, refl))
  ]

  perform-IsMoved :
      (e : Event) (c : Connection (X × Text)) (d : Daemon)
      → IsMoved c (sent e c d) (perform line_based e c d).0 (answer c.connected e c.protocol.0)
  unfolding perform answer sent handle_input IsMoved send_output line_based
  perform-IsMoved (write block written) c d =
      (withdraw-append block c.protocol.1 ∙ sym (append-nil c.protocol.1), (refl, refl))
  perform-IsMoved (read none now) c d =
      either
        (λ (r : Bool × (Connection (X × Text) × Daemon)).
          IsMoved c [] r.1.0 ([], (c.connected, c.protocol.0)))
        (not c.connected) (still c) (still c)
  perform-IsMoved (read (some line) now) c d =
      gate (λ (r : Bool × (Connection (X × Text) × Daemon)) a. IsMoved c [] r.1.0 a)
        (not c.connected) (is_empty line) (still c) (still c) (receive-IsMoved line now c)

  -- The texts that are given to the socket, and what is left in the queue, are the queue and the
  -- protocol's answers to what was read, in order and each byte once, however the reads and the
  -- writes follow one another and whatever the sizes of the blocks.
  pub perform_all-sent :
      (es : List Event) (c : Connection (X × Text)) (d : Daemon)
      → sent_all es c d ++ (perform_all line_based es c d).0.protocol.1
        ≡ c.protocol.1 ++ answers c.connected es c.protocol.0
  unfolding sent_all perform_all answers IsMoved
  perform_all-sent [] c d = sym (append-nil c.protocol.1)
  perform_all-sent (e ∷ es) c d =
      let (c', d') = perform line_based e c d in
      let (output, (connected', x')) = answer c.connected e c.protocol.0 in
      let (moved, (same, state)) = perform-IsMoved e c d in
      let more : sent_all es c' d' ++ (perform_all line_based es c' d').0.protocol.1
          ≡ c'.protocol.1 ++ answers connected' es x' =
        perform_all-sent es c' d' ∙ rw (same, state) in
      append_assoc (sent e c d) (sent_all es c' d') (perform_all line_based es c' d').0.protocol.1
      ∙ ap (◌++◌ (sent e c d)) more
      ∙ sym (append_assoc (sent e c d) c'.protocol.1 (answers connected' es x'))
      ∙ ap (λ text. text ++ answers connected' es x') moved
      ∙ append_assoc c.protocol.1 output (answers connected' es x')
