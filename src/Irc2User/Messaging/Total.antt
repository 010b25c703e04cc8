-- ===== src/Irc2User/Messaging/Total.antt =====
-- doMessage ends.
use kineircd.Prelude.{
  ℕ, zero, suc, ◌+◌, ◌%◌, ◌^◌, ◌≡◌, ◌<◌, Bool, List, [], ◌∷◌, ◌||◌, ◌++◌, some, arith, length, refl,
  ltb, Bool-cases, inl, inr,
}
use kineircd.Prelude.Text.{Text}
use kineircd.Irc2.Tokens.{Tokens, AreTokens}
use kineircd.Irc2User.Messaging.{
  Event, Surroundings, tell, complain, too_many_targets, no_recipient, no_text_to_send, visit,
  do_message,
}

module _ (t : Tokens) (l : AreTokens t) (env : Surroundings) (is_notice : Bool) where
  visit-total :
      (text : Text) (fuel targets : ℕ) (s : t.Stream)
      → l.left s < fuel
      → (events : List Event) × (visit t env is_notice text fuel targets s ≡ some events)
  unfolding visit
  visit-total text zero targets s h = elim h [ ]
  visit-total text (suc fuel) targets s h = elim (Bool-cases (t.has_more s)) [
    | inr e ↦ ([], rw (visit, e))
    | inl e ↦
        let left = (targets + 0xffff_ffff) % 2 ^ 32 in
        let (events, f) =
          visit-total text fuel left (t.next b',' s).1 (omega (arith, l.left-next_more b',' s e)) in
        elim (Bool-cases (ltb 0 left || env.is_operator)) [
          | inl o ↦ (tell env is_notice text (t.next b',' s).0 ++ events, simp (visit, e, o, f))
          | inr o ↦ (complain env is_notice text too_many_targets, simp (visit, e, o, f))
        ]
  ]

  pub do_message-total :
      (ps : List Text) → (events : List Event) × (do_message t env is_notice ps ≡ some events)
  unfolding do_message
  do_message-total [] = (complain env is_notice [] no_recipient, refl)
  do_message-total (targets ∷ []) = (complain env is_notice [] no_text_to_send, refl)
  do_message-total (targets ∷ text ∷ ps) =
      visit-total text (suc (length targets)) env.max_targets (t.tokens targets)
        (omega (arith, l.left-tokens targets))
