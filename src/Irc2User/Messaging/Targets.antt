-- ===== src/Irc2User/Messaging/Targets.antt =====
-- The targets of a message, up to the limit.
use kineircd.Prelude.{
  ℕ, zero, suc, ◌+◌, ◌%◌, ◌^◌, ◌≡◌, ◌<◌, Bool, false, List, [], ◌∷◌, ◌++◌, some, arith, All, length,
  if◌then◌else◌,
}
use kineircd.Prelude.Text.{Text}
use kineircd.Irc2.Tokens.{Tokens, AreTokens}
use kineircd.Irc2.Tokens.Listed.{IsTarget, targets_text, length-targets_text, next_target}
use kineircd.Irc2User.Messaging.{
  Event, too_many_targets, Surroundings, tell, complain, visit, do_message,
}

module _ (env : Surroundings) (is_notice : Bool) (text : Text) where
  -- The specification: with `n` targets allowed, they are told in order; the list is cut where it
  -- is longer, with one complaint of too many targets where the message is no notice.
  abbrev pub told : ℕ → List Text → List Event
  told n [] = []
  told zero (w ∷ ws) = if is_notice then [] else too_many_targets ∷ []
  told (suc n) (w ∷ ws) = tell env is_notice text w ++ told n ws

module _ (t : Tokens) (l : AreTokens t) where
  module _ (env : Surroundings) (is_notice : Bool) (text : Text) where
    visit-told :
        (fuel n : ℕ) (ws : List Text)
        → env.is_operator ≡ false
        → length ws < fuel
        → suc n < 2 ^ 32
        → All IsTarget ws
        → visit t env is_notice text fuel (suc n) (t.tokens (targets_text ws))
          ≡ some (told env is_notice text n ws)
    unfolding visit complain
    visit-told zero n ws o h k a = elim h [ ]
    visit-told (suc fuel) n [] o h k a = rw (visit, l.has_more_nil)
    visit-told (suc fuel) zero (w ∷ ws) o h k a =
        let (more, first) = next_target t l w ws a in rw (visit, more, first, o)
    visit-told (suc fuel) (suc n) (w ∷ ws) o h k a =
        let (more, first) = next_target t l w ws a in
        let left : (suc (suc n) + 0xffff_ffff) % 2 ^ 32 ≡ suc n = omega arith in
        let rest = visit-told fuel n ws o (omega arith) (omega arith) a.1 in
        rw (visit, more, first, left, rest) (ground arith)

    -- With a tokenizer that is as Irc2/Tokens asks: a message of a user who is no operator goes to
    -- targets without commas, and without a space in front. They are told in order, and the list
    -- is cut by the limit: with a limit of n + 1, in the range of its type, there are n targets.
    -- Where it is cut there is one complaint of too many targets for PRIVMSG, and none for NOTICE.
    pub do_message-told :
        (n : ℕ) (ws ps : List Text)
        → env.is_operator ≡ false
        → env.max_targets ≡ suc n
        → suc n < 2 ^ 32
        → All IsTarget ws
        → do_message t env is_notice (targets_text ws ∷ text ∷ ps)
          ≡ some (told env is_notice text n ws)
    unfolding do_message
    do_message-told n ws ps o e k a = rw e (
        visit-told (suc (length (targets_text ws))) n ws o (omega (arith, length-targets_text ws a))
          k a)
