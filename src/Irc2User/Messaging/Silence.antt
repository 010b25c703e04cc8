-- ===== src/Irc2User/Messaging/Silence.antt =====
-- doMessage ends, and a NOTICE is never answered.
use kineircd.Prelude.{
  ℕ, zero, suc, ◌+◌, ◌%◌, ◌^◌, ◌<◌, true, List, [], ◌∷◌, ◌++◌, Option, none, some, arith, All,
  length,
}
use kineircd.Prelude.Text.{Text}
use kineircd.Irc2.Tokens.{Tokens, AreTokens}
use kineircd.Irc2User.Messaging.{Event, notice_to, Surroundings, tell, complain, visit, do_message}

-- A call of sendNotice.
abbrev pub IsNotice : Event → Type 0
IsNotice (notice_to receiver text) = Unit
IsNotice _ = ⊥

-- The events are there, and all of them are notices.
abbrev pub AreNotices : Option (List Event) → Type 0
AreNotices none = ⊥
AreNotices (some events) = All IsNotice events

All-append : (es fs : List Event) → All IsNotice es → All IsNotice fs → All IsNotice (es ++ fs)
All-append [] fs h k = k
All-append (e ∷ es) fs h k = (h.0, All-append es fs h.1 k)

module _ (t : Tokens) (l : AreTokens t) (env : Surroundings) where
  tell-IsNotice : (text target : Text) → All IsNotice (tell env true text target)
  unfolding tell
  tell-IsNotice text target = ground arith

  append-AreNotices :
      (es : List Event) (o : Option (List Event))
      → All IsNotice es
      → AreNotices o
      → (let all : Option (List Event) = elim o [ none ↦ none | some fs ↦ some (es ++ fs) ] in
          AreNotices all)
  append-AreNotices es none h k = k
  append-AreNotices es (some fs) h k = All-append es fs h k

  visit-AreNotices :
      (text : Text) (fuel targets : ℕ) (s : t.Stream)
      → l.left s < fuel
      → AreNotices (visit t env true text fuel targets s)
  unfolding visit complain
  visit-AreNotices text zero targets s h = elim h [ ]
  visit-AreNotices text (suc fuel) targets s h =
      let target = (t.next b',' s).0 in
      let s' = (t.next b',' s).1 in
      let left = (targets + 0xffff_ffff) % 2 ^ 32 in
      ground (
        arith,
        l.left-next_more b',' s,
        append-AreNotices (tell env true text target) (visit t env true text fuel left s')
            (tell-IsNotice text target),
        visit-AreNotices text fuel left s',
      )

  -- With a tokenizer that is as Irc2/Tokens asks: a NOTICE ends, whatever its parameters, and does
  -- nothing but call sendNotice. It is never answered by a numeric.
  pub notice-AreNotices : (ps : List Text) → AreNotices (do_message t env true ps)
  unfolding do_message complain
  notice-AreNotices [] = tt
  notice-AreNotices (targets ∷ []) = tt
  notice-AreNotices (targets ∷ text ∷ ps) =
      visit-AreNotices text (suc (length targets)) env.max_targets (t.tokens targets)
        (omega (arith, l.left-tokens targets))
