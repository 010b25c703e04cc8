-- ===== src/Irc2/Input/RoundTrip.antt =====
-- A message that is formatted by the output side is read back by parseLine.
use kineircd.Prelude.{
  ℕ, zero, suc, ◌≡◌, ◌≢◌, ◌<◌, ◌≤◌, List, [], ◌∷◌, ◌++◌, some, arith, length, true, false, All,
  append_assoc, ◌==◌, get_or, ap, ◌∙◌, refl, length-append,
}
use kineircd.Prelude.Text.{Text}
use kineircd.Irc2.Tokens.{Tokens, AreTokens, IsWord}
use kineircd.Irc2.Input.{parameters_from, trailing, finish, parse, message}
use kineircd.Irc2.Output.{join, format_message, format_message_from}

abbrev pub IsMiddle : Text → Type 0
IsMiddle p = IsWord b' ' p × (get_or p 0 0 ≢ b':')

-- A last parameter: text in which the first space, if there is one, has a character other than a
-- space behind it.
pub data IsTrailing : Text → Type 0 where
  one_word : (p : Text) → All (λ c. c ≢ b' ') p → IsTrailing p
  phrase :
      (p q r : Text) (c : ℕ)
      → All (λ c. c ≢ b' ') p
      → c ≢ b' '
      → q ≡ p ++ b' ' ∷ c ∷ r
      → IsTrailing q

-- The text behind the command, without its first space.
parameters : List Text → Text → Text
parameters [] last = b':' ∷ last
parameters (p ∷ ps) last = p ++ b' ' ∷ parameters ps last

join-parameters :
    (ps : List Text) (last : Text) → join (ps ++ last ∷ []) ≡ b' ' ∷ parameters ps last
unfolding join parameters
join-parameters [] last = refl
join-parameters (p ∷ []) last = refl
join-parameters (p ∷ q ∷ ps) last = rw (join-parameters (q ∷ ps) last)

length-le-parameters : (ps : List Text) (last : Text) → length ps ≤ length (parameters ps last)
unfolding parameters
length-le-parameters [] last = omega arith
length-le-parameters (p ∷ ps) last =
    omega (arith, length-le-parameters ps last, length-append p (b' ' ∷ parameters ps last))

module _ (t : Tokens) (l : AreTokens t) where
  last_parameter :
      (fuel : ℕ) (last : Text) (done : List Text)
      → IsTrailing last
      → parameters_from t (suc fuel) (t.tokens (b':' ∷ last)) done ≡ some (done ++ last ∷ [])
  unfolding parameters_from
  last_parameter fuel last done (one_word _ h) = rw (
    l.has_more_cons b':' last (omega arith),
    l.next_last b' ' (b':' ∷ last) (λ e. cc, (omega arith, h)),
    trailing,
    l.has_more_nil,
  )
  last_parameter fuel last done (phrase p _ r c h n e) = rw (
    e,
    l.has_more_cons b':' (p ++ b' ' ∷ c ∷ r) (omega arith),
    l.next_word b' ' (b':' ∷ p) (c ∷ r) (λ e. cc, (omega arith, h)),
    trailing,
    l.has_more_cons c r n,
    l.rest-tokens (c ∷ r),
  )

  next_middle :
      (p s : Text)
      → IsMiddle p
      → (t.has_more (t.tokens (p ++ b' ' ∷ s)) ≡ true)
        × (t.next b' ' (t.tokens (p ++ b' ' ∷ s)) ≡ (p, t.tokens s))
        × ((get_or p 0 0 == b':') ≡ false)
  next_middle [] s m = absurd (m.0.0 refl)
  next_middle (c ∷ p) s m =
      (l.has_more_cons c (p ++ b' ' ∷ s) m.0.1.0, l.next_word b' ' (c ∷ p) s m.0, ground arith)

  parameters_from-parameters :
      (fuel : ℕ) (ps : List Text) (last : Text) (done : List Text)
      → length ps < fuel
      → All IsMiddle ps
      → IsTrailing last
      → parameters_from t fuel (t.tokens (parameters ps last)) done
        ≡ some (done ++ (ps ++ last ∷ []))
  unfolding parameters parameters_from
  parameters_from-parameters zero ps last done h m v = elim h [ ]
  parameters_from-parameters (suc fuel) [] last done h m v = last_parameter fuel last done v
  parameters_from-parameters (suc fuel) (p ∷ ps) last done h m v =
      let (more, first, plain) = next_middle p (parameters ps last) m.0 in
      rw (parameters_from, more, first, plain)
        (parameters_from-parameters fuel ps last (done ++ p ∷ []) (omega arith) m.1 v
          ∙ ap some (append_assoc done (p ∷ []) (ps ++ last ∷ [])))

  -- The text behind a command that is formatted with parameters.
  finish-parameters :
      (fuel : ℕ) (origin command : Text) (ps : List Text) (last : Text)
      → length ps < fuel
      → All IsMiddle ps
      → IsTrailing last
      → command ≢ []
      → finish t fuel origin command (t.tokens (parameters ps last))
        ≡ message origin command (ps ++ last ∷ [])
  unfolding finish
  finish-parameters fuel origin [] ps last h m v n = absurd (n refl)
  finish-parameters fuel origin (c ∷ command) ps last h m v n =
      rw (finish, parameters_from-parameters fuel ps last [] h m v)

  parse_plain :
      (line w : Text) (s : t.Stream)
      → (get_or line 0 0 == b':') ≡ false
      → t.next b' ' (t.tokens line) ≡ (w, s)
      → parse t line ≡ finish t (suc (length line)) [] (t.to_upper w) s
  unfolding parse
  parse_plain line w s h e = rw (h, e)

  parse_origin :
      (line origin w : Text) (c : ℕ) (s s' : t.Stream)
      → (get_or line 0 0 == b':') ≡ true
      → t.next b' ' (t.tokens line) ≡ (c ∷ origin, s)
      → t.next b' ' s ≡ (w, s')
      → parse t line ≡ finish t (suc (length line)) origin (t.to_upper w) s'
  unfolding parse
  parse_origin line origin w c s s' h e f = ground arith

  -- With a tokenizer that is as Irc2/Tokens asks: a command in upper case without an origin is
  -- read back as it was formatted. The command and its middle parameters are words without a colon
  -- in front, and the last parameter is text whose first space, if it has one, has another
  -- character behind it.
  pub parse-format_message :
      (command : Text) (ps : List Text) (last : Text)
      → IsMiddle command
      → t.to_upper command ≡ command
      → All IsMiddle ps
      → IsTrailing last
      → parse t (format_message command (ps ++ last ∷ [])) ≡ message [] command (ps ++ last ∷ [])
  unfolding format_message
  parse-format_message [] ps last m u ms v = absurd (m.0.0 refl)
  parse-format_message (c ∷ command) ps last m u ms v =
      let line = c ∷ (command ++ b' ' ∷ parameters ps last) in
      let (more, first, plain) = next_middle (c ∷ command) (parameters ps last) m in
      let fuel : length ps < suc (length line) =
        omega (
          arith,
          length-le-parameters ps last,
          length-append command (b' ' ∷ parameters ps last),
        ) in
      rw (join-parameters ps last) (
        parse_plain line (c ∷ command) (t.tokens (parameters ps last)) plain first
        ∙ (rw u
            (finish-parameters (suc (length line)) [] (c ∷ command) ps last fuel ms v (λ e. cc))))

  -- With a tokenizer that is as Irc2/Tokens asks: a command in upper case, behind an origin that
  -- has no space, is read back as it was formatted. The command and its middle parameters are
  -- words without a colon in front, and the last parameter is text whose first space, if it has
  -- one, has another character behind it.
  pub parse-format_message_from :
      (origin command : Text) (ps : List Text) (last : Text)
      → All (λ c. c ≢ b' ') origin
      → IsMiddle command
      → t.to_upper command ≡ command
      → All IsMiddle ps
      → IsTrailing last
      → parse t (format_message_from origin command (ps ++ last ∷ []))
        ≡ message origin command (ps ++ last ∷ [])
  unfolding format_message_from format_message
  parse-format_message_from origin command ps last o m u ms v =
      let body = command ++ b' ' ∷ parameters ps last in
      let line = b':' ∷ (origin ++ b' ' ∷ body) in
      let (more, first, plain) = next_middle command (parameters ps last) m in
      let fuel : length ps < suc (length line) = omega (
        arith,
        length-le-parameters ps last,
        length-append command (b' ' ∷ parameters ps last),
        length-append origin (b' ' ∷ body),
      ) in
      rw (join-parameters ps last) (
        parse_origin line origin command b':' (t.tokens body) (t.tokens (parameters ps last)) refl
          (l.next_word b' ' (b':' ∷ origin) body (λ e. cc, (omega arith, o))) first
        ∙ (rw u (finish-parameters (suc (length line)) origin command ps last fuel ms v m.0.0)))
