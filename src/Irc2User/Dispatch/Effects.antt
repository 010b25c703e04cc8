-- ===== src/Irc2User/Dispatch/Effects.antt =====
-- Each handler, with the parameters that it reads, has an effect.
use kineircd.Prelude.{
  ◌++◌, ℕ, ◌≡◌, ◌≤◌, refl, true, false, List, [], ◌∷◌, Option, none, some, arith, length, is_empty,
  inl, inr, Option-cases,
}
use kineircd.Prelude.Text.{Text, codes}
use kineircd.User.{User, set_away, set_here}
use kineircd.Irc2.Tokens.{Tokens, AreTokens}
use kineircd.Irc2.Tokens.Listed.{listed-total}
use kineircd.Irc2User.Commands.{
  Handler, handle_admin, handle_away, handle_die, handle_help, handle_info, handle_ison,
  handle_join, handle_kill, handle_language, handle_lusers, handle_motd, handle_names,
  handle_networks, handle_nick, handle_notice, handle_oper, handle_part, handle_ping,
  handle_privmsg, handle_quit, handle_rehash, handle_restart, handle_squery, handle_stats,
  handle_summon, handle_time, handle_userhost, handle_users, handle_version, handle_wallops,
  handle_whois, handle_whowas, Commands,
}
use kineircd.Irc2User.Dispatch.{
  languages, answers, Effect, told, language_command, Session, dispatch,
}
use kineircd.Network.{find_client}
use kineircd.Irc2User.Handlers.Operators.{handle_kill as kill_handler, refusal}
use kineircd.Irc2User.Messaging.Total.{do_message-total}
use kineircd.Irc2User.Handlers.{Answer, end_of_names, no_such_nick, kill}
use kineircd.Irc2User.Handlers.Targets.{handle_names as names_handler, names_of, names_request}
use kineircd.Irc2User.Services.{Event, handle_squery as squery_handler, visit}
use kineircd.Irc2User.Languages.{
  Data, Reply, list_languages, language_line, read_codes, finish, choose_languages,
}

-- How many parameters a handler reads without a test.
abbrev pub required : Handler → ℕ
required handle_die = 1
required handle_join = 1
required handle_kill = 2
required handle_restart = 1
required handle_stats = 1
required handle_summon = 1
required handle_wallops = 1
required handle_whois = 1
required handle_whowas = 1
required _ = 0

-- The user has a first language, which may be null.
abbrev pub HasLanguage : User → Type 0
HasLanguage u = is_empty u.languages ≡ false

-- There is an effect, and the user still has a first language.
abbrev pub IsAnswered : Option (Effect × User) → Type 0
IsAnswered o = (e : Effect) × (u : User) × (o ≡ some (e, u)) × HasLanguage u

pub answered : (e : Effect) (u : User) → HasLanguage u → IsAnswered (some (e, u))
answered e u h = (e, u, refl, h)

told-IsAnswered {ℓ} :
    {A : Type ℓ} (f : A → Effect) (u : User) (o : Option A)
    → (a : A) × (o ≡ some a)
    → HasLanguage u
    → IsAnswered (told f u o)
told-IsAnswered f u o (a, e) h = rw e (answered (f a) u h)

module _ (t : Tokens) (l : AreTokens t) (s : Session) where
  names-total : (ps : List Text) → (a : List Answer) × (names_handler t s.world ps ≡ some a)
  unfolding names_handler
  names-total ps =
      let (targets, e) = listed-total t l (names_request ps) in
      (names_of s.world targets ++ end_of_names ∷ [], rw (names_handler, e))

  squery-total : (ps : List Text) → (a : List Event) × (squery_handler t s.services ps ≡ some a)
  unfolding squery_handler
  squery-total [] = (_, refl)
  squery-total (recipients ∷ []) = (_, refl)
  squery-total (recipients ∷ text ∷ ps) =
      let (targets, e) = listed-total t l recipients in
      (visit s.services text targets s.services.max_targets, rw (squery_handler, e))

  list_languages-total :
      (ds : List Data) (ls : List (Option ℕ))
      → is_empty ls ≡ false
      → (r : List Reply) × (list_languages s.default_language s.highest_tag s.world.delocalise ds ls
          ≡ some r)
  unfolding list_languages
  list_languages-total [] ls h = (_, refl)
  list_languages-total (d ∷ ds) [] h = absurd cc
  list_languages-total (d ∷ ds) (primary ∷ ls) h =
      let (r, e) = list_languages-total ds (primary ∷ ls) h in
      (
        language_line s.default_language s.highest_tag s.world.delocalise primary d ∷ r,
        rw (list_languages, e),
      )

  finish-HasLanguage :
      (u : User) (r : List Reply × Option (List (Option ℕ)))
      → HasLanguage u
      → HasLanguage (finish u r).1
  unfolding finish
  finish-HasLanguage u (replies, none) h = h
  finish-HasLanguage u (replies, some []) h = h
  finish-HasLanguage u (replies, some (x ∷ ls)) h = refl

  language_command-IsAnswered :
      (ps : List Text) (u : User) → HasLanguage u → IsAnswered (language_command t s ps u)
  unfolding language_command choose_languages
  language_command-IsAnswered [] u h =
      told-IsAnswered languages u _ (list_languages-total s.known_languages u.languages h) h
  language_command-IsAnswered (p ∷ ps) u h =
      let (codes, e) = listed-total t l p in
      let r = read_codes s.max_languages s.find_by_code s.world.to_lower codes 0 [] in
      rw (language_command, choose_languages, e) (answered _ _ (finish-HasLanguage u r h))

  kill-total :
      (p q : Text) (ps : List Text)
      → (a : List Answer) × (kill_handler s.world (p ∷ q ∷ ps) ≡ some a)
  unfolding kill_handler
  kill-total p q ps = elim (Option-cases (find_client s.world.lists (s.world.localise p))) [
    | inl e ↦ (no_such_nick p ∷ [], rw (kill_handler, e))
    | inr (victim, e) ↦
        let reason = s.world.localise q in
        (
          kill victim reason ∷ refusal (codes "KILL") (s.world.kill_answer victim reason),
          rw (kill_handler, e),
        )
  ]

  pub dispatch-IsAnswered :
      (list : Commands) (handler : Handler) (ps : List Text) (u : User)
      → HasLanguage u
      → required handler ≤ length ps
      → IsAnswered (dispatch t s list handler ps u)
  unfolding dispatch set_away set_here kineircd.Irc2User.Presence.handle_away
      kineircd.Irc2User.Handlers.Nickname.handle_nick
      kineircd.Irc2User.Handlers.Operators.handle_die
      kineircd.Irc2User.Handlers.Operators.handle_restart
      kineircd.Irc2User.Handlers.Operators.handle_rehash
      kineircd.Irc2User.Handlers.Operators.handle_wallops
      kineircd.Irc2User.Handlers.Requests.handle_join
      kineircd.Irc2User.Handlers.Requests.handle_stats
      kineircd.Irc2User.Handlers.Requests.handle_summon
      kineircd.Irc2User.Handlers.Requests.handle_whois
      kineircd.Irc2User.Handlers.Requests.handle_whowas
  dispatch-IsAnswered list handle_admin ps u h k = answered _ _ h
  dispatch-IsAnswered list handle_help ps u h k = answered _ _ h
  dispatch-IsAnswered list handle_info ps u h k = answered _ _ h
  dispatch-IsAnswered list handle_ison ps u h k = answered _ _ h
  dispatch-IsAnswered list handle_lusers ps u h k = answered _ _ h
  dispatch-IsAnswered list handle_motd ps u h k = answered _ _ h
  dispatch-IsAnswered list handle_networks ps u h k = answered _ _ h
  dispatch-IsAnswered list handle_oper ps u h k = answered _ _ h
  dispatch-IsAnswered list handle_part ps u h k = answered _ _ h
  dispatch-IsAnswered list handle_ping ps u h k = answered _ _ h
  dispatch-IsAnswered list handle_quit ps u h k = answered _ _ h
  dispatch-IsAnswered list handle_time ps u h k = answered _ _ h
  dispatch-IsAnswered list handle_userhost ps u h k = answered _ _ h
  dispatch-IsAnswered list handle_users ps u h k = answered _ _ h
  dispatch-IsAnswered list handle_version ps u h k = answered _ _ h
  dispatch-IsAnswered list handle_away [] u h k = answered _ _ h
  dispatch-IsAnswered list handle_away (p ∷ ps) u h k = answered _ _ h
  dispatch-IsAnswered list handle_nick [] u h k = answered _ _ h
  dispatch-IsAnswered list handle_nick (p ∷ ps) u h k = answered _ _ h
  dispatch-IsAnswered list handle_rehash ps u h k = answered _ _ h
  dispatch-IsAnswered list handle_language ps u h k = language_command-IsAnswered ps u h
  dispatch-IsAnswered list handle_names ps u h k = told-IsAnswered _ u _ (names-total ps) h
  dispatch-IsAnswered list handle_notice ps u h k =
      told-IsAnswered _ u _ (do_message-total t l s.messaging true ps) h
  dispatch-IsAnswered list handle_privmsg ps u h k =
      told-IsAnswered _ u _ (do_message-total t l s.messaging false ps) h
  dispatch-IsAnswered list handle_squery ps u h k = told-IsAnswered _ u _ (squery-total ps) h
  dispatch-IsAnswered list handle_die [] u h k = elim k [ ]
  dispatch-IsAnswered list handle_die (p ∷ ps) u h k = answered _ _ h
  dispatch-IsAnswered list handle_restart [] u h k = elim k [ ]
  dispatch-IsAnswered list handle_restart (p ∷ ps) u h k = answered _ _ h
  dispatch-IsAnswered list handle_wallops [] u h k = elim k [ ]
  dispatch-IsAnswered list handle_wallops (p ∷ ps) u h k = answered _ _ h
  dispatch-IsAnswered list handle_join [] u h k = elim k [ ]
  dispatch-IsAnswered list handle_join (p ∷ ps) u h k = answered _ _ h
  dispatch-IsAnswered list handle_summon [] u h k = elim k [ ]
  dispatch-IsAnswered list handle_summon (p ∷ []) u h k = answered _ _ h
  dispatch-IsAnswered list handle_summon (p ∷ q ∷ ps) u h k = answered _ _ h
  dispatch-IsAnswered list handle_whois [] u h k = elim k [ ]
  dispatch-IsAnswered list handle_whois (p ∷ []) u h k = answered _ _ h
  dispatch-IsAnswered list handle_whois (p ∷ q ∷ ps) u h k = answered _ _ h
  dispatch-IsAnswered list handle_stats [] u h k = elim k [ ]
  dispatch-IsAnswered list handle_stats (p ∷ []) u h k = answered _ _ h
  dispatch-IsAnswered list handle_stats (p ∷ q ∷ ps) u h k = answered _ _ h
  dispatch-IsAnswered list handle_whowas [] u h k = elim k [ ]
  dispatch-IsAnswered list handle_whowas (p ∷ []) u h k = answered _ _ h
  dispatch-IsAnswered list handle_whowas (p ∷ q ∷ []) u h k = answered _ _ h
  dispatch-IsAnswered list handle_whowas (p ∷ q ∷ r ∷ ps) u h k = answered _ _ h
  dispatch-IsAnswered list handle_kill [] u h k = elim k [ ]
  dispatch-IsAnswered list handle_kill (p ∷ []) u h k = absurd (omega arith)
  dispatch-IsAnswered list handle_kill (p ∷ q ∷ ps) u h k =
      told-IsAnswered answers u _ (kill-total p q ps) h
