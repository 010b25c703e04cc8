-- ===== src/Registrar/Commands.antt =====
-- The commands that a connection gives before it is registered: the parse functions of
-- home/kineircd/src/mod_irc2registrar/protocol.cpp.
use kineircd.Prelude.{
  ◌-◌, Bool, ◌&&◌, ◌||◌, List, [], ◌∷◌, Option, none, some, if◌then◌else◌, ◌==◌, ltb, leb, is_empty,
  length, get_or, get_elem?, take, not,
}
use kineircd.Prelude.Text.{Text, codes, text_eq}
use kineircd.Prelude.Int.{is_positive, is_one}
use kineircd.Error.{is_ok}
use kineircd.Name.Nickname
use kineircd.Network.{find_client}
use kineircd.Registrar.State.{
  Registrant, Registrar, Environment, iircn, server, service, user, is_unregistered, Tag,
  error_conn_disallowed_user, error_conn_disallowed_iirc, error_conn_disallowed_server,
  error_conn_disallowed_service, error_bad_pong, notice_anti_spoof_ping_help, err_alreadyregistered,
  err_nonicknamegiven, error_broken_registration_data, err_erroneusnickname, err_nicknameinuse,
  goodbye, send_message, send_error, send_numeric, send_ping, need_more_params,
}

-- back() of a vector; `none` where it is empty.
unfoldable pub back : List Text → Option Text
back [] = none
back (x ∷ []) = some x
back (x ∷ y ∷ xs) = back (y ∷ xs)

module _ (env : Environment) where
  open env use {
    localise, delocalise, language, to_upper, to_int, to_long, lists, max_nickname_length,
    max_description_length, max_real_name_length,
  }

  -- `none` is the use of the last capability, for the debugging output, where there is none.
  unfoldable pub parse_capab : List Text → Registrar → Option Registrar
  unfolding need_more_params back
  parse_capab parameters r =
      if is_empty parameters
      then some (need_more_params env (codes "CAPAB") r)
      else if env.debug
      then elim (back r.registrant.capabilities) [ none ↦ none | some text ↦ some r ]
      else some r

  -- The guards that IIRCN, SERVER, SERVICE and USER begin with: the listener's flag, and the
  -- registration type.
  unfoldable pub refuse : Bool → Tag → Registrar → Registrar → Registrar
  unfolding send_error send_numeric goodbye
  refuse allowed disallowed r accepted =
      if not allowed
      then goodbye (send_error (language disallowed []) r)
      else if not (is_unregistered r.registration_type)
      then goodbye (send_numeric env 462 (language err_alreadyregistered [] ∷ []) r)
      else accepted

  unfoldable pub broken_data : Registrar → Registrar
  unfolding send_error goodbye
  broken_data r = goodbye (send_error (language error_broken_registration_data []) r)

  unfoldable pub parse_iircn : List Text → Registrar → Registrar
  unfolding refuse need_more_params broken_data
  parse_iircn ps r =
      let stored = record (r.registrant) {
        name = localise (get_or ps 0 []);
        hostname = localise (get_or ps 2 []);
        protocol = to_upper (get_or ps 3 []);
        link_stamp = to_long (get_or ps 4 []);
      } in
      let described =
        if ltb 5 (length ps)
        then record stored { description = localise (get_or ps 5 []) }
        else stored in
      refuse env.allow_networks error_conn_disallowed_iirc r (
        if ltb (length ps) 6
        then need_more_params env (codes "IIRCN") r
        else if not (text_eq (get_or ps 1 []) (b'*' ∷ []))
        then broken_data r
        else if not (is_positive stored.link_stamp)
        then broken_data (record r { registrant = stored })
        else record r { registrant = described; registration_type = iircn })

  unfoldable pub parse_nick : List Text → Registrar → Registrar
  unfolding send_numeric send_ping send_message
  parse_nick ps r =
      let nick = localise (get_or ps 0 []) in
      let named = record r { registrant = record (r.registrant) { name = nick } } in
      let pinged = send_ping env named in
      if is_empty ps
      then send_numeric env 431 (language err_nonicknamegiven [] ∷ []) r
      else if not (is_ok (Nickname.check_validity max_nickname_length nick))
      then send_numeric env 432 (language err_erroneusnickname [] ∷ []) r
      else elim (find_client lists nick) [
        | some _ ↦ send_numeric env 433 (language err_nicknameinuse [] ∷ []) r
        | none ↦
            if ltb 0 r.pongs_left && is_empty r.pong_match
            then send_message (codes "NOTICE")
                (delocalise nick
                  ∷ language notice_anti_spoof_ping_help
                      (pinged.pong_match ∷ codes "email@somewhere.org" ∷ [])
                  ∷ [])
                pinged
            else named
      ]

  unfoldable pub parse_pass : List Text → Registrar → Registrar
  unfolding broken_data need_more_params
  parse_pass ps r =
      if not (is_empty r.registrant.password)
      then broken_data r
      else if is_empty ps
      then need_more_params env (codes "PASS") r
      else record r { registrant = record (r.registrant) { password = localise (get_or ps 0 []) } }

  unfoldable pub parse_pong : List Text → Registrar → Registrar
  unfolding send_error goodbye send_ping
  parse_pong ps r =
      let bad = goodbye (send_error (language error_bad_pong []) r) in
      let answered = record r { pongs_left = r.pongs_left - 1 } in
      if r.pongs_left == 0 || is_empty ps
      then bad
      else if not (text_eq (get_or ps 0 []) r.pong_match)
      then bad
      else if ltb 0 answered.pongs_left
      then send_ping env answered
      else answered

  unfoldable pub parse_quit : List Text → Registrar → Registrar
  unfolding goodbye
  parse_quit ps r = goodbye r

  -- `none` is the read of `parameters[5]` past the end of the vector.
  unfoldable pub parse_server : List Text → Registrar → Option Registrar
  unfolding refuse need_more_params broken_data
  parse_server ps r =
      let stored = record (r.registrant) { hostname = localise (get_or ps 0 []) } in
      let stamped = record stored {
        start_stamp = to_long (get_or ps 2 []);
        link_stamp = to_long (get_or ps 3 []);
        protocol = get_or ps 4 [];
      } in
      let describe = λ (g : Registrant) (text : Text). record r {
        registrant = record g { description = localise (take max_description_length text) };
        registration_type = server;
      } in
      if not env.allow_servers || not (is_unregistered r.registration_type)
      then some (refuse env.allow_servers error_conn_disallowed_server r r)
      else if ltb (length ps) 3
      then some (need_more_params env (codes "SERVER") r)
      else if not (is_one (to_int (get_or ps 1 [])))
      then some (broken_data (record r { registrant = stored }))
      else if leb 5 (length ps)
      then elim (get_elem? ps 5) [ none ↦ none | some text ↦ some (describe stamped text) ]
      else some (describe stored (get_or ps 2 []))

  unfoldable pub parse_service : List Text → Registrar → Registrar
  unfolding refuse need_more_params
  parse_service ps r =
      let stored = record (r.registrant) {
        username = localise (get_or ps 0 []);
        distribution = localise (get_or ps 2 []);
      } in
      let described =
        if ltb 5 (length ps)
        then record stored { description = localise (take max_real_name_length (get_or ps 5 [])) }
        else stored in
      refuse env.allow_services error_conn_disallowed_service r (
        if ltb (length ps) 6
        then need_more_params env (codes "SERVICE") r
        else record r { registrant = described; registration_type = service })

  unfoldable pub parse_user : List Text → Registrar → Registrar
  unfolding refuse need_more_params
  parse_user ps r =
      let stored = record (r.registrant) {
        username = localise (get_or ps 0 []);
        modes = get_or ps 1 [];
        hostname = localise (get_or ps 2 []);
      } in
      let described =
        if ltb 3 (length ps)
        then record stored { description = localise (take max_real_name_length (get_or ps 3 [])) }
        else stored in
      refuse env.allow_users error_conn_disallowed_user r (
        if ltb (length ps) 4
        then need_more_params env (codes "USER") r
        else record r { registrant = described; registration_type = user })
