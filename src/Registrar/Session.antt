-- ===== src/Registrar/Session.antt =====
-- What holds of a registrar between two messages.
use kineircd.Prelude.{◌≤◌, ◌≡◌, ◌≢◌, refl, true, List, Option, none, some, arith}
use kineircd.Prelude.Text.{Text}
use kineircd.Prelude.Int.{is_positive}
use kineircd.Registrar.State.{Registrar, Environment, unregistered, iircn, server, service, user}
use kineircd.Registrar.Commands.{
  parse_capab, parse_iircn, parse_nick, parse_pass, parse_pong, parse_quit, parse_server,
  parse_service, parse_user,
}
use kineircd.Registrar.Message.{
  Command, capab, iircn_command, nick, pass, pong, quit, server_command, service_command,
  user_command, handle,
}

-- A result that is there has the property.
abbrev pub Holds {ℓ κ} : {A : Type ℓ} → (A → Type κ) → Option A → Type κ
Holds P none = Unit
Holds P (some a) = P a

-- The registration type was one that the listener allows, a network has a positive link stamp,
-- and no more than one probe is open.
pub record IsSound (env : Environment) (r : Registrar) : Type 0 where
  pub users_allowed : r.registration_type ≡ user → env.allow_users ≡ true
  pub servers_allowed : r.registration_type ≡ server → env.allow_servers ≡ true
  pub services_allowed : r.registration_type ≡ service → env.allow_services ≡ true
  pub networks_allowed : r.registration_type ≡ iircn → env.allow_networks ≡ true
  pub stamped : r.registration_type ≡ iircn → is_positive r.registrant.link_stamp ≡ true
  pub probes : r.pongs_left ≤ 1

-- What a handler does to a sound registrar: it stays sound, is not replaced, and keeps a
-- registration type that it has.
pub record IsStep (env : Environment) (r s : Registrar) : Type 0 where
  pub sound : IsSound env s
  pub kept : s.replaced ≡ r.replaced
  pub typed : r.registration_type ≢ unregistered → s.registration_type ≡ r.registration_type

module _ (env : Environment) (ps : List Text) (r : Registrar) (h : IsSound env r) where
  parse_capab-IsStep : Holds (IsStep env r) (parse_capab env ps r)
  unfolding parse_capab
  parse_capab-IsStep = ground arith

  parse_iircn-IsStep : IsStep env r (parse_iircn env ps r)
  unfolding parse_iircn
  parse_iircn-IsStep = ground arith

  parse_nick-IsStep : IsStep env r (parse_nick env ps r)
  unfolding parse_nick
  parse_nick-IsStep = ground arith

  parse_pass-IsStep : IsStep env r (parse_pass env ps r)
  unfolding parse_pass
  parse_pass-IsStep = ground arith

  parse_pong-IsStep : IsStep env r (parse_pong env ps r)
  unfolding parse_pong
  parse_pong-IsStep = ground arith

  parse_quit-IsStep : IsStep env r (parse_quit env ps r)
  unfolding parse_quit
  parse_quit-IsStep = ground arith

  parse_service-IsStep : IsStep env r (parse_service env ps r)
  unfolding parse_service
  parse_service-IsStep = ground arith

  parse_user-IsStep : IsStep env r (parse_user env ps r)
  unfolding parse_user
  parse_user-IsStep = ground arith

  parse_server-IsStep : Holds (IsStep env r) (parse_server env ps r)
  unfolding parse_server
  parse_server-IsStep = ground arith

  pub handle-IsStep : (c : Option Command) → Holds (IsStep env r) (handle env c ps r)
  unfolding handle
  handle-IsStep none = record { sound = h; kept = refl; typed = λ _. refl }
  handle-IsStep (some capab) = parse_capab-IsStep
  handle-IsStep (some iircn_command) = parse_iircn-IsStep
  handle-IsStep (some nick) = parse_nick-IsStep
  handle-IsStep (some pass) = parse_pass-IsStep
  handle-IsStep (some pong) = parse_pong-IsStep
  handle-IsStep (some quit) = parse_quit-IsStep
  handle-IsStep (some server_command) = parse_server-IsStep
  handle-IsStep (some service_command) = parse_service-IsStep
  handle-IsStep (some user_command) = parse_user-IsStep
