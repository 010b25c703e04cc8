-- ===== src/Registrar/Switch.antt =====
-- The switch to another protocol, and whole messages.
use kineircd.Prelude.{
  ℕ, ◌≡◌, ◌≢◌, refl, ◌⊎◌, inl, inr, true, List, [], ◌∷◌, Option, none, some, arith, is_empty, not,
  ltb, ◌||◌, ◌∙◌, Bool-cases,
}
use kineircd.Prelude.Text.{Text}
use kineircd.Prelude.Int.{is_positive}
use kineircd.Registrar.State.{
  Registrar, Environment, RegistrationType, unregistered, iircn, server, service, user, send_error,
  Tag, error_protocol_unknown, error_protocol_init_fail, error_protocol_unavailable_service,
  error_protocol_unavailable_server,
}
use kineircd.Registrar.Message.{
  handle, complain, hand_over, complete_user, complete_iircn, complete_server, complete_service,
  complete_as, complete, parse_message, find_command, command_table,
}
use kineircd.Registrar.Session.{Holds, IsSound, IsStep, handle-IsStep}

-- The registration is complete: the listener allows its type, all that the type requires was
-- given, and a user has no probe open.
pub data IsComplete (env : Environment) (r : Registrar) : Type 0 where
  complete_as_user :
      r.registration_type ≡ user
      → env.allow_users ≡ true
      → (r.registrant.name ≢ []) × (r.registrant.username ≢ []) × (r.registrant.hostname ≢ [])
      → r.pongs_left ≡ 0
      → IsComplete env r
  complete_as_iircn :
      r.registration_type ≡ iircn
      → env.allow_networks ≡ true
      → (r.registrant.password ≢ [])
        × (r.registrant.name ≢ [])
        × (r.registrant.hostname ≢ [])
        × (r.registrant.protocol ≢ [])
      → is_positive r.registrant.link_stamp ≡ true
      → IsComplete env r
  complete_as_server :
      r.registration_type ≡ server
      → env.allow_servers ≡ true
      → (r.registrant.password ≢ []) × (r.registrant.hostname ≢ []) × (r.registrant.protocol ≢ [])
      → IsComplete env r

-- The switch changes the output, the connection and `replaced` only, and the latter only if the
-- registration is complete.
pub record IsSwitch (env : Environment) (r s : Registrar) : Type 0 where
  pub sound : IsSound env s
  pub same_type : s.registration_type ≡ r.registration_type
  pub gated : (s.replaced ≡ r.replaced) ⊎ IsComplete env s

IsComplete-replaced :
    {env : Environment} {r : Registrar} (p : Option ℕ)
    → IsComplete env r
    → IsComplete env (record r { replaced = p })
IsComplete-replaced p (complete_as_user a b c d) = complete_as_user a b c d
IsComplete-replaced p (complete_as_iircn a b c d) = complete_as_iircn a b c d
IsComplete-replaced p (complete_as_server a b c) = complete_as_server a b c

module _ (env : Environment) (input_queue : Text) (r : Registrar) (h : IsSound env r) where
  stay-IsSwitch : IsSwitch env r r
  stay-IsSwitch = record { sound = h; same_type = refl; gated = inl refl }

  error-IsSwitch : (text : Text) → IsSwitch env r (send_error text r)
  unfolding send_error
  error-IsSwitch text = record { sound = ground arith; same_type = refl; gated = inl refl }

  complain-IsSwitch : (tag : Tag) → IsSwitch env r (complain env tag r)
  unfolding complain
  complain-IsSwitch tag = ground (
    arith,
    error-IsSwitch (env.language tag (r.registrant.protocol ∷ [])),
    error-IsSwitch (env.language error_protocol_unknown []),
  )

  created-IsSwitch :
      (o : Option ℕ) (failed : Registrar)
      → IsSwitch env r failed
      → IsComplete env r
      → (let next : Registrar = elim o [
        | none ↦ failed
        | some p ↦ record r { replaced = some p }
      ] in
          IsSwitch env r next)
  created-IsSwitch none failed f k = f
  created-IsSwitch (some p) failed f k = record {
    sound = ground arith;
    same_type = refl;
    gated = inr (IsComplete-replaced (some p) k);
  }

  hand_over-IsSwitch :
      (info : Option ℕ) (tag : Tag)
      → IsComplete env r
      → IsSwitch env r (hand_over env input_queue info tag r)
  unfolding hand_over
  hand_over-IsSwitch none tag k = complain-IsSwitch tag
  hand_over-IsSwitch (some info) tag k =
      created-IsSwitch (env.create_protocol info r.registrant input_queue r.output.queue) _
        (error-IsSwitch (env.language error_protocol_init_fail [])) k

  complete_user-IsSwitch :
      r.registration_type ≡ user → IsSwitch env r (complete_user env input_queue r)
  unfolding complete_user
  complete_user-IsSwitch e =
      elim (Bool-cases (
        is_empty r.registrant.name
        || is_empty r.registrant.username
        || is_empty r.registrant.hostname
        || ltb 0 r.pongs_left)) [
          | inl missing ↦ rw missing stay-IsSwitch
          | inr given ↦ rw given (
              hand_over-IsSwitch _ _ (
                complete_as_user e (h.users_allowed e) (ground arith, ground arith, ground arith)
                  (ground arith)))
        ]

  complete_iircn-IsSwitch :
      r.registration_type ≡ iircn → IsSwitch env r (complete_iircn env input_queue r)
  unfolding complete_iircn
  complete_iircn-IsSwitch e =
      elim (Bool-cases (
        is_empty r.registrant.password
        || is_empty r.registrant.name
        || is_empty r.registrant.hostname
        || is_empty r.registrant.protocol
        || not (is_positive r.registrant.link_stamp))) [
          | inl missing ↦ rw missing stay-IsSwitch
          | inr given ↦ rw given (
              hand_over-IsSwitch _ _ (
                complete_as_iircn e (h.networks_allowed e)
                  (ground arith, ground arith, ground arith, ground arith) (h.stamped e)))
        ]

  complete_server-IsSwitch :
      r.registration_type ≡ server → IsSwitch env r (complete_server env input_queue r)
  unfolding complete_server hand_over
  complete_server-IsSwitch e =
      elim (Bool-cases (is_empty r.registrant.password || is_empty r.registrant.hostname)) [
        | inl missing ↦ rw missing stay-IsSwitch
        | inr given ↦ elim (Bool-cases (is_empty r.registrant.protocol)) [
          | inl unnamed ↦
              rw (complete_server, given, unnamed)
                (complain-IsSwitch error_protocol_unavailable_server)
          | inr named ↦
              rw (complete_server, given, named)
                (hand_over-IsSwitch _ _ (
                  complete_as_server e (h.servers_allowed e)
                    (ground arith, ground arith, ground arith)))
        ]
      ]

  complete_service-IsSwitch : IsSwitch env r (complete_service env r)
  unfolding complete_service
  complete_service-IsSwitch =
      ground (arith, stay-IsSwitch, complain-IsSwitch error_protocol_unavailable_service)

  complete_as-IsSwitch :
      (k : RegistrationType)
      → r.registration_type ≡ k
      → IsSwitch env r (complete_as env k input_queue r)
  unfolding complete_as
  complete_as-IsSwitch unregistered e = stay-IsSwitch
  complete_as-IsSwitch user e = complete_user-IsSwitch e
  complete_as-IsSwitch iircn e = complete_iircn-IsSwitch e
  complete_as-IsSwitch server e = complete_server-IsSwitch e
  complete_as-IsSwitch service e = complete_service-IsSwitch

-- One message: the registrar stays sound and keeps a registration type that it has, and it is
-- replaced by a new protocol only if its registration is complete.
pub record IsMessageStep (env : Environment) (r s : Registrar) : Type 0 where
  pub sound : IsSound env s
  pub typed : r.registration_type ≢ unregistered → s.registration_type ≡ r.registration_type
  pub gated : (s.replaced ≡ r.replaced) ⊎ IsComplete env s

join_steps :
    {env : Environment} {r s u : Registrar}
    → IsStep env r s
    → IsSwitch env s u
    → IsMessageStep env r u
join_steps a b = record {
  sound = b.sound;
  typed = λ n. b.same_type ∙ a.typed n;
  gated = elim b.gated [ inl e ↦ inl (e ∙ a.kept) | inr k ↦ inr k ];
}

completed :
    (env : Environment) (input_queue : Text) (r : Registrar) (o : Option Registrar)
    → Holds (IsStep env r) o
    → (let next : Option Registrar = elim o [
      | none ↦ none
      | some s ↦ some (complete env input_queue s)
    ] in
        Holds (IsMessageStep env r) next)
unfolding complete
completed env q r none a = tt
completed env q r (some s) a =
    join_steps a (complete_as-IsSwitch env q s a.sound s.registration_type refl)

-- Whatever the message and the state of the input queue, if the handler does not run into
-- undefined behaviour: a sound registrar stays sound, keeps the registration type that it has, and
-- is replaced only if its registration is complete.
pub parse_message-IsMessageStep :
    (env : Environment) (input_queue command : Text) (ps : List Text) (r : Registrar)
    → IsSound env r
    → Holds (IsMessageStep env r) (parse_message env input_queue command ps r)
unfolding parse_message
parse_message-IsMessageStep env q command ps r h =
    completed env q r (handle env (find_command command command_table) ps r)
      (handle-IsStep env ps r h (find_command command command_table))
