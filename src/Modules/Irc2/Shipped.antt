-- ===== src/Modules/Irc2/Shipped.antt =====
-- Both modules of the IRC-2 protocols in one server.
use kineircd.Prelude.{
  ℕ, ◌+◌, ◌%◌, ◌^◌, ◌≡◌, ◌<◌, refl, sym, ap, ◌∙◌, true, false, ◌&&◌, [], none, some, Bool-cases,
  inl, inr, arith, ◌==◌, Bool,
}
use kineircd.Prelude.Text.{Text}
use kineircd.Daemon.{Daemon, ProtocolType, find_key, find_protocol, register_protocol, protocol_key}
use kineircd.Daemon.Protocols.{registrations-first}
use kineircd.Modules.Irc2.{
  Part, irc2_registrar, irc2_user, type_of, protocol_name, creates_for_listener,
  creates_for_registrant, System, Place, init, prepare, register_info, register_tags, start,
  destroy, deinit,
}

-- A registration with a daemon that has no protocol.
register_protocol_first :
    (type : ProtocolType) (name : Text) (info : ℕ) (d : Daemon)
    → d.protocols ≡ []
    → (register_protocol type name info d).0 ≡ true
unfolding register_protocol find_key protocol_key
register_protocol_first type name info d h =
    let e : find_key d.protocols 0 ≡ none = ap (λ ps. find_key ps 0) h in rw (register_protocol, e)

never_both : (part : Part) → (creates_for_listener part && creates_for_registrant part) ≡ false
unfolding creates_for_listener creates_for_registrant
never_both irc2_registrar = refl
never_both irc2_user = refl

module _ (p : Place) where
  -- The registration of a module's protocol.
  abbrev registration : Part → Daemon → Bool × Daemon
  registration part d = register_protocol (type_of part) (protocol_name part) (p.info part) d

  init_lem : (s : System) → ((init p s).0 ≡ true) × ((init p s).1.daemon ≡ s.daemon)
  unfolding init
  init_lem s = elim (Bool-cases ((s.references + 1) % 2 ^ 32 == 1)) [
    | inl e ↦ rw (init, e) (refl, refl)
    | inr e ↦ rw (init, e) (refl, refl)
  ]

  prepare-daemon : (part : Part) (s : System) → (prepare p part s).daemon ≡ s.daemon
  unfolding prepare
  prepare-daemon irc2_registrar s = refl
  prepare-daemon irc2_user s = refl

  register_info_lem :
      (part : Part) (s : System)
      → ((register_info p part s).0 ≡ (registration part s.daemon).0)
        × ((register_info p part s).1.daemon ≡ (registration part s.daemon).1)
  unfolding register_info
  register_info_lem part s = (refl, refl)

  register_tags_lem :
      (part : Part) (s : System)
      → ((register_tags p part s).0 ≡ true) × ((register_tags p part s).1.daemon ≡ s.daemon)
  unfolding register_tags
  register_tags_lem part s = (refl, refl)

  -- A module starts exactly if its protocol is registered.
  start-registration :
      (part : Part) (s : System)
      → ((start p part s).0 ≡ (registration part s.daemon).0)
        × ((start p part s).1.daemon ≡ (registration part s.daemon).1)
  unfolding start
  start-registration part s =
      let (ready, kept) = init_lem s in
      let prepared = prepare p part (init p s).1 in
      let same = prepare-daemon part (init p s).1 ∙ kept in
      let (answer, after) = register_info_lem part prepared in
      let (done, tags) = register_tags_lem part (register_info p part prepared).1 in
      let answer' = answer ∙ ap (λ d. (registration part d).0) same in
      let after' = after ∙ ap (λ d. (registration part d).1) same in
      elim (Bool-cases (register_info p part prepared).0) [
        | inl e ↦ rw (start, ready, e) (done ∙ sym e ∙ answer', tags ∙ after')
        | inr e ↦ rw (start, ready, e) (sym e ∙ answer', after')
      ]

  -- Both modules, started one after the other in a server that knows no protocol: the second one
  -- does not start, every search finds the protocol of the first, and that one does not create
  -- both instances for new connections and instances for registrants.
  pub start-start :
      (first second : Part) (s : System)
      → s.daemon.protocols ≡ []
      → (type : ProtocolType) (name : Text)
      → let after = (start p first s).1 in
        ((start p first s).0 ≡ true)
        × ((start p second after).0 ≡ false)
        × (find_protocol type name (start p second after).1.daemon ≡ some (p.info first))
        × ((creates_for_listener first && creates_for_registrant first) ≡ false)
  start-start first second s h type name =
      let after = (start p first s).1 in
      let (started, registered) = start-registration first s in
      let (refused, kept) = start-registration second after in
      let (found, same) =
        registrations-first (type_of first) (protocol_name first) (p.info first) [] s.daemon h
          (type_of second) (protocol_name second) (p.info second) in
      let (there, other) =
        registrations-first (type_of first) (protocol_name first) (p.info first) [] s.daemon h type
          name (p.info second) in
      (
        started
            ∙ register_protocol_first (type_of first) (protocol_name first) (p.info first) s.daemon
                h,
        refused ∙ ap (λ x. (registration second x).0) registered ∙ ap (λ r. r.0) same,
        ap (λ x. find_protocol type name x)
              (kept ∙ ap (λ x. (registration second x).1) registered ∙ ap (λ r. r.1) same)
            ∙ there,
        never_both first,
      )

  prepare-references : (part : Part) (s : System) → (prepare p part s).references ≡ s.references
  unfolding prepare
  prepare-references irc2_registrar s = refl
  prepare-references irc2_user s = refl

  init-references : (s : System) → (init p s).1.references ≡ (s.references + 1) % 2 ^ 32
  unfolding init
  init-references s = elim (Bool-cases ((s.references + 1) % 2 ^ 32 == 1)) [
    | inl e ↦ rw (init, e) refl
    | inr e ↦ rw (init, e) refl
  ]

  start-references :
      (part : Part) (s : System) → (start p part s).1.references ≡ (s.references + 1) % 2 ^ 32
  unfolding start register_info register_tags
  start-references part s =
      let (ready, kept) = init_lem s in
      let prepared = prepare p part (init p s).1 in
      let counted = prepare-references part (init p s).1 ∙ init-references s in
      elim (Bool-cases (register_info p part prepared).0) [
        | inl e ↦ rw (start, ready, e) counted
        | inr e ↦ rw (start, ready, e) counted
      ]

  destroy-references :
      (part : Part) (s : System)
      → (destroy p part s).references ≡ (s.references + 0xffff_ffff) % 2 ^ 32
  unfolding destroy deinit
  destroy-references irc2_registrar s = refl
  destroy-references irc2_user s = refl

  -- A module that is destroyed takes back its reference to the library, whether it started or not.
  pub destroy-start :
      (part : Part) (s : System)
      → s.references < 2 ^ 32
      → (destroy p part (start p part s).1).references ≡ s.references
  destroy-start part s h =
      destroy-references part (start p part s).1
      ∙ ap (λ r. (r + 0xffff_ffff) % 2 ^ 32) (start-references part s)
      ∙ omega arith
