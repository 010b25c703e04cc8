-- ===== src/Daemon/Protocols.antt =====
-- The protocols that the daemon knows.
use kineircd.Prelude.{ap, ℕ, ◌≡◌, refl, ◌∙◌, false, List, [], ◌∷◌, none, some}
use kineircd.Prelude.Text.{Text}
use kineircd.Daemon.{Daemon, ProtocolType, find_key, find_protocol, register_protocol, protocol_key}

-- Registrations in order, whatever their results.
abbrev pub register_all : List (ProtocolType × (Text × ℕ)) → Daemon → Daemon
register_all [] d = d
register_all ((type, (name, info)) ∷ ps) d = register_all ps (register_protocol type name info d).1

register_protocol-refused :
    (type : ProtocolType) (name : Text) (info other : ℕ) (d : Daemon)
    → find_key d.protocols 0 ≡ some other
    → register_protocol type name info d ≡ (false, d)
unfolding register_protocol protocol_key
register_protocol-refused type name info other d e = rw (register_protocol, e)

register_all-same :
    (ps : List (ProtocolType × (Text × ℕ))) (other : ℕ) (d : Daemon)
    → find_key d.protocols 0 ≡ some other
    → register_all ps d ≡ d
register_all-same [] other d e = refl
register_all-same ((type, (name, info)) ∷ ps) other d e =
    rw (register_all, register_protocol-refused type name info other d e)
      (register_all-same ps other d e)

first_key :
    (type : ProtocolType) (name : Text) (info : ℕ) (d : Daemon)
    → d.protocols ≡ []
    → find_key (register_protocol type name info d).1.protocols 0 ≡ some info
unfolding register_protocol find_key protocol_key
first_key type name info d h =
    let e : find_key d.protocols 0 ≡ none = ap (λ ps. find_key ps 0) h in rw (register_protocol, e)

-- The first protocol that is registered with a daemon which has none is the only one: whatever is
-- registered behind it is refused, and every search gives the first, whatever its type and name.
pub registrations-first :
    (type : ProtocolType) (name : Text) (info : ℕ) (ps : List (ProtocolType × (Text × ℕ)))
    (d : Daemon)
    → d.protocols ≡ []
    → (t : ProtocolType) (n : Text) (i : ℕ)
    → let d' = register_all ((type, (name, info)) ∷ ps) d in
      (find_protocol t n d' ≡ some info) × (register_protocol t n i d' ≡ (false, d'))
unfolding find_protocol protocol_key
registrations-first type name info ps d h t n i =
    let d1 = (register_protocol type name info d).1 in
    let there : find_key (register_all ps d1).protocols 0 ≡ some info =
      ap (λ x. find_key x.protocols 0) (register_all-same ps info d1 (first_key type name info d h))
      ∙ first_key type name info d h in
    (there, register_protocol-refused t n i info (register_all ps d1) there)
