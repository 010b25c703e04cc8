-- ===== src/Listener/Config.antt =====
-- The configuration of listeners: ListenerConfig, home/kineircd/src/lib/listener/config.cpp. The
-- socket types that the library has, the answers of sockets, strtol and the services database are
-- arguments.
use Prim.Native.Nat.{bit_or}
use kineircd.Prelude.{
  ℕ, ◌+◌, ◌%◌, ◌^◌, Bool, true, false, ◌&&◌, ◌||◌, not, List, [], ◌∷◌, map, Option, none, some,
  if◌then◌else◌, is_empty, ltb, ◌==◌, ◌⊎◌, inl, inr,
}
use kineircd.Prelude.Text.{Text, codes, text_eq, to_lower}
use kineircd.Prelude.Int.{ℤ, pos, negsuc, is_positive}
use kineircd.Listener.{Listener, new_listener}

pub data Domain : Type 0 where
  ipv4 ipv6 ipx unix : Domain

-- The socket types with which the library is built.
pub record Supported : Type 0 where
  pub has_ipv4 : Bool
  pub has_ipv6 : Bool
  pub has_ipx : Bool
  pub has_unix : Bool

-- The variables of a listener's class.
pub record ListenerConfig : Type 0 where
  pub address : Text
  pub allow_networks : Bool
  pub allow_servers : Bool
  pub allow_services : Bool
  pub allow_users : Bool
  pub listen_backlog : ℕ
  pub port : Text
  pub secure : Bool

unfoldable pub default_config : ℕ → ListenerConfig
default_config backlog = record {
  address = [];
  allow_networks = false;
  allow_servers = false;
  allow_services = false;
  allow_users = false;
  listen_backlog = backlog;
  port = [];
  secure = false;
}

-- The flags are an unsigned int.
unfoldable pub flags_of : ListenerConfig → ℕ
flags_of c =
    let flags : ℕ = if c.allow_networks then bit_or 0 1 else 0 in
    let flags = if c.allow_servers then bit_or flags 2 else flags in
    let flags = if c.allow_services then bit_or flags 4 else flags in
    if c.allow_users then bit_or flags 8 else flags

-- The domain of an upper-cased name.
unfoldable pub named_domain : Supported → Text → Option Domain
unfolding text_eq
named_domain s name =
    let is = λ (t : Text). text_eq name t in
    if s.has_ipv4 && (is (codes "IPV4") || is (codes "TCP/IPV4"))
    then some ipv4
    else if s.has_ipv6 && (is (codes "IPV6") || is (codes "TCP/IPV6"))
    then some ipv6
    else if s.has_ipx && (is (codes "IPX") || is (codes "SPX") || is (codes "IPX/SPX"))
    then some ipx
    else if s.has_unix && is (codes "UNIX")
    then some unix
    else none

-- What the error string says.
pub data Complaint : Type 0 where
  unknown_domain : Text → Complaint
  undetermined_domain filename_required numbers_required some_errors : Complaint
  invalid_port : Text → Complaint
  invalid_address : Text → Complaint
  unable_to_bind : Text → ℕ → Complaint

-- The domain that the values of the class choose.
unfoldable pub choose_domain : Supported → (Text → Text) → List Text → Complaint ⊎ Domain
unfolding named_domain
choose_domain s to_upper [] = inl undetermined_domain
choose_domain s to_upper (v ∷ vs) =
    if is_empty v
    then inl undetermined_domain
    else elim (named_domain s (to_upper v)) [ none ↦ inl (unknown_domain v) | some d ↦ inr d ]

-- What a socket answers. A bind depends on the ports that are taken.
pub record Sockets : Type 0 where
  pub set_local_address : Text → Bool
  pub set_local_port : ℕ → Bool
  pub bind : List Listener → Text → ℕ → Bool

-- Nothing where the socket is set up.
unfoldable pub setup_socket : Sockets → ListenerConfig → List Listener → ℕ → Option Complaint
setup_socket s c listeners port =
    if not (is_empty c.address) && not (s.set_local_address c.address)
    then some (invalid_address c.address)
    else if not (port == 0) && not (s.set_local_port port)
    then some (invalid_port c.port)
    else if not (s.bind listeners c.address port)
    then some (unable_to_bind c.address port)
    else none

-- strcasecmp gives 0.
unfoldable pub strcasecmp_eq : Text → Text → Bool
unfolding text_eq to_lower
strcasecmp_eq s t = text_eq (map to_lower s) (map to_lower t)

-- An entry of the services database.
pub record Service : Type 0 where
  pub protocol : Text
  pub name : Text
  pub aliases : List Text
  pub port : ℕ

unfoldable pub any_alias : Text → List Text → Bool
unfolding strcasecmp_eq
any_alias name [] = false
any_alias name (a ∷ as') = strcasecmp_eq a name || any_alias name as'

-- The entry is one of the name, with TCP.
unfoldable pub is_service : Text → Service → Bool
unfolding any_alias strcasecmp_eq
is_service name e =
    strcasecmp_eq e.protocol (codes "TCP")
    && (strcasecmp_eq e.name name || any_alias name e.aliases)

-- The port behind an entry.
unfoldable pub next_port : Text → ℤ → Service → ℤ
unfolding is_service
next_port name port e = if is_service name e then pos e.port else port

-- The port that is set up: one that is positive.
unfoldable pub to_port : ℤ → ℕ
to_port (pos n) = n
to_port (negsuc n) = 0

-- The outcome of the handler: whether it is happy, the error string and the list of listeners.
pub record Outcome : Type 0 where
  pub happy : Bool
  pub error : Option Complaint
  pub listeners : List Listener

module _ (s : Sockets) (c : ListenerConfig) where
  unfoldable pub add_listener : ℕ → List Listener → List Listener
  unfolding new_listener flags_of
  add_listener port listeners =
      new_listener c.address port c.listen_backlog (flags_of c) ∷ listeners

  -- The loops over the services database, with the port, the error string, the number of errors and
  -- the listeners. A port that is set up becomes -2; one that is not stays.
  unfoldable pub open_named :
      List Service
      → ℤ
      → Option Complaint
      → ℕ
      → List Listener
      → Option Complaint × (ℕ × List Listener)
  unfolding next_port to_port
  open_named [] port error errors listeners = (error, (errors, listeners))
  open_named (e ∷ es) port error errors listeners =
      let port' = next_port c.port port e in
      let skip = open_named es port' error errors listeners in
      if not (is_positive port') then skip else elim (setup_socket s c listeners (to_port port')) [
        | some complaint ↦ open_named es port' (some complaint) ((errors + 1) % 2 ^ 32) listeners
        | none ↦ open_named es (negsuc 1) error errors (add_listener (to_port port') listeners)
      ]

  -- One socket, with nothing to look up.
  unfoldable pub open_one : ℕ → List Listener → Outcome
  open_one port listeners = elim (setup_socket s c listeners port) [
    | some complaint ↦ record { happy = false; error = some complaint; listeners = listeners }
    | none ↦ record { happy = true; error = none; listeners = add_listener port listeners }
  ]

  unfoldable pub open_services : List Service → ℤ → List Listener → Outcome
  open_services services port listeners =
      let (error, (errors, ls)) = open_named services port none 0 listeners in
      if ltb 1 errors
      then record { happy = false; error = some some_errors; listeners = ls }
      else record { happy = not (errors == 1); error = error; listeners = ls }

  unfoldable pub refused : Complaint → List Listener → Outcome
  refused complaint listeners = record {
    happy = false;
    error = some complaint;
    listeners = listeners;
  }

  -- A socket with a port. strtol gives the number, and whether it has read all of the text.
  unfoldable pub open_ports : (Text → ℤ × Bool) → List Service → Domain → List Listener → Outcome
  unfolding to_port refused
  open_ports strtol services domain listeners =
      let (port, complete) = strtol c.port in
      if complete
      then if is_positive port
        then open_one (to_port port) listeners
        else refused (invalid_port c.port) listeners
      else elim domain [
        | ipx ↦ refused numbers_required listeners
        | _ ↦ open_services services port listeners
      ]

  unfoldable pub open_domain : (Text → ℤ × Bool) → List Service → Domain → List Listener → Outcome
  unfolding refused
  open_domain strtol services unix listeners =
      if is_empty c.address then refused filename_required listeners else open_one 0 listeners
  open_domain strtol services domain listeners = open_ports strtol services domain listeners

  -- The handler, behind the parsing of the class's variables.
  unfoldable pub class_handler :
      Supported
      → (Text → Text)
      → (Text → ℤ × Bool)
      → List Service
      → List Text
      → List Listener
      → Outcome
  unfolding refused
  class_handler supported to_upper strtol services values listeners =
      elim (choose_domain supported to_upper values) [
        | inl complaint ↦ refused complaint listeners
        | inr domain ↦ open_domain strtol services domain listeners
      ]
