-- ===== src/Examples/Listeners.antt =====
-- Listeners on the ports of a services database.
use kineircd.Prelude.{ℕ, ◌≡◌, refl, Bool, true, false, List, [], ◌∷◌, none, arith}
use kineircd.Prelude.Text.{Text, codes}
use kineircd.Prelude.Int.{pos}
use kineircd.Listener.{Listener}
use kineircd.Listener.Config.{
  Supported, ListenerConfig, Sockets, setup_socket, Service, choose_domain, ipv4, class_handler,
}
use kineircd.Listener.Named.{add_all, service_ports, class_handler-services}

abbrev supported : Supported
supported = record { has_ipv4 = true; has_ipv6 = true; has_ipx = false; has_unix = true }

abbrev sockets : Bool → Sockets
sockets free = record {
  set_local_address = λ a. true;
  set_local_port = λ p. true;
  bind = λ ls a p. free;
}

abbrev config : Text → ListenerConfig
config port = record {
  address = [];
  allow_networks = false;
  allow_servers = true;
  allow_services = false;
  allow_users = true;
  listen_backlog = 5;
  port = port;
  secure = false;
}

abbrev service : Text → Text → ℕ → Service
service protocol name port = record {
  protocol = protocol;
  name = name;
  aliases = codes "chat" ∷ [];
  port = port;
}

abbrev services : List Service
services = service (codes "udp") (codes "irc") 194 ∷ service (codes "tcp") (codes "irc") 194 ∷ []

-- `ready` for the sockets that are free, and its opposite for those that are not.
ready :
    (c : ListenerConfig) (ls : List Listener) (port : ℕ)
    → setup_socket (sockets true) c ls port ≡ none
unfolding setup_socket
ready c ls port = ground arith

refuses :
    (c : ListenerConfig) (ls : List Listener) (port : ℕ)
    → setup_socket (sockets false) c ls port ≡ none
    → ⊥
unfolding setup_socket
refuses c ls port e = ground (arith, e)

class_handler-services_example :
    class_handler
      (sockets true)
      (config (codes "IRC"))
      supported
      (λ t. t)
      (λ t. (pos 0, false))
      services
      (codes "IPV4" ∷ [])
      []
    ≡ record {
      happy = true;
      error = none;
      listeners =
          add_all (sockets true) (config (codes "IRC")) (service_ports (codes "IRC") services) [];
    }
unfolding choose_domain
class_handler-services_example =
    class_handler-services (sockets true) (config (codes "IRC")) (ready (config (codes "IRC")))
      supported (λ t. t) (λ t. (pos 0, false)) services (codes "IPV4" ∷ []) [] ipv4 (pos 0) refl tt
      refl refl
