-- ===== src/Listener/Named.antt =====
-- Listeners on the ports of a service that is given by its name.
use kineircd.Prelude.{
  ℕ, zero, suc, ◌+◌, ◌%◌, ◌^◌, ◌≡◌, refl, ap, ◌∙◌, Bool, true, false, ◌&&◌, List, [], ◌∷◌, Option,
  none, some, if◌then◌else◌, ltb, All, arith, Bool-cases, inl, inr,
}
use kineircd.Prelude.Text.{Text}
use kineircd.Prelude.Int.{ℤ, pos, negsuc, is_positive}
use kineircd.Listener.{Listener}
use kineircd.Listener.Config.{
  Domain, ipv4, ipv6, ipx, unix, Supported, ListenerConfig, Complaint, choose_domain, Sockets,
  next_port, setup_socket, Service, is_service, to_port, add_listener, open_named, open_services,
  open_ports, open_domain, class_handler,
}

-- The ports of the entries with the name, in the order of the database.
pub service_ports : Text → List Service → List ℕ
service_ports name [] = []
service_ports name (e ∷ es) =
    let rest = service_ports name es in
    if is_service name e && ltb 0 e.port then e.port ∷ rest else rest

no_ports :
    (name : Text) (es : List Service)
    → All (λ f. is_service name f ≡ false) es
    → service_ports name es ≡ []
unfolding service_ports
no_ports name [] h = refl
no_ports name (e ∷ es) (h, hs) = rw h (no_ports name es hs)

-- A domain whose ports can be looked up.
abbrev pub IsInternet : Domain → Type 0
IsInternet ipv4 = Unit
IsInternet ipv6 = Unit
IsInternet ipx = ⊥
IsInternet unix = ⊥

positive_suc : (n : ℕ) → true ≡ ltb 0 (suc n)
positive_suc n = ground arith

pub positive : (n : ℕ) {b : Bool} → ltb 0 n ≡ b → is_positive (pos n) ≡ b
positive zero e = e
positive (suc n) e = positive_suc n ∙ e

module _ (s : Sockets) (c : ListenerConfig) where
  -- A listener for each port, the last one in front.
  pub add_all : List ℕ → List Listener → List Listener
  add_all [] ls = ls
  add_all (port ∷ ports) ls = add_all ports (add_listener s c port ls)

  internet_services :
      (strtol : Text → ℤ × Bool) (services : List Service) (domain : Domain) (port : ℤ)
      → IsInternet domain
      → strtol c.port ≡ (port, false)
      → (ls : List Listener)
      → open_domain s c strtol services domain ls ≡ open_services s c services port ls
  unfolding open_domain open_ports
  internet_services strtol services ipv4 port i h ls = rw h
  internet_services strtol services ipv6 port i h ls = rw h
  internet_services strtol services ipx port i h ls = absurd i
  internet_services strtol services unix port i h ls = absurd i

  pub skip :
      (e : Service) (es : List Service) (port : ℤ) (error : Option Complaint) (errors : ℕ)
      (ls : List Listener)
      → is_positive (next_port c.port port e) ≡ false
      → open_named s c (e ∷ es) port error errors ls
        ≡ open_named s c es (next_port c.port port e) error errors ls
  unfolding open_named
  skip e es port error errors ls h = rw h

  opened :
      (e : Service) (es : List Service) (port : ℤ) (error : Option Complaint) (errors : ℕ)
      (ls : List Listener)
      → is_positive (next_port c.port port e) ≡ true
      → setup_socket s c ls (to_port (next_port c.port port e)) ≡ none
      → open_named s c (e ∷ es) port error errors ls
        ≡ open_named s c es
            (negsuc 1)
            error
            errors
            (add_listener s c (to_port (next_port c.port port e)) ls)
  unfolding open_named
  opened e es port error errors ls h k = rw (h, k)

  pub failed :
      (e : Service) (es : List Service) (port : ℤ) (error : Option Complaint) (errors : ℕ)
      (ls : List Listener) (complaint : Complaint)
      → is_positive (next_port c.port port e) ≡ true
      → setup_socket s c ls (to_port (next_port c.port port e)) ≡ some complaint
      → open_named s c (e ∷ es) port error errors ls
        ≡ open_named s c es (next_port c.port port e) (some complaint) ((errors + 1) % 2 ^ 32) ls
  unfolding open_named
  failed e es port error errors ls complaint h k = rw (h, k)

  module _ (ready : (ls : List Listener) (port : ℕ) → setup_socket s c ls port ≡ none) where
    open_named-service_ports :
        (es : List Service) (port : ℤ) (error : Option Complaint) (errors : ℕ) (ls : List Listener)
        → is_positive port ≡ false
        → open_named s c es port error errors ls
          ≡ (error, (errors, add_all (service_ports c.port es) ls))
    unfolding service_ports add_all next_port to_port
    open_named-service_ports [] port error errors ls h = unfold open_named in refl
    open_named-service_ports (e ∷ es) port error errors ls h =
        elim (Bool-cases (is_service c.port e)) [
          | inr f ↦
              let same : next_port c.port port e ≡ port = rw f in
              skip e es port error errors ls (ap is_positive same ∙ h)
              ∙ rw (same, f) (open_named-service_ports es port error errors ls h)
          | inl f ↦
              let here : next_port c.port port e ≡ pos e.port = rw f in
              elim (Bool-cases (ltb 0 e.port)) [
                | inr z ↦
                    let zero_port : is_positive (pos e.port) ≡ false = positive e.port z in
                    skip e es port error errors ls (ap is_positive here ∙ zero_port)
                    ∙ rw (here, f, z)
                        (open_named-service_ports es (pos e.port) error errors ls zero_port)
                | inl z ↦
                    opened e es port error errors ls (ap is_positive here ∙ positive e.port z)
                      (ready ls _)
                    ∙ rw (here, f, z)
                        (open_named-service_ports es (negsuc 1) error errors
                          (add_listener s c e.port ls) refl)
              ]
        ]

    -- On an internet domain, where strtol leaves a rest of the port's text and gives no positive
    -- number, and every socket can be set up: the handler opens a listener for each TCP entry of the
    -- services database with the name among its names and a port other than 0, in order, and is
    -- happy, also where there is none.
    pub class_handler-services :
        (supported : Supported) (to_upper : Text → Text) (strtol : Text → ℤ × Bool)
        (services : List Service) (values : List Text) (ls : List Listener) (domain : Domain)
        (port : ℤ)
        → choose_domain supported to_upper values ≡ inr domain
        → IsInternet domain
        → strtol c.port ≡ (port, false)
        → is_positive port ≡ false
        → class_handler s c supported to_upper strtol services values ls ≡ record {
          happy = true;
          error = none;
          listeners = add_all (service_ports c.port services) ls;
        }
    unfolding class_handler
    class_handler-services supported to_upper strtol services values ls domain port chosen internet
          number h =
        rw (chosen, class_handler)
          (internet_services strtol services domain port internet number ls
            ∙ unfold open_services in rw (open_named-service_ports services port none 0 ls h))

    -- The same, where strtol gives a positive number from digits at the front, and the database
    -- has entries, but none of the name: a listener is opened on that number.
    pub class_handler-digits :
        (supported : Supported) (to_upper : Text → Text) (strtol : Text → ℤ × Bool) (e : Service)
        (es : List Service) (values : List Text) (ls : List Listener) (domain : Domain) (n : ℕ)
        → choose_domain supported to_upper values ≡ inr domain
        → IsInternet domain
        → strtol c.port ≡ (pos (suc n), false)
        → All (λ f. is_service c.port f ≡ false) (e ∷ es)
        → class_handler s c supported to_upper strtol (e ∷ es) values ls
          ≡ record { happy = true; error = none; listeners = add_listener s c (suc n) ls }
    unfolding class_handler
    class_handler-digits supported to_upper strtol e es values ls domain n chosen internet number
          (first, others) =
        let same : next_port c.port (pos (suc n)) e ≡ pos (suc n) = unfold next_port in rw first in
        let found : open_named s c (e ∷ es) (pos (suc n)) none 0 ls
            ≡ (none, (0, add_listener s c (suc n) ls)) =
          opened e es (pos (suc n)) none 0 ls (ap is_positive same) (ready ls _)
          ∙ open_named-service_ports es (negsuc 1) none 0 _ refl
          ∙ unfold add_all to_port in rw (same, no_ports c.port es others) in
        rw (chosen, class_handler)
          (internet_services strtol (e ∷ es) domain (pos (suc n)) internet number ls
            ∙ unfold open_services in rw found)
