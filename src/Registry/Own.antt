-- ===== src/Registry/Own.antt =====
-- The server's own entities: MyNetwork::MyNetwork (home/kineircd/src/lib/mynetwork.cpp) and
-- MyServer::MyServer (home/kineircd/src/lib/myserver.cpp), without KINE_DEBUG_ASSERT.
use kineircd.Prelude.{ℕ, ◌≡◌, refl, ap, ◌∙◌, [], none, some, if◌then◌else◌, Bool-cases, inl, inr}
use kineircd.Prelude.Text.{Text, text_eq_refl}
use kineircd.Error.{Error, is_ok}
use kineircd.Name.{irc_to_lower}
use kineircd.Name.Hostname
use kineircd.Name.NetworkName
use kineircd.Language.Wide.{to_wide_str}
use kineircd.Membership.{Counter}
use kineircd.Registry.{Entity, find_entity, add_entity}
use kineircd.Registry.EntityMap.{Entities, find, insert}

-- The names of the configuration.
pub record Config : Type 0 where
  pub network_name : Text
  pub server_name : Text
  pub server_description : Text

find-add_entity :
    (check : Text → Error) (e : Entity)
    → find_entity (add_entity check [] e).1 e.name
      ≡ (if is_ok (check e.name) then some e.address else none)
unfolding find_entity add_entity insert find
find-add_entity check e = elim (Bool-cases (is_ok (check e.name))) [
  | inl h ↦ rw (add_entity, h, text_eq_refl (irc_to_lower e.name)) refl
  | inr h ↦ rw (add_entity, h) refl
]

module _ (c : Counter) where
  open c use {Count, increase}

  -- The networks and servers of the registry, the two counts of the network, and the server's
  -- description.
  pub record Own : Type 0 where
    pub networks : Entities
    pub servers : Entities
    pub network_count : Count
    pub server_count : Count
    pub description : Text

  -- The answer of the registry is not used.
  unfoldable pub my_network : ℕ → Config → Own → Own
  unfolding add_entity to_wide_str NetworkName.check_validity
  my_network address config o = record o {
    networks =
        (add_entity NetworkName.check_validity o.networks
          (record { address = address; name = to_wide_str config.network_name })).1;
    network_count = increase o.network_count;
    server_count = increase o.server_count;
  }

  unfoldable pub my_server : ℕ → Config → Own → Own
  unfolding add_entity to_wide_str Hostname.check_validity
  my_server address config o = record o {
    servers =
        (add_entity Hostname.check_validity o.servers
          (record { address = address; name = to_wide_str config.server_name })).1;
    description = to_wide_str config.server_description;
  }

  -- What main has behind the initialisation of both.
  unfoldable pub initialise : ℕ → ℕ → Config → Own → Own
  unfolding my_network my_server
  initialise network server config o = my_server server config (my_network network config o)

  -- In a registry without networks and servers: the network is found by its name. The server is found
  -- by its name exactly if the name is a valid one.
  find-initialise :
      (network server : ℕ) (config : Config) (o : Own)
      → o.networks ≡ []
      → o.servers ≡ []
      → (find_entity (initialise network server config o).networks (to_wide_str config.network_name)
          ≡ some network)
        × (find_entity (initialise network server config o).servers (to_wide_str config.server_name)
            ≡ (if is_ok (Hostname.check_validity (to_wide_str config.server_name))
                then some server
                else none))
  unfolding initialise my_network my_server
  find-initialise network server config o h k =
      let net : Entity = record { address = network; name = to_wide_str config.network_name } in
      let own : Entity = record { address = server; name = to_wide_str config.server_name } in
      (
        ap (λ l. find_entity (add_entity NetworkName.check_validity l net).1 net.name) h
            ∙ find-add_entity NetworkName.check_validity net
            ∙ rw (NetworkName.check_validity_accepts net.name) refl,
        ap (λ l. find_entity (add_entity Hostname.check_validity l own).1 own.name) k
            ∙ find-add_entity Hostname.check_validity own,
      )
