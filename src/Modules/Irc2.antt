-- ===== src/Modules/Irc2.antt =====
-- The modules of the IRC-2 protocols: home/kineircd/src/mod_irc2registrar and mod_irc2user, module.cpp
-- and protocolinfo.h, with the references to the library libkineircd_irc2
-- (home/kineircd/src/lib_irc2/library.cpp).
pub mod Shipped
use kineircd.Prelude.{
  ℕ, ◌+◌, ◌%◌, ◌^◌, Bool, true, false, List, [], ◌∷◌, Option, none, some, if◌then◌else◌, ◌==◌,
}
use kineircd.Prelude.Text.{Text, codes}
use kineircd.Daemon.{Daemon, ProtocolType, primary, user, register_protocol, deregister_protocol}
use kineircd.Language.Files.{Dictionary, TagMap}
use kineircd.Language.Maps.{register_map, deregister_map}

pub data Part : Type 0 where
  irc2_registrar irc2_user : Part

-- The description of each protocol.
unfoldable pub type_of : Part → ProtocolType
type_of irc2_registrar = primary
type_of irc2_user = user

unfoldable pub protocol_name : Part → Text
protocol_name irc2_registrar = codes "IRC/2"
protocol_name irc2_user = codes "IRC/2"

-- Whether createProtocol gives an instance, for a connection of a listener and for a registrant: the
-- class that does not override one has a null pointer for it.
unfoldable pub creates_for_listener : Part → Bool
creates_for_listener irc2_registrar = true
creates_for_listener irc2_user = false

unfoldable pub creates_for_registrant : Part → Bool
creates_for_registrant irc2_registrar = false
creates_for_registrant irc2_user = true

-- The parts of the server that the modules change; `references` is an unsigned int.
pub record System : Type 0 where
  pub daemon : Daemon
  pub references : ℕ
  pub tag_maps : List ℕ
  pub has_isupport : Bool

-- The tag dictionary, the tag maps of the library and of each module, the address of each
-- description, and the addresses of the parameters of registerMap and deregisterMap in a call of the
-- library and in one of a module.
pub record Place : Type 0 where
  pub to_upper : Text → Text
  pub dictionary : Dictionary
  pub library_map : TagMap
  pub module_map : Part → TagMap
  pub info : Part → ℕ
  pub library_parameter : ℕ
  pub module_parameter : ℕ

module _ (p : Place) where
  -- LibIRC2::init
  unfoldable pub init : System → Bool × System
  unfolding register_map
  init s =
      let references = (s.references + 1) % 2 ^ 32 in
      let (done, map, tag_maps) =
        register_map p.to_upper p.dictionary p.library_parameter p.library_map s.tag_maps in
      if references == 1
      then (done, record s { references = references; tag_maps = tag_maps })
      else (true, record s { references = references })

  -- LibIRC2::deinit
  unfoldable pub deinit : System → System
  unfolding deregister_map
  deinit s = record s {
    references = (s.references + 0xffff_ffff) % 2 ^ 32;
    tag_maps =
        if s.references == 1 then deregister_map p.library_parameter s.tag_maps else s.tag_maps;
  }

  -- What a module does of its own behind the library's initialisation.
  unfoldable pub prepare : Part → System → System
  prepare irc2_registrar s = s
  prepare irc2_user s = record s { has_isupport = true }

  -- The module's tag map, once its protocol is registered.
  unfoldable pub register_tags : Part → System → Bool × System
  unfolding register_map
  register_tags part s =
      let (done, map, tag_maps) =
        register_map p.to_upper p.dictionary p.module_parameter (p.module_map part) s.tag_maps in
      (done, record s { tag_maps = tag_maps })

  unfoldable pub register_info : Part → System → Bool × System
  unfolding register_protocol type_of protocol_name
  register_info part s =
      let (done, d) =
        register_protocol (type_of part) (protocol_name part) (p.info part) s.daemon in
      (done, record s { daemon = d })

  -- The module's start.
  unfoldable pub start : Part → System → Bool × System
  unfolding init prepare register_info register_tags
  start part s =
      let (ready, s1) = init s in
      let (registered, s2) = register_info part (prepare part s1) in
      if ready then if registered then register_tags part s2 else (false, s2) else (false, s1)

  -- The module's destructor.
  unfoldable pub destroy : Part → System → System
  unfolding deinit deregister_map deregister_protocol
  destroy irc2_registrar s = deinit (record s {
    tag_maps = deregister_map p.module_parameter s.tag_maps;
    daemon = deregister_protocol (p.info irc2_registrar) s.daemon;
  })
  destroy irc2_user s = deinit (record s {
    tag_maps = deregister_map p.module_parameter s.tag_maps;
    daemon = deregister_protocol (p.info irc2_user) s.daemon;
    has_isupport = false;
  })
