-- ===== src/Examples/Machines.antt =====
-- The resources of the machine, the loggers' modules and the server's own entities.
use kineircd.Prelude.{
  ◌≡◌, ◌==◌, ◌*◌, ◌+◌, refl, true, List, [], ◌∷◌, ◌++◌, none, some, if◌then◌else◌,
}
use kineircd.Prelude.Text.{Text, codes, text_eq}
use kineircd.Prelude.Decimal.{decimal}
use kineircd.Language.{process}
use kineircd.Language.Calls.{get_with_2, get_with_3, get_calls}
use kineircd.Irc2.Replies.Resources.{ResourceTag, SystemInfo, handle_resources}
use kineircd.Modules.Loggers.{create, start, destroy, stop}
use kineircd.Name.{irc_to_lower}
use kineircd.Registry.{find_entity}
use kineircd.Registry.EntityMap.{find, insert}
use kineircd.Registry.Own.{Own, initialise}
use kineircd.Examples.Instances.{counter}
use kineircd.Examples.Daemons.{idle}
use kineircd.Examples.Languages.{surroundings}

-- A tag "%p2, %p0".
abbrev swapped : Text
swapped = 0 ∷ codes "p2, " ++ 0 ∷ codes "p0"

three_parameters :
    get_with_3 (λ ps. process surroundings (some ps) swapped) (codes "a") (codes "b") (codes "c")
    ≡ codes "c, a"
unfolding process get_with_3
three_parameters = refl

too_few_parameters :
    get_with_2 (λ ps. process surroundings (some ps) swapped) (codes "a") (codes "b")
    ≡ 0xfffd ∷ codes ", a"
unfolding process get_with_2
too_few_parameters = refl

-- The language 1 has no such tag; the default language has.
calls_of_default :
    get_calls
      (λ l s. some (l == 2, if l == 2 then codes "x" ∷ s else s))
      (λ text s. (true, text ∷ s))
      (some 2)
      (some 1)
      []
    ≡ some (codes "x" ∷ [])
unfolding get_calls
calls_of_default = refl

abbrev a_day : SystemInfo
a_day = record {
  total_ram = 1048576 * 512;
  free_ram = 1048576 * 100 + 5;
  total_swap = 0;
  free_swap = 0;
  shared_ram = 0;
  buffer_ram = 1;
  procs = 42;
  uptime = 90061;
}

abbrev joined : ResourceTag → List Text → Text
joined tag [] = []
joined tag (p ∷ ps) = b' ' ∷ p ++ joined tag ps

resources_of_a_day :
    handle_resources joined decimal decimal
      (record { uname = none; sysinfo = some a_day; getrusage = none })
    ≡ codes " 512 100 0 0 0 0" ∷ codes " 42" ∷ codes " 1 1 1 1" ∷ []
unfolding handle_resources decimal
resources_of_a_day = refl

-- A module that is started twice leaves its first logger with the daemon.
started_twice : (destroy (start 8 (start 7 (create idle)).1).1).loggers ≡ 7 ∷ []
unfolding start create destroy
started_twice = refl

not_started : stop (create idle) ≡ none
unfolding stop create
not_started = refl

abbrev nothing_known : Own counter
nothing_known = record {
  networks = [];
  servers = [];
  network_count = 0;
  server_count = 0;
  description = [];
}

-- A server whose name has no dot is not registered, and counts.
unregistered_server :
    let o =
      initialise counter 1 2
        (record {
          network_name = codes "Net";
          server_name = codes "localhost";
          server_description = [];
        })
        nothing_known in
    (find_entity o.servers (codes "localhost") ≡ none)
    × (find_entity o.networks (codes "net") ≡ some 1)
    × (o.server_count ≡ 1)
unfolding initialise find_entity find insert text_eq irc_to_lower
unregistered_server = (refl, refl, refl)
