-- ===== src/Examples/Programs.antt =====
-- The program, the names of errors, and the list of services.
use kineircd.Prelude.{ℕ, suc, ◌≡◌, refl, true, false, List, [], ◌∷◌, some, arith}
use kineircd.Prelude.Text.{Text, codes}
use kineircd.Prelude.Int.{pos, negsuc}
use kineircd.Error.{unknown_error}
use kineircd.Error.Names.{ErrorInfo, error_code, get_error_name, name_at, get_error_name_shifted}
use kineircd.Main.{
  Options, Answers, forked, err_config_load, complain, init_libltdl, init_languages, configure,
  init_daemon, init_network, init_server, write_pid, run_daemon, exit_libltdl, print_version, main,
}
use kineircd.Irc2User.ServiceList.{Service, service_reply, end_of_service_list, handle_servlist}

abbrev info : Text → ErrorInfo
info name = record { name = name; tag = 0 }

abbrev success_infos : List ErrorInfo
success_infos = info (codes "NO_ERROR") ∷ info (codes "NO_ERROR_OR_DATA") ∷ []

abbrev error_infos : List ErrorInfo
error_infos =
    info (codes "CHANNEL_NAME_NONSTANDARD_PREFIX")
    ∷ info (codes "CHANNEL_NAME_PREFIX_UNKNOWN")
    ∷ info (codes "ENTITY_EXISTS")
    ∷ []

get_error_name_shifted_example :
    (get_error_name (info (codes "UNKNOWN_ERROR")) success_infos error_infos (pos 2)
      ≡ name_at success_infos 1)
    × (get_error_name (info (codes "UNKNOWN_ERROR")) success_infos error_infos (pos 0)
        ≡ name_at error_infos 0)
    × ((k : ℕ)
        → get_error_name (info (codes "UNKNOWN_ERROR")) success_infos error_infos (negsuc k)
          ≡ name_at error_infos (suc k))
get_error_name_shifted_example =
    get_error_name_shifted (info (codes "UNKNOWN_ERROR")) success_infos error_infos 1 (omega arith)

names_unknown_error :
    get_error_name
      (info (codes "UNKNOWN_ERROR"))
      success_infos
      error_infos
      (error_code unknown_error)
    ≡ some (codes "CHANNEL_NAME_NONSTANDARD_PREFIX")
unfolding get_error_name error_code
names_unknown_error = refl

abbrev plain : Options
plain = record { quiet = true; version_count = 0; foreground = false; debug = false }

abbrev answers : Answers
answers = record {
  dlinit = true;
  configured = true;
  is_normal = true;
  fork = pos 0;
  session = pos 77;
  own_pid = pos 5;
  pid_file = codes "ircd.pid";
  pid_file_good = true;
  ran = true;
}

-- A build with KINE_DEBUG that is not told to stay in the foreground writes 0 for its number.
debug_pid : main (record plain { debug = true }) answers ≡ (
  init_libltdl
      ∷ init_languages
      ∷ configure
      ∷ init_daemon
      ∷ init_network
      ∷ init_server
      ∷ write_pid (codes "ircd.pid") (pos 0)
      ∷ run_daemon
      ∷ exit_libltdl
      ∷ [],
  kineircd.Main.no_error,
)
unfolding main
debug_pid = refl

bad_configuration :
    main (record plain { quiet = false }) (record answers { configured = false }) ≡ (
      print_version 0 ∷ init_libltdl ∷ init_languages ∷ configure ∷ complain err_config_load ∷ [],
      err_config_load,
    )
unfolding main
bad_configuration = refl

abbrev parent_code : kineircd.Main.Exit
parent_code = (main plain (record answers { fork = pos 12 })).1

parent_exits : parent_code ≡ forked
unfolding main
parent_exits = refl

abbrev typed : Service
typed = record {
  nickname = codes "dict";
  user_host_ident = codes "d@example";
  server_name = codes "irc.example";
  scope_mask = codes "*";
  service_type = pos 5;
  hop_count = 0;
  description = codes "A dictionary";
}

-- A service with a type is not listed where no type is given, and is where its type is.
hides_typed :
    handle_servlist (λ m n. true) (λ t. t) (λ t. pos 4) (typed ∷ []) []
    ≡ end_of_service_list (codes "*") (pos 0) ∷ []
unfolding handle_servlist
hides_typed = refl

lists_typed :
    handle_servlist (λ m n. true) (λ t. t) (λ t. pos 4) (typed ∷ []) (codes "d*" ∷ codes "4" ∷ [])
    ≡ service_reply typed ∷ end_of_service_list (codes "d*") (pos 4) ∷ []
unfolding handle_servlist
lists_typed = refl
