-- ===== src/Main.antt =====
-- The program: main of kineircd/src/ircd/ircd.cpp. What the machine and the parts of the daemon
-- answer is a parameter.
pub mod Ready
use kineircd.Prelude.{
  ℕ, ◌≡◌, refl, Bool, true, false, ◌&&◌, ◌||◌, not, List, [], ◌∷◌, ◌++◌, Option, none, some,
  if◌then◌else◌, is_empty, ltb,
}
use kineircd.Prelude.Text.{Text}
use kineircd.Prelude.Int.{ℤ, pos, negsuc, is_positive}

-- The codes of kineircd/src/ircd/exit.h.
pub data Exit : Type 0 where
  no_error forked err_daemon_init err_no_fork err_ugly_death err_config_load : Exit

unfoldable pub exit_status : Exit → ℕ
exit_status no_error = 0
exit_status forked = 0
exit_status err_daemon_init = 3
exit_status err_no_fork = 4
exit_status err_ugly_death = 5
exit_status err_config_load = 6

-- The options of the command line, and whether KINE_DEBUG is defined.
pub record Options : Type 0 where
  pub quiet : Bool
  pub version_count : ℕ
  pub foreground : Bool
  pub debug : Bool

-- The answers of lt_dlinit, configure, getRunlevel, fork, setsid, getpid, of the PID file's stream
-- and of run, and the PID file of the configuration.
pub record Answers : Type 0 where
  pub dlinit : Bool
  pub configured : Bool
  pub is_normal : Bool
  pub fork : ℤ
  pub session : ℤ
  pub own_pid : ℤ
  pub pid_file : Text
  pub pid_file_good : Bool
  pub ran : Bool

-- What main does: the messages on the standard output, and the calls in their order.
pub data Step : Type 0 where
  print_version : ℕ → Step
  complain : Exit → Step
  no_pid_file : Step
  init_libltdl init_languages : Step
  configure : Step
  init_daemon init_network init_server : Step
  fork_process new_session : Step
  write_pid : Text → ℤ → Step
  close_descriptors run_daemon exit_libltdl : Step

abbrev pub Run : Type 0
Run = List Step × Exit

-- A step before a run.
unfoldable pub first : List Step → Run → Run
first steps (rest, code) = (steps ++ rest, code)

unfoldable pub tell : Options → Step → List Step
tell o message = if o.quiet then [] else message ∷ []

-- A failure: the complaint, unless the program is to be quiet, and the code.
unfoldable pub fail : Options → Exit → Run
unfolding tell
fail o code = (tell o (complain code), code)

-- The main loop and what follows it.
unfoldable pub run_loop : Options → Answers → Run
run_loop o a =
    let closed = if o.debug then [] else close_descriptors ∷ [] in
    if a.ran
    then (closed ++ run_daemon ∷ exit_libltdl ∷ [], no_error)
    else (closed ++ run_daemon ∷ [], err_ugly_death)

unfoldable pub make_pid_file : Options → Answers → ℤ → List Step
unfolding tell
make_pid_file o a pid =
    if is_empty a.pid_file
    then []
    else if a.pid_file_good
    then write_pid a.pid_file (if o.foreground then a.own_pid else pid) ∷ []
    else tell o no_pid_file

unfoldable pub serve : Options → Answers → ℤ → Run
unfolding first run_loop make_pid_file
serve o a pid = first (make_pid_file o a pid) (run_loop o a)

-- Behind the fork, by what it returned.
unfoldable pub forked_from : Options → Answers → ℤ → Run
unfolding first serve fail
forked_from o a (negsuc n) = fail o err_no_fork
forked_from o a (pos n) =
    if ltb 0 n then ([], forked) else first (new_session ∷ []) (serve o a a.session)

-- The fork is compiled without KINE_DEBUG only.
unfoldable pub background : Options → Answers → Run
unfolding first serve forked_from
background o a =
    if o.debug || o.foreground
    then serve o a (pos 0)
    else first (fork_process ∷ []) (forked_from o a a.fork)

unfoldable pub start_daemon : Options → Answers → Run
unfolding first fail background
start_daemon o a = first (init_daemon ∷ []) (
    if a.is_normal
    then first (init_network ∷ init_server ∷ []) (background o a)
    else fail o err_daemon_init)

unfoldable pub load : Options → Answers → Run
unfolding first fail start_daemon
load o a = first (init_libltdl ∷ []) (
    if a.dlinit
    then first (init_languages ∷ configure ∷ [])
        (if a.configured then start_daemon o a else fail o err_config_load)
    else fail o err_daemon_init)

unfoldable pub main : Options → Answers → Run
unfolding first tell load
main o a =
    first (tell o (print_version o.version_count))
      (if ltb 0 o.version_count then ([], no_error) else load o a)
