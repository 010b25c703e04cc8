-- ===== src/Main/Ready.antt =====
-- When the main loop runs, and with which code the program ends.
use kineircd.Prelude.{
  ◌≡◌, refl, ◌∙◌, Bool, true, false, ◌&&◌, ◌||◌, not, List, [], ◌∷◌, ◌++◌, ltb, arith, Bool-cases,
  inl, inr,
}
use kineircd.Prelude.Int.{ℤ, pos, negsuc}
use kineircd.Main.{
  Exit, no_error, err_daemon_init, err_no_fork, err_config_load, Options, Answers, Step, run_daemon,
  print_version, complain, no_pid_file, init_libltdl, init_languages, configure, init_daemon,
  init_network, init_server, fork_process, new_session, Run, first, tell, fail, run_loop,
  make_pid_file, serve, forked_from, background, start_daemon, load, main,
}

abbrev is_run : Step → Bool
is_run run_daemon = true
is_run _ = false

-- Whether the main loop is among the steps.
unfoldable pub runs : List Step → Bool
runs [] = false
runs (s ∷ ss) = is_run s || runs ss

-- What the program needs before its main loop: no version is asked for, everything is initialised,
-- and it is in the foreground or the child of a fork.
abbrev pub is_child : ℤ → Bool
is_child (pos n) = not (ltb 0 n)
is_child (negsuc n) = false

unfoldable pub is_ready : Options → Answers → Bool
is_ready o a =
    not (ltb 0 o.version_count)
    && (a.dlinit
        && (a.configured && (a.is_normal && ((o.debug || o.foreground) || is_child a.fork))))

runs-append : (s t : List Step) → runs (s ++ t) ≡ (runs s || runs t)
unfolding runs
runs-append [] t = refl
runs-append (x ∷ s) t = ground (arith, runs-append s t)

runs-first : (s : List Step) (r : Run) → runs (first s r).0 ≡ (runs s || runs r.0)
unfolding first
runs-first s (t, code) = runs-append s t

runs-tell : (o : Options) (s : Step) → is_run s ≡ false → runs (tell o s) ≡ false
unfolding tell runs
runs-tell o s h = ground arith

runs-fail : (o : Options) (e : Exit) → runs (fail o e).0 ≡ false
unfolding fail
runs-fail o e = runs-tell o (complain e) refl

runs-make_pid_file : (o : Options) (a : Answers) (p : ℤ) → runs (make_pid_file o a p) ≡ false
unfolding make_pid_file runs
runs-make_pid_file o a p = ground (arith, runs-tell o no_pid_file refl)

runs-run_loop : (o : Options) (a : Answers) → runs (run_loop o a).0 ≡ true
unfolding run_loop runs
runs-run_loop o a = ground arith

runs-serve : (o : Options) (a : Answers) (p : ℤ) → runs (serve o a p).0 ≡ true
unfolding serve
runs-serve o a p =
    runs-first (make_pid_file o a p) (run_loop o a)
    ∙ rw (runs-make_pid_file o a p) (runs-run_loop o a)

runs-forked_from : (o : Options) (a : Answers) (p : ℤ) → runs (forked_from o a p).0 ≡ is_child p
unfolding forked_from runs
runs-forked_from o a (negsuc n) = runs-fail o err_no_fork
runs-forked_from o a (pos n) = elim (Bool-cases (ltb 0 n)) [
  | inl e ↦ rw (forked_from, e) refl
  | inr e ↦
      rw (forked_from, e)
        (runs-first (new_session ∷ []) (serve o a a.session) ∙ runs-serve o a a.session)
]

runs-background :
    (o : Options) (a : Answers)
    → runs (background o a).0 ≡ ((o.debug || o.foreground) || is_child a.fork)
unfolding background runs
runs-background o a = elim (Bool-cases (o.debug || o.foreground)) [
  | inl e ↦ rw (background, e) (runs-serve o a (pos 0))
  | inr e ↦
      rw (background, e)
        (runs-first (fork_process ∷ []) (forked_from o a a.fork) ∙ runs-forked_from o a a.fork)
]

runs-start_daemon :
    (o : Options) (a : Answers)
    → runs (start_daemon o a).0 ≡ (a.is_normal && ((o.debug || o.foreground) || is_child a.fork))
unfolding start_daemon runs
runs-start_daemon o a = elim (Bool-cases a.is_normal) [
  | inl e ↦
      rw (start_daemon, e)
        (runs-first (init_daemon ∷ []) (first (init_network ∷ init_server ∷ []) (background o a))
          ∙ runs-first (init_network ∷ init_server ∷ []) (background o a)
          ∙ runs-background o a)
  | inr e ↦
      rw (start_daemon, e)
        (runs-first (init_daemon ∷ []) (fail o err_daemon_init) ∙ runs-fail o err_daemon_init)
]

runs-load :
    (o : Options) (a : Answers)
    → runs (load o a).0 ≡ (
        a.dlinit
        && (a.configured && (a.is_normal && ((o.debug || o.foreground) || is_child a.fork))))
unfolding load runs
runs-load o a = elim (Bool-cases a.dlinit) [
  | inl e ↦ elim (Bool-cases a.configured) [
    | inl f ↦
        rw (load, e, f)
          (runs-first (init_libltdl ∷ [])
              (first (init_languages ∷ configure ∷ []) (start_daemon o a))
            ∙ runs-first (init_languages ∷ configure ∷ []) (start_daemon o a)
            ∙ runs-start_daemon o a)
    | inr f ↦
        rw (load, e, f)
          (runs-first (init_libltdl ∷ [])
              (first (init_languages ∷ configure ∷ []) (fail o err_config_load))
            ∙ runs-first (init_languages ∷ configure ∷ []) (fail o err_config_load)
            ∙ runs-fail o err_config_load)
  ]
  | inr e ↦
      rw (load, e)
        (runs-first (init_libltdl ∷ []) (fail o err_daemon_init) ∙ runs-fail o err_daemon_init)
]

-- The main loop runs exactly if no version is asked for, libltdl, the configuration and the daemon
-- came up, and the process stays in the foreground (or KINE_DEBUG is defined) or is the child.
pub runs-main : (o : Options) (a : Answers) → runs (main o a).0 ≡ is_ready o a
unfolding main is_ready runs
runs-main o a = elim (Bool-cases (ltb 0 o.version_count)) [
  | inl e ↦
      rw (main, is_ready, e)
        (runs-first (tell o (print_version o.version_count)) ([], no_error)
          ∙ rw (runs-tell o (print_version o.version_count) refl) refl)
  | inr e ↦
      rw (main, is_ready, e)
        (runs-first (tell o (print_version o.version_count)) (load o a)
          ∙ rw (runs-tell o (print_version o.version_count) refl) (runs-load o a))
]
