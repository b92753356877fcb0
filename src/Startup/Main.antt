-- ===== src/Startup/Main.antt =====
-- `main` of main.go behind `flag.Parse()`, one function for each of its statements that may end the
-- process.
use cluster_api_provider_bmc.Base.{
  ℕ, String, Option, none, some, List, [], ◌∷◌, ◌++◌, if◌then◌else◌,
}
use cluster_api_provider_bmc.Go.{GoError}
use cluster_api_provider_bmc.Startup.{
  Flags, Action, serve_profiler, new_manager, setup_cluster, setup_machine, add_healthz, add_readyz,
  start, is_incomplete, profiler, manager_options, reconciler,
}

-- The process, with what it has asked of the controller runtime so far, in order: it goes on, or
-- it has ended by `os.Exit`.
pub data Process : Type 0 where
  running : List Action → Process
  exited : List Action → ℕ → Process

infixl 5 ◌>>=◌
abbrev pub ◌>>=◌ : Process → (List Action → Process) → Process
running log >>= next = next log
exited log code >>= next = exited log code

-- How the process ends: by `os.Exit`, or by the return of `main`.
pub data Ending : Type 0 where
  exit : ℕ → Ending
  finished : Ending

-- The error of the last of these actions, after the others; nil is `none`.
abbrev pub Runtime : Type 0
Runtime = List Action → Option GoError

-- `if err != nil { ...; os.Exit(1) }`
unfoldable pub exit_on : Option GoError → List Action → Process
exit_on none log = running log
exit_on (some e) log = exited log 1

abbrev pub ended : Process → List Action × Ending
ended (running log) = (log, finished)
ended (exited log code) = (log, exit code)

module _ (getenv : String → String) (flags : Flags) (runtime : Runtime) where
  unfoldable pub load_config : List Action → Process
  load_config log = if is_incomplete getenv flags then exited log 1 else running log

  -- The profiler runs in a goroutine of its own, and its error is logged only.
  unfoldable pub start_profiler : List Action → Process
  start_profiler log = running (log ++ (serve_profiler (profiler getenv flags) ∷ []))

  unfoldable pub create_manager : List Action → Process
  unfolding exit_on
  create_manager log =
      let log' = log ++ (new_manager (manager_options getenv flags) ∷ []) in
      exit_on (runtime log') log'

  unfoldable pub set_up_clusters : List Action → Process
  unfolding exit_on
  set_up_clusters log =
      let log' = log ++ (setup_cluster (reconciler getenv flags "bmccluster-controller") ∷ []) in
      exit_on (runtime log') log'

  unfoldable pub set_up_machines : List Action → Process
  unfolding exit_on
  set_up_machines log =
      let log' = log ++ (setup_machine (reconciler getenv flags "bmcmachine-controller") ∷ []) in
      exit_on (runtime log') log'

  unfoldable pub set_up_healthz : List Action → Process
  unfolding exit_on
  set_up_healthz log = let log' = log ++ (add_healthz ∷ []) in exit_on (runtime log') log'

  unfoldable pub set_up_readyz : List Action → Process
  unfolding exit_on
  set_up_readyz log = let log' = log ++ (add_readyz ∷ []) in exit_on (runtime log') log'

  unfoldable pub start_manager : List Action → Process
  unfolding exit_on
  start_manager log = let log' = log ++ (start ∷ []) in exit_on (runtime log') log'

  unfoldable pub main : List Action × Ending
  unfolding load_config start_profiler create_manager set_up_clusters set_up_machines set_up_healthz
      set_up_readyz start_manager
  main = ended do
    log ← running []
    log ← load_config log
    log ← start_profiler log
    log ← create_manager log
    log ← set_up_clusters log
    log ← set_up_machines log
    log ← set_up_healthz log
    log ← set_up_readyz log
    start_manager log
