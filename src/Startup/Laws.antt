-- ===== src/Startup/Laws.antt =====
-- The start of the process does what Startup/Order says.
use cluster_api_provider_bmc.Base.{
  String, Bool, ◌&&◌, not, List, [], ◌∷◌, ◌++◌, string_eq, if◌then◌else◌,
}
use cluster_api_provider_bmc.Startup.{
  Flags, Action, serve_profiler, new_manager, setup_cluster, setup_machine, add_healthz, add_readyz,
  start, ManagerOptions, ReconcilerConfig,
}
use cluster_api_provider_bmc.Startup.Main.{
  Process, running, exited, ◌>>=◌, exit_on, ended, Ending, Runtime,
}
use cluster_api_provider_bmc.Startup.Order.{
  is_fine, wanted_manager, wanted_reconciler, wanted_profiler, is_configured,
}

-- The process for any configuration: its tests of errors, one for each action.
module _ (runtime : Runtime) (configured : Bool) (p : String) (m : ManagerOptions)
    (c d : ReconcilerConfig) where
  tried : Action → List Action → Process
  unfolding exit_on
  tried a log = let log' = log ++ (a ∷ []) in exit_on (runtime log') log'

  any_main : List Action × Ending
  unfolding tried
  any_main = ended do
    log ← if not configured then exited [] 1 else running []
    log ← running (log ++ (serve_profiler p ∷ []))
    log ← tried (new_manager m) log
    log ← tried (setup_cluster c) log
    log ← tried (setup_machine d) log
    log ← tried add_healthz log
    log ← tried add_readyz log
    tried start log

  abbrev any_manager : List Action
  any_manager = serve_profiler p ∷ new_manager m ∷ []

  abbrev any_controllers : List Action
  any_controllers = any_manager ++ (setup_cluster c ∷ setup_machine d ∷ [])

  abbrev any_whole : List Action
  any_whole = any_controllers ++ (add_healthz ∷ add_readyz ∷ start ∷ [])

  abbrev any_prepared : Bool
  any_prepared =
      configured
      && is_fine runtime any_manager
      && is_fine runtime (any_manager ++ (setup_cluster c ∷ []))
      && is_fine runtime any_controllers
      && is_fine runtime (any_controllers ++ (add_healthz ∷ []))
      && is_fine runtime (any_controllers ++ (add_healthz ∷ add_readyz ∷ []))

module _ (getenv : String → String) (flags : Flags) (runtime : Runtime) where
  abbrev generic : List Action × Ending
  generic =
      any_main runtime (is_configured getenv) (wanted_profiler flags) (wanted_manager flags)
        (wanted_reconciler getenv flags "bmccluster-controller")
        (wanted_reconciler getenv flags "bmcmachine-controller")
