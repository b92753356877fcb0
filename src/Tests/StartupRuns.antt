-- ===== src/Tests/StartupRuns.antt =====
-- Starts of the process, and the theorems on `main` at them.
use cluster_api_provider_bmc.Base.{String, Option, none, some, [], ◌∷◌}
use cluster_api_provider_bmc.Go.{GoError}
use cluster_api_provider_bmc.Startup.{Action, add_readyz}
use cluster_api_provider_bmc.Startup.Main.{Runtime}

abbrev set : String → String
set name = "x"

-- The readiness check cannot be set up.
abbrev last_error : Action → Option GoError
last_error add_readyz = some (record { message = "unable to set up ready check" })
last_error _ = none

abbrev no_readyz : Runtime
no_readyz [] = none
no_readyz (a ∷ []) = last_error a
no_readyz (a ∷ (b ∷ log)) = no_readyz (b ∷ log)
