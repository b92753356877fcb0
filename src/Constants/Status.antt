-- ===== src/Constants/Status.antt =====
-- The values of the field BMCStatus that the controllers set or test, controllers/bmcmachine_controller.go.
use cluster_api_provider_bmc.Base.{String, ◌≢◌}

abbrev pub irreconcilable : String
irreconcilable = "irreconcilable"

abbrev pub orphaned : String
orphaned = "orphaned"

abbrev pub stale : String
stale = "stale"

abbrev pub powered_on : String
powered_on = "powered-on"

abbrev pub error : String
error = "error"

abbrev pub assigned : String
assigned = "assigned"

abbrev pub not_assigned : String
not_assigned = "unassigned"

pub irreconcilable-ne-error : irreconcilable ≢ error
irreconcilable-ne-error = λ e. cc

pub powered_on-ne-error : powered_on ≢ error
powered_on-ne-error = λ e. cc

pub assigned-ne-not_assigned : assigned ≢ not_assigned
assigned-ne-not_assigned = λ e. cc
