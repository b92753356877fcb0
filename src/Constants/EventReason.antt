-- ===== src/Constants/EventReason.antt =====
-- The reasons of the events that the controllers record.
use cluster_api_provider_bmc.Base.{String}

abbrev pub cleanup_error : String
cleanup_error = "CleanupError"

abbrev pub cleanup_success : String
cleanup_success = "CleanupSuccess"

abbrev pub created : String
created = "Created"

abbrev pub create_error : String
create_error = "CreateError"

abbrev pub create_error_permanent : String
create_error_permanent = "CreateErrorPermanent"

abbrev pub create_error_inventory : String
create_error_inventory = "CreateErrorInventory"

abbrev pub create_failure : String
create_failure = "CreateServerFailure"

abbrev pub resource_orphaned : String
resource_orphaned = "ResourceOrphaned"

abbrev pub poll_failure : String
poll_failure = "PollingFailure"

abbrev pub status_change : String
status_change = "StatusChange"
