-- ===== src/Constants/Annotation.antt =====
-- The annotations by which the controllers find their BMC resources, controllers/closures.go.
use cluster_api_provider_bmc.Base.{String, ◌≢◌}

abbrev pub bmc_server_id : String
bmc_server_id = "bmc.api.phoenixnap.com/server_id"

abbrev pub bmc_cluster_ip_allocation_id : String
bmc_cluster_ip_allocation_id = "bmc.api.phoenixnap.com/cluster_ip_allocation_id"

abbrev pub bmc_cluster_ip : String
bmc_cluster_ip = "bmc.api.phoenixnap.com/cluster_ip"

pub allocation-ne-ip : bmc_cluster_ip_allocation_id ≢ bmc_cluster_ip
allocation-ne-ip = λ e. cc
