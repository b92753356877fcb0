-- ===== src/MachineController/Mapping.antt =====
-- The requests that an event on a BMCCluster leads to.
use mathlib.Core.List.{filter_map, append_assoc, append-nil}
use cluster_api_provider_bmc.Base.{
  ◌≡◌, arith, Option, none, some, List, [], ◌∷◌, ◌++◌, string_eq, if◌then◌else◌,
}
use cluster_api_provider_bmc.Go.{ok}
use cluster_api_provider_bmc.Go.Format.{is_empty}
use cluster_api_provider_bmc.Api.Cluster.{BmcCluster}
use cluster_api_provider_bmc.Outside.{Machine, Cluster}
use cluster_api_provider_bmc.MachineController.Mapper.{
  ObjectKey, bmc_cluster, Directory, append_requests, bmc_cluster_to_bmc_machines,
}

-- The BMCMachine that belongs to a machine, if one is named.
abbrev pub key_of : Machine → Option ObjectKey
key_of machine =
    if is_empty machine.infrastructure_ref_name
    then none
    else some
        (record { namespace = machine.meta.namespace; name = machine.infrastructure_ref_name })

append_requests-filter_map :
    (result : List ObjectKey) (items : List Machine)
    → append_requests result items ≡ result ++ filter_map key_of items
unfolding append_requests filter_map
append_requests-filter_map result [] = rw append-nil
append_requests-filter_map result (m ∷ items) =
    let key : ObjectKey = record {
      namespace = m.meta.namespace;
      name = m.infrastructure_ref_name;
    } in
    ground (
      arith,
      append_requests-filter_map result items,
      append_requests-filter_map (result ++ (key ∷ [])) items,
      append_assoc result (key ∷ []) (filter_map key_of items),
    )

-- An event on a BMCCluster whose owner and machines can be looked up leads to one request for each
-- machine that names its infrastructure object, in the order of the machines.
pub mapper-filter_map :
    (dir : Directory) (c : BmcCluster) {cluster : Cluster} {items : List Machine}
    → dir.get_owner_cluster c ≡ ok (some cluster)
    → dir.list_machines c.meta.namespace ((dir.cluster_name_label, cluster.meta.name) ∷ [])
      ≡ ok items
    → bmc_cluster_to_bmc_machines dir (bmc_cluster c) ≡ filter_map key_of items
unfolding bmc_cluster_to_bmc_machines
mapper-filter_map dir c {items} owned listed = ground (arith, append_requests-filter_map [] items)
