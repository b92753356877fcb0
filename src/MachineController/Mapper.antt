-- ===== src/MachineController/Mapper.antt =====
-- `BMCClusterToBMCMachines` of controllers/bmcmachine_controller.go: the BMCMachines to reconcile
-- after an event on a BMCCluster.
use cluster_api_provider_bmc.Base.{
  String, Option, none, some, List, [], ◌∷◌, ◌++◌, string_eq, if◌then◌else◌,
}
use cluster_api_provider_bmc.Go.{Try, ok, err}
use cluster_api_provider_bmc.Go.Format.{is_empty}
use cluster_api_provider_bmc.Api.Cluster.{BmcCluster}
use cluster_api_provider_bmc.Api.Machine.{BmcMachine}
use cluster_api_provider_bmc.Outside.{Machine, Cluster}

-- `client.ObjectKey`, in a `ctrl.Request`.
pub record ObjectKey : Type 0 where
  pub namespace : String
  pub name : String

-- The object of an event: one of a type that is watched, or another one.
pub data ClientObject : Type 0 where
  bmc_cluster : BmcCluster → ClientObject
  of_bmc_machine : BmcMachine → ClientObject
  of_machine : Machine → ClientObject
  of_cluster : Cluster → ClientObject
  other : ClientObject

pub record Directory : Type 0 where
  pub cluster_name_label : String  -- clusterv1.ClusterNameLabel
  pub get_owner_cluster : BmcCluster → Try (Option Cluster)  -- util.GetOwnerCluster
  -- r.List, by a namespace and labels
  pub list_machines : String → List (String × String) → Try (List Machine)

-- The loop over `ml.Items`, with the requests so far.
unfoldable pub append_requests : List ObjectKey → List Machine → List ObjectKey
append_requests result [] = result
append_requests result (machine ∷ items) =
    append_requests
      (if is_empty machine.infrastructure_ref_name
        then result
        else result
          ++ ((record {
            namespace = machine.meta.namespace;
            name = machine.infrastructure_ref_name;
          })
              ∷ []))
      items

module _ (dir : Directory) where
  requests_of_list : Try (List Machine) → List ObjectKey
  unfolding append_requests
  requests_of_list (err e) = []
  requests_of_list (ok items) = append_requests [] items

  -- A nil slice and an empty one are both the empty list.
  unfoldable pub bmc_cluster_to_bmc_machines : ClientObject → List ObjectKey
  unfolding requests_of_list
  bmc_cluster_to_bmc_machines (bmc_cluster c) = elim (dir.get_owner_cluster c) [
    | err e ↦ []
    | ok none ↦ []
    | ok (some cluster) ↦
        requests_of_list
          (dir.list_machines c.meta.namespace ((dir.cluster_name_label, cluster.meta.name) ∷ []))
  ]
  bmc_cluster_to_bmc_machines _ = []
