-- ===== src/Tests/MachineRuns.antt =====
-- Runs of the machine controller, and its theorems at such runs.
use cluster_api_provider_bmc.Base.{
  some, inl, ◌≡◌, refl, true, none, [], ◌∷◌, string_eq, nat_eq, string_dec,
}
use cluster_api_provider_bmc.Go.{ok, returned, requeue_after_5_min}
use cluster_api_provider_bmc.Go.Maps.{lookup, read}
use cluster_api_provider_bmc.Constants.Status
use cluster_api_provider_bmc.Outside.{answered}
use cluster_api_provider_bmc.MachineController.Environment.{Environment}
use cluster_api_provider_bmc.MachineController.State.{
  MachineContext, get_machine_id, external_address,
}
use cluster_api_provider_bmc.MachineController.Synchronize.{reconcile_synchronize}
use cluster_api_provider_bmc.MachineController.Delete.{reconcile_delete}
use cluster_api_provider_bmc.MachineController.Refinement.{
  synchronize-status_after, synchronize-wait_after,
}
use cluster_api_provider_bmc.MachineController.Readiness.{synchronize_powered_on}
use cluster_api_provider_bmc.MachineController.Cleanup.{delete-wants_retry, wants_retry}
use cluster_api_provider_bmc.Go.Format.{replace_separators}
use cluster_api_provider_bmc.MachineController.State.{get_hostname}
use cluster_api_provider_bmc.MachineController.NodeLink.{
  patched_nodes, synchronize_node_ref, synchronize_patched_nodes,
}
use cluster_api_provider_bmc.Tests.MachineData.{
  cluster, reported_status, served, context_of, world, says,
}

abbrev on : Environment
on = world (says Status.powered_on)

abbrev down : Environment
down = world (answered 500 (ok ""))

abbrev creating : MachineContext
creating = context_of (served "creating" none)

synchronize-status_after_example :
    (reconcile_synchronize on cluster creating).0.bmc_machine.status.bmc_status ≡ "powered-on"
unfolding string_dec
synchronize-status_after_example = synchronize-status_after on cluster creating

synchronize-wait_after_example :
    (reconcile_synchronize down cluster creating).1 ≡ returned requeue_after_5_min none
synchronize-wait_after_example = synchronize-wait_after down cluster creating refl

synchronize_powered_on_example :
    let new = (reconcile_synchronize on cluster creating).0.bmc_machine.status in
    (new.ready ≡ true) × (new.addresses ≡ external_address "10.0.0.3" ∷ [])
synchronize_powered_on_example =
    synchronize_powered_on on cluster creating refl refl refl (inl refl)

abbrev ready_context : MachineContext
ready_context = context_of (record (served "powered-on" none) {
  status = record (reported_status "s1" "powered-on") { ready = true };
})

delete-wants_retry_example : wants_retry (reconcile_delete down creating).1 ≡ true
unfolding string_dec get_machine_id read lookup
delete-wants_retry_example = delete-wants_retry down creating refl

synchronize_node_ref_example :
    (reconcile_synchronize on cluster creating).0.bmc_machine.status.node_ref
    ≡ some (record { api_version = "v1"; kind = "Node"; name = "capi-control-1"; uid = "u1" })
unfolding get_hostname replace_separators string_dec
synchronize_node_ref_example = synchronize_node_ref on cluster creating

synchronize_patched_nodes_example :
    patched_nodes (reconcile_synchronize on cluster creating).0.trace
    ≡ (record { name = "capi-control-1"; uid = "u1"; provider_id = "bmc://servers/s1" }) ∷ []
unfolding get_hostname replace_separators string_dec
synchronize_patched_nodes_example = synchronize_patched_nodes on cluster creating refl refl
