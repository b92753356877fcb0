-- ===== src/MachineController/NodeRef.antt =====
-- `SetNodeRef` of controllers/closures.go: the reference to the node of the workload cluster, and
-- the provider id on that node.
use cluster_api_provider_bmc.Base.{String, ◌<>◌, Option, none, some}
use cluster_api_provider_bmc.Go.{ok, err, Flow, done, panic}
use cluster_api_provider_bmc.Constants.{event_type_normal, event_type_warning}
use cluster_api_provider_bmc.Api.Machine.{ObjectReference}
use cluster_api_provider_bmc.Outside.{Cluster, Node, patch_node}
use cluster_api_provider_bmc.MachineController.Environment.{Environment, RemoteClient}
use cluster_api_provider_bmc.MachineController.State.{
  MachineContext, emit, record_event, update_status, get_hostname,
}

abbrev failure_node_ref : String → MachineContext → MachineContext
failure_node_ref message = record_event event_type_warning "FailureNodeRef" message

-- The inner test of the source on a nil reference: it was nil at the start, and nothing between
-- sets it.
assign_node_ref : Environment → Node → Option ObjectReference → MachineContext → MachineContext
assign_node_ref env node (some _) mc = mc
assign_node_ref env node none mc =
    record_event event_type_normal "SuccessNodeRef" ("Succesfully set node ref " <> node.name) (
      update_status
        (λ old. record old {
          node_ref = some (record {
            api_version = env.core_version;
            kind = "Node";
            name = node.name;
            uid = node.uid;
          });
        })
        mc)

patch_provider_id : RemoteClient → Node → Option String → MachineContext → Flow MachineContext
patch_provider_id remote node none mc = panic mc
patch_provider_id remote node (some id) mc =
    let node' : Node = record node { provider_id = id } in
    let mc' = emit (patch_node node') mc in
    elim (remote.patch node') [
      | none ↦ done mc'
      | some e ↦ done (
          failure_node_ref
            ("failed to patch the remote workload cluster node " <> e.message <> "\n") mc')
    ]

update_node : Environment → RemoteClient → MachineContext → Flow MachineContext
unfolding assign_node_ref patch_provider_id
update_node env remote mc = elim (remote.get_node (get_hostname mc.machine)) [
  | err e ↦ done (failure_node_ref ("Getting node failed. " <> e.message <> "\n") mc)
  | ok node ↦
      let mc' = assign_node_ref env node mc.bmc_machine.status.node_ref mc in
      elim (remote.new_helper node) [
        | some e ↦ done (
            failure_node_ref
              ("failed to create patchHelper for the workload cluster node " <> e.message <> "\n")
              mc')
        | none ↦ patch_provider_id remote node mc'.bmc_machine.spec.provider_id mc'
      ]
]

unfoldable pub set_node_ref : Environment → Cluster → MachineContext → Flow MachineContext
unfolding update_node
set_node_ref env cluster mc = elim mc.bmc_machine.status.node_ref [
  | some _ ↦ done mc
  | none ↦ elim (env.new_cluster_client cluster.meta.namespace cluster.meta.name) [
    | err e ↦ done (failure_node_ref ("Getting remote client failed. " <> e.message <> "\n") mc)
    | ok remote ↦ update_node env remote mc
  ]
]
