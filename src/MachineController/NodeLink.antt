-- ===== src/MachineController/NodeLink.antt =====
-- What a poll does to the node of the workload cluster, and to the machine's reference to it.
use cluster_api_provider_bmc.Base.{
  ◌≡◌, arith, String, Bool, false, Option, none, some, List, [], ◌∷◌, ◌==◌, string_eq,
  if◌then◌else◌,
}
use cluster_api_provider_bmc.Go.{GoError, Try, ok, err}
use cluster_api_provider_bmc.Constants.Status
use cluster_api_provider_bmc.Api.Machine.{ObjectReference}
use cluster_api_provider_bmc.Outside.{Cluster, Node, Effect, event, call, patch_node}
use cluster_api_provider_bmc.MachineController.Environment.{Environment, RemoteClient}
use cluster_api_provider_bmc.MachineController.State.{MachineContext, get_hostname}
use cluster_api_provider_bmc.MachineController.Synchronize.{reconcile_synchronize}
use cluster_api_provider_bmc.MachineController.PollSpec.{Observation, reported, observation}

-- The nodes that were patched, in order.
abbrev pub patched_nodes : List Effect → List Node
patched_nodes [] = []
patched_nodes (patch_node n ∷ es) = n ∷ patched_nodes es
patched_nodes (call r ∷ es) = patched_nodes es
patched_nodes (event t r m ∷ es) = patched_nodes es

abbrev pub is_powered_on : Observation → Bool
is_powered_on (reported ss) = ss.bmc_status == Status.powered_on
is_powered_on _ = false

abbrev node_found : Try Node → Option Node
node_found (err e) = none
node_found (ok node) = some node

abbrev node_by_name : String → Try RemoteClient → Option Node
node_by_name hostname (err e) = none
node_by_name hostname (ok remote) = node_found (remote.get_node hostname)

abbrev ref_to : Environment → Node → ObjectReference
ref_to env node = record {
  api_version = env.core_version;
  kind = "Node";
  name = node.name;
  uid = node.uid;
}

abbrev ref_of : Environment → Option Node → Option ObjectReference
ref_of env none = none
ref_of env (some node) = some (ref_to env node)

-- The reference after a poll, from the node that is found and the reference before.
abbrev pub ref_after :
    Environment → Bool → Option Node → Option ObjectReference → Option ObjectReference
ref_after env on _ (some r) = some r
ref_after env on found none = if on then ref_of env found else none

-- The node that is patched, if its patch helper can be made.
abbrev with_provider_id : String → Option GoError → Node → List Node
with_provider_id id (some e) node = []
with_provider_id id none node = (record node { provider_id = id }) ∷ []

abbrev node_patched : String → RemoteClient → Try Node → List Node
node_patched id remote (err e) = []
node_patched id remote (ok node) = with_provider_id id (remote.new_helper node) node

abbrev patched_by : String → String → Try RemoteClient → List Node
patched_by id hostname (err e) = []
patched_by id hostname (ok remote) = node_patched id remote (remote.get_node hostname)

-- The nodes that a poll patches.
abbrev pub nodes_after :
    Bool → Option ObjectReference → String → String → Try RemoteClient → List Node
nodes_after on (some r) id hostname remote = []
nodes_after on none id hostname remote = if on then patched_by id hostname remote else []

module _ (env : Environment) (cluster : Cluster) (mc : MachineContext) where
  -- The workload cluster's client, as this poll gets it.
  abbrev pub remote_of : Try RemoteClient
  remote_of = env.new_cluster_client cluster.meta.namespace cluster.meta.name

  -- A poll keeps a reference to a node. It sets one, if there is none, exactly if BMC reports the
  -- server as powered on and the workload cluster has a node of the machine's hostname, and then
  -- to that node.
  pub synchronize_node_ref :
      (reconcile_synchronize env cluster mc).0.bmc_machine.status.node_ref
      ≡ ref_after env
          (is_powered_on (observation env mc))
          (node_by_name (get_hostname mc.machine) remote_of)
          mc.bmc_machine.status.node_ref
  unfolding reconcile_synchronize get_hostname
  synchronize_node_ref = ground arith

  -- A poll of a machine with a provider id patches one node at most, the one of the machine's
  -- hostname, by giving it the machine's provider id. It does so exactly if the machine has no
  -- reference to a node, BMC reports the server as powered on, and the node and the patch helper
  -- can be had.
  pub synchronize_patched_nodes :
      {id : String}
      → mc.trace ≡ []
      → mc.bmc_machine.spec.provider_id ≡ some id
      → patched_nodes (reconcile_synchronize env cluster mc).0.trace
        ≡ nodes_after
            (is_powered_on (observation env mc))
            mc.bmc_machine.status.node_ref
            id
            (get_hostname mc.machine)
            remote_of
  unfolding reconcile_synchronize get_hostname
  synchronize_patched_nodes fresh linked = ground arith
