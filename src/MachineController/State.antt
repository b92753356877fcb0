-- ===== src/MachineController/State.antt =====
-- `MachineContext` of controllers/closures.go and its methods, but for `SetNodeRef`. The trace
-- holds what the recorder and the clients were told. The fields `Cluster` and `BMCCluster` are nil
-- until they are looked up; they stand as arguments of the methods that run after that.
use cluster_api_provider_bmc.Base.{
  ℕ, String, ◌<>◌, Bool, true, false, ◌||◌, not, Option, none, some, List, [], ◌∷◌, ◌++◌, ◌==◌,
  string_eq,
}
use mathlib.Core.List.{map}
use cluster_api_provider_bmc.Go.{Try, ok, err, Flow, done, panic}
use cluster_api_provider_bmc.Go.Maps.{GoMap, lookup, read, write}
use cluster_api_provider_bmc.Go.Format.{replace_separators}
use cluster_api_provider_bmc.Constants.Annotation.{bmc_server_id, bmc_cluster_ip_allocation_id}
use cluster_api_provider_bmc.Constants.Status.{irreconcilable}
use cluster_api_provider_bmc.Api.Meta.{is_zero}
use cluster_api_provider_bmc.Api.Machine.{
  BmcMachine, BmcMachineStatus, NodeAddress, node_external_ip, MachineStatusError,
  machine_finalizer,
}
use cluster_api_provider_bmc.Api.Cluster.{BmcCluster}
use cluster_api_provider_bmc.Outside.{Machine, Cluster, Effect, event}
use cluster_api_provider_bmc.MachineController.Environment.{Environment}

pub record MachineContext : Type 0 where
  pub machine : Machine
  pub bmc_machine : BmcMachine
  pub trace : List Effect

abbrev pub emit : Effect → MachineContext → MachineContext
emit e mc = record mc { trace = mc.trace ++ (e ∷ []) }

abbrev pub record_event : String → String → String → MachineContext → MachineContext
record_event eventtype reason message mc = emit (event eventtype reason message) mc

abbrev pub update_status : (BmcMachineStatus → BmcMachineStatus) → MachineContext → MachineContext
update_status f mc = record mc {
  bmc_machine = record (mc.bmc_machine) { status = f mc.bmc_machine.status };
}

abbrev pub update_finalizers : (List String → List String) → MachineContext → MachineContext
update_finalizers f mc = record mc {
  bmc_machine = record (mc.bmc_machine) {
    meta = record (mc.bmc_machine.meta) { finalizers = f mc.bmc_machine.meta.finalizers };
  };
}

module _ (env : Environment) where
  unfoldable pub add_fini : MachineContext → MachineContext
  add_fini = update_finalizers (λ fs. env.finalizers.add fs machine_finalizer)

  unfoldable pub remove_fini : MachineContext → MachineContext
  remove_fini = update_finalizers (λ fs. env.finalizers.remove fs machine_finalizer)

  unfoldable pub has_fini : BmcMachine → Bool
  has_fini m = env.finalizers.contains m.meta.finalizers machine_finalizer

abbrev not_nil : Option ℕ → Bool
not_nil none = false
not_nil (some _) = true

-- `IsMarkedDeleted`; `none` is a nil `BMCMachine`.
unfoldable pub is_marked_deleted : Option BmcMachine → Bool
unfolding is_zero
is_marked_deleted none = false
is_marked_deleted (some m) =
    not_nil m.meta.deletion_timestamp || not (is_zero m.meta.deletion_timestamp)

unfoldable pub get_machine_id : BmcMachine → String
get_machine_id m = read m.meta.annotations bmc_server_id

abbrev pub provider_id_of : String → String
provider_id_of id = "bmc://servers/" <> id

abbrev set_annotations : Option GoMap → MachineContext → Flow MachineContext
set_annotations none mc = panic mc
set_annotations (some as') mc = done (record mc {
  bmc_machine = record (mc.bmc_machine) {
    meta = record (mc.bmc_machine.meta) { annotations = as' };
  };
})

-- The provider id is set before the write to the map, which may panic.
unfoldable pub set_machine_id : String → MachineContext → Flow MachineContext
set_machine_id id mc =
    let mc' : MachineContext = record mc {
      bmc_machine = record (mc.bmc_machine) {
        spec = record (mc.bmc_machine.spec) { provider_id = some (provider_id_of id) };
      };
    } in
    set_annotations (write mc'.bmc_machine.meta.annotations bmc_server_id id) mc'

abbrev pub is_infrastructure_ready : Cluster → Bool
is_infrastructure_ready cluster = cluster.infrastructure_ready

abbrev pub is_data_secret_ready : Machine → Bool
is_data_secret_ready machine = elim machine.data_secret_name [ none ↦ false | some _ ↦ true ]

abbrev pub is_status_equal : MachineContext → String → Bool
is_status_equal mc s = mc.bmc_machine.status.bmc_status == s

abbrev pub set_status : BmcMachineStatus → MachineContext → MachineContext
set_status s = update_status (λ _. s)

unfoldable pub merge_bmc_status_properties : BmcMachineStatus → MachineContext → MachineContext
merge_bmc_status_properties s = update_status λ old. record old {
  bmc_server_id = s.bmc_server_id;
  bmc_status = s.bmc_status;
  cpu = s.cpu;
  cpu_count = s.cpu_count;
  cpu_cores = s.cpu_cores;
  cpu_frequency = s.cpu_frequency;
  ram = s.ram;
  storage = s.storage;
  private_ip_addresses = s.private_ip_addresses;
  public_ip_addresses = s.public_ip_addresses;
}

abbrev pub set_bmc_status : String → MachineContext → MachineContext
set_bmc_status s = update_status (λ old. record old { bmc_status = s })

abbrev pub get_bmc_status : MachineContext → String
get_bmc_status mc = mc.bmc_machine.status.bmc_status

unfoldable pub get_hostname : Machine → String
unfolding replace_separators
get_hostname machine = replace_separators machine.meta.name

unfoldable pub get_cluster_ip_allocation_id : BmcCluster → String
get_cluster_ip_allocation_id c = read c.meta.annotations bmc_cluster_ip_allocation_id

unfoldable pub set_irreconcilable : MachineStatusError → String → MachineContext → MachineContext
set_irreconcilable reason msg = update_status λ old. record old {
  failure_reason = some reason;
  failure_message = some msg;
  bmc_status = irreconcilable;
}

abbrev pub external_address : String → NodeAddress
external_address a = record { type = node_external_ip; address = a }

-- The loop of `SetReady` appends one external address for each public address.
unfoldable pub set_ready : MachineContext → MachineContext
set_ready =
    update_status
      λ old. record old { ready = true; addresses = map external_address old.public_ip_addresses }

abbrev pub is_ready : MachineContext → Bool
is_ready mc = mc.bmc_machine.status.ready

secret_value : BmcMachine → Try (List (String × List ℕ)) → Try (List ℕ)
secret_value m (err e) = err (record {
  message =
      "failed to retrieve bootstrap data secret for BMCMachine " <> m.meta.namespace <> "/"
      <> m.meta.name <> ": " <> e.message;
})
secret_value m (ok entries) = elim (lookup "value" entries) [
  | some value ↦ ok value
  | none ↦ err (record {
    message =
        "bootstrap value is missing in data secret for BMCMachine " <> m.meta.namespace <> "/"
        <> m.meta.name;
  })
]

-- `GetDataSecretValue` reads through the pointer `DataSecretName`, and panics where it is nil:
-- `none`.
unfoldable pub get_data_secret_value : Environment → MachineContext → Option (Try (List ℕ))
unfolding secret_value lookup
get_data_secret_value env mc = elim mc.machine.data_secret_name [
  | none ↦ none
  | some name ↦
      some (secret_value mc.bmc_machine (env.get_secret mc.bmc_machine.meta.namespace name))
]
