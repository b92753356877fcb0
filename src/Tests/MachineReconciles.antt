-- ===== src/Tests/MachineReconciles.antt =====
-- Whole reconciliations of a machine, and the theorems on them at such runs.
use cluster_api_provider_bmc.Base.{
  ◌≡◌, ◌≢◌, inr, refl, arith, true, false, none, some, [], ◌∷◌, string_eq, nat_eq, string_dec,
}
use cluster_api_provider_bmc.Go.{ok, panicked}
use cluster_api_provider_bmc.Go.Maps.{lookup, read}
use cluster_api_provider_bmc.Constants.Status
use cluster_api_provider_bmc.Api.Machine.{BmcMachine}
use cluster_api_provider_bmc.Outside.{calls}
use cluster_api_provider_bmc.MachineController.Environment.{Environment}
use cluster_api_provider_bmc.MachineController.State.{MachineContext, get_machine_id}
use cluster_api_provider_bmc.MachineController.Reconcile.{
  Lookups, reconcile_live, reconcile_context, with_owner, reconcile,
}
use cluster_api_provider_bmc.MachineController.Linked.{
  IsLinked, reconcile-IsLinked, live-ne-panicked,
}
use cluster_api_provider_bmc.MachineController.History.{
  Turn, start, skip, run, OnlyAbout, History-OnlyAbout,
}
use cluster_api_provider_bmc.Tests.MachineData.{
  machine, cluster, bmc_cluster, served, context_of, world, says, lookups_of, given,
}
use mathlib.Core.List.{filter_map}
use cluster_api_provider_bmc.MachineController.OneCall.{is_one_at_most, reconcile_one_call}
use cluster_api_provider_bmc.MachineController.Mapper
use cluster_api_provider_bmc.MachineController.Mapper.{Directory, bmc_cluster_to_bmc_machines}
use cluster_api_provider_bmc.MachineController.Mapping.{key_of, mapper-filter_map}

abbrev on : Environment
on = world (says Status.powered_on)

abbrev m1 : BmcMachine
m1 = served "creating" none

abbrev creating : MachineContext
creating = context_of m1

abbrev lookups : Lookups
lookups = lookups_of m1 false

-- The object that the run leaves.
abbrev polled_machine : BmcMachine
polled_machine = (reconcile_context on lookups creating).0.bmc_machine

abbrev turn : Turn
turn = record { env = on; lookups = lookups; namespace = "default"; name = "cp-1" }

reconcile-IsLinked_example : IsLinked polled_machine
unfolding reconcile with_owner get_machine_id string_dec read lookup
reconcile-IsLinked_example = reconcile-IsLinked on lookups "default" "cp-1" refl (inr refl) refl

live-ne-panicked_example : (reconcile_live on cluster bmc_cluster creating).1 ≢ panicked
unfolding get_machine_id string_dec read lookup
live-ne-panicked_example =
    live-ne-panicked on cluster bmc_cluster creating (inr refl) (ground arith)

-- The owner of the machine is not set yet.
abbrev early_turn : Turn
early_turn = record turn { lookups = record lookups { get_owner_machine = λ m. ok none } }

-- A run without an owner, and a poll.
History-OnlyAbout_example :
    (get_machine_id polled_machine ≡ get_machine_id m1)
    × OnlyAbout (get_machine_id m1) (turn ∷ early_turn ∷ [])
unfolding reconcile with_owner get_machine_id string_dec read lookup
History-OnlyAbout_example =
    History-OnlyAbout (run turn (skip early_turn start refl) refl refl) (given "s1" refl)

abbrev deleted : BmcMachine
deleted = served "powered-on" (some 7)

abbrev pub directory : Directory
directory = record {
  cluster_name_label = "cluster.x-k8s.io/cluster-name";
  get_owner_cluster = λ c. ok (some cluster);
  list_machines = λ namespace labels. ok (machine ∷ machine ∷ []);
}

mapper-filter_map_example :
    bmc_cluster_to_bmc_machines directory (Mapper.bmc_cluster bmc_cluster)
    ≡ filter_map key_of (machine ∷ machine ∷ [])
mapper-filter_map_example = mapper-filter_map directory bmc_cluster refl refl

reconcile_one_call_example :
    is_one_at_most (calls (reconcile on lookups "default" "cp-1").trace) ≡ true
reconcile_one_call_example = reconcile_one_call on lookups "default" "cp-1"
