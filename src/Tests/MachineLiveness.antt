-- ===== src/Tests/MachineLiveness.antt =====
-- Machines that become ready and stay so, and the theorems on them at such runs.
use cluster_api_provider_bmc.Base.{◌≡◌, ◌≢◌, arith, inr, refl, true, false, none, some, string_dec}
use cluster_api_provider_bmc.Go.{ok}
use cluster_api_provider_bmc.Go.Maps.{lookup, read}
use cluster_api_provider_bmc.Constants.Status
use cluster_api_provider_bmc.Api.Machine.{BmcMachine}
use cluster_api_provider_bmc.Outside.{failed}
use cluster_api_provider_bmc.MachineController.Environment.{Environment}
use cluster_api_provider_bmc.MachineController.State.{get_machine_id, is_marked_deleted}
use cluster_api_provider_bmc.MachineController.Reconcile.{
  reconcile_context, with_owner, reconcile, reconcile_live,
}
use cluster_api_provider_bmc.MachineController.History.{Turn, run_of, start, skip, run}
use cluster_api_provider_bmc.MachineController.Liveness.{
  IsDue, History-becomes_ready, History-keeps_ready,
}
use cluster_api_provider_bmc.Tests.MachineData.{
  machine, cluster, bmc_cluster, served, context_of, world, says, lookups_of, given,
  reported_status, lost,
}

abbrev waiting : BmcMachine
waiting = served "creating" none

abbrev up : Environment
up = world (says Status.powered_on)

-- The owner of the machine is not set yet.
abbrev early_turn : Turn
early_turn = record {
  env = up;
  lookups = record (lookups_of waiting false) { get_owner_machine = λ m. ok none };
  namespace = "default";
  name = "cp-1";
}

abbrev turn : Turn
turn = record early_turn { lookups = lookups_of waiting false }

waiting_stays : is_marked_deleted (some waiting) ≡ false
unfolding is_marked_deleted
waiting_stays = refl

machine_named : machine.data_secret_name ≢ none
machine_named = ground arith

abbrev is_due : IsDue turn waiting
is_due = record {
  machine = machine;
  cluster = cluster;
  reference = "capi";
  bmc_cluster = bmc_cluster;
  found = refl;
  owned = refl;
  wanted = waiting_stays;
  clustered = refl;
  referred = refl;
  provided = refl;
  active = refl;
  ready = refl;
  named = machine_named;
}

History-becomes_ready_example :
    let n' = (reconcile_live up cluster bmc_cluster (context_of waiting)).0.bmc_machine in
    ((run_of turn).patched ≡ some n') × (n'.status.ready ≡ true)
unfolding reconcile with_owner get_machine_id string_dec read lookup
History-becomes_ready_example =
    History-becomes_ready {ss = reported_status "s1" Status.powered_on} (skip early_turn start refl)
      (given "s1" refl) (inr refl) turn is_due refl refl

abbrev ready_machine : BmcMachine
ready_machine = record waiting { status = record waiting.status { ready = true } }

-- BMC cannot be reached.
abbrev lost_turn : Turn
lost_turn = record turn { env = world (failed lost); lookups = lookups_of ready_machine false }

abbrev stale_machine : BmcMachine
stale_machine =
    (reconcile_context lost_turn.env lost_turn.lookups (context_of ready_machine)).0.bmc_machine

History-keeps_ready_example : stale_machine.status.ready ≡ true
unfolding reconcile with_owner get_machine_id string_dec read lookup
History-keeps_ready_example =
    History-keeps_ready (run lost_turn start refl refl) (given "s1" refl) refl
