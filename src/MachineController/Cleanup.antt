-- ===== src/MachineController/Cleanup.antt =====
-- How a deletion ends, and what it does to the finalizer.
use cluster_api_provider_bmc.Base.{
  ◌≡◌, arith, Bool, true, false, zero, suc, none, not, ◌||◌, ◌==◌, string_eq,
}
use cluster_api_provider_bmc.Go.{ok, err, Outcome, returned}
use cluster_api_provider_bmc.Go.Format.{is_empty}
use cluster_api_provider_bmc.Constants.{is_success}
use cluster_api_provider_bmc.Constants.Status
use cluster_api_provider_bmc.Api.Machine.{BmcMachine, machine_finalizer}
use cluster_api_provider_bmc.Outside.{HttpAnswer, failed, answered, IsLawful}
use cluster_api_provider_bmc.MachineController.Environment.{Environment}
use cluster_api_provider_bmc.MachineController.State.{MachineContext, get_machine_id, has_fini}
use cluster_api_provider_bmc.MachineController.Delete.{reconcile_delete, deprovision_call}

-- There is no server to tear down.
abbrev pub is_detached : BmcMachine → Bool
is_detached m = m.status.bmc_status == Status.orphaned || is_empty (get_machine_id m)

-- BMC accepted the request, and its answer could be read.
abbrev pub is_accepted : HttpAnswer → Bool
is_accepted (failed e) = false
is_accepted (answered code (err e)) = false
is_accepted (answered code (ok body)) = is_success code

-- A requeue or an error is asked for.
abbrev pub wants_retry : Outcome → Bool
wants_retry (returned r none) = elim r.requeue_after [ zero ↦ false | suc n ↦ true ]
wants_retry _ = true

module _ (env : Environment) (mc : MachineContext) where
  -- However the deletion ends, also where BMC refused it or could not be reached, the object that
  -- is handed to the patch helper has lost the finalizer.
  pub delete-finalizer_gone :
      IsLawful env.finalizers → has_fini env (reconcile_delete env mc).0.bmc_machine ≡ false
  unfolding reconcile_delete has_fini
  delete-finalizer_gone lawful =
      ground (arith, lawful.contains-remove mc.bmc_machine.meta.finalizers machine_finalizer)

  -- A deletion whose request can be built asks for no retry and reports no error exactly if there
  -- is no server to tear down or BMC accepted the request.
  pub delete-wants_retry :
      env.new_request (deprovision_call env (get_machine_id mc.bmc_machine)) ≡ none
      → let sent = deprovision_call env (get_machine_id mc.bmc_machine) in
        wants_retry (reconcile_delete env mc).1
        ≡ not (is_detached mc.bmc_machine || is_accepted (env.http sent))
  unfolding reconcile_delete get_machine_id
  delete-wants_retry built = ground arith
