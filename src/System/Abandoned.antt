-- ===== src/System/Abandoned.antt =====
-- What becomes of a machine that is marked as deleted, and of a server that BMC did not let go of.
use cluster_api_provider_bmc.Base.{
  ◌≡◌, ◌∙◌, ap, arith, refl, ℕ, true, false, none, some, List, [], ◌∷◌,
}
use cluster_api_provider_bmc.Go.{ok}
use cluster_api_provider_bmc.Api.Machine.{BmcMachine, machine_finalizer}
use cluster_api_provider_bmc.Outside.{Machine, calls}
use cluster_api_provider_bmc.MachineController.Environment.{Environment}
use cluster_api_provider_bmc.MachineController.State.{MachineContext, get_machine_id, remove_fini}
use cluster_api_provider_bmc.MachineController.Delete.{reconcile_delete, deprovision_call}
use cluster_api_provider_bmc.MachineController.Cleanup.{
  is_detached, is_accepted, wants_retry, delete-wants_retry,
}
use cluster_api_provider_bmc.MachineController.Persistence.{reconcile_deleted}
use cluster_api_provider_bmc.MachineController.History.{Turn, run_of}
use cluster_api_provider_bmc.System.Store.{
  ApiServer, Collects, gone, stored, after, Answers, Life, next, AllIdle, gone-AllIdle,
}

-- A deletion keeps the metadata but for the finalizer.
delete-meta :
    (env : Environment) (mc : MachineContext)
    → (reconcile_delete env mc).0.bmc_machine.meta ≡ record mc.bmc_machine.meta {
      finalizers = env.finalizers.remove mc.bmc_machine.meta.finalizers machine_finalizer;
    }
unfolding reconcile_delete remove_fini
delete-meta env mc = ground arith

-- A deletion with a server to tear down makes one call.
delete-calls :
    (env : Environment) (mc : MachineContext)
    → mc.trace ≡ []
    → is_detached mc.bmc_machine ≡ false
    → env.new_request (deprovision_call env (get_machine_id mc.bmc_machine)) ≡ none
    → calls (reconcile_delete env mc).0.trace
      ≡ deprovision_call env (get_machine_id mc.bmc_machine) ∷ []
unfolding reconcile_delete remove_fini get_machine_id
delete-calls env mc fresh attached built = ground arith

-- The machine is marked as deleted, has an owner, and no finalizer but the controller's.
pub record IsDoomed (t : Turn) (m : BmcMachine) : Type 0 where
  pub time : ℕ
  pub owner : Machine
  pub marked : m.meta.deletion_timestamp ≡ some time
  pub owned : t.lookups.get_owner_machine m ≡ ok (some owner)
  pub alone : t.env.finalizers.remove m.meta.finalizers machine_finalizer ≡ []

-- It has a server, and BMC does not accept the request to deprovision it.
pub record IsRefused (t : Turn) (m : BmcMachine) : Type 0 where
  pub attached : is_detached m ≡ false
  pub built : t.env.new_request (deprovision_call t.env (get_machine_id m)) ≡ none
  pub refused : is_accepted (t.env.http (deprovision_call t.env (get_machine_id m))) ≡ false

module _ (server : ApiServer) (collected : Collects server) (t : Turn) (m : BmcMachine)
    (doomed : IsDoomed t m) where
  abbrev ctx : MachineContext
  ctx = record { machine = doomed.owner; bmc_machine = m; trace = [] }

  doomed_run : Answers server (stored m) t → after server (stored m) (run_of t) ≡ gone
  unfolding after
  doomed_run found =
      let kept = delete-meta t.env ctx in
      let removed =
        collected.collects (reconcile_delete t.env ctx).0.bmc_machine.meta
          (ap (λ o. o.deletion_timestamp) kept ∙ doomed.marked)
          (ap (λ o. o.finalizers) kept ∙ doomed.alone) in
      ground (
        arith,
        removed,
        reconcile_deleted t.env t.lookups t.namespace t.name found doomed.owned doomed.marked,
      )

  refused_run :
      Answers server (stored m) t
      → IsRefused t m
      → (wants_retry (run_of t).outcome ≡ true)
        × (calls (run_of t).trace ≡ deprovision_call t.env (get_machine_id m) ∷ [])
  refused_run found r = ground (
    arith,
    delete-wants_retry t.env ctx r.built,
    delete-calls t.env ctx refl r.attached r.built,
    r.attached,
    r.refused,
    reconcile_deleted t.env t.lookups t.namespace t.name found doomed.owned doomed.marked,
  )

  -- A machine that is marked as deleted, has an owner and no finalizer left but the controller's,
  -- is gone after one run, whatever BMC answers: every run after it finds no object, does nothing
  -- and asks for no other run.
  pub deleted-AllIdle : {ts : List Turn} → Life server (stored m) (t ∷ ts) → AllIdle ts
  deleted-AllIdle (next t' found life) = gone-AllIdle server (doomed_run found) life

  -- If BMC moreover refuses the deletion of its server or cannot be reached, the run makes one call
  -- and asks for a retry, and still every run after it does nothing: BMC is never asked again.
  pub refused-AllIdle :
      {ts : List Turn}
      → IsRefused t m
      → Life server (stored m) (t ∷ ts)
      → (wants_retry (run_of t).outcome ≡ true)
        × (calls (run_of t).trace ≡ deprovision_call t.env (get_machine_id m) ∷ [])
        × AllIdle ts
  refused-AllIdle refused (next t' found life) =
      let (wants, one) = refused_run found refused in
      (wants, one, gone-AllIdle server (doomed_run found) life)
