-- ===== src/System/Store.antt =====
-- The machine controller with the API server that keeps its objects: what a run leaves is stored,
-- or removed if it is marked as deleted and has no finalizers, and the next run reads the store.
use mathlib.Core.Path.{subst}
use cluster_api_provider_bmc.Base.{
  ◌≡◌, ap, ◌∙◌, refl, ℕ, Bool, true, none, some, List, [], ◌∷◌, if◌then◌else◌,
}
use cluster_api_provider_bmc.Go.{GoError, ok, err, returned, no_requeue}
use cluster_api_provider_bmc.Api.Meta.{ObjectMeta}
use cluster_api_provider_bmc.Api.Machine.{BmcMachine}
use cluster_api_provider_bmc.MachineController.Reconcile.{Run, reconcile}
use cluster_api_provider_bmc.MachineController.History.{Turn, run_of}

-- What the API server does with an object that was patched, by its metadata.
pub record ApiServer : Type 0 where
  pub removes : ObjectMeta → Bool
  pub not_found : GoError

-- Its documentation: an object that is marked as deleted is removed once it has no finalizers.
pub record Collects (server : ApiServer) : Type 0 where
  pub collects :
      (meta : ObjectMeta) {t : ℕ}
      → meta.deletion_timestamp ≡ some t
      → meta.finalizers ≡ []
      → server.removes meta ≡ true

-- What stands under the name of a machine.
pub data Stored : Type 0 where
  gone : Stored
  stored : BmcMachine → Stored

module _ (server : ApiServer) where
  -- What stands there after a run, if its patch is accepted.
  unfoldable pub after : Stored → Run → Stored
  after s r = elim r.patched [
    | none ↦ s
    | some m ↦ if server.removes m.meta then gone else stored m
  ]

  -- The lookup of a run answers from the store.
  abbrev pub Answers : Stored → Turn → Type 0
  Answers gone t =
      (t.lookups.get_bmc_machine t.namespace t.name ≡ err server.not_found)
      × (t.lookups.ignore_not_found server.not_found ≡ none)
  Answers (stored m) t = t.lookups.get_bmc_machine t.namespace t.name ≡ ok m

  -- The runs that may follow, the first one first.
  pub data Life : Stored → List Turn → Type 0 where
    ended : {s : Stored} → Life s []
    next :
        {s : Stored} {ts : List Turn} (t : Turn)
        → Answers s t
        → Life (after s (run_of t)) ts
        → Life s (t ∷ ts)

-- A run does nothing and asks for nothing.
abbrev pub idle_run : Run
idle_run = record { outcome = returned no_requeue none; patched = none; trace = [] }

abbrev pub AllIdle : List Turn → Type 0
AllIdle [] = Unit
AllIdle (t ∷ ts) = (run_of t ≡ idle_run) × AllIdle ts

module _ (server : ApiServer) where
  gone_run : {s : Stored} (t : Turn) → s ≡ gone → Answers server s t → run_of t ≡ idle_run
  unfolding reconcile
  gone_run t lost answers =
      let (missing, ignored) = subst (λ s. Answers server s t) lost answers in
      rw (missing, ignored, reconcile) refl

  -- Once the object is gone, every run is idle.
  pub gone-AllIdle : {s : Stored} {ts : List Turn} → s ≡ gone → Life server s ts → AllIdle ts
  unfolding after
  gone-AllIdle lost ended = tt
  gone-AllIdle {s} lost (next t answers life) =
      let idle = gone_run t lost answers in
      (idle, gone-AllIdle (ap (after server s) idle ∙ lost) life)
