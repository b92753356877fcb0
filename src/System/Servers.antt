-- ===== src/System/Servers.antt =====
-- Which calls a reconciliation of a control plane machine makes, and into which block it puts a
-- server.
use cluster_api_provider_bmc.Base.{
  ◌≡◌, inl, inr, ◌∙◌, ap, refl, sym, arith, ℕ, String, if◌then◌else◌, true, none, some, List, [],
  ◌∷◌, string_eq, Option-cases,
}
use mathlib.Core.Path.{subst}
use cluster_api_provider_bmc.Go.{GoError, ok, err}
use cluster_api_provider_bmc.Api.Cluster.{BmcCluster}
use cluster_api_provider_bmc.Go.Json.Values.{print}
use cluster_api_provider_bmc.Outside.{HttpRequest, calls}
use cluster_api_provider_bmc.MachineController.Environment.{Environment, BmcCreateServerRequest}
use cluster_api_provider_bmc.MachineController.State.{
  MachineContext, get_data_secret_value, get_cluster_ip_allocation_id,
}
use cluster_api_provider_bmc.MachineController.Codec.{json_of_request, marshal, marshal-print}
use cluster_api_provider_bmc.MachineController.Create.{
  new_server_request, network_request, create_server_call, reconcile_create,
}
use cluster_api_provider_bmc.MachineController.Creation.{
  Sent, is_placed, blocks_of, create-calls, network_request_blocks,
}

-- The call asks for a server in this block.
pub record IsCreation (env : Environment) (block : String) (r : HttpRequest) : Type 0 where
  pub request : BmcCreateServerRequest
  pub body : String
  pub posted : r ≡ create_server_call env body
  pub marshalled : marshal request ≡ ok body
  pub placed : blocks_of request ≡ (record { id = block }) ∷ []

-- There is no call, or one that asks for a server in this block.
abbrev pub OneCreation : Environment → String → List HttpRequest → Type 0
OneCreation env block [] = Unit
OneCreation env block (r ∷ []) = IsCreation env block r
OneCreation env block (r ∷ (r' ∷ rs)) = ⊥

module _ (env : Environment) (c : BmcCluster) (mc : MachineContext) (fresh : mc.trace ≡ []) where
  abbrev block : String
  block = get_cluster_ip_allocation_id c

  no-calls : {rs : List HttpRequest} → rs ≡ [] → OneCreation env block rs
  no-calls e = subst (OneCreation env block) (sym e) tt

  secretless-calls :
      get_data_secret_value env mc ≡ none → calls (reconcile_create env c mc).0.trace ≡ []
  unfolding reconcile_create
  secretless-calls lost = ground arith

  refused-calls :
      {e : GoError}
      → get_data_secret_value env mc ≡ some (err e)
      → calls (reconcile_create env c mc).0.trace ≡ []
  unfolding reconcile_create
  refused-calls lost = ground arith

  blockless-calls :
      {bootstrap : List ℕ}
      → get_data_secret_value env mc ≡ some (ok bootstrap)
      → network_request env c mc (new_server_request env mc bootstrap) ≡ none
      → calls (reconcile_create env c mc).0.trace ≡ []
  unfolding reconcile_create
  blockless-calls found lost = ground arith

  sent-OneCreation :
      {bootstrap : List ℕ} {request : BmcCreateServerRequest}
      → is_placed env c mc.machine ≡ true
      → get_data_secret_value env mc ≡ some (ok bootstrap)
      → network_request env c mc (new_server_request env mc bootstrap) ≡ some request
      → OneCreation env block (calls (reconcile_create env c mc).0.trace)
  sent-OneCreation {bootstrap} {request} plane found made =
      let sent : Sent env c mc = record {
        bootstrap = bootstrap;
        request = request;
        body = print (json_of_request request);
        secret = found;
        placed = made;
        marshalled = marshal-print request;
      } in
      subst (OneCreation env block) (sym (create-calls env c mc sent fresh)) (record {
        request = request;
        body = print (json_of_request request);
        posted = refl;
        marshalled = marshal-print request;
        placed =
            (network_request_blocks env c mc bootstrap made).0
            ∙ ap (λ b. if b then (record { id = block }) ∷ [] else []) plane;
      })

  -- A creation for a control plane machine of a cluster with no VIP manager makes no call, or asks
  -- for a server in the cluster's block.
  pub create-OneCreation :
      is_placed env c mc.machine ≡ true
      → OneCreation env block (calls (reconcile_create env c mc).0.trace)
  create-OneCreation plane = elim (Option-cases (get_data_secret_value env mc)) [
    | inl lost ↦ no-calls (secretless-calls lost)
    | inr (err e, lost) ↦ no-calls (refused-calls lost)
    | inr (ok bootstrap, found) ↦
        elim (Option-cases (network_request env c mc (new_server_request env mc bootstrap))) [
          | inl lost ↦ no-calls (blockless-calls found lost)
          | inr (request, made) ↦ sent-OneCreation plane found made
        ]
  ]
