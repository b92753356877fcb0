-- ===== src/MachineController/Creation.antt =====
-- What `reconcileCreate` asks of BMC, and what it keeps of the answer.
use cluster_api_provider_bmc.Base.{
  ◌≡◌, ◌≢◌, ap, ◌∙◌, arith, ℕ, String, ◌<>◌, Bool, true, false, none, some, List, [], ◌∷◌, ◌&&◌,
  ◌||◌, ◌==◌, nat_eq, string_eq, if◌then◌else◌,
}
use cluster_api_provider_bmc.Go.{
  ok, CtrlResult, returned, panicked, no_requeue, requeue_after_1_min, requeue_after_2_min,
  requeue_after_5_min,
}
use cluster_api_provider_bmc.Go.Base64.{encode, decode, AllBytes, decode-encode}
use cluster_api_provider_bmc.Go.Json.Read.{parse}
use cluster_api_provider_bmc.Go.Format.{itoa, is_empty}
use cluster_api_provider_bmc.Constants.Status
use cluster_api_provider_bmc.Go.Maps.{write, read-insert, read-nil}
use cluster_api_provider_bmc.Constants.{is_success}
use cluster_api_provider_bmc.Api.Cluster.{BmcCluster, vip_none}
use cluster_api_provider_bmc.Api.Machine.{BmcMachineStatus}
use cluster_api_provider_bmc.Outside.{Machine, answered, calls}
use cluster_api_provider_bmc.MachineController.Codec.{marshal}
use cluster_api_provider_bmc.MachineController.RequestSpec.{request_value, marshal-parse}
use cluster_api_provider_bmc.MachineController.Environment.{
  Environment, BmcCreateServerRequest, IpBlock,
}
use cluster_api_provider_bmc.MachineController.State.{
  MachineContext, get_hostname, get_machine_id, get_data_secret_value, get_cluster_ip_allocation_id,
  provider_id_of,
}
use cluster_api_provider_bmc.MachineController.Create.{
  new_server_request, network_request, with_ip_block, create_server_call, reconcile_create,
}

-- The machine is to be put into the cluster's own address block.
abbrev pub is_placed : Environment → BmcCluster → Machine → Bool
is_placed env c machine = env.is_control_plane_machine machine && c.spec.vip_manager == vip_none

abbrev pub blocks_of : BmcCreateServerRequest → List IpBlock
blocks_of r = r.network_configuration.ip_blocks_configuration.ip_blocks

-- A request is made up, unless the machine belongs into a block that has no id yet. It names the
-- cluster's block if the machine belongs there, and no block if it does not; the rest of the
-- request does not depend on that.
pub network_request_blocks :
    (env : Environment) (c : BmcCluster) (mc : MachineContext) (bootstrap : List ℕ)
    {request : BmcCreateServerRequest}
    → network_request env c mc (new_server_request env mc bootstrap) ≡ some request
    → let id = get_cluster_ip_allocation_id c in
      (blocks_of request ≡ (if is_placed env c mc.machine then (record { id = id }) ∷ [] else []))
      × ((is_placed env c mc.machine && is_empty id) ≡ false)
      × (request.hostname ≡ (new_server_request env mc bootstrap).hostname)
      × (request.os_configuration.cloud_init.user_data ≡ encode bootstrap)
unfolding network_request new_server_request with_ip_block
network_request_blocks env c mc bootstrap made = ground arith

-- The request that a creation sends, with the answers on the way to it.
pub record Sent (env : Environment) (c : BmcCluster) (mc : MachineContext) : Type 0 where
  pub bootstrap : List ℕ
  pub request : BmcCreateServerRequest
  pub body : String
  pub secret : get_data_secret_value env mc ≡ some (ok bootstrap)
  pub placed : network_request env c mc (new_server_request env mc bootstrap) ≡ some request
  pub marshalled : marshal request ≡ ok body

-- BMC made a server, and says so in its answer.
pub record Made (env : Environment) (body : String) (ss : BmcMachineStatus) : Type 0 where
  pub code : ℕ
  pub reply : String
  pub success : is_success code ≡ true
  pub answer : env.http (create_server_call env body) ≡ answered code (ok reply)
  pub parsed : env.unmarshal reply ≡ ok ss

module _ (env : Environment) (c : BmcCluster) (mc : MachineContext) (sent : Sent env c mc) where
  -- A creation that gets to its request makes one call, the creation of a server by this request.
  pub create-calls :
      mc.trace ≡ []
      → calls (reconcile_create env c mc).0.trace ≡ create_server_call env sent.body ∷ []
  unfolding reconcile_create
  create-calls fresh = ground arith

  -- If the secret's value is a sequence of bytes, then a creation that gets to its request makes
  -- one call. The text that it posts is JSON that reads as the fields of the request, but for empty
  -- texts and lists; its user data decode to the secret's value, and its hostname is the one made
  -- of the machine's name.
  pub create-posts_bootstrap :
      mc.trace ≡ []
      → AllBytes sent.bootstrap
      → (calls (reconcile_create env c mc).0.trace ≡ create_server_call env sent.body ∷ [])
        × (parse sent.body ≡ some (request_value sent.request))
        × (decode sent.request.os_configuration.cloud_init.user_data ≡ some sent.bootstrap)
        × (get_data_secret_value env mc ≡ some (ok sent.bootstrap))
        × (sent.request.hostname ≡ get_hostname mc.machine)
  unfolding new_server_request network_request
  create-posts_bootstrap fresh bytes =
      let (blocks, placed, hostname, user_data) =
        network_request_blocks env c mc sent.bootstrap sent.placed in
      (
        create-calls fresh,
        marshal-parse sent.request sent.marshalled,
        ap decode user_data ∙ decode-encode sent.bootstrap bytes,
        sent.secret,
        hostname,
      )

  -- If BMC made a server and the machine has annotations, then the machine holds the status of
  -- the answer, the server's id, and the provider id made of it, and is looked at a minute later.
  pub create_links :
      {ss : BmcMachineStatus}
      → Made env sent.body ss
      → mc.bmc_machine.meta.annotations ≢ none
      → let (mc', outcome) = reconcile_create env c mc in
        (get_machine_id mc'.bmc_machine ≡ ss.bmc_server_id)
        × (mc'.bmc_machine.spec.provider_id ≡ some (provider_id_of ss.bmc_server_id))
        × (mc'.bmc_machine.status ≡ ss)
        × (outcome ≡ returned requeue_after_1_min none)
  unfolding reconcile_create write get_machine_id
  create_links made annotated = grind (arith, read-insert)

  -- If BMC made a server and the machine has no annotations at all, the creation panics, and the
  -- machine does not know the server's id.
  pub create_forgets :
      {ss : BmcMachineStatus}
      → Made env sent.body ss
      → mc.bmc_machine.meta.annotations ≡ none
      → let (mc', outcome) = reconcile_create env c mc in
        (outcome ≡ panicked)
        × (get_machine_id mc'.bmc_machine ≡ "")
        × (mc'.bmc_machine.meta.annotations ≡ none)
  unfolding reconcile_create write get_machine_id
  create_forgets made bare = grind (arith, read-nil)

-- What a code that is no success does to the BMC status.
abbrev pub status_refused : ℕ → String → String
status_refused code old =
    if code == 409 || (code == 400 || (code == 401 || code == 403))
    then Status.irreconcilable
    else old

-- The codes of failure that the controller knows.
abbrev pub is_documented : ℕ → Bool
is_documented code =
    code == 500 || (code == 409 || (code == 406 || (code == 403 || (code == 401 || code == 400))))

-- When to try again after a code that is no success: not at all where the request is at fault, or
-- the code is not documented.
abbrev pub wait_refused : ℕ → CtrlResult
wait_refused code =
    if code == 406
    then requeue_after_5_min
    else if code == 409 || code == 500
    then requeue_after_2_min
    else no_requeue

module _ (env : Environment) (c : BmcCluster) (mc : MachineContext) (sent : Sent env c mc) where
  -- If BMC answers the creation by a code that is no success, the machine keeps its metadata and
  -- specification, so it has no server; its status is the one of `status_refused`, and the requeue
  -- time the one of `wait_refused`. An error is returned exactly for a code that is none of 400,
  -- 401, 403, 406, 409 and 500.
  pub create_refused :
      {code : ℕ} {reply : String}
      → env.http (create_server_call env sent.body) ≡ answered code (ok reply)
      → is_success code ≡ false
      → let (mc', outcome) = reconcile_create env c mc in
        (mc'.bmc_machine.meta ≡ mc.bmc_machine.meta)
        × (mc'.bmc_machine.spec ≡ mc.bmc_machine.spec)
        × (mc'.bmc_machine.status.bmc_status ≡ status_refused code mc.bmc_machine.status.bmc_status)
        × (outcome
            ≡ returned (wait_refused code) (
                if is_documented code
                then none
                else some (record {
                  message = "Unexpected response during server create: " <> itoa code;
                })))
  unfolding reconcile_create
  create_refused answer failure = ground arith
