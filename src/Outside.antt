-- ===== src/Outside.antt =====
-- What stands outside the repository: the Kubernetes objects of the Cluster API, the HTTP client,
-- the finalizer helpers, and the effects by which a reconciliation shows.
use cluster_api_provider_bmc.Base.{◌≡◌, true, false, String, Bool, Option, List, [], ◌∷◌}
use cluster_api_provider_bmc.Go.{GoError, Try}
use cluster_api_provider_bmc.Api.Meta.{ObjectMeta}
use cluster_api_provider_bmc.Api.Cluster.{ApiEndpoint}
use cluster_api_provider_bmc.Base.{ℕ}

-- `clusterv1.Machine`, with the fields that the controllers read.
pub record Machine : Type 0 where
  pub meta : ObjectMeta
  pub data_secret_name : Option String  -- Spec.Bootstrap.DataSecretName
  pub infrastructure_ref_name : String  -- Spec.InfrastructureRef.Name

-- `clusterv1.Cluster`, with the fields that the controllers read or write.
pub record Cluster : Type 0 where
  pub meta : ObjectMeta
  pub infrastructure_ref : Option String  -- the name in `Spec.InfrastructureRef`, a pointer
  pub infrastructure_ready : Bool  -- Status.InfrastructureReady
  pub control_plane_endpoint : ApiEndpoint  -- Spec.ControlPlaneEndpoint

-- `corev1.Node`
pub record Node : Type 0 where
  pub name : String
  pub uid : String
  pub provider_id : String

pub record HttpRequest : Type 0 where
  pub method : String
  pub url : String
  pub content_type : String
  pub body : String

-- The client returns an error, or a status code with what reading the body gives.
pub data HttpAnswer : Type 0 where
  failed : GoError → HttpAnswer
  answered : ℕ → Try String → HttpAnswer

-- What a reconciliation does to the world, in the order in which it does it: an event on the
-- reconciled object (type, reason, message), a call of the BMC API, and a patch of a node of the
-- workload cluster.
pub data Effect : Type 0 where
  event : String → String → String → Effect
  call : HttpRequest → Effect
  patch_node : Node → Effect

-- The calls of the BMC API in a trace, in order.
abbrev pub calls : List Effect → List HttpRequest
calls [] = []
calls (call r ∷ es) = r ∷ calls es
calls (event t r m ∷ es) = calls es
calls (patch_node n ∷ es) = calls es

-- `controllerutil.ContainsFinalizer`, `AddFinalizer` and `RemoveFinalizer`, on the finalizers of
-- the object's metadata.
pub record FinalizerUtil : Type 0 where
  pub contains : List String → String → Bool
  pub add : List String → String → List String
  pub remove : List String → String → List String

-- What their documentation says of the finalizer that is given.
pub record IsLawful (u : FinalizerUtil) : Type 0 where
  pub contains-add : (fs : List String) (f : String) → u.contains (u.add fs f) f ≡ true
  pub contains-remove : (fs : List String) (f : String) → u.contains (u.remove fs f) f ≡ false
