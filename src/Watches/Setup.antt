-- ===== src/Watches/Setup.antt =====
-- `SetupWithManager` of controllers/bmccluster_controller.go and bmcmachine_controller.go.
use cluster_api_provider_bmc.Base.{◌≡◌, true, Bool, String, ◌<>◌, Option, none, some, List, [], ◌∷◌}
use cluster_api_provider_bmc.Go.{GoError, Try, ok, err}
use cluster_api_provider_bmc.MachineController.Mapper.{
  ObjectKey, ClientObject, bmc_cluster, of_bmc_machine, of_machine, of_cluster, other, Directory,
  bmc_cluster_to_bmc_machines,
}
use cluster_api_provider_bmc.Watches.Scheme.{
  GroupVersion, group_version, ObjectType, bmc_cluster_type, bmc_machine_type,
  bmc_machine_list_type, machine_type, cluster_type, other_type,
}

-- `schema.GroupVersionKind`
pub record GroupVersionKind : Type 0 where
  pub group : String
  pub version : String
  pub kind : String

pub data Event : Type 0 where
  created : ClientObject → Event
  updated : ClientObject → ClientObject → Event  -- the old object, and the new one
  deleted : ClientObject → Event

-- `handler.MapFunc`, which makes requests of an object, and `predicate.Predicate`.
abbrev pub MapFunc : Type 0
MapFunc = ClientObject → List ObjectKey

abbrev pub Predicate : Type 0
Predicate = Event → Bool

-- One call of `Watches`.
pub record Watch : Type 0 where
  pub object_type : ObjectType
  pub requests : MapFunc
  pub predicates : List Predicate

-- What the calls between `NewControllerManagedBy` and `Build` say.
pub record Controller : Type 0 where
  pub reconciled : ObjectType  -- For
  pub filters : List Predicate  -- WithEventFilter
  pub watches : List Watch

-- The functions of the controller runtime and of the Cluster API that the setup calls.
pub record SetupLibrary (Scheme : Type 0) : Type 0 where
  pub with_kind : GroupVersion → String → GroupVersionKind
  pub resource_not_paused : Scheme → Predicate
  pub cluster_unpaused : Scheme → Predicate
  pub cluster_unpaused_and_infrastructure_ready : Scheme → Predicate
  pub machine_to_infrastructure : GroupVersionKind → MapFunc
  pub cluster_to_infrastructure : GroupVersionKind → MapFunc
  pub cluster_to_typed_objects : ObjectType → Scheme → Try MapFunc
  pub build : Controller → Option GoError

-- `errors.Wrapf`, with a format that has no verb.
wrapf : String → GoError → GoError
wrapf text e = record { message = text <> ": " <> e.message }

module _ {Scheme : Type 0} (lib : SetupLibrary Scheme) (scheme : Scheme) where
  -- `Build` adds the controller to the manager, or fails.
  unfoldable pub build_or : String → Controller → Try Controller
  unfolding wrapf
  build_or text c = elim (lib.build c) [ none ↦ ok c | some e ↦ err (wrapf text e) ]

  unfoldable pub cluster_controller : Controller
  cluster_controller = record {
    reconciled = bmc_cluster_type;
    filters = lib.resource_not_paused scheme ∷ [];
    watches =
        record {
          object_type = cluster_type;
          requests = lib.cluster_to_infrastructure (lib.with_kind group_version "BMCCluster");
          predicates = lib.cluster_unpaused scheme ∷ [];
        }
        ∷ [];
  }

  unfoldable pub setup_cluster : Try Controller
  unfolding build_or
  setup_cluster = build_or "error creating cluster controller" cluster_controller

  module _ (dir : Directory) where
    -- The controller, by the function that leads from a Cluster to its BMCMachines.
    unfoldable pub machine_controller : MapFunc → Controller
    unfolding bmc_cluster_to_bmc_machines
    machine_controller obj_func = record {
      reconciled = bmc_machine_type;
      filters = lib.resource_not_paused scheme ∷ [];
      watches =
          record {
            object_type = machine_type;
            requests = lib.machine_to_infrastructure (lib.with_kind group_version "BMCMachine");
            predicates = [];
          }
          ∷ record {
            object_type = bmc_cluster_type;
            requests = bmc_cluster_to_bmc_machines dir;
            predicates = [];
          }
          ∷ record {
            object_type = cluster_type;
            requests = obj_func;
            predicates = lib.cluster_unpaused_and_infrastructure_ready scheme ∷ [];
          }
          ∷ [];
    }

    unfoldable pub setup_machine : Try Controller
    unfolding wrapf build_or machine_controller
    setup_machine = elim (lib.cluster_to_typed_objects bmc_machine_list_type scheme) [
      | err e ↦ err (wrapf "Failed to create cluster to object mapper func" e)
      | ok obj_func ↦ build_or "Failed to create controller" (machine_controller obj_func)
    ]

-- The objects of an event, and their types.
abbrev pub objects_of : Event → List ClientObject
objects_of (created o) = o ∷ []
objects_of (updated old new) = old ∷ new ∷ []
objects_of (deleted o) = o ∷ []

abbrev pub type_of : ClientObject → ObjectType
type_of (bmc_cluster c) = bmc_cluster_type
type_of (of_bmc_machine m) = bmc_machine_type
type_of (of_machine machine) = machine_type
type_of (of_cluster cluster) = cluster_type
type_of other = other_type

abbrev pub Admits : List Predicate → Event → Type 0
Admits [] e = Unit
Admits (p ∷ ps) e = (p e ≡ true) × Admits ps e
