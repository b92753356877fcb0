-- ===== src/Watches/Wakes.antt =====
-- Which events lead to which requests once the
-- controllers are set up.
use mathlib.Core.Path.{subst}
use mathlib.Core.List.{Mem, mem-cons_self, mem-cons_of_mem, mem-filter_map}
use cluster_api_provider_bmc.Base.{
  ◌≡◌, ◌≢◌, sym, arith, refl, true, none, some, List, [], ◌∷◌, string_eq,
}
use cluster_api_provider_bmc.Go.{ok}
use cluster_api_provider_bmc.Api.Cluster.{BmcCluster}
use cluster_api_provider_bmc.Outside.{Machine, Cluster}
use cluster_api_provider_bmc.MachineController.Mapper.{
  ObjectKey, ClientObject, bmc_cluster, Directory, bmc_cluster_to_bmc_machines,
}
use cluster_api_provider_bmc.MachineController.Mapping.{key_of, mapper-filter_map}
use cluster_api_provider_bmc.Watches.Scheme.{
  group_version, bmc_cluster_type, bmc_machine_list_type, SchemeLibrary, IsLawful, scheme_before,
  add_types, init_scheme,
}
use cluster_api_provider_bmc.Watches.Known.{init_scheme-Knows}
use cluster_api_provider_bmc.Watches.Setup.{
  SetupLibrary, MapFunc, Watch, Controller, Event, objects_of, type_of, Admits, machine_controller,
  setup_machine, build_or,
}

-- The documented work of a controller: an event on an object that a `Watches` call names leads to
-- the requests that its function makes, if all the predicates admit the event.
pub record Runtime : Type 0 where
  pub enqueued : Controller → Event → List ObjectKey
  pub dispatches :
      (c : Controller) (w : Watch) (o : ClientObject) (e : Event) (k : ObjectKey)
      → Mem w c.watches
      → type_of o ≡ w.object_type
      → Admits c.filters e
      → Admits w.predicates e
      → Mem o (objects_of e)
      → Mem k (w.requests o)
      → Mem k (enqueued c e)

module _ (slib : SchemeLibrary) (lib : SetupLibrary slib.Scheme) (dir : Directory)
    (runtime : Runtime) where
  abbrev scheme : slib.Scheme
  scheme = init_scheme slib

  machine_controller-wakes :
      (obj_func : MapFunc) (e : Event) (c : BmcCluster) (k : ObjectKey)
      → lib.resource_not_paused scheme e ≡ true
      → Mem (bmc_cluster c) (objects_of e)
      → Mem k (bmc_cluster_to_bmc_machines dir (bmc_cluster c))
      → Mem k (runtime.enqueued (machine_controller lib scheme dir obj_func) e)
  unfolding machine_controller
  machine_controller-wakes obj_func e c k running on asked =
      runtime.dispatches (machine_controller lib scheme dir obj_func)
        (record {
          object_type = bmc_cluster_type;
          requests = bmc_cluster_to_bmc_machines dir;
          predicates = [];
        })
        (bmc_cluster c) e k (mem-cons_of_mem _ mem-cons_self) refl (running, tt) tt on asked

  listed-asked :
      (c : BmcCluster) {cluster : Cluster} {items : List Machine} {m : Machine}
      → dir.get_owner_cluster c ≡ ok (some cluster)
      → dir.list_machines c.meta.namespace ((dir.cluster_name_label, cluster.meta.name) ∷ [])
        ≡ ok items
      → Mem m items
      → m.infrastructure_ref_name ≢ ""
      → Mem
          (record { namespace = m.meta.namespace; name = m.infrastructure_ref_name })
          (bmc_cluster_to_bmc_machines dir (bmc_cluster c))
  listed-asked c {items} {m} owned listed there named =
      let key : ObjectKey = record {
        namespace = m.meta.namespace;
        name = m.infrastructure_ref_name;
      } in
      let held : key_of m ≡ some key = ground arith in
      subst (Mem key) (sym (mapper-filter_map dir c owned listed))
        ((mem-filter_map key_of items).1 ∣ (m, there, held) ∣₁)

  setup_machine-found :
      {f : MapFunc}
      → lib.cluster_to_typed_objects bmc_machine_list_type scheme ≡ ok f
      → lib.build (machine_controller lib scheme dir f) ≡ none
      → setup_machine lib scheme dir ≡ ok (machine_controller lib scheme dir f)
  unfolding setup_machine build_or
  setup_machine-found found built = simp (found, built, setup_machine, build_or) refl

  module _ (lawful : IsLawful slib) (added : (add_types slib (scheme_before slib)).1 ≡ none)
      (mapped : lawful.Knows scheme group_version bmc_machine_list_type
        → (f : MapFunc) × (lib.cluster_to_typed_objects bmc_machine_list_type scheme ≡ ok f))
      (builds : (c : Controller) → lib.build c ≡ none) where
    setup_machine-ok :
        (f : MapFunc) × (setup_machine lib scheme dir ≡ ok (machine_controller lib scheme dir f))
    setup_machine-ok =
        let (f, found) = mapped (init_scheme-Knows slib lawful bmc_machine_list_type tt added) in
        (f, setup_machine-found found (builds (machine_controller lib scheme dir f)))

    -- If the types of the group can be added to the scheme, the mapper of Clusters can be made once
    -- the scheme knows the list of machines, and building succeeds, then the setup of the machine
    -- controller succeeds, and an admitted event on a BMCCluster whose owner and machines can be
    -- looked up leads to the request for every such machine that names its infrastructure object.
    pub setup_machine-wakes :
        (e : Event) (c : BmcCluster) {cluster : Cluster} {items : List Machine} {m : Machine}
        → lib.resource_not_paused scheme e ≡ true
        → Mem (bmc_cluster c) (objects_of e)
        → dir.get_owner_cluster c ≡ ok (some cluster)
        → dir.list_machines c.meta.namespace ((dir.cluster_name_label, cluster.meta.name) ∷ [])
          ≡ ok items
        → Mem m items
        → m.infrastructure_ref_name ≢ ""
        → (ctrl : Controller) × (setup_machine lib scheme dir ≡ ok ctrl)
          × Mem
              (record { namespace = m.meta.namespace; name = m.infrastructure_ref_name })
              (runtime.enqueued ctrl e)
    setup_machine-wakes e c running on owned listed there named =
        let (f, made) = setup_machine-ok in
        (
          machine_controller lib scheme dir f,
          made,
          machine_controller-wakes f e c _ running on (listed-asked c owned listed there named),
        )
