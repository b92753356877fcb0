-- ===== src/Tests/WatchRuns.antt =====
-- The start of the process with a scheme that is a list, and an event that leads to requests.
use mathlib.Core.Path.{subst}
use mathlib.Core.Logic.Or
use mathlib.Core.List.{
  Mem, map, mem-append_left, mem-append_right, mem-map_of_mem, mem-cons_self, flatten, not-mem-nil,
  Mem-prop, eq-or-mem_of_mem-cons,
}
use cluster_api_provider_bmc.Base.{◌≡◌, refl, true, none, List, [], ◌∷◌, ◌++◌, string_dec}
use cluster_api_provider_bmc.Go.{ok}
use cluster_api_provider_bmc.MachineController.Mapper.{ObjectKey, bmc_cluster}
use cluster_api_provider_bmc.Watches.Scheme.{
  GroupVersion, group_version, ObjectType, bmc_machine_template_type, SchemeLibrary, IsLawful,
  add_types, init_scheme,
}
use cluster_api_provider_bmc.Watches.Known.{init_scheme-Knows}
use cluster_api_provider_bmc.Watches.Setup.{
  SetupLibrary, Controller, Event, updated, objects_of, setup_machine,
}
use cluster_api_provider_bmc.Watches.Wakes.{Runtime, setup_machine-wakes}
use cluster_api_provider_bmc.Tests.MachineData.{bmc_cluster as data_cluster, given}
use cluster_api_provider_bmc.Tests.MachineReconciles.{directory}

abbrev SchemeList : Type 0
SchemeList = List (GroupVersion × ObjectType)

abbrev lists : SchemeLibrary
lists = record {
  Builder = GroupVersion × List ObjectType;
  Scheme = SchemeList;
  new_builder = λ g. (g, []);
  register = λ b ts. (b.0, b.1 ++ ts);
  add_to_scheme = λ b s. (map (λ t. (b.0, t)) b.1 ++ s, none);
  new_scheme = [];
  add_client_go = λ s. (s, none);
  add_cluster_api = λ s. (s, none);
}

lists-IsLawful : IsLawful lists
lists-IsLawful = record {
  Holds = λ b t. Mem t b.1;
  Knows = λ s g t. Mem (g, t) s;
  version_of = λ b. b.0;
  version-new = λ g. refl;
  version-register = λ b ts. refl;
  register-new = λ b ts t m. mem-append_right b.1 m;
  register-kept = λ b ts t m. mem-append_left ts m;
  add-known = λ b s t clean m. mem-append_left s (mem-map_of_mem (λ u. (b.0, u)) m);
  cluster_api-kept = λ s g t m. m;
}

init_scheme-Knows_example :
    lists-IsLawful.Knows (init_scheme lists) group_version bmc_machine_template_type
unfolding add_types
init_scheme-Knows_example = init_scheme-Knows lists lists-IsLawful bmc_machine_template_type tt refl

abbrev setup_library : SetupLibrary SchemeList
setup_library = record {
  with_kind = λ g k. record { group = g.group; version = g.version; kind = k };
  resource_not_paused = λ s e. true;
  cluster_unpaused = λ s e. true;
  cluster_unpaused_and_infrastructure_ready = λ s e. true;
  machine_to_infrastructure = λ k o. [];
  cluster_to_infrastructure = λ k o. [];
  cluster_to_typed_objects = λ t s. ok (λ o. []);
  build = λ c. none;
}

mem-flatten :
    {A : Type 0} {a : A} {l : List A} (ls : List (List A)) → Mem l ls → Mem a l → Mem a (flatten ls)
unfolding flatten
mem-flatten [] there m = absurd (not-mem-nil there)
mem-flatten {a} (l' ∷ ls) there m =
    Or.elim Mem-prop (eq-or-mem_of_mem-cons there)
      (λ e. mem-append_left (flatten ls) (subst (Mem a) e m))
      (λ there'. mem-append_right l' (mem-flatten ls there' m))

-- A runtime that asks every function about every object of the event.
abbrev eager : Controller → Event → List ObjectKey
eager c e = flatten (map (λ w. flatten (map w.requests (objects_of e))) c.watches)

abbrev runtime : Runtime
runtime = record {
  enqueued = eager;
  dispatches = λ c w o e k watched same filtered admitted there asked.
      mem-flatten (map (λ v. flatten (map v.requests (objects_of e))) c.watches)
        (mem-map_of_mem (λ v. flatten (map v.requests (objects_of e))) watched)
        (mem-flatten (map w.requests (objects_of e)) (mem-map_of_mem w.requests there) asked);
}

-- The BMCCluster of the second machine's list is updated.
abbrev update : Event
update = updated (bmc_cluster data_cluster) (bmc_cluster data_cluster)

setup_machine-wakes_example :
    (ctrl : Controller) × (setup_machine setup_library (init_scheme lists) directory ≡ ok ctrl)
    × Mem (record { namespace = "default"; name = "cp-1" }) (runtime.enqueued ctrl update)
unfolding add_types string_dec
setup_machine-wakes_example =
    setup_machine-wakes lists setup_library directory runtime lists-IsLawful refl
      (λ known. (λ o. [], refl)) (λ c. refl) update data_cluster refl mem-cons_self refl refl
      mem-cons_self (given "cp-1" refl)
