-- ===== src/Watches/Scheme.antt =====
-- api/v1beta1/groupversion_info.go, the `init` functions of the types and that of main.go: what the
-- scheme of the process knows.
use mathlib.Core.List.{Mem}
use cluster_api_provider_bmc.Base.{◌≡◌, String, Option, none, List, [], ◌∷◌}
use cluster_api_provider_bmc.Go.{GoError}

-- `schema.GroupVersion`
pub record GroupVersion : Type 0 where
  pub group : String
  pub version : String

abbrev pub group_version : GroupVersion
group_version = record { group = "infrastructure.cluster.x-k8s.io"; version = "v1beta1" }

-- The Go types of the objects that are registered or watched.
pub data ObjectType : Type 0 where
  bmc_cluster_type : ObjectType
  bmc_cluster_list_type : ObjectType
  bmc_machine_type : ObjectType
  bmc_machine_list_type : ObjectType
  bmc_machine_template_type : ObjectType
  bmc_machine_template_list_type : ObjectType
  machine_type : ObjectType
  cluster_type : ObjectType
  other_type : ObjectType

-- `scheme.Builder` and `runtime.Scheme`, and what the other API packages add to a scheme.
pub record SchemeLibrary : Type 1 where
  pub Builder : Type 0
  pub Scheme : Type 0
  pub new_builder : GroupVersion → Builder
  pub register : Builder → List ObjectType → Builder
  pub add_to_scheme : Builder → Scheme → Scheme × Option GoError
  pub new_scheme : Scheme
  pub add_client_go : Scheme → Scheme × Option GoError  -- clientgoscheme.AddToScheme
  pub add_cluster_api : Scheme → Scheme × Option GoError  -- clusterv1.AddToScheme

module _ (lib : SchemeLibrary) where
  unfoldable pub scheme_builder : lib.Builder
  scheme_builder = lib.new_builder group_version

  unfoldable pub register_clusters : lib.Builder → lib.Builder
  register_clusters b = lib.register b (bmc_cluster_type ∷ bmc_cluster_list_type ∷ [])

  unfoldable pub register_machines : lib.Builder → lib.Builder
  register_machines b = lib.register b (bmc_machine_type ∷ bmc_machine_list_type ∷ [])

  unfoldable pub register_templates : lib.Builder → lib.Builder
  register_templates b =
      lib.register b (bmc_machine_template_type ∷ bmc_machine_template_list_type ∷ [])

  -- The `init` functions of the package, in the order of its files.
  unfoldable pub registered : lib.Builder
  unfolding scheme_builder register_clusters register_machines register_templates
  registered = register_templates (register_machines (register_clusters scheme_builder))

  unfoldable pub add_types : lib.Scheme → lib.Scheme × Option GoError
  unfolding registered
  add_types s = lib.add_to_scheme registered s

  -- What the scheme holds when the types of the group are added to it.
  abbrev pub scheme_before : lib.Scheme
  scheme_before = (lib.add_client_go lib.new_scheme).0

  -- The `init` function of main.go, which drops all three errors.
  unfoldable pub init_scheme : lib.Scheme
  unfolding add_types
  init_scheme = (lib.add_cluster_api (add_types scheme_before).0).0

-- What the documentation says: a builder holds what was registered, and adding it to a scheme with
-- no error makes the scheme know these types under the builder's version and forgets no other.
pub record IsLawful (lib : SchemeLibrary) : Type 1 where
  pub Holds : lib.Builder → ObjectType → Type 0
  pub Knows : lib.Scheme → GroupVersion → ObjectType → Type 0
  pub version_of : lib.Builder → GroupVersion
  pub version-new : (g : GroupVersion) → version_of (lib.new_builder g) ≡ g
  pub version-register :
      (b : lib.Builder) (ts : List ObjectType) → version_of (lib.register b ts) ≡ version_of b
  pub register-new :
      (b : lib.Builder) (ts : List ObjectType) (t : ObjectType)
      → Mem t ts
      → Holds (lib.register b ts) t
  pub register-kept :
      (b : lib.Builder) (ts : List ObjectType) (t : ObjectType)
      → Holds b t
      → Holds (lib.register b ts) t
  pub add-known :
      (b : lib.Builder) (s : lib.Scheme) (t : ObjectType)
      → (lib.add_to_scheme b s).1 ≡ none
      → Holds b t
      → Knows (lib.add_to_scheme b s).0 (version_of b) t
  pub cluster_api-kept :
      (s : lib.Scheme) (g : GroupVersion) (t : ObjectType)
      → Knows s g t
      → Knows (lib.add_cluster_api s).0 g t
