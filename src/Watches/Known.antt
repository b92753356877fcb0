-- ===== src/Watches/Known.antt =====
-- What the scheme of the process knows when main.go has initialized it.
use mathlib.Core.Path.{subst}
use mathlib.Core.List.{mem-cons_self, mem-cons_of_mem}
use cluster_api_provider_bmc.Base.{◌≡◌, ◌∙◌, none}
use cluster_api_provider_bmc.Watches.Scheme.{
  group_version, ObjectType, bmc_cluster_type, bmc_cluster_list_type, bmc_machine_type,
  bmc_machine_list_type, bmc_machine_template_type, bmc_machine_template_list_type, machine_type,
  cluster_type, other_type, SchemeLibrary, IsLawful, scheme_builder, register_clusters,
  register_machines, register_templates, registered, scheme_before, add_types, init_scheme,
}

-- The types of the API group.
abbrev pub IsOwn : ObjectType → Type 0
IsOwn bmc_cluster_type = Unit
IsOwn bmc_cluster_list_type = Unit
IsOwn bmc_machine_type = Unit
IsOwn bmc_machine_list_type = Unit
IsOwn bmc_machine_template_type = Unit
IsOwn bmc_machine_template_list_type = Unit
IsOwn _ = ⊥

module _ (slib : SchemeLibrary) (lawful : IsLawful slib) where
  registered-Holds : (t : ObjectType) → IsOwn t → lawful.Holds (registered slib) t
  unfolding registered register_templates register_machines register_clusters
  registered-Holds bmc_cluster_type own =
      lawful.register-kept _ _ _
        (lawful.register-kept _ _ _ (lawful.register-new _ _ _ mem-cons_self))
  registered-Holds bmc_cluster_list_type own =
      lawful.register-kept _ _ _
        (lawful.register-kept _ _ _ (lawful.register-new _ _ _ (mem-cons_of_mem _ mem-cons_self)))
  registered-Holds bmc_machine_type own =
      lawful.register-kept _ _ _ (lawful.register-new _ _ _ mem-cons_self)
  registered-Holds bmc_machine_list_type own =
      lawful.register-kept _ _ _ (lawful.register-new _ _ _ (mem-cons_of_mem _ mem-cons_self))
  registered-Holds bmc_machine_template_type own = lawful.register-new _ _ _ mem-cons_self
  registered-Holds bmc_machine_template_list_type own =
      lawful.register-new _ _ _ (mem-cons_of_mem _ mem-cons_self)
  registered-Holds machine_type own = elim own [ ]
  registered-Holds cluster_type own = elim own [ ]
  registered-Holds other_type own = elim own [ ]

  registered-version : lawful.version_of (registered slib) ≡ group_version
  unfolding registered register_templates register_machines register_clusters scheme_builder
  registered-version =
      lawful.version-register _ _
      ∙ lawful.version-register _ _
      ∙ lawful.version-register _ _
      ∙ lawful.version-new group_version

  -- If the types can be added to the scheme with no error, it knows every type of the group under
  -- the group and version of the repository.
  pub init_scheme-Knows :
      (t : ObjectType)
      → IsOwn t
      → (add_types slib (scheme_before slib)).1 ≡ none
      → lawful.Knows (init_scheme slib) group_version t
  unfolding init_scheme add_types
  init_scheme-Knows t own added = lawful.cluster_api-kept _ group_version t (
      subst (λ g. lawful.Knows (add_types slib (scheme_before slib)).0 g t) registered-version
        (lawful.add-known _ _ t added (registered-Holds t own)))
