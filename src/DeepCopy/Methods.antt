-- ===== src/DeepCopy/Methods.antt =====
-- The functions `DeepCopy` and `DeepCopyObject` of api/v1beta1/zz_generated.deepcopy.go, per type.
-- The two return the same pointer, nil for a nil receiver, at different types.
use cluster_api_provider_bmc.Base.{Option}
use cluster_api_provider_bmc.DeepCopy.Objects.{
  Quantity, Meta, ClusterSpec, ClusterStatus, Cluster, MachineSpec, MachineStatus, Machine,
  TemplateResource, TemplateSpec, Template, ObjectList, Tag,
}
use cluster_api_provider_bmc.DeepCopy.Heap.{Copying}
use cluster_api_provider_bmc.DeepCopy.Copy.{
  deep_copy, cluster_spec_into, cluster_status_into, machine_spec_into, machine_status_into,
  tag_into, cluster_into, template_resource_into, template_spec_into, template_into,
  cluster_list_into, template_list_into, machine_into, machine_list_into,
}

unfoldable pub cluster_spec_copy : Option ClusterSpec → Copying (Option ClusterSpec)
unfolding deep_copy cluster_spec_into
cluster_spec_copy = deep_copy cluster_spec_into

unfoldable pub cluster_status_copy : Option ClusterStatus → Copying (Option ClusterStatus)
unfolding deep_copy cluster_status_into
cluster_status_copy = deep_copy cluster_status_into

unfoldable pub machine_spec_copy : Option MachineSpec → Copying (Option MachineSpec)
unfolding deep_copy machine_spec_into
machine_spec_copy = deep_copy machine_spec_into

unfoldable pub tag_copy : Option Tag → Copying (Option Tag)
unfolding deep_copy tag_into
tag_copy = deep_copy tag_into

unfoldable pub machine_status_copy :
    (Quantity → Copying Quantity) → Option MachineStatus → Copying (Option MachineStatus)
unfolding deep_copy machine_status_into
machine_status_copy copy_quantity = deep_copy (machine_status_into copy_quantity)

module _ (copy_meta : Meta → Copying Meta) where
  unfoldable pub cluster_copy : Option Cluster → Copying (Option Cluster)
  unfolding deep_copy cluster_into
  cluster_copy = deep_copy (cluster_into copy_meta)

  unfoldable pub cluster_list_copy : Option ObjectList → Copying (Option ObjectList)
  unfolding deep_copy cluster_list_into
  cluster_list_copy = deep_copy (cluster_list_into copy_meta)

  unfoldable pub template_resource_copy :
      Option TemplateResource → Copying (Option TemplateResource)
  unfolding deep_copy template_resource_into
  template_resource_copy = deep_copy (template_resource_into copy_meta)

  unfoldable pub template_spec_copy : Option TemplateSpec → Copying (Option TemplateSpec)
  unfolding deep_copy template_spec_into
  template_spec_copy = deep_copy (template_spec_into copy_meta)

  unfoldable pub template_copy : Option Template → Copying (Option Template)
  unfolding deep_copy template_into
  template_copy = deep_copy (template_into copy_meta)

  unfoldable pub template_list_copy : Option ObjectList → Copying (Option ObjectList)
  unfolding deep_copy template_list_into
  template_list_copy = deep_copy (template_list_into copy_meta)

  module _ (copy_quantity : Quantity → Copying Quantity) where
    unfoldable pub machine_copy : Option Machine → Copying (Option Machine)
    unfolding deep_copy machine_into
    machine_copy = deep_copy (machine_into copy_meta copy_quantity)

    unfoldable pub machine_list_copy : Option ObjectList → Copying (Option ObjectList)
    unfolding deep_copy machine_list_into
    machine_list_copy = deep_copy (machine_list_into copy_meta copy_quantity)
