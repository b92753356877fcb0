-- ===== src/DeepCopy/Correct.antt =====
-- The copies of the API objects are deep, if those of the libraries' types are.
use cluster_api_provider_bmc.Base.{refl}
use cluster_api_provider_bmc.DeepCopy.Objects.{Pointer, Quantity, Meta}
use cluster_api_provider_bmc.DeepCopy.Heap.{Copying, clusters, machines, templates}
use cluster_api_provider_bmc.DeepCopy.Views.{
  spec_parts, spec_build, spec_rest, status_parts, status_build, status_rest, machine_parts,
  machine_build, machine_rest, cluster_status_parts, cluster_status_build, cluster_status_rest,
  cluster_parts, cluster_build, cluster_rest, resource_parts, resource_build, no_rest,
  template_spec_parts, template_spec_build, template_parts, template_build, template_rest,
  list_parts, list_build, list_rest,
}
use cluster_api_provider_bmc.DeepCopy.Copy.{
  copy_cell, clusters_in, machines_in, templates_in, cluster_status_into, machine_spec_into,
  machine_status_into, cluster_into, template_resource_into, template_spec_into, template_into,
  machine_into, list_into, cluster_list_into, template_list_into, machine_list_into,
}
use cluster_api_provider_bmc.DeepCopy.Laws.{
  View, Region, IsDeep, view_cell, CellWithin, copy_cell-IsDeep,
}
use cluster_api_provider_bmc.DeepCopy.Compose.{
  view_both, BothWithin, copy_both, copy_both-IsDeep, copy_struct-IsDeep,
}
use cluster_api_provider_bmc.DeepCopy.Items.{view_items, ItemsWithin, copy_items-IsDeep}
use cluster_api_provider_bmc.DeepCopy.Seen.{
  view_spec, SpecWithin, view_cluster_status, ClusterStatusWithin, view_pointers, PointersWithin,
  view_status, StatusWithin, view_cluster, ClusterWithin, view_machine, MachineWithin,
  view_template, TemplateWithin, view_list, ListWithin,
}

pair-IsDeep :
    IsDeep
      (view_both view_cell view_cell)
      (BothWithin CellWithin CellWithin)
      (copy_both copy_cell copy_cell)
pair-IsDeep = copy_both-IsDeep copy_cell-IsDeep copy_cell-IsDeep

machine_spec-IsDeep : IsDeep view_spec SpecWithin machine_spec_into
unfolding machine_spec_into
machine_spec-IsDeep =
    copy_struct-IsDeep spec_rest spec_parts spec_build (λ s t. refl) (λ s t. refl)
      (copy_both-IsDeep copy_cell-IsDeep pair-IsDeep)

cluster_status-IsDeep : IsDeep view_cluster_status ClusterStatusWithin cluster_status_into
unfolding cluster_status_into
cluster_status-IsDeep =
    copy_struct-IsDeep cluster_status_rest cluster_status_parts cluster_status_build (λ s t. refl)
      (λ s t. refl) copy_cell-IsDeep

pointers-IsDeep : IsDeep view_pointers PointersWithin (
    copy_both copy_cell (
      copy_both copy_cell
        (copy_both copy_cell (copy_both copy_cell (copy_both copy_cell copy_cell)))))
pointers-IsDeep = copy_both-IsDeep copy_cell-IsDeep (
    copy_both-IsDeep copy_cell-IsDeep
      (copy_both-IsDeep copy_cell-IsDeep (copy_both-IsDeep copy_cell-IsDeep pair-IsDeep)))

machine_status-IsDeep :
    {Q : Type 0} {q : View Quantity Q} {P : Region Quantity} {f : Quantity → Copying Quantity}
    → IsDeep q P f
    → IsDeep (view_status q) (StatusWithin P) (machine_status_into f)
unfolding machine_status_into
machine_status-IsDeep D =
    copy_struct-IsDeep status_rest status_parts status_build (λ s t. refl) (λ s t. refl)
      (copy_both-IsDeep D pointers-IsDeep)

module _ {V : Type 0} {m : View Meta V} {P : Region Meta} {copy_meta : Meta → Copying Meta}
    (D : IsDeep m P copy_meta) where
  cluster-IsDeep : IsDeep (view_cluster m) (ClusterWithin P) (cluster_into copy_meta)
  unfolding cluster_into
  cluster-IsDeep =
      copy_struct-IsDeep cluster_rest cluster_parts cluster_build (λ s t. refl) (λ s t. refl)
        (copy_both-IsDeep D cluster_status-IsDeep)

  template-IsDeep : IsDeep (view_template m) (TemplateWithin P) (template_into copy_meta)
  unfolding template_into template_spec_into template_resource_into
  template-IsDeep =
      copy_struct-IsDeep template_rest template_parts template_build (λ s t. refl) (λ s t. refl)
        (copy_both-IsDeep D (
          copy_struct-IsDeep no_rest template_spec_parts template_spec_build (λ s t. refl)
            (λ s t. refl)
            (copy_struct-IsDeep no_rest resource_parts resource_build (λ s t. refl) (λ s t. refl)
              (copy_both-IsDeep D machine_spec-IsDeep))))

  list-IsDeep :
      {W : Type 0} {w : View Pointer W} {K : Region Pointer} {f : Pointer → Copying Pointer}
      → IsDeep w K f
      → IsDeep (view_list m w) (ListWithin P K) (list_into copy_meta f)
  unfolding list_into
  list-IsDeep F =
      copy_struct-IsDeep list_rest list_parts list_build (λ s t. refl) (λ s t. refl)
        (copy_both-IsDeep D F)

  pub cluster_list-IsDeep :
      IsDeep
        (view_list m (view_items clusters_in (view_cluster m)))
        (ListWithin P (ItemsWithin clusters_in (ClusterWithin P)))
        (cluster_list_into copy_meta)
  unfolding cluster_list_into clusters_in
  cluster_list-IsDeep =
      list-IsDeep (copy_items-IsDeep clusters_in clusters (λ xs. refl) cluster-IsDeep)

  pub template_list-IsDeep :
      IsDeep
        (view_list m (view_items templates_in (view_template m)))
        (ListWithin P (ItemsWithin templates_in (TemplateWithin P)))
        (template_list_into copy_meta)
  unfolding template_list_into templates_in
  template_list-IsDeep =
      list-IsDeep (copy_items-IsDeep templates_in templates (λ xs. refl) template-IsDeep)

  module _ {Q : Type 0} {q : View Quantity Q} {K : Region Quantity}
      {copy_quantity : Quantity → Copying Quantity} (E : IsDeep q K copy_quantity) where
    pub machine-IsDeep :
        IsDeep (view_machine m q) (MachineWithin P K) (machine_into copy_meta copy_quantity)
    unfolding machine_into
    machine-IsDeep =
        copy_struct-IsDeep machine_rest machine_parts machine_build (λ s t. refl) (λ s t. refl)
          (copy_both-IsDeep D (copy_both-IsDeep machine_spec-IsDeep (machine_status-IsDeep E)))

    pub machine_list-IsDeep :
        IsDeep
          (view_list m (view_items machines_in (view_machine m q)))
          (ListWithin P (ItemsWithin machines_in (MachineWithin P K)))
          (machine_list_into copy_meta copy_quantity)
    unfolding machine_list_into machines_in
    machine_list-IsDeep =
        list-IsDeep (copy_items-IsDeep machines_in machines (λ xs. refl) machine-IsDeep)
