-- ===== src/DeepCopy/Seen.antt =====
-- What each API object reads as, and where what it reaches lies.
use cluster_api_provider_bmc.Base.{Option}
use cluster_api_provider_bmc.DeepCopy.Objects.{
  Pointer, TypeMeta, Quantity, Meta, ClusterSpec, ClusterStatus, Cluster, MachineSpec,
  MachineStatus, Machine, TemplateResource, Template, ObjectList,
}
use cluster_api_provider_bmc.DeepCopy.Heap.{Cell}
use cluster_api_provider_bmc.DeepCopy.Views.{
  spec_parts, spec_rest, status_parts, status_rest, machine_parts, machine_rest,
  cluster_status_parts, cluster_status_rest, cluster_parts, cluster_rest, resource_parts, no_rest,
  template_spec_parts, template_parts, template_rest, list_parts, list_rest,
}
use cluster_api_provider_bmc.DeepCopy.Laws.{View, Region, view_cell, CellWithin}
use cluster_api_provider_bmc.DeepCopy.Compose.{view_both, BothWithin, view_struct, StructWithin}

-- What the structs without parameters read as.
abbrev pub Seen : Type 0
Seen = Option Cell

abbrev pub SpecSeen : Type 0
SpecSeen = MachineSpec × (Seen × (Seen × Seen))

abbrev pub view_spec : View MachineSpec SpecSeen
view_spec = view_struct spec_rest spec_parts (view_both view_cell (view_both view_cell view_cell))

abbrev pub SpecWithin : Region MachineSpec
SpecWithin = StructWithin spec_parts (BothWithin CellWithin (BothWithin CellWithin CellWithin))

abbrev pub view_cluster_status : View ClusterStatus (ClusterStatus × Seen)
view_cluster_status = view_struct cluster_status_rest cluster_status_parts view_cell

abbrev pub ClusterStatusWithin : Region ClusterStatus
ClusterStatusWithin = StructWithin cluster_status_parts CellWithin

-- The pointers of a status: addresses, failure and node.
abbrev pub PointersSeen : Type 0
PointersSeen = Seen × (Seen × (Seen × (Seen × (Seen × Seen))))

abbrev pub view_pointers :
    View (Pointer × (Pointer × (Pointer × (Pointer × (Pointer × Pointer))))) PointersSeen
view_pointers = view_both view_cell (
    view_both view_cell (view_both view_cell (view_both view_cell (view_both view_cell view_cell))))

abbrev pub PointersWithin :
    Region (Pointer × (Pointer × (Pointer × (Pointer × (Pointer × Pointer)))))
PointersWithin = BothWithin CellWithin (
    BothWithin CellWithin
      (BothWithin CellWithin (BothWithin CellWithin (BothWithin CellWithin CellWithin))))

abbrev pub view_status :
    {Q : Type 0} → View Quantity Q → View MachineStatus (MachineStatus × (Q × PointersSeen))
view_status q = view_struct status_rest status_parts (view_both q view_pointers)

abbrev pub StatusWithin : Region Quantity → Region MachineStatus
StatusWithin P = StructWithin status_parts (BothWithin P PointersWithin)

abbrev pub ClusterSeen : Type 0 → Type 0
ClusterSeen V = (TypeMeta × ClusterSpec) × (V × (ClusterStatus × Seen))

abbrev pub view_cluster : {V : Type 0} → View Meta V → View Cluster (ClusterSeen V)
view_cluster m = view_struct cluster_rest cluster_parts (view_both m view_cluster_status)

abbrev pub ClusterWithin : Region Meta → Region Cluster
ClusterWithin P = StructWithin cluster_parts (BothWithin P ClusterStatusWithin)

abbrev pub MachineSeen : Type 0 → Type 0 → Type 0
MachineSeen V Q = TypeMeta × (V × (SpecSeen × (MachineStatus × (Q × PointersSeen))))

abbrev pub view_machine :
    {V Q : Type 0} → View Meta V → View Quantity Q → View Machine (MachineSeen V Q)
view_machine m q =
    view_struct machine_rest machine_parts (view_both m (view_both view_spec (view_status q)))

abbrev pub MachineWithin : Region Meta → Region Quantity → Region Machine
MachineWithin P Q =
    StructWithin machine_parts (BothWithin P (BothWithin SpecWithin (StatusWithin Q)))

abbrev pub TemplateSeen : Type 0 → Type 0
TemplateSeen V = TypeMeta × (V × (Unit {0} × (Unit {0} × (V × SpecSeen))))

abbrev pub view_resource :
    {V : Type 0} → View Meta V → View TemplateResource (Unit {0} × (V × SpecSeen))
view_resource m = view_struct no_rest resource_parts (view_both m view_spec)

abbrev pub ResourceWithin : Region Meta → Region TemplateResource
ResourceWithin P = StructWithin resource_parts (BothWithin P SpecWithin)

abbrev pub view_template : {V : Type 0} → View Meta V → View Template (TemplateSeen V)
view_template m =
    view_struct template_rest template_parts
      (view_both m (view_struct no_rest template_spec_parts (view_resource m)))

abbrev pub TemplateWithin : Region Meta → Region Template
TemplateWithin P =
    StructWithin template_parts (BothWithin P (StructWithin template_spec_parts (ResourceWithin P)))

abbrev pub view_list :
    {V W : Type 0} → View Meta V → View Pointer W → View ObjectList (TypeMeta × (V × W))
view_list m w = view_struct list_rest list_parts (view_both m w)

abbrev pub ListWithin : Region Meta → Region Pointer → Region ObjectList
ListWithin P W = StructWithin list_parts (BothWithin P W)
