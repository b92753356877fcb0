-- ===== src/Tests/Copies.antt =====
-- A list of one machine in memory, its copy, and the theorems on copies at it.
use cluster_api_provider_bmc.Base.{
  ◌≡◌, refl, arith, String, Option, none, some, List, [], ◌∷◌, true, nat_eq, ◌==◌, if◌then◌else◌,
}
use cluster_api_provider_bmc.DeepCopy.Objects.{
  Pointer, Quantity, Meta, Cluster, Template, Machine, ObjectList,
}
use cluster_api_provider_bmc.DeepCopy.Heap.{
  Cell, text, texts, machines, clusters, templates, Heap, Copying, write,
}
use cluster_api_provider_bmc.DeepCopy.Copy.{copy_cell, copy_each, machines_in}
use cluster_api_provider_bmc.DeepCopy.Methods.{machine_list_copy}
use cluster_api_provider_bmc.DeepCopy.Laws.{
  View, Region, IsDeep, view_cell, CellWithin, copy_cell-IsDeep,
}
use cluster_api_provider_bmc.DeepCopy.Compose.{
  view_struct, StructWithin, copy_struct, copy_struct-IsDeep,
}
use cluster_api_provider_bmc.DeepCopy.Items.{
  view_items, ItemsWithin, view_each, AllWithin, each-IsDeep,
}
use cluster_api_provider_bmc.DeepCopy.Seen.{view_machine, MachineWithin, view_list, ListWithin}
use cluster_api_provider_bmc.DeepCopy.Unshared.{
  view_option, OptionWithin, machine_list_copied, machine_list_unshared,
}

-- Metadata and quantities that are copied pointer by pointer.
abbrev meta_parts : Meta → List Pointer
meta_parts m = m.pointers

abbrev meta_build : Meta → List Pointer → Meta
meta_build m ps = record m { pointers = ps }

abbrev meta_rest : Meta → List String
meta_rest m = m.texts

abbrev view_meta : View Meta (List String × List (Option Cell))
view_meta = view_struct meta_rest meta_parts (view_each view_cell)

abbrev MetaWithin : Region Meta
MetaWithin = StructWithin meta_parts (AllWithin CellWithin)

abbrev copy_meta : Meta → Copying Meta
copy_meta = copy_struct meta_parts meta_build (copy_each copy_cell)

copy_meta-IsDeep : IsDeep view_meta MetaWithin copy_meta
copy_meta-IsDeep =
    copy_struct-IsDeep meta_rest meta_parts meta_build (λ s t. refl) (λ s t. refl)
      (each-IsDeep copy_cell-IsDeep)

abbrev quantity_parts : Quantity → Pointer
quantity_parts q = q.big

abbrev quantity_build : Quantity → Pointer → Quantity
quantity_build q p = record q { big = p }

abbrev quantity_rest : Quantity → String
quantity_rest q = q.small

abbrev view_quantity : View Quantity (String × Option Cell)
view_quantity = view_struct quantity_rest quantity_parts view_cell

abbrev QuantityWithin : Region Quantity
QuantityWithin = StructWithin quantity_parts CellWithin

abbrev copy_quantity : Quantity → Copying Quantity
copy_quantity = copy_struct quantity_parts quantity_build copy_cell

copy_quantity-IsDeep : IsDeep view_quantity QuantityWithin copy_quantity
copy_quantity-IsDeep =
    copy_struct-IsDeep quantity_rest quantity_parts quantity_build (λ s t. refl) (λ s t. refl)
      copy_cell-IsDeep

abbrev no_meta : Meta
no_meta = record { texts = []; pointers = [] }

abbrev machine : Machine
machine = record {
  type_meta = record { kind = "BMCMachine"; api_version = "v1beta1" };
  meta = record { texts = "cp-1" ∷ []; pointers = some 1 ∷ [] };
  spec = record {
    provider_id = some 2;
    description = "";
    os = "ubuntu/jammy";
    type = "s2.c1.medium";
    location = "PHX";
    install_default_ssh_keys = none;
    ssh_key_ids = none;
    network_type = "";
  };
  status = record {
    bmc_server_id = "s1";
    bmc_status = "powered-on";
    cpu = "";
    cpu_count = 1;
    cpu_cores = 6;
    cpu_frequency = record { small = "3800m"; big = none };
    ram = "";
    storage = "";
    private_ip_addresses = none;
    public_ip_addresses = some 3;
    ready = true;
    addresses = none;
    failure_reason = none;
    failure_message = none;
    node_ref = none;
  };
}

-- Cell 0 holds the machines, 1 the finalizers of the one machine, 2 its provider id and 3 its
-- public addresses.
abbrev heap : Heap
heap = record {
  next = 4;
  cell = λ p.
      if p == 0
      then machines (machine ∷ [])
      else if p == 1
      then texts ("fini" ∷ [])
      else if p == 2
      then text "bmc://servers/s1"
      else texts ("10.0.0.3" ∷ []);
}

abbrev list : ObjectList
list = record {
  type_meta = record { kind = "BMCMachineList"; api_version = "v1beta1" };
  meta = no_meta;
  items = some 0;
}

abbrev cluster : Cluster
cluster = record {
  type_meta = record { kind = "BMCCluster"; api_version = "v1beta1" };
  meta = record { texts = "c-1" ∷ []; pointers = some 1 ∷ [] };
  spec = record {
    location = "PHX";
    control_plane_endpoint = record { host = ""; port = 0 };
    vip_manager = "NONE";
  };
  status = record {
    ready = true;
    error_message = some 2;
    id = "b1";
    cidr = "";
    bmc_status = "assigned";
  };
}

abbrev template : Template
template = record {
  type_meta = record { kind = "BMCMachineTemplate"; api_version = "v1beta1" };
  meta = no_meta;
  spec = record { template = record { meta = no_meta; spec = machine.spec } };
}

abbrev cluster_heap : Heap
cluster_heap = record heap { cell = λ p. if p == 0 then clusters (cluster ∷ []) else heap.cell p }

abbrev template_heap : Heap
template_heap = record heap {
  cell = λ p. if p == 0 then templates (template ∷ []) else heap.cell p;
}

list_within :
    OptionWithin
      (ListWithin MetaWithin (ItemsWithin machines_in (MachineWithin MetaWithin QuantityWithin)))
      0
      4
      heap
      (some list)
unfolding machines_in
list_within = omega arith

machine_list_copied_example :
    let (copy, h') = machine_list_copy copy_meta copy_quantity (some list) heap in
    let view =
      view_option
        (view_list view_meta (view_items machines_in (view_machine view_meta view_quantity))) in
    (view h' copy ≡ view heap (some list))
    × OptionWithin
        (ListWithin MetaWithin (ItemsWithin machines_in (MachineWithin MetaWithin QuantityWithin)))
        4
        h'.next
        h'
        copy
    × (view h' (some list) ≡ view heap (some list))
machine_list_copied_example =
    machine_list_copied copy_meta-IsDeep copy_quantity-IsDeep (some list) heap list_within

-- The provider id of the original is overwritten, and a cell of the copy.
machine_list_unshared_example :
    let (copy, h') = machine_list_copy copy_meta copy_quantity (some list) heap in
    let view =
      view_option
        (view_list view_meta (view_items machines_in (view_machine view_meta view_quantity))) in
    (view (write 2 (text "other") h') copy ≡ view heap (some list))
    × (view (write 6 (text "other") h') (some list) ≡ view heap (some list))
machine_list_unshared_example =
    machine_list_unshared copy_meta-IsDeep copy_quantity-IsDeep (some list) heap 2 6 (text "other")
      (text "other") list_within (omega arith) (omega arith)
