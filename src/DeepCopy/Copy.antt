-- ===== src/DeepCopy/Copy.antt =====
-- The functions `DeepCopyInto` and `DeepCopy` of api/v1beta1/zz_generated.deepcopy.go. The value of
-- `*out` is returned; `DeepCopyObject` is `DeepCopy` at another type. Those of the libraries are
-- parameters.
use cluster_api_provider_bmc.Base.{ℕ, Option, none, some, List, [], ◌∷◌}
use cluster_api_provider_bmc.DeepCopy.Objects.{
  Pointer, Quantity, Meta, ClusterSpec, ClusterStatus, Cluster, MachineSpec, MachineStatus, Machine,
  TemplateResource, TemplateSpec, Template, ObjectList, Tag,
}
use cluster_api_provider_bmc.DeepCopy.Heap.{
  Cell, tags, clusters, machines, templates, Copying, pure, ◌>>=◌, allocate, write,
}

-- `if in.F != nil { *out = new(T); **out = **in }`, and the same with `make` and `copy`.
unfoldable pub copy_cell : Pointer → Copying Pointer
unfolding allocate
copy_cell none h = (none, h)
copy_cell (some p) h = let (q, h') = allocate (h.cell p) h in (some q, h')

-- The loop over the items of a list, in order.
unfoldable pub copy_each : {E : Type 0} → (E → Copying E) → List E → Copying (List E)
copy_each copy [] = pure []
copy_each copy (x ∷ xs) = do y ← copy x; ys ← copy_each copy xs; pure (y ∷ ys)

-- A slice of objects: the array of the copy is made first, and holds its items when the loop ends.
-- `items` and `array` go from a cell to the items in it and back.
unfoldable pub copy_items :
    {E : Type 0} → (Cell → List E) → (List E → Cell) → (E → Copying E) → Pointer → Copying Pointer
unfolding allocate copy_each write
copy_items items array copy none h = (none, h)
copy_items items array copy (some p) h =
    let (q, h1) = allocate (array []) h in
    let (ys, h2) = copy_each copy (items (h.cell p)) h1 in (some q, write q (array ys) h2)

-- The items in a cell; Go's types admit no other cell there.
unfoldable pub clusters_in : Cell → List Cluster
clusters_in (clusters xs) = xs
clusters_in _ = []

unfoldable pub machines_in : Cell → List Machine
machines_in (machines xs) = xs
machines_in _ = []

unfoldable pub templates_in : Cell → List Template
templates_in (templates xs) = xs
templates_in _ = []

-- `DeepCopy`: a nil receiver gives nil, and the struct that `new` makes is filled and returned.
unfoldable pub deep_copy : {A : Type 0} → (A → Copying A) → Option A → Copying (Option A)
deep_copy into none = pure none
deep_copy into (some object) = do out ← into object; pure (some out)

unfoldable pub cluster_spec_into : ClusterSpec → Copying ClusterSpec
cluster_spec_into object =
    pure (record object { control_plane_endpoint = object.control_plane_endpoint })

unfoldable pub cluster_status_into : ClusterStatus → Copying ClusterStatus
unfolding copy_cell
cluster_status_into object = do
  error_message ← copy_cell object.error_message
  pure (record object { error_message = error_message })

unfoldable pub machine_spec_into : MachineSpec → Copying MachineSpec
unfolding copy_cell
machine_spec_into object = do
  provider_id ← copy_cell object.provider_id
  install_default_ssh_keys ← copy_cell object.install_default_ssh_keys
  ssh_key_ids ← copy_cell object.ssh_key_ids
  pure (record object {
    provider_id = provider_id;
    install_default_ssh_keys = install_default_ssh_keys;
    ssh_key_ids = ssh_key_ids;
  })

unfoldable pub tag_into : Tag → Copying Tag
tag_into object = pure object

-- `DeepCopyInto` makes a slice for a nil one too.
unfoldable pub tag_list_into : Pointer → Copying ℕ
unfolding allocate
tag_list_into none h = allocate (tags []) h
tag_list_into (some p) h = allocate (h.cell p) h

unfoldable pub tag_list_copy : Pointer → Copying Pointer
unfolding tag_list_into
tag_list_copy none = pure none
tag_list_copy (some p) = do q ← tag_list_into (some p); pure (some q)

module _ (copy_quantity : Quantity → Copying Quantity) where
  unfoldable pub machine_status_into : MachineStatus → Copying MachineStatus
  unfolding copy_cell
  machine_status_into object = do
    cpu_frequency ← copy_quantity object.cpu_frequency
    private_ip_addresses ← copy_cell object.private_ip_addresses
    public_ip_addresses ← copy_cell object.public_ip_addresses
    addresses' ← copy_cell object.addresses
    failure_reason ← copy_cell object.failure_reason
    failure_message ← copy_cell object.failure_message
    node_ref ← copy_cell object.node_ref
    pure (record object {
      cpu_frequency = cpu_frequency;
      private_ip_addresses = private_ip_addresses;
      public_ip_addresses = public_ip_addresses;
      addresses = addresses';
      failure_reason = failure_reason;
      failure_message = failure_message;
      node_ref = node_ref;
    })

module _ (copy_meta : Meta → Copying Meta) where
  unfoldable pub cluster_into : Cluster → Copying Cluster
  unfolding cluster_status_into
  cluster_into object = do
    meta ← copy_meta object.meta
    status ← cluster_status_into object.status
    pure (record object { meta = meta; status = status })

  unfoldable pub template_resource_into : TemplateResource → Copying TemplateResource
  unfolding machine_spec_into
  template_resource_into object = do
    meta ← copy_meta object.meta
    spec ← machine_spec_into object.spec
    pure (record object { meta = meta; spec = spec })

  unfoldable pub template_spec_into : TemplateSpec → Copying TemplateSpec
  unfolding template_resource_into
  template_spec_into object = do
    template ← template_resource_into object.template
    pure (record object { template = template })

  unfoldable pub template_into : Template → Copying Template
  unfolding template_spec_into
  template_into object = do
    meta ← copy_meta object.meta
    spec ← template_spec_into object.spec
    pure (record object { meta = meta; spec = spec })

  -- The three lists differ in the copy of an item.
  unfoldable pub list_into : (Pointer → Copying Pointer) → ObjectList → Copying ObjectList
  list_into items_into object = do
    meta ← copy_meta object.meta
    items ← items_into object.items
    pure (record object { meta = meta; items = items })

  unfoldable pub cluster_list_into : ObjectList → Copying ObjectList
  unfolding list_into copy_items cluster_into
  cluster_list_into = list_into (copy_items clusters_in clusters cluster_into)

  unfoldable pub template_list_into : ObjectList → Copying ObjectList
  unfolding list_into copy_items template_into
  template_list_into = list_into (copy_items templates_in templates template_into)

  module _ (copy_quantity : Quantity → Copying Quantity) where
    unfoldable pub machine_into : Machine → Copying Machine
    unfolding machine_spec_into machine_status_into
    machine_into object = do
      meta ← copy_meta object.meta
      spec ← machine_spec_into object.spec
      status ← machine_status_into copy_quantity object.status
      pure (record object { meta = meta; spec = spec; status = status })

    unfoldable pub machine_list_into : ObjectList → Copying ObjectList
    unfolding list_into copy_items machine_into
    machine_list_into = list_into (copy_items machines_in machines machine_into)
