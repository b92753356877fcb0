-- ===== src/DeepCopy/Views.antt =====
-- What the API objects read as, and what they reach: the parts that hold pointers, and the rest.
use cluster_api_provider_bmc.Base.{none}
use cluster_api_provider_bmc.DeepCopy.Objects.{
  Pointer, TypeMeta, Quantity, Meta, ClusterSpec, ClusterStatus, Cluster, MachineSpec,
  MachineStatus, Machine, TemplateResource, TemplateSpec, Template, ObjectList,
}

abbrev pub spec_parts : MachineSpec → Pointer × (Pointer × Pointer)
spec_parts s = (s.provider_id, (s.install_default_ssh_keys, s.ssh_key_ids))

abbrev pub spec_build : MachineSpec → Pointer × (Pointer × Pointer) → MachineSpec
spec_build s (a, (b, c)) = record s {
  provider_id = a;
  install_default_ssh_keys = b;
  ssh_key_ids = c;
}

abbrev pub spec_rest : MachineSpec → MachineSpec
spec_rest s = spec_build s (none, (none, none))

abbrev pub StatusParts : Type 0
StatusParts = Quantity × (Pointer × (Pointer × (Pointer × (Pointer × (Pointer × Pointer)))))

abbrev pub status_parts : MachineStatus → StatusParts
status_parts s = (
  s.cpu_frequency,
  (
    s.private_ip_addresses,
    (s.public_ip_addresses, (s.addresses, (s.failure_reason, (s.failure_message, s.node_ref)))),
  ),
)

abbrev pub status_build : MachineStatus → StatusParts → MachineStatus
status_build s (q, (a, (b, (c, (d, (e, f)))))) = record s {
  cpu_frequency = q;
  private_ip_addresses = a;
  public_ip_addresses = b;
  addresses = c;
  failure_reason = d;
  failure_message = e;
  node_ref = f;
}

abbrev pub status_rest : MachineStatus → MachineStatus
status_rest s =
    status_build s (record { small = ""; big = none }, (none, (none, (none, (none, (none, none))))))

abbrev pub machine_parts : Machine → Meta × (MachineSpec × MachineStatus)
machine_parts m = (m.meta, (m.spec, m.status))

abbrev pub machine_build : Machine → Meta × (MachineSpec × MachineStatus) → Machine
machine_build m (a, (b, c)) = record m { meta = a; spec = b; status = c }

abbrev pub machine_rest : Machine → TypeMeta
machine_rest m = m.type_meta

abbrev pub cluster_status_parts : ClusterStatus → Pointer
cluster_status_parts s = s.error_message

abbrev pub cluster_status_build : ClusterStatus → Pointer → ClusterStatus
cluster_status_build s p = record s { error_message = p }

abbrev pub cluster_status_rest : ClusterStatus → ClusterStatus
cluster_status_rest s = cluster_status_build s none

abbrev pub cluster_parts : Cluster → Meta × ClusterStatus
cluster_parts c = (c.meta, c.status)

abbrev pub cluster_build : Cluster → Meta × ClusterStatus → Cluster
cluster_build c (a, b) = record c { meta = a; status = b }

abbrev pub cluster_rest : Cluster → TypeMeta × ClusterSpec
cluster_rest c = (c.type_meta, c.spec)

abbrev pub resource_parts : TemplateResource → Meta × MachineSpec
resource_parts r = (r.meta, r.spec)

abbrev pub resource_build : TemplateResource → Meta × MachineSpec → TemplateResource
resource_build r (a, b) = record r { meta = a; spec = b }

abbrev pub no_rest : {A : Type 0} → A → Unit {0}
no_rest a = tt

abbrev pub template_spec_parts : TemplateSpec → TemplateResource
template_spec_parts s = s.template

abbrev pub template_spec_build : TemplateSpec → TemplateResource → TemplateSpec
template_spec_build s r = record { template = r }

abbrev pub template_parts : Template → Meta × TemplateSpec
template_parts t = (t.meta, t.spec)

abbrev pub template_build : Template → Meta × TemplateSpec → Template
template_build t (a, b) = record t { meta = a; spec = b }

abbrev pub template_rest : Template → TypeMeta
template_rest t = t.type_meta

abbrev pub list_parts : ObjectList → Meta × Pointer
list_parts l = (l.meta, l.items)

abbrev pub list_build : ObjectList → Meta × Pointer → ObjectList
list_build l (a, b) = record l { meta = a; items = b }

abbrev pub list_rest : ObjectList → TypeMeta
list_rest l = l.type_meta
