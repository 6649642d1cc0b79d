-- ===== src/Vms/Content.antt =====
-- src/aleph/handlers/content/vm.py: the row that a message makes.
use py_aleph.Prelude.{ℕ, Bool, Option, none, some, map, bind}
use py_aleph.Status.{Error}
use py_aleph.Result.{Result, ok, raise}
use py_aleph.Machines.{
  VolumeRef, Volume, immutable, ephemeral, persistent, Environment, CpuRequirements,
  NodeRequirements, PaymentType, hold, Payment, VmKind, program_content, instance_content,
  VmContent,
}
use py_aleph.Node.{
  Content, aggregate_content, post_content, store_content, forget_content, vm_content,
}
use py_aleph.Vms.{
  VolumeRow, immutable_row, ephemeral_row, persistent_row, VmType, program_row, instance_row, Vm,
}

-- `_get_vm_content`.
abbrev pub vm_content_of : Content → Result VmContent
vm_content_of (vm_content c) = ok c
vm_content_of (aggregate_content c) = raise Error.invalid_message_format
vm_content_of (post_content c) = raise Error.invalid_message_format
vm_content_of (store_content c) = raise Error.invalid_message_format
vm_content_of (forget_content c) = raise Error.invalid_message_format

-- `map_volume`; a content has no other kinds of volumes.
abbrev pub parent_ref_of : Option VolumeRef → Option ℕ
parent_ref_of none = none
parent_ref_of (some parent) = some parent.ref

abbrev pub parent_use_latest_of : Option VolumeRef → Option Bool
parent_use_latest_of none = none
parent_use_latest_of (some parent) = some parent.use_latest

unfoldable pub map_volume : Volume → VolumeRow
map_volume (immutable comment mount ref) = immutable_row comment mount ref
map_volume (ephemeral comment mount size_mib) = ephemeral_row comment mount size_mib
map_volume (persistent comment mount v) = persistent_row comment mount (record {
  persistence = v.persistence;
  name = v.name;
  size_mib = v.size_mib;
  parent_ref = parent_ref_of v.parent;
  parent_use_latest = parent_use_latest_of v.parent;
})

abbrev pub cpu_of : VmContent → Option CpuRequirements
cpu_of content = bind content.requirements λ r. r.cpu

abbrev pub node_of : VmContent → Option NodeRequirements
node_of content = bind content.requirements λ r. r.node

abbrev pub payment_type_of : Option Payment → PaymentType
payment_type_of none = hold
payment_type_of (some payment) = elim payment.type [ none ↦ hold | some type ↦ type ]

-- What `vm_message_to_db` adds.
abbrev pub row_type : VmKind → VmType
row_type (program_content p) = program_row (record {
  program_type = p.type;
  persistent = p.is_persistent;
  http_trigger = p.http;
  message_triggers = p.message;
  code_volume = p.code;
  runtime = p.runtime;
  data_volume = p.data_volume;
  export_volume = p.export_encoding;
})
row_type (instance_content i) =
    instance_row (record { rootfs = i.rootfs; authorized_keys = i.authorized_keys })

-- The columns that stay NULL in the row of a program.
abbrev pub environment_of : VmKind → Environment → Environment
environment_of (program_content p) e = record e { trusted_execution = none }
environment_of (instance_content i) e = e

abbrev pub node_hash_of : VmKind → Option NodeRequirements → Option ℕ
node_hash_of (program_content p) required = none
node_hash_of (instance_content i) required = bind required λ n. n.node_hash

-- `vm_message_to_db`, with `_map_content_to_db_model`, which gives no `replaces` to the row.
unfoldable pub vm_message_to_db : ℕ → VmContent → Vm
unfolding map_volume
vm_message_to_db item_hash content = record {
  item_hash = item_hash;
  owner = content.address;
  type = row_type content.kind;
  allow_amend = content.allow_amend;
  metadata = content.metadata;
  variables = content.variables;
  environment = environment_of content.kind content.environment;
  payment_type = payment_type_of content.payment;
  resources = content.resources;
  cpu_architecture = bind (cpu_of content) λ cpu. cpu.architecture;
  cpu_vendor = bind (cpu_of content) λ cpu. cpu.vendor;
  node_owner = bind (node_of content) λ node. node.owner;
  node_address_regex = bind (node_of content) λ node. node.address_regex;
  node_hash = node_hash_of content.kind (node_of content);
  replaces = none;
  created = content.time;
  volumes = map map_volume content.volumes;
}
