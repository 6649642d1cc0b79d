-- ===== src/Examples/Machines.antt =====
-- Runs of the handler of programs and instances, and of the number of compute units.
use py_aleph.Prelude.{ℕ, ◌≡◌, refl, true, false, none, some, [], ◌∷◌}
use py_aleph.Result.{ok, check_each}
use py_aleph.Machines.{VolumeRef, immutable, Resources, VmKind, instance_content, VmContent}
use py_aleph.Node.{MessageType, inline, vm_content, Message, put}
use py_aleph.Files.{FileTables, file, message_pin, get_file_tag, get_message_file_pin}
use py_aleph.Costs.{get_volume_size}
use py_aleph.Vms.{
  VmTables, add_vm, delete_where, delete_vm, delete_vm_updates, upsert_vm_version,
  refresh_vm_version, version_of,
}
use py_aleph.Vms.Content.{map_volume, vm_message_to_db}
use py_aleph.Vms.Handler.{
  find_missing_volumes, check_parent_volumes_size_requirements, check_dependencies,
  process_vm_message, forget_vm,
}
use py_aleph.Vms.Volumes.{HasFiles, check_dependencies-get_volume_size}
use py_aleph.Vms.Versions.{IsVersioned, process_vm_message-IsVersioned}

abbrev image : VolumeRef
image = record { ref = 3; use_latest = false }

abbrev resources : Resources
resources = record { vcpus = 2; memory = 5000; seconds = 30 }

-- An instance whose root volume and first volume are made from one image.
abbrev instance_kind : VmKind
instance_kind = instance_content (record {
  rootfs = record { parent = image; persistence = 1; size_mib = 20 };
  authorized_keys = none;
})

abbrev content : VmContent
content = record {
  address = 5;
  time = 100;
  allow_amend = true;
  metadata = none;
  variables = none;
  volumes = immutable none none image ∷ [];
  environment = record {
    reproducible = false;
    internet = true;
    aleph_api = true;
    shared_cache = false;
    trusted_execution = none;
  };
  resources = resources;
  requirements = none;
  payment = none;
  replaces = none;
  kind = instance_kind;
}

abbrev instance_message : Message
instance_message = record {
  item_hash = 8;
  type = MessageType.instance_;
  chain = 1;
  sender = 5;
  signature = some 9;
  item_type = inline;
  content = vm_content content;
  time = 100;
  channel = none;
  size = 10;
}

-- A store whose message 3 pins the image.
abbrev one_pin : FileTables
one_pin = record {
  files = λ h. some (record { size = 1000; type = file });
  pins = record { file_hash = 30; created = 50; kind = message_pin 3 5 none } ∷ [];
  tags = λ tag. none;
}

abbrev no_vms : VmTables
no_vms = record { vms = []; versions = λ h. none }

one_pin-HasFiles : HasFiles one_pin
one_pin-HasFiles = record { pins = λ h pin e. refl; tags = λ h tag e. refl }

run_check : check_dependencies instance_message one_pin no_vms ≡ ok tt
unfolding check_dependencies find_missing_volumes check_parent_volumes_size_requirements
    get_file_tag get_message_file_pin check_each
run_check = refl

check_dependencies-get_volume_size_example : (n : ℕ) × (get_volume_size content one_pin ≡ ok n)
check_dependencies-get_volume_size_example =
    check_dependencies-get_volume_size one_pin instance_message content no_vms one_pin-HasFiles refl
      run_check

abbrev one_vm : VmTables
one_vm =
    let v = vm_message_to_db 8 content in
    record { vms = v ∷ []; versions = put no_vms.versions 8 (some (version_of v)) }

no_vms-IsVersioned : IsVersioned no_vms
no_vms-IsVersioned = record { unique = tt; originals = tt; versions = λ h. refl }

run_process : process_vm_message instance_message no_vms ≡ ok one_vm
unfolding process_vm_message vm_message_to_db map_volume add_vm upsert_vm_version
run_process = refl

process_vm_message-IsVersioned_example : IsVersioned one_vm
process_vm_message-IsVersioned_example =
    process_vm_message-IsVersioned instance_message no_vms one_vm run_process no_vms-IsVersioned

one_vm-IsVersioned : IsVersioned one_vm
one_vm-IsVersioned =
    process_vm_message-IsVersioned instance_message no_vms one_vm run_process no_vms-IsVersioned

abbrev vm_forgotten : VmTables
vm_forgotten = record { vms = []; versions = put one_vm.versions 8 none }

run_forget_vm : forget_vm instance_message one_vm ≡ ok (vm_forgotten, [])
unfolding forget_vm vm_message_to_db map_volume delete_where delete_vm delete_vm_updates
    refresh_vm_version
run_forget_vm = refl
