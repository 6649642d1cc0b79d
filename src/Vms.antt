-- ===== src/Vms.antt =====
-- src/aleph/db/models/vms.py and src/aleph/db/accessors/vms.py: the rows of programs and instances, and
-- the version that is current for each. The columns of the volumes and triggers stand in the row of
-- their machine, on which their foreign keys delete them with it.
pub mod Content
pub mod Handler
pub mod Volumes
pub mod Versions
use py_aleph.Prelude.{
  ℕ, Bool, true, false, not, ◌&&◌, Option, none, some, List, [], ◌∷◌, ◌++◌, map, ltb, ◌==◌,
  if◌then◌else◌, max, any, keep, first, bind, equals, coalesce,
}
use py_aleph.Status.{Error}
use py_aleph.Result.{Result, ok, raise, ◌>>=◌}
use py_aleph.Machines.{Environment, Resources, VolumeRef, Code, Runtime, Data, Rootfs, PaymentType}
use py_aleph.Node.{put}

-- `MachineVolumeBaseDb` and its subclasses, after the comment and the mount.
pub record PersistentRow : Type 0 where
  pub persistence : Option ℕ
  pub name : Option ℕ
  pub size_mib : ℕ
  pub parent_ref : Option ℕ
  pub parent_use_latest : Option Bool

pub data VolumeRow : Type 0 where
  immutable_row : Option ℕ → Option ℕ → VolumeRef → VolumeRow
  ephemeral_row : Option ℕ → Option ℕ → ℕ → VolumeRow
  persistent_row : Option ℕ → Option ℕ → PersistentRow → VolumeRow

-- `ProgramDb` and `VmInstanceDb`: the columns that they add.
pub record ProgramRow : Type 0 where
  pub program_type : ℕ
  pub persistent : Bool
  pub http_trigger : Bool
  pub message_triggers : Option ℕ
  pub code_volume : Code
  pub runtime : Runtime
  pub data_volume : Option Data
  pub export_volume : Option ℕ

pub record InstanceRow : Type 0 where
  pub rootfs : Rootfs
  pub authorized_keys : Option ℕ

pub data VmType : Type 0 where
  program_row : ProgramRow → VmType
  instance_row : InstanceRow → VmType

-- `VmBaseDb`; the columns of the environment and of the resources are kept together.
pub record Vm : Type 0 where
  pub item_hash : ℕ
  pub owner : ℕ
  pub type : VmType
  pub allow_amend : Bool
  pub metadata : Option ℕ
  pub variables : Option ℕ
  pub environment : Environment
  pub payment_type : PaymentType
  pub resources : Resources
  pub cpu_architecture : Option ℕ
  pub cpu_vendor : Option ℕ
  pub node_owner : Option ℕ
  pub node_address_regex : Option ℕ
  pub node_hash : Option ℕ
  pub replaces : Option ℕ
  pub created : ℕ
  pub volumes : List VolumeRow

-- `VmVersionDb`, without its key.
pub record VmVersion : Type 0 where
  pub owner : ℕ
  pub current_version : ℕ
  pub last_updated : ℕ

pub record VmTables : Type 0 where
  pub vms : List Vm
  pub versions : ℕ → Option VmVersion

abbrev pub is_vm : ℕ → Vm → Bool
is_vm h v = v.item_hash == h

abbrev pub get_vm : ℕ → VmTables → Option Vm
get_vm h t = first (is_vm h) t.vms

abbrev pub program_only : Vm → VmType → Option Vm
program_only v (program_row p) = some v
program_only v (instance_row i) = none

unfoldable pub get_program : ℕ → VmTables → Option Vm
get_program h t = bind (get_vm h t) λ v. program_only v v.type

-- `is_vm_amend_allowed`: a join of the version with its machine.
unfoldable pub is_vm_amend_allowed : ℕ → VmTables → Option Bool
is_vm_amend_allowed vm_hash t =
    bind (t.versions vm_hash)
      λ version. bind (get_vm version.current_version t) λ v. some v.allow_amend

-- The foreign key of `replaces`.
abbrev pub replaced_there : List Vm → Option ℕ → Bool
replaced_there vms none = true
replaced_there vms (some h) = any (is_vm h) vms

abbrev pub all_replaced_there : List Vm → List Vm → Bool
all_replaced_there vms [] = true
all_replaced_there vms (v ∷ vs) = replaced_there vms v.replaces && all_replaced_there vms vs

-- `session.add(vm)`, with the primary and the foreign key.
unfoldable pub add_vm : Vm → VmTables → Result VmTables
add_vm v t =
    let vms = t.vms ++ (v ∷ []) in
    if any (is_vm v.item_hash) t.vms
    then raise Error.other
    else if all_replaced_there vms vms
    then ok (record t { vms = vms })
    else raise Error.other

-- `_delete_vm`, which the foreign key of a row that stays may refuse.
unfoldable pub delete_where : (Vm → Bool) → VmTables → Result (List ℕ × VmTables)
delete_where p t =
    let vms = keep (λ v. not (p v)) t.vms in
    if all_replaced_there vms vms
    then ok (map (λ v. v.item_hash) (keep p t.vms), record t { vms = vms })
    else raise Error.other

unfoldable pub delete_vm : ℕ → VmTables → Result VmTables
unfolding delete_where
delete_vm vm_hash t = delete_where (is_vm vm_hash) t >>= λ deleted. ok deleted.1

unfoldable pub delete_vm_updates : ℕ → VmTables → Result (List ℕ × VmTables)
unfolding delete_where
delete_vm_updates vm_hash t = delete_where (λ v. equals v.replaces vm_hash) t

-- `upsert_vm_version`: a row that is there changes to a later version only, and keeps its owner.
abbrev pub newer_version : Option VmVersion → VmVersion → VmVersion
newer_version none new = new
newer_version (some old) new =
    if ltb old.last_updated new.last_updated
    then record old { current_version = new.current_version; last_updated = new.last_updated }
    else old

unfoldable pub upsert_vm_version : ℕ → VmVersion → VmTables → VmTables
upsert_vm_version vm_hash new t = record t {
  versions = put t.versions vm_hash (some (newer_version (t.versions vm_hash) new));
}

-- The machines of a version, and the latest time of them.
abbrev pub coalesced_ref : Vm → ℕ
coalesced_ref v = coalesce v.replaces v.item_hash

abbrev pub max_with : ℕ → Option ℕ → ℕ
max_with n none = n
max_with n (some m) = max n m

abbrev pub latest_created : ℕ → List Vm → Option ℕ
latest_created h [] = none
latest_created h (v ∷ vs) =
    let rest = latest_created h vs in
    if coalesced_ref v == h then some (max_with v.created rest) else rest

abbrev pub latest_of : ℕ → List Vm → Option ℕ → List Vm
latest_of h vms none = []
latest_of h vms (some time) = keep (λ v. coalesced_ref v == h && v.created == time) vms

abbrev pub version_of : Vm → VmVersion
version_of v = record { owner = v.owner; current_version = v.item_hash; last_updated = v.created }

-- The insertion of the rows that the query gives: of two rows, the second one would update a row that
-- the same statement has inserted, which the database refuses.
abbrev pub insert_versions : ℕ → List Vm → VmTables → Result VmTables
insert_versions vm_hash [] t = ok t
insert_versions vm_hash (v ∷ []) t =
    ok (record t { versions = put t.versions vm_hash (some (version_of v)) })
insert_versions vm_hash (v ∷ (w ∷ vms)) t = raise Error.other

unfoldable pub refresh_vm_version : ℕ → VmTables → Result VmTables
refresh_vm_version vm_hash t =
    insert_versions vm_hash (latest_of vm_hash t.vms (latest_created vm_hash t.vms))
      (record t { versions = put t.versions vm_hash none })
