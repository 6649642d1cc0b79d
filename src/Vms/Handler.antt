-- ===== src/Vms/Handler.antt =====
-- src/aleph/handlers/content/vm.py: the handler of PROGRAM and INSTANCE messages.
use py_aleph.Prelude.{
  ℕ, ◌*◌, Bool, true, false, not, ◌&&◌, Option, none, some, List, [], ◌∷◌, ◌++◌, map, ltb,
  if◌then◌else◌, keep, is_none, coalesce,
}
use py_aleph.Status.{Error}
use py_aleph.Result.{Result, ok, raise, ◌>>=◌, ◌>>◌, raise_if, check_each}
use py_aleph.Machines.{
  VolumeRef, Volume, immutable, ephemeral, persistent, VmKind, program_content, instance_content,
  VmContent,
}
use py_aleph.Node.{Message}
use py_aleph.Files.{FileTables, FileTag, FilePin, StoredFile, get_file_tag, get_message_file_pin}
use py_aleph.Balances.{Balance, get_total_balance}
use py_aleph.Costs.{CostEnv, compute_cost, data_refs}
use py_aleph.Vms.{
  Vm, VmTables, VmVersion, get_program, is_vm_amend_allowed, add_vm, delete_vm, delete_vm_updates,
  upsert_vm_version, refresh_vm_version,
}
use py_aleph.Vms.Content.{vm_content_of, vm_message_to_db}

-- `add_ref_to_check`, of each volume that refers to a file.
abbrev pub volume_refs : List Volume → List VolumeRef
volume_refs [] = []
volume_refs (immutable comment mount ref ∷ volumes) = ref ∷ volume_refs volumes
volume_refs (ephemeral comment mount size ∷ volumes) = volume_refs volumes
volume_refs (persistent comment mount v ∷ volumes) =
    let rest = volume_refs volumes in elim v.parent [ none ↦ rest | some parent ↦ parent ∷ rest ]

abbrev pub kind_refs : VmKind → List VolumeRef
kind_refs (program_content p) = p.code.volume ∷ p.runtime.volume ∷ data_refs p.data_volume
kind_refs (instance_content i) = i.rootfs.parent ∷ []

abbrev pub refs_to_check : VmContent → List VolumeRef
refs_to_check content = kind_refs content.kind ++ volume_refs content.volumes

-- `find_missing_volumes`: the pins and the tags that are not there.
unfoldable pub find_missing_volumes : VmContent → FileTables → List ℕ
find_missing_volumes content t =
    let refs = refs_to_check content in
    keep (λ h. is_none (get_message_file_pin h t))
      (map (λ v. v.ref) (keep (λ v. not v.use_latest) refs))
    ++ keep (λ tag. is_none (get_file_tag tag t)) (map (λ v. v.ref) (keep (λ v. v.use_latest) refs))

-- `_get_parent_volume_file`.
abbrev pub tag_there : Option FileTag → FileTables → Result (Option StoredFile)
tag_there none t = raise Error.internal
tag_there (some tag) t = ok (t.files tag.file_hash)

abbrev pub pin_there : Option FilePin → FileTables → Result (Option StoredFile)
pin_there none t = raise Error.internal
pin_there (some pin) t = ok (t.files pin.file_hash)

abbrev pub get_parent_volume_file : VolumeRef → FileTables → Result (Option StoredFile)
get_parent_volume_file parent t =
    if parent.use_latest
    then tag_there (get_file_tag parent.ref t) t
    else pin_there (get_message_file_pin parent.ref t) t

-- The volumes with a parent, and their sizes in MiB.
abbrev pub volumes_with_parent : List Volume → List (VolumeRef × ℕ)
volumes_with_parent [] = []
volumes_with_parent (immutable comment mount ref ∷ volumes) = volumes_with_parent volumes
volumes_with_parent (ephemeral comment mount size ∷ volumes) = volumes_with_parent volumes
volumes_with_parent (persistent comment mount v ∷ volumes) =
    let rest = volumes_with_parent volumes in
    elim v.parent [ none ↦ rest | some parent ↦ (parent, v.size_mib) ∷ rest ]

abbrev pub rootfs_with_parent : VmKind → List (VolumeRef × ℕ)
rootfs_with_parent (program_content p) = []
rootfs_with_parent (instance_content i) = (i.rootfs.parent, i.rootfs.size_mib) ∷ []

abbrev pub check_size : ℕ → Option StoredFile → Result (Unit {0})
check_size size_mib none = raise Error.other
check_size size_mib (some f) = raise_if (ltb (size_mib * 1024 * 1024) f.size) Error.volume_too_small

abbrev pub check_volume : FileTables → VolumeRef × ℕ → Result (Unit {0})
check_volume t v = get_parent_volume_file v.0 t >>= λ f. check_size v.1 f

unfoldable pub check_parent_volumes_size_requirements : VmContent → FileTables → Result (Unit {0})
check_parent_volumes_size_requirements content t =
    check_each (check_volume t)
      (volumes_with_parent content.volumes ++ rootfs_with_parent content.kind)

-- The tests of an update.
abbrev pub check_amend_allowed : Option Bool → Result (Unit {0})
check_amend_allowed none = raise Error.internal
check_amend_allowed (some allowed) = raise_if (not allowed) Error.vm_update_not_allowed

abbrev pub check_replaced : ℕ → VmTables → Option Vm → Result (Unit {0})
check_replaced ref t none = raise Error.missing_vm_ref
check_replaced ref t (some original) =
    if is_none original.replaces
    then check_amend_allowed (is_vm_amend_allowed ref t)
    else raise Error.vm_cannot_update_update

abbrev pub check_replaces : Option ℕ → VmTables → Result (Unit {0})
check_replaces none t = ok tt
check_replaces (some ref) t = check_replaced ref t (get_program ref t)

abbrev pub check_none : List ℕ → Result (Unit {0})
check_none [] = ok tt
check_none (h ∷ hashes) = raise Error.missing_vm_volume

-- `check_dependencies`.
unfoldable pub check_dependencies : Message → FileTables → VmTables → Result (Unit {0})
check_dependencies m files t = do
  content ← vm_content_of m.content
  check_none (find_missing_volumes content files)
  check_parent_volumes_size_requirements content files
  check_replaces content.replaces t

-- A program that is not persistent, and a stream, need no balance.
abbrev pub needs_balance : VmContent → Bool
needs_balance content =
    elim content.kind [ program_content p ↦ p.is_persistent | instance_content i ↦ true ]
    && elim content.payment [ none ↦ true | some payment ↦ not payment.is_stream ]

module _ {D : Type 0} (env : CostEnv D) (get_total_cost_for_address : ℕ → D) where
  abbrev pub check_tokens : VmContent → List (Balance D) → D → Result (Unit {0})
  check_tokens content balances required =
      let balance =
        coalesce (get_total_balance env.plus content.address false balances) (env.of_nat 0) in
      raise_if (env.less balance (env.plus (get_total_cost_for_address content.address) required))
        Error.insufficient_balance

  -- `check_balance`, over the view of the costs of an address.
  unfoldable pub check_balance : Message → FileTables → List (Balance D) → Result (Unit {0})
  check_balance m files balances = do
    content ← vm_content_of m.content
    (if needs_balance content
        then compute_cost env content files >>= check_tokens content balances
        else ok tt)

-- `process_vm_message`.
abbrev pub version_for : Vm → VmVersion
version_for v = record {
  owner = v.owner;
  current_version = coalesce v.replaces v.item_hash;
  last_updated = v.created;
}

unfoldable pub process_vm_message : Message → VmTables → Result VmTables
process_vm_message m t = do
  content ← vm_content_of m.content
  let v = vm_message_to_db m.item_hash content
  added ← add_vm v t
  ok (upsert_vm_version v.item_hash (version_for v) added)

-- `forget_message`.
unfoldable pub forget_vm : Message → VmTables → Result (VmTables × List ℕ)
forget_vm m t = do
  content ← vm_content_of m.content
  rest ← delete_vm m.item_hash t
  updates ← (if is_none content.replaces then delete_vm_updates m.item_hash rest else ok ([], rest))
  refreshed ← refresh_vm_version m.item_hash updates.1
  ok (refreshed, updates.0)
