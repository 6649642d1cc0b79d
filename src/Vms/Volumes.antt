-- ===== src/Vms/Volumes.antt =====
-- That the volumes of a machine have a size once its dependencies are there.
use py_aleph.Prelude.{
  ℕ, ◌+◌, ◌≡◌, refl, false, not, Option, none, some, List, [], ◌∷◌, ◌++◌, map, if◌then◌else◌, keep,
  All, All-append, is_none, Bool-cases, Option-cases, inl, inr,
}
use py_aleph.Result.{ok, invert}
use py_aleph.Machines.{
  VolumeRef, Volume, immutable, ephemeral, persistent, VmKind, program_content, instance_content,
  VmContent,
}
use py_aleph.Node.{Message}
use py_aleph.Files.{FileTables, FileTag, FilePin, StoredFile, get_file_tag, get_message_file_pin}
use py_aleph.Costs.{
  get_file_from_ref, immutable_refs, ref_volumes, sum_of_refs, get_volume_size, rootfs_size, sizes,
}
use py_aleph.Vms.{VmTables}
use py_aleph.Vms.Content.{vm_content_of}
use py_aleph.Vms.Handler.{
  volume_refs, kind_refs, refs_to_check, find_missing_volumes, check_none, check_dependencies,
}

-- The foreign keys of pins and tags: their files are stored.
pub record HasFiles (t : FileTables) : Type 0 where
  pub pins :
      (h : ℕ) (pin : FilePin)
      → get_message_file_pin h t ≡ some pin
      → is_none (t.files pin.file_hash) ≡ false
  pub tags :
      (h : ℕ) (tag : FileTag)
      → get_file_tag h t ≡ some tag
      → is_none (t.files tag.file_hash) ≡ false

module _ (t : FileTables) where
  abbrev IsThere : VolumeRef → Type 0
  IsThere v =
      (if v.use_latest
        then is_none (get_file_tag v.ref t)
        else is_none (get_message_file_pin v.ref t))
      ≡ false

  abbrev missing_pins : List VolumeRef → List ℕ
  missing_pins refs =
      keep (λ h. is_none (get_message_file_pin h t))
        (map (λ v. v.ref) (keep (λ v. not v.use_latest) refs))

  abbrev missing_tags : List VolumeRef → List ℕ
  missing_tags refs =
      keep (λ h. is_none (get_file_tag h t)) (map (λ v. v.ref) (keep (λ v. v.use_latest) refs))

  -- Where no pin and no tag is missing, each reference is there.
  nothing_missing :
      (refs : List VolumeRef) → missing_pins refs ≡ [] → missing_tags refs ≡ [] → All IsThere refs
  nothing_missing [] p q = tt
  nothing_missing (v ∷ refs) p q = elim (Bool-cases v.use_latest) [
    | inl latest ↦ elim (Bool-cases (is_none (get_file_tag v.ref t))) [
      | inl gone ↦ absurd (cc (rw (latest, gone) at q))
      | inr there ↦
          (rw latest there, nothing_missing refs (rw latest at p) (rw (latest, there) at q))
    ]
    | inr original ↦ elim (Bool-cases (is_none (get_message_file_pin v.ref t))) [
      | inl gone ↦ absurd (cc (rw (original, gone) at p))
      | inr there ↦
          (rw original there, nothing_missing refs (rw (original, there) at p) (rw original at q))
    ]
  ]

  append_nil_left : (xs ys : List ℕ) → xs ++ ys ≡ [] → xs ≡ []
  append_nil_left [] ys e = refl
  append_nil_left (x ∷ xs) ys e = absurd (cc)

  append_nil_right : (xs ys : List ℕ) → xs ++ ys ≡ [] → ys ≡ []
  append_nil_right [] ys e = e
  append_nil_right (x ∷ xs) ys e = absurd (cc)

  check_none_nil : (xs : List ℕ) (u : Unit {0}) → check_none xs ≡ ok u → xs ≡ []
  check_none_nil [] u e = refl
  check_none_nil (x ∷ xs) u e = absurd (cc)

  found_of_none : {A : Type 0} (o : Option A) → is_none o ≡ false → (a : A) × (o ≡ some a)
  found_of_none none e = absurd (cc)
  found_of_none (some a) e = (a, refl)

  file_there :
      HasFiles t → (v : VolumeRef) → IsThere v → (f : StoredFile) × (get_file_from_ref v t ≡ some f)
  unfolding get_file_from_ref
  file_there hf v there = elim (Bool-cases v.use_latest) [
    | inl latest ↦
        (let (tag, e) = found_of_none (get_file_tag v.ref t) (rw latest at there) in
          let (f, ef) = found_of_none (t.files tag.file_hash) (hf.tags v.ref tag e) in
          (f, rw (latest, e) ef))
    | inr original ↦
        (let (pin, e) = found_of_none (get_message_file_pin v.ref t) (rw original at there) in
          let (f, ef) = found_of_none (t.files pin.file_hash) (hf.pins v.ref pin e) in
          (f, rw (original, e) ef))
  ]

  sum_there :
      HasFiles t
      → (refs : List VolumeRef) → All IsThere refs
      → (n : ℕ) × (sum_of_refs refs t ≡ ok n)
  unfolding sum_of_refs
  sum_there hf [] a = (0, refl)
  sum_there hf (v ∷ refs) a =
      let (f, ef) = file_there hf v a.0 in
      let (n, en) = sum_there hf refs a.1 in (f.size + n, rw (ef, en) refl)

  All-left : {A : Type 0} (P : A → Type 0) (xs ys : List A) → All P (xs ++ ys) → All P xs
  All-left P [] ys a = tt
  All-left P (x ∷ xs) ys a = (a.0, All-left P xs ys a.1)

  All-right : {A : Type 0} (P : A → Type 0) (xs ys : List A) → All P (xs ++ ys) → All P ys
  All-right P [] ys a = a
  All-right P (x ∷ xs) ys a = All-right P xs ys a.1

  immutable-IsThere :
      (volumes : List Volume)
      → All IsThere (volume_refs volumes)
      → All IsThere (immutable_refs volumes)
  immutable-IsThere [] a = tt
  immutable-IsThere (immutable c m ref ∷ volumes) a = (a.0, immutable-IsThere volumes a.1)
  immutable-IsThere (ephemeral c m n ∷ volumes) a = immutable-IsThere volumes a
  immutable-IsThere (persistent c m v ∷ volumes) a =
      immutable-IsThere volumes (elim (Option-cases v.parent) [
        | inl alone ↦ rw alone at a
        | inr (parent, found) ↦
            (let both : All IsThere (parent ∷ volume_refs volumes) = rw found at a in both.1)
      ])

  kind-IsThere : (kind : VmKind) → All IsThere (kind_refs kind) → All IsThere (ref_volumes kind)
  kind-IsThere (program_content p) a = a
  kind-IsThere (instance_content i) a = tt

  -- If the dependencies of a machine are there, and the files of all pins and tags are stored, its
  -- volumes have a size, so that the check of the balance, which comes next, does not fail for want of
  -- a file.
  pub check_dependencies-get_volume_size :
      (m : Message) (content : VmContent) (vms : VmTables)
      → HasFiles t
      → vm_content_of m.content ≡ ok content
      → check_dependencies m t vms ≡ ok tt
      → (n : ℕ) × (get_volume_size content t ≡ ok n)
  unfolding check_dependencies find_missing_volumes get_volume_size
  check_dependencies-get_volume_size m content vms hf ec e =
      let run = rw ec at e in
      invert (check_none (find_missing_volumes content t)) _ run λ u eu rest.
        let refs = refs_to_check content in
        let empty : missing_pins refs ++ missing_tags refs ≡ [] =
          check_none_nil (missing_pins refs ++ missing_tags refs) u eu in
        let there : All IsThere refs =
          nothing_missing refs (append_nil_left (missing_pins refs) (missing_tags refs) empty)
            (append_nil_right (missing_pins refs) (missing_tags refs) empty) in
        let kinds =
          kind-IsThere content.kind
            (All-left IsThere (kind_refs content.kind) (volume_refs content.volumes) there) in
        let images =
          immutable-IsThere content.volumes
            (All-right IsThere (kind_refs content.kind) (volume_refs content.volumes) there) in
        let (n, en) = sum_there hf (ref_volumes content.kind ++ immutable_refs content.volumes) (
          All-append IsThere (ref_volumes content.kind) (immutable_refs content.volumes) kinds
            images) in
        (n + (rootfs_size content.kind + sizes content.volumes), rw en refl)
