-- ===== src/Vms/Versions.antt =====
-- That the table of versions follows the table of machines.
use mathlib.Core.Path.{subst}
use py_aleph.Prelude.{
  ℕ, ◌≡◌, refl, sym, ap, ◌∙◌, Bool, true, false, not, Option, none, some, List, [], ◌∷◌, ◌++◌,
  arith, ◌==◌, if◌then◌else◌, any, keep, first, first-new, first-skip, All, All-append, All-keep,
  equals, is_none, Bool-cases, Option-cases, inl, inr,
}
use py_aleph.Prelude.Keys.{
  IsUnique, IsUnique-append, IsUnique-keep, first-keep, first-none, first-is_key,
}
use py_aleph.Result.{ok, invert, ok_inj}
use py_aleph.Node.{Message, put}
use py_aleph.Vms.{
  Vm, VmTables, VmVersion, is_vm, all_replaced_there, add_vm, delete_where, delete_vm,
  delete_vm_updates, upsert_vm_version, latest_created, version_of, refresh_vm_version,
}
use py_aleph.Vms.Content.{vm_content_of, vm_message_to_db}
use py_aleph.Vms.Handler.{version_for, process_vm_message, forget_vm}

abbrev hash_of : Vm → ℕ
hash_of v = v.item_hash

abbrev pub version_at : Option Vm → Option VmVersion
version_at none = none
version_at (some v) = some (version_of v)

-- The version of each machine is the machine itself, and nothing else has one.
pub record IsVersioned (t : VmTables) : Type 0 where
  pub unique : IsUnique hash_of t.vms
  pub originals : All (λ v. v.replaces ≡ none) t.vms
  pub versions : (h : ℕ) → t.versions h ≡ version_at (first (is_vm h) t.vms)

-- What `add_vm` has tested and done.
add_vm_fresh :
    (v : Vm) (t u : VmTables)
    → add_vm v t ≡ ok u
    → (any (is_vm v.item_hash) t.vms ≡ false) × (record t { vms = t.vms ++ (v ∷ []) } ≡ u)
unfolding add_vm
add_vm_fresh v t u e =
    let vms = t.vms ++ (v ∷ []) in
    elim (Bool-cases (any (is_vm v.item_hash) t.vms)) [
      | inl old ↦ absurd (cc (rw old at e))
      | inr fresh ↦ elim (Bool-cases (all_replaced_there vms vms)) [
        | inl good ↦ (fresh, ok_inj (rw (fresh, good) at e))
        | inr bad ↦ absurd (cc (rw (fresh, bad) at e))
      ]
    ]

IsVersioned-added :
    (v : Vm) (t : VmTables)
    → IsVersioned t
    → v.replaces ≡ none
    → any (is_vm v.item_hash) t.vms ≡ false
    → IsVersioned
        (upsert_vm_version v.item_hash (version_for v) (record t { vms = t.vms ++ (v ∷ []) }))
unfolding upsert_vm_version
IsVersioned-added v t k original fresh =
    let before : t.versions v.item_hash ≡ none =
      k.versions v.item_hash ∙ ap version_at (first-none hash_of (is_vm v.item_hash) t.vms fresh) in
    record {
      unique = IsUnique-append hash_of t.vms v k.unique fresh;
      originals = All-append (λ w. w.replaces ≡ none) t.vms (v ∷ []) k.originals (original, tt);
      versions = λ g. elim (Bool-cases (v.item_hash == g)) [
        | inr other ↦ rw (other, first-skip (is_vm g) t.vms v other) (k.versions g)
        | inl same ↦
            (let eq : v.item_hash ≡ g = ground (arith, same) in
              let new : any (is_vm g) t.vms ≡ false = rw eq at fresh in
              rw (same, first-new (is_vm g) t.vms v new same) (rw (before, original) refl))
      ];
    }

-- Processing a PROGRAM or an INSTANCE, if it does not raise, keeps the versions such that each machine
-- has itself as its version, and nothing else has one, whatever the message says that it replaces.
pub process_vm_message-IsVersioned :
    (m : Message) (t u : VmTables) → process_vm_message m t ≡ ok u → IsVersioned t → IsVersioned u
unfolding process_vm_message vm_message_to_db
process_vm_message-IsVersioned m t u e k = invert (vm_content_of m.content) _ e λ c ec e1.
    invert (add_vm (vm_message_to_db m.item_hash c) t) _ e1 λ w ew e2.
      let v = vm_message_to_db m.item_hash c in
      let (fresh, eq) = add_vm_fresh v t w ew in
      let added = IsVersioned-added v t k refl fresh in
      subst IsVersioned (ap (upsert_vm_version v.item_hash (version_for v)) eq ∙ ok_inj e2) added

delete_where-keep :
    (p : Vm → Bool) (t : VmTables) (d : List ℕ × VmTables)
    → delete_where p t ≡ ok d
    → record t { vms = keep (λ v. not (p v)) t.vms } ≡ d.1
unfolding delete_where
delete_where-keep p t d e =
    let vms = keep (λ v. not (p v)) t.vms in
    elim (Bool-cases (all_replaced_there vms vms)) [
      | inl y ↦ ap (λ x. x.1) (ok_inj (rw y at e))
      | inr n ↦ absurd (cc (rw n at e))
    ]

-- Nothing updates a machine that replaces none.
keep_originals :
    (h : ℕ) (vs : List Vm)
    → All (λ v. v.replaces ≡ none) vs
    → keep (λ v. not (equals v.replaces h)) vs ≡ vs
keep_originals h [] o = refl
keep_originals h (v ∷ vs) o = rw (o.0) (rw (keep_originals h vs o.1) refl)

latest_created-deleted :
    (h : ℕ) (vs : List Vm)
    → All (λ v. v.replaces ≡ none) vs
    → latest_created h (keep (λ v. not (is_vm h v)) vs) ≡ none
latest_created-deleted h [] o = refl
latest_created-deleted h (v ∷ vs) o = elim (Bool-cases (is_vm h v)) [
  | inl gone ↦ rw gone (latest_created-deleted h vs o.1)
  | inr stays ↦ rw stays (rw (o.0) (rw (stays, latest_created-deleted h vs o.1) refl))
]

IsVersioned-deleted :
    (h : ℕ) (t : VmTables)
    → IsVersioned t
    → IsVersioned
        (record { vms = keep (λ v. not (is_vm h v)) t.vms; versions = put t.versions h none })
IsVersioned-deleted h t k = record {
  unique = IsUnique-keep hash_of (λ v. not (is_vm h v)) t.vms k.unique;
  originals = All-keep (λ v. v.replaces ≡ none) (λ v. not (is_vm h v)) t.vms k.originals;
  versions = λ g.
      rw (first-keep hash_of (λ v. not (is_vm h v)) g t.vms k.unique)
        (elim (Option-cases (first (is_vm g) t.vms)) [
          | inl missing ↦ rw missing (elim (Bool-cases (h == g)) [
            | inl y ↦ rw y refl
            | inr n ↦ rw n (k.versions g ∙ ap version_at missing)
          ])
          | inr (v, found) ↦
              (let hash : v.item_hash ≡ g = first-is_key hash_of g t.vms v found in
                rw found (elim (Bool-cases (h == g)) [
                  | inl y ↦
                      (let gone : is_vm h v ≡ true = rw hash (ground (arith, y)) in
                        rw (y, gone) refl)
                  | inr n ↦
                      (let stays : is_vm h v ≡ false = rw hash (ground (arith, n)) in
                        rw (n, stays) (k.versions g ∙ ap version_at found))
                ]))
        ]);
}

-- Of the machines that stay after one is deleted, none is updated by the rest of `forget_message`.
refreshed_deleted :
    (h : ℕ) (t : VmTables)
    → IsVersioned t
    → refresh_vm_version h (record t { vms = keep (λ v. not (is_vm h v)) t.vms })
      ≡ ok (record { vms = keep (λ v. not (is_vm h v)) t.vms; versions = put t.versions h none })
unfolding refresh_vm_version
refreshed_deleted h t k = rw (latest_created-deleted h t.vms k.originals) refl

no_updates :
    (h : ℕ) (t : VmTables) (d : List ℕ × VmTables) (replaces : Option ℕ)
    → All (λ v. v.replaces ≡ none) t.vms
    → (if is_none replaces then delete_vm_updates h t else ok ([], t)) ≡ ok d
    → t ≡ d.1
unfolding delete_vm_updates
no_updates h t d (some r) o e = ap (λ x. x.1) (ok_inj e)
no_updates h t d none o e =
    ap (with_vms t) (sym (keep_originals h t.vms o))
    ∙ delete_where-keep (λ v. equals v.replaces h) t d e
  where
    with_vms : VmTables → List Vm → VmTables
    with_vms t vms = record t { vms = vms }

-- Forgetting a PROGRAM or an INSTANCE, if it does not raise, keeps the versions such that each machine
-- has itself as its version, and nothing else has one.
pub forget_vm-IsVersioned :
    (m : Message) (t u : VmTables) (hashes : List ℕ)
    → forget_vm m t ≡ ok (u, hashes)
    → IsVersioned t
    → IsVersioned u
unfolding forget_vm delete_vm
forget_vm-IsVersioned m t u hashes e k =
    let h = m.item_hash in
    let kept : VmTables = record t { vms = keep (λ v. not (is_vm h v)) t.vms } in
    invert (vm_content_of m.content) _ e λ c ec e1. invert (delete_vm h t) _ e1 λ rest er e2.
      invert (if is_none c.replaces then delete_vm_updates h rest else ok ([], rest)) _ e2
        λ updates eu e3. invert (refresh_vm_version h updates.1) _ e3 λ w ew e4.
          invert (delete_where (is_vm h) t) _ er λ d ed er'.
            let is_kept : kept ≡ rest = delete_where-keep (is_vm h) t d ed ∙ ok_inj er' in
            let originals =
              All-keep (λ v. v.replaces ≡ none) (λ v. not (is_vm h v)) t.vms k.originals in
            let same : rest ≡ updates.1 =
              no_updates h rest updates c.replaces
                (subst (λ x. All (λ v. v.replaces ≡ none) x.vms) is_kept originals) eu in
            let refreshed =
              sym (refreshed_deleted h t k) ∙ (ap (refresh_vm_version h) (is_kept ∙ same) ∙ ew) in
            subst IsVersioned (ok_inj refreshed ∙ ap (λ x. x.0) (ok_inj e4))
              (IsVersioned-deleted h t k)
