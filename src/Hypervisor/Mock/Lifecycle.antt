-- ===== src/Hypervisor/Mock/Lifecycle.antt =====
-- What a client sees of a machine from its creation to its deletion.
use vexa_vm.Common.{
  ℕ, ◌≡◌, refl, String, Bool, false, none, some, arith, if◌then◌else◌, Bool-cases, Option-cases,
  inl, inr, str_eq, eq_iff, eq_refl, ap, ◌∙◌, sym,
}
use vexa_vm.Common.Dict.{get, insert, remove, HasKeys, get-insert, get-remove_self, get-remove_ne}
use vexa_vm.Error.{HypervisorError, ok, err, vm_not_found, vm_conflict, Result-cases}
use vexa_vm.Hypervisor.{running, paused, VmInfo, CreateVmRequest, suspend, resume}
use vexa_vm.Hypervisor.Validate.{validate_vm_name, validate_create_request}
use vexa_vm.Hypervisor.Mock.{
  MockVm, MockHypervisor, find_vm, put, with_vm_mut, allocate_vnc_port, get_vm, create_vm, info_of,
  vm_of, delete_vm, power, vnc_target,
}

create-name :
    (r : CreateVmRequest) {u : Unit {0}}
    → validate_create_request r ≡ ok u
    → validate_vm_name r.name ≡ ok tt
unfolding validate_create_request
create-name r e = elim (Result-cases (validate_vm_name r.name)) [
  | inl (u, valid) ↦ valid
  | inr (e', bad) ↦ absurd (ground arith)
]

-- A successful creation, in terms of what is stored.
pub create-stored :
    (r : CreateVmRequest) (uuid : ℕ) (h : MockHypervisor) {info : VmInfo} {h' : MockHypervisor}
    → create_vm r uuid h ≡ (ok info, h')
    → (validate_vm_name r.name ≡ ok tt)
      × (get r.name h.inner ≡ none)
      × (info ≡ info_of r uuid)
      × (h'.inner ≡ insert r.name (vm_of r uuid h.next_vnc_port) h.inner)
unfolding create_vm allocate_vnc_port
create-stored r uuid h e = elim (Result-cases (validate_create_request r)) [
  | inl (u, valid) ↦ (create-name r valid, ground arith, ground arith, ground arith)
  | inr (e', bad) ↦ absurd (ground arith)
]

-- A machine that was created is found with the information that the creation returned, and every
-- other name is looked up as before, with all that is stored of its machine.
pub create_vm-get_vm :
    (r : CreateVmRequest) (uuid : ℕ) (h : MockHypervisor) {info : VmInfo} {h' : MockHypervisor}
    → create_vm r uuid h ≡ (ok info, h')
    → (get_vm r.name h' ≡ ok info)
      × ((other : String) → str_eq r.name other ≡ false → find_vm other h' ≡ find_vm other h)
unfolding get_vm find_vm
create_vm-get_vm r uuid h {info} {h'} e =
    let s = create-stored r uuid h e in
    let (valid, absent, same, table) = s in
    (
      rw (valid, table)
          (ground (
            arith,
            get-insert r.name r.name (vm_of r uuid h.next_vnc_port) h.inner,
            eq_refl r.name,
          )),
      λ other ne.
          rw (table, get-insert r.name other (vm_of r uuid h.next_vnc_port) h.inner, ne) refl,
    )

-- A creation that fails stores nothing and changes no machine.
pub create_vm-fails :
    (r : CreateVmRequest) (uuid : ℕ) (h : MockHypervisor) {e : HypervisorError}
    {h' : MockHypervisor}
    → create_vm r uuid h ≡ (err e, h')
    → h'.inner ≡ h.inner
unfolding create_vm allocate_vnc_port
create_vm-fails r uuid h e = elim (Result-cases (validate_create_request r)) [
  | inl (u, valid) ↦ elim (Option-cases (get r.name h.inner)) [
    | inl absent ↦ ground arith
    | inr (vm, there) ↦ ground arith
  ]
  | inr (e', bad) ↦ ground arith
]

pub find_vm-valid :
    (name : String) (h : MockHypervisor) {vm : MockVm}
    → find_vm name h ≡ ok vm
    → (validate_vm_name name ≡ ok tt) × (get name h.inner ≡ some vm)
unfolding find_vm
find_vm-valid name h e = elim (Result-cases (validate_vm_name name)) [
  | inl (u, valid) ↦ elim (Option-cases (get name h.inner)) [
    | inl absent ↦ absurd (ground arith)
    | inr (vm, there) ↦ (valid, ground arith)
  ]
  | inr (e', bad) ↦ absurd (ground arith)
]

-- A write to the table, as lookups see it.
pub find_vm-put :
    (name other : String) (vm : MockVm) (h : MockHypervisor)
    → validate_vm_name name ≡ ok tt
    → find_vm other (put name vm h) ≡ (if str_eq name other then ok vm else find_vm other h)
unfolding find_vm
find_vm-put name other vm h valid = elim (Bool-cases (str_eq name other)) [
  | inl same ↦
      let eq : name ≡ other = (eq_iff name other).0 same in
      rw (get-insert name other vm h.inner, same, ← eq, valid) refl
  | inr ne ↦ rw (get-insert name other vm h.inner, ne) refl
]

find_vm-removed :
    (name other : String) (h h' : MockHypervisor)
    → HasKeys h.inner
    → h'.inner ≡ remove name h.inner
    → validate_vm_name name ≡ ok tt
    → find_vm other h' ≡ (if str_eq name other then err (vm_not_found name) else find_vm other h)
unfolding find_vm
find_vm-removed name other h h' keys table valid = elim (Bool-cases (str_eq name other)) [
  | inl same ↦
      let eq : name ≡ other = (eq_iff name other).0 same in
      let valid' : validate_vm_name other ≡ ok tt = rw (← eq) valid in
      let gone : get other (remove name h.inner) ≡ none =
        rw (← eq) (get-remove_self name h.inner keys) in
      rw (table, valid', gone, same) (ap (λ n. err (vm_not_found n)) (sym eq))
  | inr ne ↦ rw (table, ne, get-remove_ne name other h.inner ne) refl
]

-- A deletion that succeeds removes that machine alone: its name is then unknown, and every other
-- name is looked up as before.
pub delete_vm-find_vm :
    (name : String) (storage : Bool) (h : MockHypervisor) {h' : MockHypervisor} (other : String)
    → HasKeys h.inner
    → delete_vm name storage h ≡ (ok tt, h')
    → find_vm other h' ≡ (if str_eq name other then err (vm_not_found name) else find_vm other h)
unfolding delete_vm
delete_vm-find_vm name storage h {h'} other keys e = elim (Result-cases (find_vm name h)) [
  | inl (vm, found) ↦
      let table : h'.inner ≡ remove name h.inner = ground arith in
      find_vm-removed name other h h' keys table (find_vm-valid name h found).0
  | inr (e', bad) ↦ absurd (ground arith)
]

put_twice :
    (name other : String) (vm off : MockVm) (h : MockHypervisor)
    → find_vm name h ≡ ok vm
    → find_vm other (put name vm (put name off h)) ≡ find_vm other h
put_twice name other vm off h found =
    let valid = (find_vm-valid name h found).0 in
    elim (Bool-cases (str_eq name other)) [
      | inl same ↦
          let eq : name ≡ other = (eq_iff name other).0 same in
          find_vm-put name other vm (put name off h) valid ∙ rw (same, ← eq, found) refl
      | inr ne ↦
          find_vm-put name other vm (put name off h) valid
          ∙ rw (ne, find_vm-put name other off h valid, ne) refl
    ]

-- A running machine that is suspended has no console; resumed, it is again what it was, and so is
-- every other machine.
pub suspend-resume :
    (name : String) (h : MockHypervisor) {vm : MockVm} {info : VmInfo} {h' : MockHypervisor}
    → find_vm name h ≡ ok vm
    → vm.info.power_state ≡ running
    → power name suspend h ≡ (ok info, h')
    → (vnc_target name h' ≡ err (vm_conflict "VNC is available only while the VM is running"))
      × ((power name resume h').0 ≡ ok vm.info)
      × ((other : String) → find_vm other (power name resume h').1 ≡ find_vm other h)
unfolding power with_vm_mut vnc_target
suspend-resume name h {vm} {info} {h'} found on e =
    let valid = (find_vm-valid name h found).0 in
    let off : MockVm = record vm { info = record vm.info { power_state = paused } } in
    let left : h' ≡ put name off h = ground arith in
    let held : find_vm name (put name off h) ≡ ok off =
      find_vm-put name name off h valid ∙ rw (eq_refl name) in
    let back : record vm { info = record vm.info { power_state = running } } ≡ vm = ground arith in
    rw left (
      ground (arith, held),
      ground (arith, held),
      λ other.
          let after : (power name resume (put name off h)).1 ≡ put name vm (put name off h) =
            ground (arith, held, back) in
          rw after (put_twice name other vm off h found),
    )
