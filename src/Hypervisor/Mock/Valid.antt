-- ===== src/Hypervisor/Mock/Valid.antt =====
-- A state of the backend that operations can reach, and how writes to its table keep it so.
use vexa_vm.Common.{
  ℕ, ◌≡◌, ◌≤◌, ◌<◌, refl, String, some, arith, Bool-cases, inl, inr, str_eq, eq_iff, ap, ◌∙◌, sym,
}
use mathlib.Core.Path.{subst}
use vexa_vm.Common.Dict.{get, insert, HasKeys, get-insert, HasKeys-insert}
use vexa_vm.Error.{HypervisorResult, Result-cases}
use vexa_vm.Hypervisor.Mock.{MockVm, MockHypervisor, find_vm, put, with_vm_mut}
use vexa_vm.Hypervisor.Mock.Snapshots.{IsMarked}
use vexa_vm.Hypervisor.Mock.Lifecycle.{find_vm-valid}

-- A machine bears the name it is stored under, has the processors, the memory and the disk that a
-- request may ask for, a console port that was drawn, and one current snapshot if it has any.
pub record IsSound (name : String) (next : ℕ) (vm : MockVm) : Type 0 where
  pub named : vm.info.name ≡ name
  pub some_cores : 1 ≤ vm.info.vcpus
  pub cores : vm.info.vcpus ≤ 512
  pub some_memory : 256 ≤ vm.info.memory_mib
  pub memory : vm.info.memory_mib ≤ 16777216
  pub some_disk : 1073741824 ≤ vm.info.disk_bytes
  pub disk : vm.info.disk_bytes ≤ 1125899906842624
  pub port : 5901 ≤ vm.vnc_port
  pub port_fits : vm.vnc_port ≤ 65535
  pub port_drawn : vm.vnc_port < next
  pub marked : IsMarked vm.snapshots

-- Every machine is sound, and no two have one console port.
pub record IsValid (h : MockHypervisor) : Type 0 where
  pub keys : HasKeys h.inner
  pub counter : 5901 ≤ h.next_vnc_port
  pub sound :
      (name : String) (vm : MockVm) → get name h.inner ≡ some vm → IsSound name h.next_vnc_port vm
  pub ports :
      (a b : String) (v w : MockVm)
      → get a h.inner ≡ some v
      → get b h.inner ≡ some w
      → v.vnc_port ≡ w.vnc_port
      → a ≡ b

-- A machine that is changed, and keeps its port.
put-IsSound :
    (name : String) (vm : MockVm) (h : MockHypervisor)
    → IsValid h
    → IsSound name h.next_vnc_port vm
    → (other : String) (v : MockVm) → get other (insert name vm h.inner) ≡ some v
    → IsSound other h.next_vnc_port v
put-IsSound name vm h valid s other v e = elim (Bool-cases (str_eq name other)) [
  | inl same ↦
      let eq : name ≡ other = (eq_iff name other).0 same in
      let is : vm ≡ v = ground (arith, get-insert name other vm h.inner) in
      subst (λ (n : String). IsSound n h.next_vnc_port v) eq
        (subst (λ (m : MockVm). IsSound name h.next_vnc_port m) is s)
  | inr ne ↦ valid.sound other v (ground (arith, get-insert name other vm h.inner))
]

-- The machine that had the port of a machine in the changed table.
before :
    (name : String) (vm old : MockVm) (h : MockHypervisor)
    → get name h.inner ≡ some old
    → vm.vnc_port ≡ old.vnc_port
    → (other : String) (v : MockVm) → get other (insert name vm h.inner) ≡ some v
    → (w : MockVm) × (get other h.inner ≡ some w) × (w.vnc_port ≡ v.vnc_port)
before name vm old h there keep other v e = elim (Bool-cases (str_eq name other)) [
  | inl same ↦
      let eq : name ≡ other = (eq_iff name other).0 same in
      let is : vm ≡ v = ground (arith, get-insert name other vm h.inner) in
      (old, rw (← eq) there, sym keep ∙ ap (λ (m : MockVm). m.vnc_port) is)
  | inr ne ↦ (v, ground (arith, get-insert name other vm h.inner), refl)
]

pub put-IsValid :
    (name : String) (vm old : MockVm) (h : MockHypervisor)
    → IsValid h
    → get name h.inner ≡ some old
    → vm.vnc_port ≡ old.vnc_port
    → IsSound name h.next_vnc_port vm
    → IsValid (put name vm h)
put-IsValid name vm old h valid there keep s = record {
  keys = HasKeys-insert name vm h.inner valid.keys;
  counter = valid.counter;
  sound = put-IsSound name vm h valid s;
  ports = λ a b v w ea eb e.
      let (v', fa, pa) = before name vm old h there keep a v ea in
      let (w', fb, pb) = before name vm old h there keep b w eb in
      valid.ports a b v' w' fa fb (omega (arith, pa, pb, e));
}

-- What is left of the obligation of an operation on one machine: that it keeps it sound.
pub with_vm_mut-IsValid :
    {T : Type 0} (name : String) (apply : MockVm → HypervisorResult T × MockVm) (h : MockHypervisor)
    → ((vm : MockVm)
        → IsSound name h.next_vnc_port vm
        → IsSound name h.next_vnc_port (apply vm).1 × ((apply vm).1.vnc_port ≡ vm.vnc_port))
    → IsValid h
    → IsValid (with_vm_mut name apply h).1
unfolding with_vm_mut
with_vm_mut-IsValid name apply h keep valid = elim (Result-cases (find_vm name h)) [
  | inl (vm, found) ↦
      let there = (find_vm-valid name h found).1 in
      let (s, port) = keep vm (valid.sound name vm there) in
      rw (found, with_vm_mut) (put-IsValid name (apply vm).1 vm h valid there port s)
  | inr (e, absent) ↦ rw (absent, with_vm_mut) valid
]
