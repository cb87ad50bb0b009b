-- ===== src/Hypervisor/Mock/Resize.antt =====
-- What a resize does, and what it leaves when it fails.
use vexa_vm.Common.{
  ℕ, ◌≡◌, refl, String, true, false, Option, none, some, arith, ltb, if◌then◌else◌, Bool-cases, inl,
  inr, str_eq, ap, ◌∙◌,
}
use vexa_vm.Error.{HypervisorResult, ok, err, invalid_input}
use vexa_vm.Hypervisor.{VmInfo, ResizeVmRequest}
use vexa_vm.Hypervisor.Validate.{validate_resize_request}
use vexa_vm.Hypervisor.Mock.{
  MockVm, MockHypervisor, find_vm, put, with_vm_mut, resize, resize_vm, gib,
}
use vexa_vm.Hypervisor.Mock.Lifecycle.{find_vm-valid, find_vm-put}

-- What a resize asks for, or the value that is there.
abbrev pub asked : Option ℕ → ℕ → ℕ
asked none old = old
asked (some new) old = new

abbrev pub asked_bytes : Option ℕ → ℕ → ℕ
asked_bytes none old = old
asked_bytes (some n) old = gib n

-- The machine with the processors and the memory that are asked for.
abbrev pub with_cores : ResizeVmRequest → MockVm → MockVm
with_cores r vm = record vm {
  info = record vm.info {
    vcpus = asked r.vcpus vm.info.vcpus;
    memory_mib = asked r.memory_mib vm.info.memory_mib;
  };
}

-- And with the disk that is asked for.
abbrev pub with_all : ResizeVmRequest → MockVm → MockVm
with_all r vm = record vm {
  info = record vm.info {
    vcpus = asked r.vcpus vm.info.vcpus;
    memory_mib = asked r.memory_mib vm.info.memory_mib;
    disk_bytes = asked_bytes r.disk_gib vm.info.disk_bytes;
  };
}

pub resize_vm_grows :
    (r : ResizeVmRequest) (vm : MockVm)
    → ltb (asked_bytes r.disk_gib vm.info.disk_bytes) vm.info.disk_bytes ≡ false
    → resize_vm r vm ≡ (ok (with_all r vm).info, with_all r vm)
resize_vm_grows r vm h = ground arith

pub resize_vm_shrinks :
    (r : ResizeVmRequest) (vm : MockVm)
    → ltb (asked_bytes r.disk_gib vm.info.disk_bytes) vm.info.disk_bytes ≡ true
    → resize_vm r vm ≡ (err (invalid_input "disk shrinking is not supported"), with_cores r vm)
resize_vm_shrinks r vm h = ground arith

resize_run :
    (name : String) (r : ResizeVmRequest) (h : MockHypervisor) {vm : MockVm} {u : Unit {0}}
    → find_vm name h ≡ ok vm
    → validate_resize_request r ≡ ok u
    → resize name r h ≡ ((resize_vm r vm).0, put name (resize_vm r vm).1 h)
unfolding resize with_vm_mut
resize_run name r h found valid = rw (valid, resize, found, with_vm_mut)

-- On a machine that is there, a valid resize succeeds if the disk it asks for is no smaller than the
-- machine's. It then sets all that is asked for, leaves the rest, and returns what is stored. If the
-- disk would shrink, it fails, leaves the disk, and yet sets the processors and the memory that are
-- asked for. Either way no other machine changes.
pub resize_lem :
    (name : String) (r : ResizeVmRequest) (h : MockHypervisor) {vm : MockVm} {u : Unit {0}}
    → find_vm name h ≡ ok vm
    → validate_resize_request r ≡ ok u
    → ((resize name r h).0 ≡ (
        if ltb (asked_bytes r.disk_gib vm.info.disk_bytes) vm.info.disk_bytes
        then err (invalid_input "disk shrinking is not supported")
        else ok (with_all r vm).info))
      × ((other : String)
          → find_vm other (resize name r h).1 ≡ (
              if str_eq name other
              then ok (
                  if ltb (asked_bytes r.disk_gib vm.info.disk_bytes) vm.info.disk_bytes
                  then with_cores r vm
                  else with_all r vm)
              else find_vm other h))
resize_lem name r h {vm} found valid =
    let there = (find_vm-valid name h found).0 in
    let stored = λ (p : HypervisorResult VmInfo × MockVm) (e : resize_vm r vm ≡ p).
      resize_run name r h found valid
      ∙ ap (λ (q : HypervisorResult VmInfo × MockVm). (q.0, put name q.1 h)) e in
    elim (Bool-cases (ltb (asked_bytes r.disk_gib vm.info.disk_bytes) vm.info.disk_bytes)) [
      | inl small ↦
          rw (small, stored _ (resize_vm_shrinks r vm small))
            (refl, λ other. find_vm-put name other (with_cores r vm) h there)
      | inr fits ↦
          rw (fits, stored _ (resize_vm_grows r vm fits))
            (refl, λ other. find_vm-put name other (with_all r vm) h there)
    ]
