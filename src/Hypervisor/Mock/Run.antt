-- ===== src/Hypervisor/Mock/Run.antt =====
-- Any sequence of operations keeps a valid backend valid.
use vexa_vm.Common.Chars.{codes}
use vexa_vm.Common.{
  ℕ, ◌+◌, ◌^◌, ◌≡◌, ◌≤◌, ◌<◌, refl, String, Bool, List, [], ◌∷◌, arith, Bool-cases, inl, inr,
  length,
}
use vexa_vm.Error.{Result, HypervisorResult, ok, Result-cases}
use vexa_vm.Hypervisor.{CreateVmRequest, SnapshotRequest}
use vexa_vm.Hypervisor.Validate.{outside, validate_resize_request, validate_snapshot_name}
use vexa_vm.Hypervisor.Validate.Bounds.{resize_request-bounds}
use vexa_vm.Hypervisor.Mock.{
  MockVm, MockHypervisor, find_vm, with_vm_mut, set_stats, create_vm, delete_vm, power, power_vm,
  resize, resize_vm, set_memory_balloon, balloon_vm, reinstall, reinstall_vm, set_network_enabled,
  allocate_vnc_port,
}
use vexa_vm.Hypervisor.Mock.SnapshotOps.{
  create_snapshot, snapshot_vm, revert_snapshot, revert_vm, delete_snapshot, forget_vm,
}
use vexa_vm.Hypervisor.Mock.Seed.{detach_seed_media, detach_vm, is_absolute}
use vexa_vm.Hypervisor.Mock.Snapshots.{snapshot_vm-IsMarked, revert_vm-IsMarked, forget_vm-IsMarked}
use vexa_vm.Hypervisor.Mock.Valid.{IsValid, with_vm_mut-IsValid}
use vexa_vm.Hypervisor.Mock.Create.{create-IsValid, delete-IsValid}
use vexa_vm.Hypervisor.Mock.Operations.{
  Op, create, delete, set_power, set_size, balloon, rebuild, network, sample_stats, take_snapshot,
  revert, forget, detach, perform, perform_all, Alike, Alike-IsSound, power_vm-IsSound,
  balloon_vm-IsSound, resize_vm-IsSound, reinstall_vm-IsSound, detach_vm-IsSound,
}

snapshot_vm-Alike :
    (r : SnapshotRequest) (now : ℕ) (vm : MockVm) → Alike (snapshot_vm r now vm).1 vm
snapshot_vm-Alike r now vm = ground arith

revert_vm-Alike : (name snapshot : String) (vm : MockVm) → Alike (revert_vm name snapshot vm).1 vm
revert_vm-Alike name snapshot vm = ground arith

forget_vm-Alike : (name snapshot : String) (vm : MockVm) → Alike (forget_vm name snapshot vm).1 vm
forget_vm-Alike name snapshot vm = ground arith

pub perform-IsValid :
    (op : Op) (h : MockHypervisor)
    → h.next_vnc_port + 1 < 2 ^ 32
    → IsValid h
    → IsValid (perform op h)
unfolding perform power set_memory_balloon set_network_enabled set_stats resize reinstall
    create_snapshot revert_snapshot delete_snapshot detach_seed_media
perform-IsValid (create r uuid) h room valid = create-IsValid r uuid h room valid
perform-IsValid (delete name storage) h room valid = delete-IsValid name storage h valid
perform-IsValid (set_power name action) h room valid =
    with_vm_mut-IsValid name (power_vm action) h
      (λ vm s. power_vm-IsSound name h.next_vnc_port vm s action) valid
perform-IsValid (set_size name r) h room valid = elim (Result-cases (validate_resize_request r)) [
  | inl (u, good) ↦
      rw (good, perform, resize)
        (with_vm_mut-IsValid name (resize_vm r) h
          (λ vm s. resize_vm-IsSound name h.next_vnc_port vm s r (resize_request-bounds r good))
          valid)
  | inr (e, bad) ↦ rw (bad, perform, resize) valid
]
perform-IsValid (balloon name target) h room valid =
    with_vm_mut-IsValid name (balloon_vm target) h
      (λ vm s. balloon_vm-IsSound name h.next_vnc_port vm s target) valid
perform-IsValid (rebuild name r) h room valid = elim (Bool-cases (outside 1 1048576 r.disk_gib)) [
  | inl bad ↦ rw (bad, perform, reinstall) valid
  | inr good ↦
      rw (good, perform, reinstall)
        (with_vm_mut-IsValid name (reinstall_vm r) h
          (λ vm s. reinstall_vm-IsSound name h.next_vnc_port vm s r good) valid)
]
perform-IsValid (network name enabled) h room valid =
    with_vm_mut-IsValid name (λ vm. (ok tt, record vm { network_enabled = enabled })) h
      (λ vm s.
        Alike-IsSound name h.next_vnc_port vm s (record vm { network_enabled = enabled })
          (refl, refl, refl, refl, refl) s.marked)
      valid
perform-IsValid (sample_stats name stats) h room valid =
    with_vm_mut-IsValid name (λ vm. (ok tt, record vm { stats = stats })) h
      (λ vm s.
        Alike-IsSound name h.next_vnc_port vm s (record vm { stats = stats })
          (refl, refl, refl, refl, refl) s.marked)
      valid
perform-IsValid (take_snapshot name r now) h room valid =
    elim (Result-cases (validate_snapshot_name r.name)) [
      | inl (u, good) ↦
          rw (good, perform, create_snapshot)
            (with_vm_mut-IsValid name (snapshot_vm r now) h
              (λ vm s.
                Alike-IsSound name h.next_vnc_port vm s (snapshot_vm r now vm).1
                  (snapshot_vm-Alike r now vm) (snapshot_vm-IsMarked r now vm s.marked))
              valid)
      | inr (e, bad) ↦ rw (bad, perform, create_snapshot) valid
    ]
perform-IsValid (revert name snapshot) h room valid =
    elim (Result-cases (validate_snapshot_name snapshot)) [
      | inl (u, good) ↦
          rw (good, perform, revert_snapshot)
            (with_vm_mut-IsValid name (revert_vm name snapshot) h
              (λ vm s.
                Alike-IsSound name h.next_vnc_port vm s (revert_vm name snapshot vm).1
                  (revert_vm-Alike name snapshot vm) (revert_vm-IsMarked name snapshot vm s.marked))
              valid)
      | inr (e, bad) ↦ rw (bad, perform, revert_snapshot) valid
    ]
perform-IsValid (forget name snapshot) h room valid =
    elim (Result-cases (validate_snapshot_name snapshot)) [
      | inl (u, good) ↦
          rw (good, perform, delete_snapshot)
            (with_vm_mut-IsValid name (forget_vm name snapshot) h
              (λ vm s.
                Alike-IsSound name h.next_vnc_port vm s (forget_vm name snapshot vm).1
                  (forget_vm-Alike name snapshot vm) (forget_vm-IsMarked name snapshot vm s.marked))
              valid)
      | inr (e, bad) ↦ rw (bad, perform, delete_snapshot) valid
    ]
perform-IsValid (detach name source) h room valid = elim (Bool-cases (is_absolute (codes source))) [
  | inl good ↦
      rw (good, perform, detach_seed_media)
        (with_vm_mut-IsValid name (detach_vm source) h
          (λ vm s. detach_vm-IsSound name h.next_vnc_port vm s source) valid)
  | inr bad ↦ rw (bad, perform, detach_seed_media) valid
]

with_vm_mut-next_vnc_port :
    {T : Type 0} (name : String) (apply : MockVm → HypervisorResult T × MockVm) (h : MockHypervisor)
    → (with_vm_mut name apply h).1.next_vnc_port ≡ h.next_vnc_port
unfolding with_vm_mut
with_vm_mut-next_vnc_port name apply h = elim (Result-cases (find_vm name h)) [
  | inl (vm, found) ↦ rw (found, with_vm_mut)
  | inr (e, absent) ↦ rw (absent, with_vm_mut)
]

create-next_vnc_port :
    (r : CreateVmRequest) (uuid : ℕ) (h : MockHypervisor)
    → (create_vm r uuid h).1.next_vnc_port ≤ h.next_vnc_port + 1
unfolding create_vm allocate_vnc_port
create-next_vnc_port r uuid h = ground arith

delete-next_vnc_port :
    (name : String) (storage : Bool) (h : MockHypervisor)
    → (delete_vm name storage h).1.next_vnc_port ≡ h.next_vnc_port
unfolding delete_vm
delete-next_vnc_port name storage h = ground arith

pub perform-next_vnc_port :
    (op : Op) (h : MockHypervisor) → (perform op h).next_vnc_port ≤ h.next_vnc_port + 1
unfolding perform power set_memory_balloon set_network_enabled set_stats resize reinstall
    create_snapshot revert_snapshot delete_snapshot detach_seed_media
perform-next_vnc_port (create r uuid) h = create-next_vnc_port r uuid h
perform-next_vnc_port (delete name storage) h = omega (arith, delete-next_vnc_port name storage h)
perform-next_vnc_port (set_power name action) h =
    omega (arith, with_vm_mut-next_vnc_port name (power_vm action) h)
perform-next_vnc_port (set_size name r) h =
    ground (arith, with_vm_mut-next_vnc_port name (resize_vm r) h)
perform-next_vnc_port (balloon name target) h =
    omega (arith, with_vm_mut-next_vnc_port name (balloon_vm target) h)
perform-next_vnc_port (rebuild name r) h =
    ground (arith, with_vm_mut-next_vnc_port name (reinstall_vm r) h)
perform-next_vnc_port (network name enabled) h = omega (
  arith,
  with_vm_mut-next_vnc_port name (λ vm. (Result.ok tt, record vm { network_enabled = enabled })) h,
)
perform-next_vnc_port (sample_stats name stats) h =
    omega
      (arith, with_vm_mut-next_vnc_port name (λ vm. (Result.ok tt, record vm { stats = stats })) h)
perform-next_vnc_port (take_snapshot name r now) h =
    ground (arith, with_vm_mut-next_vnc_port name (snapshot_vm r now) h)
perform-next_vnc_port (revert name snapshot) h =
    ground (arith, with_vm_mut-next_vnc_port name (revert_vm name snapshot) h)
perform-next_vnc_port (forget name snapshot) h =
    ground (arith, with_vm_mut-next_vnc_port name (forget_vm name snapshot) h)
perform-next_vnc_port (detach name source) h =
    ground (arith, with_vm_mut-next_vnc_port name (detach_vm source) h)

-- Any sequence of the twelve operations that change the backend keeps it valid, whatever they
-- return, as long as it is too short for the counter of console ports to wrap around at 2^32: every
-- machine then bears its key as its name, has 1 to 512 processors, 256 MiB to 16 TiB of memory and
-- 1 GiB to 1 PiB of disk, a console port of its own between 5901 and 65535, snapshots of distinct
-- names, and exactly one that is current if it has any.
pub perform_all-IsValid :
    (ops : List Op) (h : MockHypervisor)
    → h.next_vnc_port + length ops < 2 ^ 32
    → IsValid h
    → IsValid (perform_all ops h)
unfolding perform_all
perform_all-IsValid [] h room valid = valid
perform_all-IsValid (op ∷ ops) h room valid =
    perform_all-IsValid ops (perform op h) (omega (arith, perform-next_vnc_port op h))
      (perform-IsValid op h (omega arith) valid)
