-- ===== src/Hypervisor/Mock/SnapshotOps.antt =====
-- src/hypervisor/mock.rs, the snapshots of a machine.
use vexa_vm.Common.{
  ℕ, Bool, String, str_append, true, false, not, some, List, [], ◌∷◌, ◌++◌, if◌then◌else◌, ◌==◌,
  str_eq, length, any, map, retain, last_set,
}
use vexa_vm.Error.{HypervisorResult, ok, err, vm_not_found, vm_conflict, ◌>>=◌}
use vexa_vm.Hypervisor.{VmInfo, SnapshotRequest, SnapshotInfo}
use vexa_vm.Hypervisor.Validate.{validate_snapshot_name}
use vexa_vm.Hypervisor.Mock.{MockVm, MockHypervisor, find_vm, with_vm_mut}

abbrev pub is_named : String → SnapshotInfo → Bool
is_named name s = str_eq s.name name

abbrev pub set_current : Bool → SnapshotInfo → SnapshotInfo
set_current b s = record s { current = b }

abbrev pub snapshot_vm : SnapshotRequest → ℕ → MockVm → HypervisorResult SnapshotInfo × MockVm
snapshot_vm r now vm =
    if any (is_named r.name) vm.snapshots
    then (err (vm_conflict (str_append "snapshot '" (str_append r.name "' already exists"))), vm)
    else (let s : SnapshotInfo = record {
      name = r.name;
      description = r.description;
      created_at = some now;
      current = true;
    } in
        (ok s, record vm { snapshots = map (set_current false) vm.snapshots ++ s ∷ [] }))

unfoldable pub create_snapshot :
    String → SnapshotRequest → ℕ → MockHypervisor → HypervisorResult SnapshotInfo × MockHypervisor
create_snapshot name r now h = elim (validate_snapshot_name r.name) [
  | err e ↦ (err e, h)
  | ok _ ↦ with_vm_mut name (snapshot_vm r now) h
]

unfoldable pub list_snapshots : String → MockHypervisor → HypervisorResult (List SnapshotInfo)
list_snapshots name h = do vm ← find_vm name h; ok vm.snapshots

abbrev missing : {T : Type 0} → String → String → HypervisorResult T
missing name snapshot = err (vm_not_found (str_append name (str_append " snapshot " snapshot)))

abbrev pub revert_vm : String → String → MockVm → HypervisorResult VmInfo × MockVm
revert_vm name snapshot vm =
    if not (any (is_named snapshot) vm.snapshots) then (missing name snapshot, vm) else (
      ok vm.info,
      record vm { snapshots = map (λ s. set_current (is_named snapshot s) s) vm.snapshots },
    )

unfoldable pub revert_snapshot :
    String → String → MockHypervisor → HypervisorResult VmInfo × MockHypervisor
revert_snapshot name snapshot h = elim (validate_snapshot_name snapshot) [
  | err e ↦ (err e, h)
  | ok _ ↦ with_vm_mut name (revert_vm name snapshot) h
]

-- If no snapshot is current, the last one becomes it.
abbrev pub mark_last : List SnapshotInfo → List SnapshotInfo
mark_last ss = if not (any (λ s. s.current) ss) then last_set (set_current true) ss else ss

abbrev pub forget_vm : String → String → MockVm → HypervisorResult (Unit {0}) × MockVm
forget_vm name snapshot vm =
    let kept = retain (λ s. not (is_named snapshot s)) vm.snapshots in
    if length kept == length vm.snapshots
    then (missing name snapshot, record vm { snapshots = kept })
    else (ok tt, record vm { snapshots = mark_last kept })

unfoldable pub delete_snapshot :
    String → String → MockHypervisor → HypervisorResult (Unit {0}) × MockHypervisor
delete_snapshot name snapshot h = elim (validate_snapshot_name snapshot) [
  | err e ↦ (err e, h)
  | ok _ ↦ with_vm_mut name (forget_vm name snapshot) h
]
