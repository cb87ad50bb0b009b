-- ===== src/Hypervisor/Mock.antt =====
-- src/hypervisor/mock.rs: the backend that keeps its virtual machines in memory.
--
-- An operation runs under the lock, and returns its result with the state that it leaves, on errors
-- too. `MockVm` is changed in place, so a closure that fails keeps what it has already written.
-- `uuid` is the value that `Uuid::new_v4` draws, and `now` the time that `Utc::now` reads.
pub mod SnapshotOps
pub mod Seed
mod Snapshots
mod Operations
mod Create
mod Run
mod Valid
mod Lifecycle
mod Resize
mod Tests
use vexa_vm.Common.Chars.{codes, split}
use vexa_vm.Common.{
  ℕ, ◌+◌, ◌-◌, ◌*◌, ◌^◌, ◌%◌, min, Bool, String, str_append, true, false, ◌&&◌, ◌||◌, not, Option,
  none, some, List, [], ◌∷◌, ◌++◌, if◌then◌else◌, ltb, leb, ◌==◌, str_eq, length, any, map, retain,
  last_set,
}
use vexa_vm.Common.Dict.{get, insert, remove}
use vexa_vm.Error.{
  Result, HypervisorResult, ok, err, invalid_input, vm_not_found, vm_conflict, backend_unavailable,
  ◌>>=◌, ◌>>◌, reject_if,
}
use vexa_vm.Hypervisor.{
  VmPowerState, running, paused, shut_off, is_active, is_running, is_paused, VmInfo, VmStats,
  no_stats, VmImage, CreateVmRequest, ResizeVmRequest, ReinstallVmRequest, PowerAction, shutdown,
  force_off, reboot, suspend, resume, SnapshotRequest, SnapshotInfo, VncTarget,
}
use vexa_vm.Hypervisor.Validate.{
  outside, validate_vm_name, validate_snapshot_name, validate_create_request,
  validate_resize_request,
}

pub record MockVm : Type 0 where
  pub info : VmInfo
  pub image : VmImage
  pub cloud_init_iso : Option String
  pub stats : VmStats
  pub snapshots : List SnapshotInfo
  pub vnc_port : ℕ
  pub network_enabled : Bool

-- `HashMap<String, MockVm>` and an `AtomicU32`.
pub record MockHypervisor : Type 0 where
  pub inner : List (String × MockVm)
  pub next_vnc_port : ℕ

abbrev pub new : MockHypervisor
new = record { inner = []; next_vnc_port = 5901 }

-- `n.saturating_mul(GIB)` on u64.
abbrev pub gib : ℕ → ℕ
gib n = min (n * 1073741824) (2 ^ 64 - 1)

-- `validate_vm_name(name)?` and then `get(name).ok_or_else(NotFound)`.
unfoldable pub find_vm : String → MockHypervisor → HypervisorResult MockVm
find_vm name h = do
  validate_vm_name name
  elim (get name h.inner) [ none ↦ err (vm_not_found name) | some vm ↦ ok vm ]

abbrev pub put : String → MockVm → MockHypervisor → MockHypervisor
put name vm h = record h { inner = insert name vm h.inner }

unfoldable pub with_vm_mut :
    {T : Type 0}
    → String
    → (MockVm → HypervisorResult T × MockVm)
    → MockHypervisor
    → HypervisorResult T × MockHypervisor
with_vm_mut name apply h = elim (find_vm name h) [
  | err e ↦ (err e, h)
  | ok vm ↦ ((apply vm).0, put name (apply vm).1 h)
]

unfoldable pub set_stats :
    String → VmStats → MockHypervisor → HypervisorResult (Unit {0}) × MockHypervisor
set_stats name stats h = with_vm_mut name (λ vm. (ok tt, record vm { stats = stats })) h

unfoldable pub network_enabled : String → MockHypervisor → HypervisorResult Bool
network_enabled name h = do vm ← find_vm name h; ok vm.network_enabled

-- `fetch_add` wraps around at 2^32; `u16::try_from` refuses what does not fit.
unfoldable pub allocate_vnc_port : MockHypervisor → HypervisorResult ℕ × MockHypervisor
allocate_vnc_port h =
    let raw = h.next_vnc_port in
    let h' = record h { next_vnc_port = (raw + 1) % 2 ^ 32 } in
    if ltb raw 65536
    then (ok raw, h')
    else (err (backend_unavailable "mock VNC port space is exhausted"), h')

unfoldable pub get_vm : String → MockHypervisor → HypervisorResult VmInfo
get_vm name h = do vm ← find_vm name h; ok vm.info

abbrev pub state_of : Bool → VmPowerState
state_of start = if start then running else shut_off

abbrev or_default : Option String → String → String
or_default none s = s
or_default (some t) s = t

abbrev pub info_of : CreateVmRequest → ℕ → VmInfo
info_of r uuid = record {
  name = r.name;
  uuid = some uuid;
  power_state = state_of r.start;
  vcpus = r.vcpus;
  memory_mib = r.memory_mib;
  disk_bytes = gib r.disk_gib;
  disk_path = some (str_append "/var/lib/vexa-vm/mock/" (str_append r.name ".qcow2"));
  interface_name = none;
  interface_type = some "bridge";
  bridge = some (or_default r.bridge "vexa-mock");
  mac_address = some r.mac_address;
  autostart = r.autostart;
  persistent = true;
}

abbrev pub vm_of : CreateVmRequest → ℕ → ℕ → MockVm
vm_of r uuid port = record {
  info = info_of r uuid;
  image = r.image;
  cloud_init_iso = r.cloud_init_iso;
  stats = no_stats;
  snapshots = [];
  vnc_port = port;
  network_enabled = true;
}

unfoldable pub create_vm :
    CreateVmRequest → ℕ → MockHypervisor → HypervisorResult VmInfo × MockHypervisor
create_vm r uuid h = elim (validate_create_request r) [
  | err e ↦ (err e, h)
  | ok _ ↦ elim (get r.name h.inner) [
    | some vm ↦ (err (vm_conflict (str_append "VM '" (str_append r.name "' already exists"))), h)
    | none ↦ elim (allocate_vnc_port h).0 [
      | err e ↦ (err e, (allocate_vnc_port h).1)
      | ok port ↦ (ok (info_of r uuid), put r.name (vm_of r uuid port) (allocate_vnc_port h).1)
    ]
  ]
]

unfoldable pub delete_vm :
    String → Bool → MockHypervisor → HypervisorResult (Unit {0}) × MockHypervisor
delete_vm name delete_storage h = elim (find_vm name h) [
  | err e ↦ (err e, h)
  | ok vm ↦ (ok tt, record h { inner = remove name h.inner })
]

abbrev set_state : VmPowerState → MockVm → MockVm
set_state s vm = record vm { info = record vm.info { power_state = s } }

-- The new state, or why there is none.
abbrev pub next_state : PowerAction → VmPowerState → HypervisorResult VmPowerState
next_state PowerAction.start s = ok running
next_state reboot s = ok running
next_state PowerAction.reset s = ok running
next_state shutdown s = ok shut_off
next_state force_off s = ok shut_off
next_state suspend s =
    if not (is_active s) then err (vm_conflict "a stopped VM cannot be suspended") else ok paused
next_state resume s =
    if not (is_paused s) then err (vm_conflict "only a paused VM can be resumed") else ok running

abbrev pub power_vm : PowerAction → MockVm → HypervisorResult VmInfo × MockVm
power_vm action vm = elim (next_state action vm.info.power_state) [
  | err e ↦ (err e, vm)
  | ok s ↦ (ok (set_state s vm).info, set_state s vm)
]

unfoldable pub power :
    String → PowerAction → MockHypervisor → HypervisorResult VmInfo × MockHypervisor
power name action h = with_vm_mut name (power_vm action) h

abbrev set_vcpus : Option ℕ → VmInfo → VmInfo
set_vcpus none i = i
set_vcpus (some n) i = record i { vcpus = n }

abbrev set_memory : Option ℕ → VmInfo → VmInfo
set_memory none i = i
set_memory (some n) i = record i { memory_mib = n }

abbrev set_disk : Option ℕ → VmInfo → HypervisorResult VmInfo × VmInfo
set_disk none i = (ok i, i)
set_disk (some n) i =
    if ltb (gib n) i.disk_bytes
    then (err (invalid_input "disk shrinking is not supported"), i)
    else (ok (record i { disk_bytes = gib n }), record i { disk_bytes = gib n })

abbrev pub resize_vm : ResizeVmRequest → MockVm → HypervisorResult VmInfo × MockVm
resize_vm r vm =
    let done = set_disk r.disk_gib (set_memory r.memory_mib (set_vcpus r.vcpus vm.info)) in
    (done.0, record vm { info = done.1 })

unfoldable pub resize :
    String → ResizeVmRequest → MockHypervisor → HypervisorResult VmInfo × MockHypervisor
resize name r h = elim (validate_resize_request r) [
  | err e ↦ (err e, h)
  | ok _ ↦ with_vm_mut name (resize_vm r) h
]

abbrev balloon_vm : ℕ → MockVm → HypervisorResult (Unit {0}) × MockVm
balloon_vm target vm =
    if not (is_active vm.info.power_state)
    then (err (vm_conflict "memory ballooning requires a running VM"), vm)
    else if outside 256 vm.info.memory_mib target
    then (err (invalid_input "live balloon target is outside the VM memory entitlement"), vm)
    else (ok tt, vm)

unfoldable pub set_memory_balloon :
    String → ℕ → MockHypervisor → HypervisorResult (Unit {0}) × MockHypervisor
set_memory_balloon name target h = with_vm_mut name (balloon_vm target) h

abbrev pub reinstall_vm : ReinstallVmRequest → MockVm → HypervisorResult VmInfo × MockVm
reinstall_vm r vm =
    let vm' = record vm {
      image = r.image;
      cloud_init_iso = r.cloud_init_iso;
      info = record vm.info { disk_bytes = gib r.disk_gib; power_state = state_of r.start };
      stats = no_stats;
      snapshots = [];
    } in
    (ok vm'.info, vm')

unfoldable pub reinstall :
    String → ReinstallVmRequest → MockHypervisor → HypervisorResult VmInfo × MockHypervisor
reinstall name r h =
    if outside 1 1048576 r.disk_gib
    then (err (invalid_input "disk capacity must be between 1 GiB and 1 PiB"), h)
    else with_vm_mut name (reinstall_vm r) h

unfoldable pub set_network_enabled :
    String → Bool → MockHypervisor → HypervisorResult (Unit {0}) × MockHypervisor
set_network_enabled name enabled h =
    with_vm_mut name (λ vm. (ok tt, record vm { network_enabled = enabled })) h

unfoldable pub stats : String → MockHypervisor → HypervisorResult VmStats
stats name h = do vm ← find_vm name h; ok vm.stats

unfoldable pub vnc_target : String → MockHypervisor → HypervisorResult VncTarget
vnc_target name h = do
  vm ← find_vm name h
  reject_if (not (is_running vm.info.power_state))
      (vm_conflict "VNC is available only while the VM is running")
  ok (record { host = "127.0.0.1"; port = vm.vnc_port })
