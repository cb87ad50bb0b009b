-- ===== src/Hypervisor.antt =====
-- src/hypervisor/mod.rs: what a backend is asked for and what it reports.
--
-- Paths are texts, UUIDs and times are numbers, an address is its text.
pub mod Validate
pub mod Mock
use vexa_vm.Common.{ℕ, String, Bool, true, false, Option, none, some, List, [], ◌∷◌}

pub data VmPowerState : Type 0 where
  running : VmPowerState
  paused : VmPowerState
  shutting_down : VmPowerState
  shut_off : VmPowerState
  crashed : VmPowerState
  suspended : VmPowerState
  unknown : VmPowerState

abbrev pub is_active : VmPowerState → Bool
is_active running = true
is_active paused = true
is_active shutting_down = true
is_active suspended = true
is_active shut_off = false
is_active crashed = false
is_active unknown = false

abbrev pub is_running : VmPowerState → Bool
is_running running = true
is_running _ = false

abbrev pub is_paused : VmPowerState → Bool
is_paused paused = true
is_paused _ = false

pub record VmInfo : Type 0 where
  pub name : String
  pub uuid : Option ℕ
  pub power_state : VmPowerState
  pub vcpus : ℕ
  pub memory_mib : ℕ
  pub disk_bytes : ℕ
  pub disk_path : Option String
  pub interface_name : Option String
  pub interface_type : Option String
  pub bridge : Option String
  pub mac_address : Option String
  pub autostart : Bool
  pub persistent : Bool

pub record VmStats : Type 0 where
  pub cpu_time_ns : ℕ
  pub memory_current_bytes : Option ℕ
  pub memory_available_bytes : Option ℕ
  pub disk_read_bytes : ℕ
  pub disk_write_bytes : ℕ
  pub network_rx_bytes : ℕ
  pub network_tx_bytes : ℕ

abbrev pub no_stats : VmStats
no_stats = record {
  cpu_time_ns = 0;
  memory_current_bytes = none;
  memory_available_bytes = none;
  disk_read_bytes = 0;
  disk_write_bytes = 0;
  network_rx_bytes = 0;
  network_tx_bytes = 0;
}

pub data VmImage : Type 0 where
  qcow2 : (path : String) → VmImage
  raw : (path : String) → VmImage
  appliance_raw : (path : String) → VmImage
  installer_iso : (path : String) → VmImage
  unattended_windows_iso :
      (path driver_iso : String) (image_index : ℕ) (driver_version : String) → VmImage
  blank : VmImage

pub data Firmware : Type 0 where
  bios : Firmware
  uefi : Firmware

pub record CreateVmRequest : Type 0 where
  pub name : String
  pub vcpus : ℕ
  pub memory_mib : ℕ
  pub initial_memory_mib : Option ℕ
  pub disk_gib : ℕ
  pub image : VmImage
  pub cloud_init_iso : Option String
  pub guest_tools_socket : Option String
  pub bridge : Option String
  pub tap_name : Option String
  pub mac_address : String
  pub network_limit_mbps : Option ℕ
  pub firmware : Firmware
  pub machine_type : String
  pub autostart : Bool
  pub start : Bool

pub record ResizeVmRequest : Type 0 where
  pub vcpus : Option ℕ
  pub memory_mib : Option ℕ
  pub disk_gib : Option ℕ
  pub network_limit_mbps : Option (Option ℕ)

pub record ReinstallVmRequest : Type 0 where
  pub image : VmImage
  pub disk_gib : ℕ
  pub cloud_init_iso : Option String
  pub guest_tools_socket : Option String
  pub start : Bool

pub data PowerAction : Type 0 where
  start : PowerAction
  shutdown : PowerAction
  force_off : PowerAction
  reboot : PowerAction
  reset : PowerAction
  suspend : PowerAction
  resume : PowerAction

pub record SnapshotRequest : Type 0 where
  pub name : String
  pub description : Option String

pub record SnapshotInfo : Type 0 where
  pub name : String
  pub description : Option String
  pub created_at : Option ℕ
  pub current : Bool

pub record VncTarget : Type 0 where
  pub host : String
  pub port : ℕ
