-- ===== src/Hypervisor/Validate.antt =====
-- src/hypervisor/mod.rs, the checks that every backend makes of a request.
--
-- The source tests bytes, and the model characters: a character that is not ASCII fails each test
-- of a character, as its bytes do.
pub mod Bounds
use vexa_vm.Common.Chars.{codes, is_alphanumeric, is_hexdigit, split}
use vexa_vm.Common.{
  ℕ, ◌*◌, ◌+◌, Bool, String, len, true, false, ◌&&◌, ◌||◌, not, Option, none, some, List, [], ◌∷◌,
  if◌then◌else◌, ltb, leb, ◌==◌, str_eq, length, all, any,
}
use vexa_vm.Error.{HypervisorResult, ok, err, invalid_input, ◌>>=◌, ◌>>◌, reject_if}
use vexa_vm.Db.{is_some}
use vexa_vm.Hypervisor.{CreateVmRequest, ResizeVmRequest}

abbrev pub is_safe : ℕ → Bool
is_safe c = is_alphanumeric c || c == b'.' || c == b'_' || c == b'-'

abbrev pub starts_alphanumeric : List ℕ → Bool
starts_alphanumeric [] = false
starts_alphanumeric (c ∷ cs) = is_alphanumeric c

unfoldable pub validate_vm_name : String → HypervisorResult (Unit {0})
validate_vm_name name = do
  reject_if (len name == 0 || ltb 63 (len name))
      (invalid_input "VM name must contain between 1 and 63 characters")
  reject_if (not (starts_alphanumeric (codes name)) || not (all is_safe (codes name))) (
      invalid_input
        "VM name may contain only ASCII letters, numbers, '.', '_' and '-', and must start with a letter or number")

unfoldable pub validate_snapshot_name : String → HypervisorResult (Unit {0})
validate_snapshot_name name =
    reject_if (len name == 0 || ltb 80 (len name) || not (all is_safe (codes name)))
      (invalid_input "snapshot name must contain 1-80 safe ASCII characters")

unfoldable pub validate_bridge_name : String → HypervisorResult (Unit {0})
validate_bridge_name name =
    reject_if (len name == 0 || ltb 15 (len name) || not (all is_safe (codes name)))
      (invalid_input "bridge must be a Linux interface name of at most 15 safe ASCII characters")

unfoldable pub validate_mac_address : String → HypervisorResult (Unit {0})
validate_mac_address mac =
    let parts = split b':' (codes mac) in
    reject_if
      (not (length parts == 6)
        || any (λ part. not (length part == 2) || not (all is_hexdigit part)) parts)
      (invalid_input "MAC address must use six colon-separated hexadecimal octets")

-- `!(low..=high).contains(&value)`.
abbrev pub outside : ℕ → ℕ → ℕ → Bool
outside low high value = ltb value low || ltb high value

abbrev pub outside_some : ℕ → ℕ → Option ℕ → Bool
outside_some low high none = false
outside_some low high (some value) = outside low high value

abbrev validate_bridge : Option String → HypervisorResult (Unit {0})
validate_bridge none = ok tt
validate_bridge (some name) = validate_bridge_name name

abbrev validate_tap : Option String → Option String → HypervisorResult (Unit {0})
validate_tap bridge none = ok tt
validate_tap bridge (some name) = do
  validate_bridge_name name
  reject_if (is_some bridge)
      (invalid_input "bridge and persistent tap modes are mutually exclusive")

abbrev is_zero : Option ℕ → Bool
is_zero none = false
is_zero (some n) = n == 0

abbrev is_some_zero : Option (Option ℕ) → Bool
is_some_zero none = false
is_some_zero (some limit) = is_zero limit

unfoldable pub validate_create_request : CreateVmRequest → HypervisorResult (Unit {0})
validate_create_request r = do
  validate_vm_name r.name
  validate_mac_address r.mac_address
  validate_bridge r.bridge
  validate_tap r.bridge r.tap_name
  reject_if (outside 1 512 r.vcpus) (invalid_input "vCPU count must be between 1 and 512")
  reject_if (outside 256 16777216 r.memory_mib)
      (invalid_input "memory must be between 256 MiB and 16 TiB")
  reject_if (outside_some 256 r.memory_mib r.initial_memory_mib)
      (invalid_input "initial balloon memory must be between 256 MiB and the VM memory entitlement")
  reject_if (outside 1 1048576 r.disk_gib)
      (invalid_input "disk capacity must be between 1 GiB and 1 PiB")
  reject_if (is_zero r.network_limit_mbps)
      (invalid_input "network speed limit must be greater than zero")
  reject_if (not (str_eq r.machine_type "q35" || str_eq r.machine_type "i440fx"))
      (invalid_input "machine type must be q35 or i440fx")

unfoldable pub validate_resize_request : ResizeVmRequest → HypervisorResult (Unit {0})
validate_resize_request r = do
  reject_if
      (not (is_some r.vcpus)
        && not (is_some r.memory_mib)
        && not (is_some r.disk_gib)
        && not (is_some r.network_limit_mbps))
      (invalid_input "at least one resize value is required")
  reject_if (outside_some 1 512 r.vcpus) (invalid_input "vCPU count must be between 1 and 512")
  reject_if (outside_some 256 16777216 r.memory_mib)
      (invalid_input "memory must be between 256 MiB and 16 TiB")
  reject_if (outside_some 1 1048576 r.disk_gib)
      (invalid_input "disk capacity must be between 1 GiB and 1 PiB")
  reject_if (is_some_zero r.network_limit_mbps)
      (invalid_input "network speed limit must be greater than zero")
