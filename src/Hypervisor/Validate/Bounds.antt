-- ===== src/Hypervisor/Validate/Bounds.antt =====
-- What a request that passes the checks is bound to.
use vexa_vm.Common.{ℕ, ◌≡◌, ◌≤◌, false, arith}
use vexa_vm.Error.{ok}
use vexa_vm.Hypervisor.{CreateVmRequest, ResizeVmRequest}
use vexa_vm.Hypervisor.Validate.{
  validate_create_request, validate_resize_request, outside_some, outside,
}

abbrev pub IsSized : ℕ → ℕ → ℕ → Type 0
IsSized vcpus memory_mib disk_gib =
    (1 ≤ vcpus)
    × (vcpus ≤ 512)
    × (256 ≤ memory_mib)
    × (memory_mib ≤ 16777216)
    × (1 ≤ disk_gib)
    × (disk_gib ≤ 1048576)

pub create_request-IsSized :
    (r : CreateVmRequest) {u : Unit {0}}
    → validate_create_request r ≡ ok u
    → IsSized r.vcpus r.memory_mib r.disk_gib
unfolding validate_create_request
create_request-IsSized r e =
    let v : outside 1 512 r.vcpus ≡ false = ground arith in
    let m : outside 256 16777216 r.memory_mib ≡ false = ground arith in
    let d : outside 1 1048576 r.disk_gib ≡ false = ground arith in ground arith

-- Each value that a resize asks for is in bounds.
pub resize_request-bounds :
    (r : ResizeVmRequest) {u : Unit {0}}
    → validate_resize_request r ≡ ok u
    → (outside_some 1 512 r.vcpus ≡ false)
      × (outside_some 256 16777216 r.memory_mib ≡ false)
      × (outside_some 1 1048576 r.disk_gib ≡ false)
unfolding validate_resize_request
resize_request-bounds r e = ground arith
