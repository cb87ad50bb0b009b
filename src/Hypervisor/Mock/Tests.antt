-- ===== src/Hypervisor/Mock/Tests.antt =====
-- Runs of the backend, and the theorems about it at concrete inputs.
use vexa_vm.Common.{
  ◌≡◌, refl, String, true, false, none, some, [], ◌∷◌, arith, str_eq, if◌then◌else◌, ltb,
}
use vexa_vm.Error.{ok, err, invalid_input, vm_conflict, vm_not_found}
use vexa_vm.Hypervisor.{
  VmPowerState, blank, bios, CreateVmRequest, ResizeVmRequest, suspend, resume,
}
use vexa_vm.Hypervisor.Validate.{
  validate_vm_name, validate_mac_address, validate_bridge_name, validate_create_request,
  validate_resize_request,
}
use vexa_vm.Hypervisor.Mock.{
  MockHypervisor, new, find_vm, with_vm_mut, create_vm, allocate_vnc_port, info_of, vm_of, get_vm,
  delete_vm, power, resize, vnc_target, gib,
}
use vexa_vm.Hypervisor.Mock.Seed.{path_eq}
use vexa_vm.Hypervisor.Mock.Lifecycle.{create_vm-get_vm, delete_vm-find_vm, suspend-resume}
use vexa_vm.Hypervisor.Mock.Resize.{asked_bytes, with_cores, with_all, resize_lem}
use vexa_vm.Hypervisor.Mock.Valid.{IsValid}
use vexa_vm.Hypervisor.Mock.Operations.{create, set_size, take_snapshot, forget, perform_all}
use vexa_vm.Hypervisor.Mock.Run.{perform_all-IsValid}

abbrev request : CreateVmRequest
request = record {
  name = "demo-1";
  vcpus = 2;
  memory_mib = 2048;
  initial_memory_mib = none;
  disk_gib = 20;
  image = blank;
  cloud_init_iso = none;
  guest_tools_socket = none;
  bridge = some "virbr0";
  tap_name = none;
  mac_address = "52:54:00:12:34:56";
  network_limit_mbps = none;
  firmware = bios;
  machine_type = "q35";
  autostart = false;
  start = true;
}

abbrev smaller : ResizeVmRequest
smaller = record {
  vcpus = some 4;
  memory_mib = none;
  disk_gib = some 10;
  network_limit_mbps = none;
}

abbrev one_vm : MockHypervisor
one_vm = record { inner = ("demo-1", vm_of request 7 5901) ∷ []; next_vnc_port = 5902 }

abbrev paused_vm : MockHypervisor
paused_vm = record {
  inner =
      (
        "demo-1",
        record (vm_of request 7 5901) {
          info = record (info_of request 7) { power_state = VmPowerState.paused };
        },
      )
      ∷ [];
  next_vnc_port = 5902;
}

names :
    (validate_vm_name "demo-01.example" ≡ ok tt)
    × (str_eq "--connect" "vm name" ≡ false)
    × (validate_mac_address "52:54:00:12:34:56" ≡ ok tt)
    × (validate_bridge_name "virbr0" ≡ ok tt)
unfolding validate_vm_name validate_mac_address validate_bridge_name
names = (refl, refl, refl, refl)

seed_paths :
    (path_eq "/var//lib/./seed.iso" "/var/lib/seed.iso" ≡ true)
    × (path_eq "/var/lib/seed.iso" "/var/lib/other.iso" ≡ false)
unfolding path_eq
seed_paths = (refl, refl)

create_run : create_vm request 7 new ≡ (ok (info_of request 7), one_vm)
unfolding create_vm allocate_vnc_port validate_create_request validate_vm_name validate_mac_address
    validate_bridge_name
create_run = refl

found_run : find_vm "demo-1" one_vm ≡ ok (vm_of request 7 5901)
unfolding find_vm validate_vm_name
found_run = refl

suspend_run :
    power "demo-1" suspend one_vm
    ≡ (ok (record (info_of request 7) { power_state = VmPowerState.paused }), paused_vm)
unfolding power with_vm_mut find_vm validate_vm_name
suspend_run = refl

delete_run : delete_vm "demo-1" true one_vm ≡ (ok tt, record { inner = []; next_vnc_port = 5902 })
unfolding delete_vm find_vm validate_vm_name
delete_run = refl

smaller_run : validate_resize_request smaller ≡ ok tt
unfolding validate_resize_request
smaller_run = refl

new-IsValid : IsValid new
new-IsValid = record {
  keys = tt;
  counter = omega arith;
  sound = λ name vm e. cc;
  ports = λ a b v w ea eb e. cc;
}

perform_all-IsValid_example : IsValid (
    perform_all
      (create request 7
        ∷ take_snapshot "demo-1" (record { name = "first"; description = none }) 1000
        ∷ take_snapshot "demo-1" (record { name = "second"; description = none }) 2000
        ∷ forget "demo-1" "second"
        ∷ set_size "demo-1" smaller
        ∷ [])
      new)
perform_all-IsValid_example =
    perform_all-IsValid
      (create request 7
        ∷ take_snapshot "demo-1" (record { name = "first"; description = none }) 1000
        ∷ take_snapshot "demo-1" (record { name = "second"; description = none }) 2000
        ∷ forget "demo-1" "second"
        ∷ set_size "demo-1" smaller
        ∷ [])
      new (omega arith) new-IsValid

create_vm-get_vm_example :
    (get_vm "demo-1" one_vm ≡ ok (info_of request 7))
    × ((other : String) → str_eq "demo-1" other ≡ false → find_vm other one_vm ≡ find_vm other new)
create_vm-get_vm_example = create_vm-get_vm request 7 new create_run

delete_vm-find_vm_example :
    find_vm "demo-1" (record { inner = []; next_vnc_port = 5902 })
    ≡ (if str_eq "demo-1" "demo-1" then err (vm_not_found "demo-1") else find_vm "demo-1" one_vm)
delete_vm-find_vm_example = delete_vm-find_vm "demo-1" true one_vm "demo-1" (refl, tt) delete_run

suspend-resume_example :
    (vnc_target "demo-1" paused_vm
      ≡ err (vm_conflict "VNC is available only while the VM is running"))
    × ((power "demo-1" resume paused_vm).0 ≡ ok (info_of request 7))
    × ((other : String) → find_vm other (power "demo-1" resume paused_vm).1 ≡ find_vm other one_vm)
suspend-resume_example = suspend-resume "demo-1" one_vm found_run refl suspend_run

resize_lem_example :
    ((resize "demo-1" smaller one_vm).0 ≡ (
      if ltb (asked_bytes (some 10) (gib 20)) (gib 20)
      then err (invalid_input "disk shrinking is not supported")
      else ok (with_all smaller (vm_of request 7 5901)).info))
    × ((other : String)
        → find_vm other (resize "demo-1" smaller one_vm).1 ≡ (
            if str_eq "demo-1" other
            then ok (
                if ltb (asked_bytes (some 10) (gib 20)) (gib 20)
                then with_cores smaller (vm_of request 7 5901)
                else with_all smaller (vm_of request 7 5901))
            else find_vm other one_vm))
resize_lem_example = resize_lem "demo-1" smaller one_vm found_run smaller_run
