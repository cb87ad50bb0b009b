-- ===== src/Hypervisor/Mock/Seed.antt =====
-- src/hypervisor/mock.rs, the detachment of the provisioning seed.
use vexa_vm.Common.Chars.{codes, split, text_eq}
use vexa_vm.Common.{
  ℕ, Bool, String, true, false, ◌&&◌, ◌||◌, not, none, some, List, [], ◌∷◌, if◌then◌else◌, ◌==◌,
  retain,
}
use vexa_vm.Error.{HypervisorResult, ok, err, invalid_input, vm_conflict}
use vexa_vm.Hypervisor.Mock.{MockVm, MockHypervisor, with_vm_mut}

-- `Path::is_absolute` and `==` on paths, which compare components: a path is split at `/`, and an
-- empty part or `.` is none. (A `.` that starts a relative path counts for `==`; here one of the two
-- paths is absolute.)
abbrev pub is_absolute : List ℕ → Bool
is_absolute [] = false
is_absolute (c ∷ cs) = c == b'/'

abbrev parts_eq : List (List ℕ) → List (List ℕ) → Bool
parts_eq [] [] = true
parts_eq (a ∷ as') (b ∷ bs) = text_eq a b && parts_eq as' bs
parts_eq [] (b ∷ bs) = false
parts_eq (a ∷ as') [] = false

abbrev components : List ℕ → List (List ℕ)
components p = retain (λ part. not (text_eq part [] || text_eq part (b'.' ∷ []))) (split b'/' p)

unfoldable pub path_eq : String → String → Bool
path_eq a b =
    is_absolute (codes a)
    && is_absolute (codes b)
    && parts_eq (components (codes a)) (components (codes b))

abbrev pub detach_vm : String → MockVm → HypervisorResult (Unit {0}) × MockVm
detach_vm expected vm = elim vm.cloud_init_iso [
  | none ↦ (ok tt, vm)
  | some source ↦
      if path_eq source expected
      then (ok tt, record vm { cloud_init_iso = none })
      else (err (vm_conflict "refusing to detach a CD-ROM that is not the expected seed"), vm)
]

unfoldable pub detach_seed_media :
    String → String → MockHypervisor → HypervisorResult (Unit {0}) × MockHypervisor
detach_seed_media name expected h =
    if not (is_absolute (codes expected))
    then (err (invalid_input "seed media path must be absolute"), h)
    else with_vm_mut name (detach_vm expected) h
