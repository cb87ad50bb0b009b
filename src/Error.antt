-- ===== src/Error.antt =====
-- src/error.rs and the error type of src/hypervisor/mod.rs, with the text that each displays.
use vexa_vm.Common.{ℕ, String, Bool, true, false, str_append, ◌≡◌, refl, ◌⊎◌, inl, inr}

-- What a fallible operation returns.
pub data Result (E A : Type 0) : Type 0 where
  ok : A → Result E A
  err : E → Result E A

infixl 5 ◌>>=◌ ◌>>◌
abbrev pub ◌>>=◌ : {E A B : Type 0} → Result E A → (A → Result E B) → Result E B
ok a >>= f = f a
err e >>= f = err e

abbrev pub ◌>>◌ : {E B : Type 0} → Result E (Unit {0}) → Result E B → Result E B
m >> k = m >>= λ _. k

-- `if bad { return Err(e) }`.
abbrev pub reject_if : {E : Type 0} → Bool → E → Result E (Unit {0})
reject_if true e = err e
reject_if false e = ok tt

-- The wrapped errors of rusqlite, tera and std::io are carried as their texts.
pub data AppError : Type 0 where
  configuration : String → AppError
  validation : String → AppError
  unauthorized : AppError
  forbidden : AppError
  not_found : String → AppError
  conflict : String → AppError
  rate_limited : AppError
  database : String → AppError
  hypervisor : String → AppError
  template : String → AppError
  io : String → AppError
  internal : String → AppError

abbrev pub AppResult : Type 0 → Type 0
AppResult A = Result AppError A

pub data HypervisorError : Type 0 where
  backend_unavailable : String → HypervisorError
  invalid_input : String → HypervisorError
  vm_not_found : String → HypervisorError
  vm_conflict : String → HypervisorError
  command_failed : String → String → HypervisorError
  timeout : String → HypervisorError
  io_failed : String → HypervisorError
  invalid_response : String → HypervisorError

abbrev pub HypervisorResult : Type 0 → Type 0
HypervisorResult A = Result HypervisorError A

-- The `#[error(…)]` texts of `HypervisorError`.
unfoldable pub to_string : HypervisorError → String
to_string (backend_unavailable m) = str_append "hypervisor backend is unavailable: " m
to_string (invalid_input m) = str_append "invalid hypervisor request: " m
to_string (vm_not_found n) = str_append "VM '" (str_append n "' was not found")
to_string (vm_conflict m) = str_append "hypervisor conflict: " m
to_string (command_failed o m) =
    str_append "hypervisor command '" (str_append o (str_append "' failed: " m))
to_string (timeout o) = str_append "hypervisor command '" (str_append o "' timed out")
to_string (io_failed m) = str_append "hypervisor I/O failed: " m
to_string (invalid_response m) = str_append "hypervisor returned invalid data: " m

-- `AppError::status_code`.
unfoldable pub status_code : AppError → ℕ
status_code (validation _) = 400
status_code unauthorized = 401
status_code forbidden = 403
status_code (not_found _) = 404
status_code (conflict _) = 409
status_code rate_limited = 429
status_code (hypervisor _) = 503
status_code (configuration _) = 500
status_code (database _) = 500
status_code (template _) = 500
status_code (io _) = 500
status_code (internal _) = 500

-- `impl From<HypervisorError> for AppError`.
unfoldable pub from_hypervisor : HypervisorError → AppError
unfolding to_string
from_hypervisor (invalid_input m) = validation m
from_hypervisor (vm_not_found n) = not_found (str_append "VM '" (str_append n "'"))
from_hypervisor (vm_conflict m) = conflict m
from_hypervisor (backend_unavailable m) = hypervisor (to_string (backend_unavailable m))
from_hypervisor (command_failed o m) = hypervisor (to_string (command_failed o m))
from_hypervisor (timeout o) = hypervisor (to_string (timeout o))
from_hypervisor (io_failed m) = hypervisor (to_string (io_failed m))
from_hypervisor (invalid_response m) = hypervisor (to_string (invalid_response m))

pub Result-cases :
    {E A : Type 0} (r : Result E A) → ((a : A) × (r ≡ ok a)) ⊎ ((e : E) × (r ≡ err e))
Result-cases (ok a) = inl (a, refl)
Result-cases (err e) = inr (e, refl)
