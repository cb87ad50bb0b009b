-- ===== src/RateLimit/Tests.antt =====
-- Runs of the rate limiter, the module's own test among them.
use vexa_vm.Common.{ℕ, ◌≤◌, ◌≡◌, refl, [], ◌∷◌, false, arith, length, eq_iff}
use vexa_vm.Common.Int.{pos, ◌+ℤ◌, saturating_sub}
use vexa_vm.RateLimit.{RateLimiter, max_buckets, check, admit}
use vexa_vm.RateLimit.Window.{Call, run, run-le-limit, check-length}

abbrev empty : RateLimiter
empty = record { buckets = []; poisoned = false }

abbrev login : ℕ → Call
login at = record { namespace = "login"; key = "address"; limit = 1; window = pos 60; now = pos at }

abbrev other : ℕ → Call
other at = record { namespace = "api"; key = "address"; limit = 9; window = pos 5; now = pos at }

resets_each_fixed_window :
    ((run "login:address" empty (login 100 ∷ login 101 ∷ [])).1 ≡ 1)
    × ((run "login:address" empty (login 100 ∷ login 101 ∷ login 160 ∷ [])).1 ≡ 2)
unfolding run check admit saturating_sub
resets_each_fixed_window = (refl, refl)

run-le-limit_example : (run "login:address" empty (login 100 ∷ other 120 ∷ login 159 ∷ [])).1 ≤ 1
unfolding ◌+ℤ◌
run-le-limit_example =
    run-le-limit (pos 100) (pos 60) 1 "login:address" empty (login 100 ∷ other 120 ∷ login 159 ∷ [])
      (omega arith) (omega arith)
      (
        omega arith,
        omega arith,
        λ _. (refl, refl),
        (
          omega arith,
          omega arith,
          λ e. cc ((eq_iff "api:address" "login:address").1 e),
          (omega arith, omega arith, λ _. (refl, refl), tt),
        ),
      )
      refl

check-length_example :
    length (check empty "login" "address" 1 (pos 60) (pos 100)).0.buckets ≤ max_buckets
check-length_example = check-length empty "login" "address" 1 (pos 60) (pos 100) (omega arith)
