-- ===== src/RateLimit.antt =====
-- src/rate_limit.rs: a fixed-window rate limiter over a bounded table of buckets.
pub mod Window
mod Tests
use vexa_vm.Common.{
  ℕ, ◌+◌, ◌-◌, ◌^◌, min, Bool, String, ◌||◌, Option, none, some, List, if◌then◌else◌, leb, ◌==◌,
  length, str_append, not,
}
use vexa_vm.Common.Int.{ℤ, pos, leb_ℤ, ltb_ℤ, saturating_sub}
use vexa_vm.Common.Dict.{get, insert, remove, retain_values}
use vexa_vm.Error.{AppError, internal, rate_limited, AppResult, ok, err}

abbrev pub max_buckets : ℕ
max_buckets = 10000

pub record Bucket : Type 0 where
  pub started_at : ℤ
  pub count : ℕ  -- u32
  pub window_seconds : ℤ

-- `poisoned`: a thread panicked while it held the lock.
pub record RateLimiter : Type 0 where
  pub buckets : List (String × Bucket)
  pub poisoned : Bool

abbrev pub bucket_key : String → String → String
bucket_key namespace key = str_append namespace (str_append ":" key)

abbrev pub is_live : ℤ → Bucket → Bool
is_live now b = ltb_ℤ (saturating_sub now b.started_at) b.window_seconds

abbrev fresh : ℤ → ℤ → Bucket
fresh window now = record { started_at = now; count = 0; window_seconds = window }

-- The entry for the key, inserted if it is missing and started again if its window is over.
abbrev pub current_bucket : Option Bucket → ℤ → ℤ → Bucket
current_bucket none window now = fresh window now
current_bucket (some b) window now = if is_live now b then b else fresh window now

-- From `buckets.entry(…)` to the end of `check`.
unfoldable pub admit : RateLimiter → String → ℕ → ℤ → ℤ → RateLimiter × AppResult (Unit {0})
admit r k limit window now =
    let b = current_bucket (get k r.buckets) window now in
    if leb limit b.count then (record r { buckets = insert k b r.buckets }, err rate_limited) else (
      record r {
        buckets = insert k (record b { count = min (b.count + 1) (2 ^ 32 - 1) }) r.buckets;
      },
      ok tt,
    )

-- A full table drops the buckets whose window is over.
abbrev pub evict : RateLimiter → ℤ → RateLimiter
evict r now =
    if leb max_buckets (length r.buckets)
    then record r { buckets = retain_values (is_live now) r.buckets }
    else r

unfoldable pub check :
    RateLimiter → String → String → ℕ → ℤ → ℤ → RateLimiter × AppResult (Unit {0})
check r namespace key limit window now =
    if limit == 0 || leb_ℤ window (pos 0)
    then (r, err (internal "rate limiter configuration is invalid"))
    else if r.poisoned
    then (r, err (internal "rate limiter lock was poisoned"))
    else if leb max_buckets (length (evict r now).buckets)
    then (evict r now, err rate_limited)
    else admit (evict r now) (bucket_key namespace key) limit window now

unfoldable pub reset : RateLimiter → String → String → RateLimiter × AppResult (Unit {0})
reset r namespace key =
    if r.poisoned
    then (r, err (internal "rate limiter lock was poisoned"))
    else (record r { buckets = remove (bucket_key namespace key) r.buckets }, ok tt)
