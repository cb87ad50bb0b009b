-- ===== src/Protocol/Replay.antt =====
-- guest-tools/crates/protocol/src/lib.rs, `ReplayCache`: the requests that were accepted of late.
--
-- `HashSet` and `VecDeque` are lists, the front first. A time is read from the clock, so it is natural.
pub mod Held
pub mod Valid
use vexa_vm.Common.{
  ℕ, ◌+◌, ◌-◌, ◌^◌, min, max, Bool, String, str_append, true, false, ◌&&◌, not, List, [], ◌∷◌, ◌++◌,
  if◌then◌else◌, ltb, leb, str_eq, length, any, retain,
}
use vexa_vm.Error.{Result, ok, err}
use vexa_vm.Protocol.{ProtocolError, replay, ProtocolResult}

pub record ReplayCache : Type 0 where
  pub capacity : ℕ
  pub seen : List String
  pub order : List (ℕ × String)

abbrev pub new : ℕ → ReplayCache
new capacity = record { capacity = max capacity 1; seen = []; order = [] }

-- `timestamp.saturating_add(maximum_age)` with the age capped at `i64::MAX`.
abbrev pub last_moment : ℕ → ℕ → ℕ
last_moment timestamp age = min (timestamp + min age (2 ^ 63 - 1)) (2 ^ 63 - 1)

-- `while let Some(…) = order.front()`.
unfoldable pub evict : ℕ → ℕ → ℕ → List String → List (ℕ × String) → List String × List (ℕ × String)
evict capacity age now seen [] = (seen, [])
evict capacity age now seen ((timestamp, key) ∷ rest) =
    let popped = evict capacity age now (retain (λ s. not (str_eq s key)) seen) rest in
    if leb now (last_moment timestamp age) && ltb (length ((timestamp, key) ∷ rest)) capacity
    then (seen, (timestamp, key) ∷ rest)
    else popped

abbrev pub cache_key : String → String → String
cache_key request_id nonce = str_append request_id (str_append ":" nonce)

unfoldable pub accept :
    String → String → ℕ → ℕ → ReplayCache → ProtocolResult (Unit {0}) × ReplayCache
accept request_id nonce now age cache =
    let kept = evict cache.capacity age now cache.seen cache.order in
    let key = cache_key request_id nonce in
    if any (λ s. str_eq s key) kept.0
    then (err replay, record cache { seen = kept.0; order = kept.1 })
    else (ok tt, record cache { seen = kept.0 ++ key ∷ []; order = kept.1 ++ (now, key) ∷ [] })
