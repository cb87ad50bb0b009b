-- ===== src/Protocol/Messages/Repeats.antt =====
-- How long a request that was accepted is refused.
use vexa_vm.Common.{
  ℕ, ◌+◌, ◌≡◌, ◌≤◌, ◌<◌, ◌^◌, String, false, not, List, [], ◌∷◌, arith, leb, inl, inr, str_eq,
  eq_refl, retain,
}
use vexa_vm.Common.Int.{pos}
use vexa_vm.Error.{ok, Result-cases}
use vexa_vm.Protocol.{Command, Request}
use vexa_vm.Protocol.Replay.{new, accept, evict, last_moment, cache_key}
use vexa_vm.Protocol.Messages.{Crypto, abs_diff, authenticate, open_command, verify_and_decrypt}
use vexa_vm.Protocol.Messages.Requests.{authenticate-later}

-- A cache that holds one request forgets it once its age is past the maximum, and takes it again.
accept_again :
    (capacity age t : ℕ) (request_id nonce : String)
    → t + age + 1 < 2 ^ 63
    → (accept request_id nonce (t + age + 1) age (accept request_id nonce t age (new capacity)).1).0
      ≡ ok tt
unfolding accept evict
accept_again capacity age t request_id nonce room =
    let old : leb (t + age + 1) (last_moment t age) ≡ false = ground arith in
    let key = cache_key request_id nonce in
    let gone : retain (λ s. not (str_eq s key)) (key ∷ []) ≡ [] = rw (eq_refl key) in
    ground (arith, old, gone)

module _ (x : Crypto) where
  -- A request whose time of sending is ahead of the clock by `d` seconds or more, that an agent
  -- with an empty cache accepts, is accepted a second time a second after its age
  -- has passed the maximum: the cache counts the age from the moment of acceptance, while the
  -- request stays within the clock skew for `d` seconds longer.
  pub verify_and_decrypt-repeats :
      (r : Request) (secret : List ℕ) (t skew capacity : ℕ) {command : Command}
      → (verify_and_decrypt x r secret t skew (new capacity)).0 ≡ ok command
      → abs_diff r.sent_at (pos (t + skew + 1)) ≤ skew
      → t + skew + 1 < 2 ^ 63
      → (verify_and_decrypt x r secret
          (t + skew + 1)
          skew
          (verify_and_decrypt x r secret t skew (new capacity)).1).0
        ≡ ok command
  unfolding verify_and_decrypt
  verify_and_decrypt-repeats r secret t skew capacity {command} e near room =
      elim (Result-cases (authenticate x r secret t skew)) [
        | inl (u, genuine) ↦
            elim (Result-cases (accept r.request_id r.nonce t skew (new capacity)).0) [
              | inl (u', fresh) ↦
                  let again = accept_again capacity skew t r.request_id r.nonce room in
                  let later : authenticate x r secret (t + skew + 1) skew ≡ ok tt =
                    authenticate-later x r secret t (t + skew + 1) skew genuine near in
                  let opened : open_command x r secret ≡ ok command =
                    ground (arith, genuine, fresh) in
                  let left : (verify_and_decrypt x r secret t skew (new capacity)).1
                      ≡ (accept r.request_id r.nonce t skew (new capacity)).1 =
                    ground (arith, genuine, fresh) in
                  rw left (ground (arith, again, later, opened))
              | inr (e', old) ↦ absurd (ground (arith, genuine, old))
            ]
        | inr (e', bad) ↦ absurd (ground (arith, bad))
      ]
