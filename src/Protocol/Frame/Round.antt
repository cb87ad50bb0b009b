-- ===== src/Protocol/Frame/Round.antt =====
-- What was written is read back, and nothing more is taken.
use vexa_vm.Common.{
  ℕ, zero, suc, ◌+◌, ◌%◌, ◌^◌, ◌≤◌, ◌<◌, ◌≡◌, refl, ap, ◌∙◌, String, false, ◌||◌, some, List, [],
  ◌∷◌, ◌++◌, arith, ltb, ◌==◌, length, Bool-cases, Option-cases, inl, inr,
}
use mathlib.Core.List.{append_assoc}
use vexa_vm.Error.{Result, ok, Result-cases}
use vexa_vm.Protocol.{max_frame_bytes}
use vexa_vm.Protocol.Frame.{
  to_be_bytes, from_be_bytes, join, take_exact, read_exact, write_frame, read_frame,
}

take_exact-append :
    (front rest : List ℕ) → take_exact (length front) (front ++ rest) ≡ some (front, rest)
unfolding take_exact
take_exact-append [] rest = refl
take_exact-append (b ∷ front) rest = ap (join b) (take_exact-append front rest)

-- What is taken and what is left make up what was there.
take_exact-length :
    (n : ℕ) (bytes front rest : List ℕ)
    → take_exact n bytes ≡ some (front, rest)
    → length bytes ≡ n + length rest
unfolding take_exact
take_exact-length zero bytes front rest e = ground arith
take_exact-length (suc n) [] front rest e = cc
take_exact-length (suc n) (b ∷ bytes) front rest e = elim (Option-cases (take_exact n bytes)) [
  | inl short ↦ absurd (ground (arith, short))
  | inr ((front', rest'), taken) ↦
      let same : rest' ≡ rest = ground (arith, taken) in
      omega (arith, take_exact-length n bytes front' rest' taken, ap length same)
]

from_to_be_bytes : (n : ℕ) → n < 2 ^ 32 → from_be_bytes (to_be_bytes n) ≡ n
from_to_be_bytes n h = omega arith

module _ {T : Type 0} (to_vec : T → List ℕ) (from_slice : List ℕ → Result String T) where
  read_header :
      (value : T) (payload rest : List ℕ) (n : ℕ) (header : List ℕ)
      → length payload ≡ n
      → from_be_bytes header ≡ n
      → from_slice payload ≡ ok value
      → 1 ≤ length payload
      → n ≤ 65536
      → length header ≡ 4
      → read_frame to_vec from_slice ((header ++ payload) ++ rest) ≡ ok (value, rest)
  unfolding read_frame read_exact
  read_header value payload rest n header size read round some_bytes small four =
      let front : take_exact 4 ((header ++ payload) ++ rest) ≡ some (header, payload ++ rest) =
        rw (append_assoc, ← four) (take_exact-append header (payload ++ rest)) in
      let body : take_exact n (payload ++ rest) ≡ some (payload, rest) =
        rw (← size) (take_exact-append payload rest) in
      ground (arith, front, read, body, round, size)

  -- A value whose JSON parses back to it and is not empty is read back from what was written of it,
  -- and what follows in the stream is left as it is.
  pub read_frame-write_frame :
      (value : T) (rest : List ℕ) {bytes : List ℕ}
      → from_slice (to_vec value) ≡ ok value
      → 1 ≤ length (to_vec value)
      → write_frame to_vec from_slice [] value ≡ ok bytes
      → read_frame to_vec from_slice (bytes ++ rest) ≡ ok (value, rest)
  unfolding write_frame read_frame read_exact
  read_frame-write_frame value rest {bytes} round some_bytes e =
      let payload = to_vec value in
      let n = length payload in
      elim (Bool-cases (ltb max_frame_bytes n)) [
        | inl large ↦ absurd (ground (arith, large))
        | inr fits ↦
            let small : n ≤ 65536 = ground arith in
            let same : n % 2 ^ 32 ≡ n = omega arith in
            let frame : bytes ≡ to_be_bytes (n % 2 ^ 32) ++ payload = ground (arith, fits) in
            let read : from_be_bytes (to_be_bytes (n % 2 ^ 32)) ≡ n =
              from_to_be_bytes (n % 2 ^ 32) (omega arith) ∙ same in
            rw frame (
              read_header value payload rest n (to_be_bytes (n % 2 ^ 32)) refl read round some_bytes
                small refl)
      ]

  -- A frame that is read takes five bytes of the stream at least, and four more than the largest
  -- payload at most.
  pub read_frame-takes :
      (bytes : List ℕ) {value : T} {rest : List ℕ}
      → read_frame to_vec from_slice bytes ≡ ok (value, rest)
      → (length rest + 5 ≤ length bytes) × (length bytes ≤ length rest + 4 + max_frame_bytes)
  unfolding read_frame read_exact
  read_frame-takes bytes {value} {rest} e = elim (Option-cases (take_exact 4 bytes)) [
    | inl short ↦ absurd (ground (arith, short))
    | inr ((header, tail), front) ↦
        let n = from_be_bytes header in
        elim (Option-cases (take_exact n tail)) [
          | inl short ↦ absurd (ground (arith, front, short))
          | inr ((payload, rest'), body) ↦ elim (Result-cases (from_slice payload)) [
            | inl (v, parsed) ↦
                let same : rest' ≡ rest = ground (arith, front, body, parsed) in
                let size : (n == 0 || ltb max_frame_bytes n) ≡ false = ground (arith, front) in
                ground (
                  arith,
                  take_exact-length 4 bytes header tail front,
                  take_exact-length n tail payload rest' body,
                  ap length same,
                  size,
                )
            | inr (message, bad) ↦ absurd (ground (arith, front, body, bad))
          ]
        ]
  ]
