-- ===== src/Protocol/Frame.antt =====
-- guest-tools/crates/protocol/src/lib.rs, `write_frame` and `read_frame`: a frame is a length in four
-- bytes, the highest first, and that many bytes of JSON.
--
-- The writer is what has been written, the reader what is still to come; `to_vec` and `from_slice`
-- are serde_json's.
pub mod Round
use vexa_vm.Common.{
  ℕ, zero, suc, ◌+◌, ◌*◌, ◌/◌, ◌%◌, ◌^◌, Bool, String, true, false, ◌||◌, Option, none, some, List,
  [], ◌∷◌, ◌++◌, if◌then◌else◌, ltb, ◌==◌, length,
}
use vexa_vm.Error.{Result, ok, err, ◌>>=◌, ◌>>◌, reject_if}
use vexa_vm.Protocol.{ProtocolError, frame_too_large, io, json, ProtocolResult, max_frame_bytes}

-- `u32::to_be_bytes` and `u32::from_be_bytes`.
abbrev pub to_be_bytes : ℕ → List ℕ
to_be_bytes n = n / 2 ^ 24 % 256 ∷ n / 2 ^ 16 % 256 ∷ n / 2 ^ 8 % 256 ∷ n % 256 ∷ []

abbrev pub from_be_bytes : List ℕ → ℕ
from_be_bytes [] = 0
from_be_bytes (a ∷ []) = 0
from_be_bytes (a ∷ b ∷ []) = 0
from_be_bytes (a ∷ b ∷ c ∷ []) = 0
from_be_bytes (a ∷ b ∷ c ∷ d ∷ rest) = a * 2 ^ 24 + b * 2 ^ 16 + c * 2 ^ 8 + d

abbrev join : ℕ → Option (List ℕ × List ℕ) → Option (List ℕ × List ℕ)
join b none = none
join b (some (front, rest)) = some (b ∷ front, rest)

unfoldable pub take_exact : ℕ → List ℕ → Option (List ℕ × List ℕ)
take_exact zero bytes = some ([], bytes)
take_exact (suc n) [] = none
take_exact (suc n) (b ∷ bytes) = join b (take_exact n bytes)

-- `Read::read_exact`.
unfoldable pub read_exact : ℕ → List ℕ → ProtocolResult (List ℕ × List ℕ)
read_exact n bytes = elim (take_exact n bytes) [
  | none ↦ err (io "failed to fill whole buffer")
  | some parts ↦ ok parts
]

module _ {T : Type 0} (to_vec : T → List ℕ) (from_slice : List ℕ → Result String T) where
  unfoldable pub write_frame : List ℕ → T → ProtocolResult (List ℕ)
  write_frame written value =
      let payload = to_vec value in
      if ltb max_frame_bytes (length payload)
      then err (frame_too_large (length payload))
      else ok (written ++ (to_be_bytes (length payload % 2 ^ 32) ++ payload))

  abbrev pub parse : List ℕ → List ℕ → ProtocolResult (T × List ℕ)
  parse payload rest = elim (from_slice payload) [
    | ok value ↦ ok (value, rest)
    | err message ↦ err (json message)
  ]

  unfoldable pub read_frame : List ℕ → ProtocolResult (T × List ℕ)
  read_frame bytes = do
    header ← read_exact 4 bytes
    let n = from_be_bytes header.0
    reject_if (n == 0 || ltb max_frame_bytes n) (frame_too_large n)
    payload ← read_exact n header.1
    parse payload.0 payload.1
