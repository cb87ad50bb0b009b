-- ===== src/Protocol/Messages.antt =====
-- guest-tools/crates/protocol/src/lib.rs: requests and responses, encrypted and signed.
--
-- `Crypto` is what the code takes from other packages: base64, HMAC-SHA256, SHA-256, AES-256-GCM
-- and serde_json. Serialising these types, keying an HMAC and making a cipher from 32 bytes never
-- fail. Clearing keys and plaintexts is left out. The time `now` is read from the clock, so it is
-- natural; `sent_at` is an `i64`.
mod Seals
mod Requests
mod Repeats
mod Responses
mod Tests
use vexa_vm.Common.{
  ℕ, ◌+◌, ◌-◌, ◌*◌, Bool, String, len, str_append, true, false, ◌&&◌, ◌||◌, not, Option, none, some,
  List, [], ◌∷◌, ◌++◌, if◌then◌else◌, ltb, leb, ◌==◌, str_eq, length, all, ◌≡◌,
}
use vexa_vm.Common.Chars.{codes, text_eq, is_alphanumeric}
use vexa_vm.Common.Int.{ℤ, pos, pos_part, neg_part, ltb_ℤ}
use vexa_vm.Error.{Result, ok, err, ◌>>=◌, ◌>>◌, reject_if}
use vexa_vm.Db.{is_some}
use vexa_vm.Protocol.{
  ProtocolError, weak_secret, unsupported_version, invalid_envelope, authentication, encryption,
  expired, json, ProtocolResult, protocol_version, max_frame_bytes, min_secret_bytes, Command, ping,
  health, set_password, set_hostname, set_dns, set_network, set_ssh_keys, shutdown, reboot, Request,
  ResponseData, pong, action, ErrorBody, Response, ResponsePayload,
}
use vexa_vm.Protocol.Checks.{validate, validate_data, validate_error}
use vexa_vm.Protocol.Replay.{ReplayCache, accept}

pub record Crypto : Type 0 where
  pub decode : List ℕ → Option (List ℕ)
  pub decode_padded : List ℕ → Option (List ℕ)
  pub encode : List ℕ → String
  pub hmac : (secret message : List ℕ) → List ℕ
  pub sha256 : List ℕ → List ℕ
  pub first_12 : List ℕ → List ℕ
  pub seal : (key nonce associated_data message : List ℕ) → Option (List ℕ)
  pub unseal : (key nonce associated_data ciphertext : List ℕ) → Option (List ℕ)
  pub command_json : Command → List ℕ
  pub command_of_json : List ℕ → Result String Command
  pub payload_json : ResponsePayload → List ℕ
  pub payload_of_json : List ℕ → Result String ResponsePayload
  -- The serialised `UnsignedRequest`, `RequestAad`, `UnsignedResponse` and `ResponseAad`.
  pub unsigned_json :
      (version : ℕ) (request_id : String) (sent_at : ℤ) (nonce encrypted_command : String) → List ℕ
  pub aad_json : (version : ℕ) (request_id : String) (sent_at : ℤ) (nonce : String) → List ℕ
  pub unsigned_response_json :
      (version : ℕ) (request_id : String) (sent_at : ℤ) (nonce : String) (done : Bool)
      (encrypted_payload : String)
      → List ℕ
  pub response_aad_json :
      (version : ℕ) (request_id : String) (sent_at : ℤ) (nonce : String) (done : Bool) → List ℕ

-- What the code relies on: decoding inverts encoding, and decryption under the same key, nonce and
-- associated data inverts encryption.
pub record IsFaithful (x : Crypto) : Type 0 where
  pub decode-encode : (bytes : List ℕ) → x.decode (codes (x.encode bytes)) ≡ some bytes
  pub unseal-seal :
      (key nonce data' message : List ℕ) {ciphertext : List ℕ}
      → x.seal key nonce data' message ≡ some ciphertext
      → x.unseal key nonce data' ciphertext ≡ some message

-- `i64::abs_diff`.
abbrev pub abs_diff : ℤ → ℤ → ℕ
abs_diff a b =
    let x = pos_part a + neg_part b in let y = pos_part b + neg_part a in (x - y) + (y - x)

unfoldable pub request_domain : List ℕ
request_domain = codes "VEXA-GUEST-REQUEST-V2" ++ 0 ∷ []

unfoldable pub response_domain : List ℕ
response_domain = codes "VEXA-GUEST-RESPONSE-V2" ++ 0 ∷ []

unfoldable pub request_encryption_domain : List ℕ
request_encryption_domain = codes "VEXA-GUEST-REQUEST-ENC-V2" ++ 0 ∷ []

unfoldable pub response_encryption_domain : List ℕ
response_encryption_domain = codes "VEXA-GUEST-RESPONSE-ENC-V2" ++ 0 ∷ []

unfoldable pub require_strong_secret : List ℕ → ProtocolResult (Unit {0})
require_strong_secret secret = reject_if (ltb (length secret) min_secret_bytes) weak_secret

abbrev is_id_char : ℕ → Bool
is_id_char c = is_alphanumeric c || c == b'-' || c == b'_'

-- `label.len()` in 16..=64, as the code tests it.
abbrev nonce_size_bad : List ℕ → Bool
nonce_size_bad bytes = ltb (length bytes) 16 || ltb 64 (length bytes)

abbrev or_else : Option (List ℕ) → Option (List ℕ) → Option (List ℕ)
or_else none b = b
or_else (some a) b = some a

-- `ok_or`.
abbrev pub require : Option (List ℕ) → ProtocolError → ProtocolResult (List ℕ)
require none e = err e
require (some bytes) e = ok bytes

abbrev pub from_json : {T : Type 0} → Result String T → ProtocolResult T
from_json (ok value) = ok value
from_json (err message) = err (json message)

module _ (x : Crypto) where
  unfoldable pub validate_envelope : ℕ → String → String → ProtocolResult (Unit {0})
  validate_envelope version request_id nonce = do
    reject_if (not (version == protocol_version)) (unsupported_version version)
    reject_if
        (len request_id == 0 || ltb 128 (len request_id) || not (all is_id_char (codes request_id)))
        (invalid_envelope "invalid request_id")
    bytes ← require (x.decode (codes nonce)) (invalid_envelope "nonce is not base64")
    reject_if (nonce_size_bad bytes) (invalid_envelope "nonce must decode to 16 through 64 bytes")

  unfoldable pub validate_ciphertext : String → String → ProtocolResult (Unit {0})
  validate_ciphertext value label = do
    reject_if (len value == 0 || ltb (max_frame_bytes * 2) (len value))
        (invalid_envelope (str_append label " ciphertext has an invalid size"))
    bytes ←
        require (or_else (x.decode (codes value)) (x.decode_padded (codes value)))
          (invalid_envelope (str_append label " ciphertext is not base64"))
    reject_if (ltb (length bytes) 16 || ltb max_frame_bytes (length bytes))
        (invalid_envelope (str_append label " ciphertext has an invalid size"))

  -- The key and the nonce of the cipher.
  unfoldable pub encryption_material : List ℕ → String → List ℕ → ProtocolResult (List ℕ × List ℕ)
  encryption_material domain encoded_nonce secret = do
    bytes ← require (x.decode (codes encoded_nonce)) (invalid_envelope "nonce is not base64")
    reject_if (nonce_size_bad bytes) (invalid_envelope "nonce must decode to 16 through 64 bytes")
    ok (
      x.hmac secret (domain ++ codes "key"),
      x.first_12 (x.sha256 (domain ++ (codes "nonce" ++ bytes))),
    )

  unfoldable pub encrypt_json : List ℕ → String → List ℕ → List ℕ → List ℕ → ProtocolResult String
  encrypt_json domain encoded_nonce aad plaintext secret = do
    require_strong_secret secret
    material ← encryption_material domain encoded_nonce secret
    sealed ← require (x.seal material.0 material.1 (domain ++ aad) plaintext) encryption
    ok (x.encode sealed)

  unfoldable pub decrypt_json :
      {T : Type 0}
      → List ℕ
      → String
      → List ℕ
      → String
      → List ℕ
      → (List ℕ → Result String T)
      → ProtocolResult T
  decrypt_json domain encoded_nonce aad encoded_ciphertext secret of_json = do
    require_strong_secret secret
    ciphertext ←
        require
          (or_else (x.decode (codes encoded_ciphertext))
            (x.decode_padded (codes encoded_ciphertext)))
          (invalid_envelope "ciphertext is not base64")
    material ← encryption_material domain encoded_nonce secret
    plaintext ← require (x.unseal material.0 material.1 (domain ++ aad) ciphertext) authentication
    from_json (of_json plaintext)

  abbrev pub sign_json : List ℕ → List ℕ → List ℕ → String
  sign_json domain payload secret = x.encode (x.hmac secret (domain ++ payload))

  unfoldable pub verify_json : List ℕ → List ℕ → List ℕ → String → ProtocolResult (Unit {0})
  verify_json domain payload secret signature = do
    tag ← require (x.decode (codes signature)) authentication
    reject_if (not (text_eq (x.hmac secret (domain ++ payload)) tag)) authentication

  abbrev pub aad : Request → List ℕ
  aad r = x.aad_json r.version r.request_id r.sent_at r.nonce

  -- `Request::unsigned`, serialised.
  abbrev pub unsigned : Request → List ℕ
  unsigned r = x.unsigned_json r.version r.request_id r.sent_at r.nonce r.encrypted_command

  unfoldable pub sign_request : String → ℤ → String → Command → List ℕ → ProtocolResult Request
  sign_request request_id sent_at nonce command secret = do
    require_strong_secret secret
    validate x.decode x.decode_padded command
    validate_envelope protocol_version request_id nonce
    sealed ←
        encrypt_json request_encryption_domain nonce
          (x.aad_json protocol_version request_id sent_at nonce) (x.command_json command) secret
    validate_ciphertext sealed "request"
    let r : Request = record {
      version = protocol_version;
      request_id = request_id;
      sent_at = sent_at;
      nonce = nonce;
      encrypted_command = sealed;
      signature = "";
    }
    ok (record r { signature = sign_json request_domain (unsigned r) secret })

  -- What is checked of a request before the replay cache is asked.
  unfoldable pub authenticate : Request → List ℕ → ℕ → ℕ → ProtocolResult (Unit {0})
  authenticate r secret now skew = do
    require_strong_secret secret
    validate_envelope r.version r.request_id r.nonce
    validate_ciphertext r.encrypted_command "request"
    reject_if (ltb skew (abs_diff r.sent_at (pos now))) expired
    verify_json request_domain (unsigned r) secret r.signature

  unfoldable pub open_command : Request → List ℕ → ProtocolResult Command
  open_command r secret = do
    command ←
        decrypt_json request_encryption_domain r.nonce (aad r) r.encrypted_command secret
          x.command_of_json
    validate x.decode x.decode_padded command
    ok command

  unfoldable pub verify_and_decrypt :
      Request → List ℕ → ℕ → ℕ → ReplayCache → ProtocolResult Command × ReplayCache
  verify_and_decrypt r secret now skew cache = elim (authenticate r secret now skew) [
    | err e ↦ (err e, cache)
    | ok _ ↦ elim (accept r.request_id r.nonce now skew cache).0 [
      | err e ↦ (err e, (accept r.request_id r.nonce now skew cache).1)
      | ok _ ↦ (open_command r secret, (accept r.request_id r.nonce now skew cache).1)
    ]
  ]

  abbrev pub response_aad : Response → List ℕ
  response_aad r = x.response_aad_json r.version r.request_id r.sent_at r.request_nonce r.ok

  abbrev pub unsigned_response : Response → List ℕ
  unsigned_response r =
      x.unsigned_response_json r.version r.request_id r.sent_at r.request_nonce r.ok
        r.encrypted_payload

  abbrev validate_some_data : Option ResponseData → ProtocolResult (Unit {0})
  validate_some_data none = ok tt
  validate_some_data (some d) = validate_data d

  abbrev validate_some_error : Option ErrorBody → ProtocolResult (Unit {0})
  validate_some_error none = ok tt
  validate_some_error (some e) = validate_error e

  abbrev pub same_bool : Bool → Bool → Bool
  same_bool true b = b
  same_bool false b = not b

  -- `ok == error.is_some() || ok != data.is_some()`.
  abbrev pub is_inconsistent : Bool → ResponsePayload → Bool
  is_inconsistent done p =
      same_bool done (is_some p.error) || not (same_bool done (is_some p.payload))

  unfoldable pub sign_response :
      Request → ℤ → Bool → ResponsePayload → List ℕ → ProtocolResult Response
  sign_response request sent_at done p secret = do
    require_strong_secret secret
    reject_if (is_inconsistent done p) (invalid_envelope "response result is inconsistent")
    validate_some_data p.payload
    validate_some_error p.error
    sealed ←
        encrypt_json response_encryption_domain request.nonce
          (x.response_aad_json protocol_version request.request_id sent_at request.nonce done)
          (x.payload_json p) secret
    let r : Response = record {
      version = protocol_version;
      request_id = request.request_id;
      sent_at = sent_at;
      request_nonce = request.nonce;
      ok = done;
      encrypted_payload = sealed;
      signature = "";
    }
    ok (record r { signature = sign_json response_domain (unsigned_response r) secret })

  abbrev pub success : Request → ℤ → ResponseData → List ℕ → ProtocolResult Response
  success request sent_at d secret =
      sign_response request sent_at true (record { payload = some d; error = none }) secret

  abbrev pub failure : Request → ℤ → String → String → List ℕ → ProtocolResult Response
  failure request sent_at code message secret =
      sign_response request sent_at false
        (record { payload = none; error = some (record { code = code; message = message }) }) secret

  abbrev pub is_answer : Command → ResponseData → Bool
  is_answer ping (pong v) = true
  is_answer ping (ResponseData.health v o h u c) = false
  is_answer ping (action c r m) = false
  is_answer Command.health (pong v) = false
  is_answer Command.health (ResponseData.health v o h u c) = true
  is_answer Command.health (action c r m) = false
  is_answer command (pong v) = false
  is_answer command (ResponseData.health v o h u c) = false
  is_answer command (action c r m) = true

  abbrev pub matches_command : Command → Option ResponseData → Bool
  matches_command command none = true
  matches_command command (some d) = is_answer command d

  unfoldable pub verify_response :
      Response → List ℕ → String → String → Command → ℤ → ℕ → ℕ → ProtocolResult ResponsePayload
  verify_response r secret request_id nonce command request_sent_at now skew = do
    require_strong_secret secret
    reject_if
        (not (r.version == protocol_version)
          || not (str_eq r.request_id request_id)
          || not (str_eq r.request_nonce nonce)
          || ltb_ℤ r.sent_at request_sent_at
          || ltb skew (abs_diff r.sent_at (pos now)))
        (invalid_envelope "response does not match the request")
    validate_ciphertext r.encrypted_payload "response"
    verify_json response_domain (unsigned_response r) secret r.signature
    p ←
        decrypt_json response_encryption_domain r.request_nonce (response_aad r) r.encrypted_payload
          secret x.payload_of_json
    reject_if (is_inconsistent r.ok p) (invalid_envelope "response result is inconsistent")
    validate_some_data p.payload
    validate_some_error p.error
    reject_if (not (matches_command command p.payload))
        (invalid_envelope "response type does not match the request command")
    ok p
