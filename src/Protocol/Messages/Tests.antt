-- ===== src/Protocol/Messages/Tests.antt =====
-- Runs of the protocol over a toy of the packages that it uses, and the theorems about it there.
use vexa_vm.Common.{
  ℕ, zero, suc, ◌+◌, ◌≡◌, ◌≤◌, refl, sym, ap, ◌∙◌, Bool, String, true, false, not, Option, none,
  some, List, [], ◌∷◌, ◌++◌, arith, if◌then◌else◌, ◌==◌, length, count_if,
}
use vexa_vm.Common.Chars.{codes}
use vexa_vm.Common.Int.{ℤ, pos, ltb_ℤ}
use vexa_vm.Error.{Result, ok, err}
use vexa_vm.Db.Rows.{All}
use vexa_vm.Protocol.{
  replay, ProtocolResult, Command, ping, set_network, Request, pong, Response, ResponsePayload, v4,
  v6, is_ipv4, NetworkAddress, max_frame_bytes,
}
use vexa_vm.Protocol.Checks.{
  validate, validate_interface, bad_addresses, bad_gateways, validate_data, validate_response_text,
}
use vexa_vm.Protocol.Checks.Shape.{AreDistinct, IsPrefix, IsUnicast, validate-set_network}
use vexa_vm.Protocol.Replay.{ReplayCache, new, accept, evict}
use vexa_vm.Protocol.Replay.Held.{accept_all, accept-replay}
use vexa_vm.Protocol.Replay.Valid.{IsValid, new-IsValid, accept-IsValid}
use vexa_vm.Protocol.Frame.{write_frame, read_frame}
use vexa_vm.Protocol.Frame.Round.{read_frame-write_frame, read_frame-takes}
use vexa_vm.Protocol.Messages.{
  Crypto, IsFaithful, abs_diff, validate_envelope, validate_ciphertext, sign_request, authenticate,
  open_command, verify_and_decrypt, encrypt_json, decrypt_json, encryption_material,
  require_strong_secret, verify_json, request_domain, request_encryption_domain, response_domain,
  response_encryption_domain, sign_response, verify_response, matches_command,
}
use vexa_vm.Protocol.Messages.Requests.{verify_and_decrypt-genuine, verify_and_decrypt-sign_request}
use vexa_vm.Protocol.Messages.Repeats.{verify_and_decrypt-repeats}
use vexa_vm.Protocol.Messages.Responses.{verify_response-genuine, verify_response-sign_response}

-- Numbers in unary, each ended by a `b`.
abbrev unary : ℕ → String → String
unary zero s = String.◌∷◌ "b" s
unary (suc n) s = String.◌∷◌ "a" (unary n s)

abbrev encode : List ℕ → String
encode [] = ""
encode (n ∷ ns) = unary n (encode ns)

abbrev cons_some : ℕ → Option (List ℕ) → Option (List ℕ)
cons_some n none = none
cons_some n (some ns) = some (n ∷ ns)

abbrev decode : ℕ → List ℕ → Option (List ℕ)
decode n [] = some []
decode n (c ∷ cs) = if c == b'a' then decode (suc n) cs else cons_some n (decode 0 cs)

decode-unary :
    (m n : ℕ) (s : String) → decode m (codes (unary n s)) ≡ cons_some (m + n) (decode 0 (codes s))
decode-unary m zero s = ap (λ (k : ℕ). cons_some k (decode 0 (codes s))) (omega arith)
decode-unary m (suc n) s =
    decode-unary (suc m) n s ∙ ap (λ (k : ℕ). cons_some k (decode 0 (codes s))) (omega arith)

decode-encode : (bytes : List ℕ) → decode 0 (codes (encode bytes)) ≡ some bytes
decode-encode [] = refl
decode-encode (n ∷ ns) =
    decode-unary 0 n (encode ns)
    ∙ ap (cons_some (0 + n)) (decode-encode ns)
    ∙ ap (λ (k : ℕ). some (k ∷ ns)) (omega arith)

-- Sixteen bytes in front, as a tag, and nothing secret.
abbrev tag : List ℕ
tag = 0 ∷ 0 ∷ 0 ∷ 0 ∷ 0 ∷ 0 ∷ 0 ∷ 0 ∷ 0 ∷ 0 ∷ 0 ∷ 0 ∷ 0 ∷ 0 ∷ 0 ∷ 0 ∷ []

abbrev drop : ℕ → List ℕ → List ℕ
drop zero bytes = bytes
drop (suc n) [] = []
drop (suc n) (b ∷ bytes) = drop n bytes

abbrev drop_tag : Option (List ℕ) → Option (List ℕ)
drop_tag none = none
drop_tag (some bytes) = some (drop 16 bytes)

abbrev toy : Crypto
toy = record {
  decode = decode 0;
  decode_padded = decode 0;
  encode = encode;
  hmac = λ secret message. 7 ∷ [];
  sha256 = λ bytes. bytes;
  first_12 = λ bytes. bytes;
  seal = λ key nonce aad message. some (tag ++ message);
  unseal = λ key nonce aad ciphertext. some (drop 16 ciphertext);
  command_json = λ command. [];
  command_of_json = λ bytes. ok ping;
  payload_json = λ payload. [];
  payload_of_json = λ bytes. ok (record { payload = some (pong "1.0"); error = none });
  unsigned_json = λ v i t n e. [];
  aad_json = λ v i t n. [];
  unsigned_response_json = λ v i t n d e. [];
  response_aad_json = λ v i t n d. [];
}

toy-IsFaithful : IsFaithful toy
toy-IsFaithful = record {
  decode-encode = decode-encode;
  unseal-seal = λ key nonce aad message {ciphertext} e. sym (ap drop_tag e);
}

abbrev secret : List ℕ
secret = tag ++ tag

abbrev request : ℤ → Request
request sent_at = record {
  version = 2;
  request_id = "r-1";
  sent_at = sent_at;
  nonce = "bbbbbbbbbbbbbbbb";
  encrypted_command = "bbbbbbbbbbbbbbbb";
  signature = "aaaaaaab";
}

signed : sign_request toy "r-1" (pos 1000) "bbbbbbbbbbbbbbbb" ping secret ≡ ok (request (pos 1000))
unfolding sign_request require_strong_secret validate validate_envelope validate_ciphertext
    encrypt_json encryption_material request_domain request_encryption_domain
signed = refl

abbrev held : ReplayCache
held = record {
  capacity = 8;
  seen = "r-1:bbbbbbbbbbbbbbbb" ∷ [];
  order = (1000, "r-1:bbbbbbbbbbbbbbbb") ∷ [];
}

accepted : accept "r-1" "bbbbbbbbbbbbbbbb" 1000 120 (new 8) ≡ (ok tt, held)
unfolding accept evict
accepted = refl

verified :
    (sent_at : ℤ)
    → abs_diff sent_at (pos 1000) ≤ 120
    → verify_and_decrypt toy (request sent_at) secret 1000 120 (new 8) ≡ (ok ping, held)
unfolding verify_and_decrypt authenticate require_strong_secret validate_envelope
    validate_ciphertext verify_json open_command decrypt_json encryption_material validate accept
    evict
verified sent_at near = ground (arith, near)

verify_and_decrypt-sign_request_example :
    verify_and_decrypt toy (request (pos 1000)) secret 1000 120 (new 8) ≡ (ok ping, held)
verify_and_decrypt-sign_request_example =
    verify_and_decrypt-sign_request toy toy-IsFaithful "r-1" (pos 1000) "bbbbbbbbbbbbbbbb" ping
      secret 1000 120 (new 8) refl signed (ground arith) accepted

verify_and_decrypt-genuine_example :
    (validate toy.decode toy.decode_padded ping ≡ ok tt)
    × (32 ≤ length secret)
    × (abs_diff (pos 1000) (pos 1000) ≤ 120)
    × (decode 0 (codes "aaaaaaab") ≡ some (7 ∷ []))
    × (accept "r-1" "bbbbbbbbbbbbbbbb" 1000 120 (new 8) ≡ (ok tt, held))
verify_and_decrypt-genuine_example =
    verify_and_decrypt-genuine toy (request (pos 1000)) secret 1000 120 (new 8)
      (verified (pos 1000) (ground arith))

-- A request that is sent at second 1100 by the host's clock, at second 1000 and again at 1121 by
-- the agent's clock.
verify_and_decrypt-repeats_example :
    (verify_and_decrypt toy
      (request (pos 1100))
      secret
      1121
      120
      (verify_and_decrypt toy (request (pos 1100)) secret 1000 120 (new 8)).1).0
    ≡ ok ping
verify_and_decrypt-repeats_example =
    verify_and_decrypt-repeats toy (request (pos 1100)) secret 1000 120 8
      (ap (λ (o : ProtocolResult Command × ReplayCache). o.0) (verified (pos 1100) (ground arith)))
      (ground arith) (ground arith)

abbrev answer : ResponsePayload
answer = record { payload = some (pong "1.0"); error = none }

abbrev response : Response
response = record {
  version = 2;
  request_id = "r-1";
  sent_at = pos 1001;
  request_nonce = "bbbbbbbbbbbbbbbb";
  ok = true;
  encrypted_payload = "bbbbbbbbbbbbbbbb";
  signature = "aaaaaaab";
}

answered : sign_response toy (request (pos 1000)) (pos 1001) true answer secret ≡ ok response
unfolding sign_response require_strong_secret validate_data validate_response_text encrypt_json
    encryption_material response_encryption_domain response_domain
answered = refl

sized : validate_ciphertext toy "bbbbbbbbbbbbbbbb" "response" ≡ ok tt
unfolding validate_ciphertext
sized = refl

verify_response-sign_response_example :
    verify_response toy response secret "r-1" "bbbbbbbbbbbbbbbb" ping (pos 1000) 1002 120
    ≡ ok answer
verify_response-sign_response_example =
    verify_response-sign_response toy toy-IsFaithful (request (pos 1000)) (pos 1001) true answer
      secret ping (pos 1000) 1002 120 refl answered sized refl (ground arith) refl

verify_response-genuine_example :
    (response.request_id ≡ "r-1")
    × (response.request_nonce ≡ "bbbbbbbbbbbbbbbb")
    × (ltb_ℤ (pos 1001) (pos 1000) ≡ false)
    × (abs_diff (pos 1001) (pos 1002) ≤ 120)
    × (decode 0 (codes "aaaaaaab") ≡ some (7 ∷ []))
    × (◌≡◌ {A = Bool} true true)
    × (◌≡◌ {A = Bool} false false)
    × (matches_command toy ping answer.payload ≡ true)
verify_response-genuine_example =
    verify_response-genuine toy response secret "r-1" "bbbbbbbbbbbbbbbb" ping (pos 1000) 1002 120
      verify_response-sign_response_example

accepted-IsValid : IsValid (accept "r-1" "bbbbbbbbbbbbbbbb" 1000 120 (new 8)).1
accepted-IsValid = accept-IsValid "r-1" "bbbbbbbbbbbbbbbb" 1000 120 (new 8) (new-IsValid 8)

-- Another request comes in between.
accept-replay_example :
    (accept "r-1" "bbbbbbbbbbbbbbbb" 1100 120 (accept_all 120 (("r-2", "nonce", 1050) ∷ []) held)).0
    ≡ err replay
accept-replay_example =
    accept-replay "r-1" "bbbbbbbbbbbbbbbb" 1000 1100 120 (new 8) (("r-2", "nonce", 1050) ∷ [])
      (new-IsValid 8) accepted (ground arith) (ground arith, tt) (ground arith)

abbrev to_vec : ℕ → List ℕ
to_vec n = n ∷ n ∷ []

abbrev from_slice : List ℕ → Result String ℕ
from_slice [] = err "EOF"
from_slice (n ∷ ns) = ok n

abbrev frame : List ℕ
frame = 0 ∷ 0 ∷ 0 ∷ 2 ∷ 9 ∷ 9 ∷ []

written : write_frame to_vec from_slice [] 9 ≡ ok frame
unfolding write_frame
written = refl

read_frame-write_frame_example : read_frame to_vec from_slice (frame ++ frame) ≡ ok (9, frame)
read_frame-write_frame_example =
    read_frame-write_frame to_vec from_slice 9 frame refl (ground arith) written

read_frame-takes_example :
    (length frame + 5 ≤ length (frame ++ frame))
    × (length (frame ++ frame) ≤ length frame + 4 + max_frame_bytes)
read_frame-takes_example =
    read_frame-takes to_vec from_slice (frame ++ frame) read_frame-write_frame_example

abbrev first_address : NetworkAddress
first_address = record { address = v4 167772161; prefix_length = 24 }

abbrev second_address : NetworkAddress
second_address = record { address = v6 42540766411282592856903984951653826561; prefix_length = 64 }

settings :
    validate toy.decode toy.decode_padded
      (set_network (some "eth0") (first_address ∷ second_address ∷ []) (v4 167772414 ∷ []) [])
    ≡ ok tt
unfolding validate validate_interface bad_addresses bad_gateways
settings = refl

validate-set_network_example :
    (length (first_address ∷ second_address ∷ []) ≤ 64)
    × AreDistinct (first_address ∷ second_address ∷ [])
    × All
        (λ a. IsPrefix a.address a.prefix_length × IsUnicast a.address)
        (first_address ∷ second_address ∷ [])
    × (count_if is_ipv4 (v4 167772414 ∷ []) ≤ 1)
    × (count_if (λ a. not (is_ipv4 a)) (v4 167772414 ∷ []) ≤ 1)
validate-set_network_example =
    validate-set_network toy.decode toy.decode_padded (some "eth0")
      (first_address ∷ second_address ∷ []) (v4 167772414 ∷ []) [] settings
