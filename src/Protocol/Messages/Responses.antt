-- ===== src/Protocol/Messages/Responses.antt =====
-- The way of a response from the agent to the host, and what a response that is accepted has been.
use mathlib.Core.Path.{subst}
use vexa_vm.Common.{
  ℕ, ◌≡◌, ◌≤◌, sym, ap, ◌∙◌, Bool, String, true, false, ◌||◌, not, some, List, ◌++◌, arith, ltb,
  ◌==◌, inl, inr, str_eq, eq_iff, eq_refl,
}
use vexa_vm.Common.Chars.{codes}
use vexa_vm.Common.Int.{ℤ, pos, ltb_ℤ}
use vexa_vm.Error.{ok, Result-cases}
use vexa_vm.Db.{is_some}
use vexa_vm.Protocol.{Command, Request, Response, ResponsePayload, protocol_version}
use vexa_vm.Protocol.Messages.{
  Crypto, IsFaithful, abs_diff, require_strong_secret, from_json, validate_ciphertext, encrypt_json,
  decrypt_json, sign_json, verify_json, response_domain, response_encryption_domain, response_aad,
  unsigned_response, is_inconsistent, matches_command, validate_some_data, validate_some_error,
  sign_response, verify_response,
}
use vexa_vm.Protocol.Messages.Seals.{decrypt_json-encrypt_json, verify-sign, tag_equal}

module _ (x : Crypto) where
  consistent_parts :
      (done : Bool) (p : ResponsePayload)
      → is_inconsistent x done p ≡ false
      → (is_some p.payload ≡ done) × (is_some p.error ≡ not done)
  consistent_parts done p h = ground arith

  verify_response-envelope :
      (r : Response) (secret : List ℕ) (request_id nonce : String) (command : Command)
      (request_sent_at : ℤ) (now skew : ℕ) {p : ResponsePayload}
      → verify_response x r secret request_id nonce command request_sent_at now skew ≡ ok p
      → ((not (r.version == protocol_version)
            || not (str_eq r.request_id request_id)
            || not (str_eq r.request_nonce nonce)
            || ltb_ℤ r.sent_at request_sent_at
            || ltb skew (abs_diff r.sent_at (pos now)))
          ≡ false)
        × (verify_json x response_domain (unsigned_response x r) secret r.signature ≡ ok tt)
  unfolding verify_response
  verify_response-envelope r secret request_id nonce command request_sent_at now skew e =
      (ground arith, ground arith)

  verify_response-payload :
      (r : Response) (secret : List ℕ) (request_id nonce : String) (command : Command)
      (request_sent_at : ℤ) (now skew : ℕ) {p : ResponsePayload}
      → verify_response x r secret request_id nonce command request_sent_at now skew ≡ ok p
      → (is_inconsistent x r.ok p ≡ false) × (matches_command x command p.payload ≡ true)
  unfolding verify_response
  verify_response-payload r secret request_id nonce command request_sent_at now skew {p} e =
      elim (Result-cases (
        decrypt_json x response_encryption_domain r.request_nonce (response_aad x r)
          r.encrypted_payload secret x.payload_of_json)) [
            | inl (q, clear) ↦
                let consistent : is_inconsistent x r.ok q ≡ false = ground (arith, clear) in
                let right : matches_command x command q.payload ≡ true = ground (arith, clear) in
                let same : q ≡ p = ground (arith, clear) in
                (rw (← same) consistent, rw (← same) right)
            | inr (e', bad) ↦ absurd (ground (arith, bad))
          ]

  envelope_parts :
      (r : Response) (request_id nonce : String) (request_sent_at : ℤ) (now skew : ℕ)
      → (not (r.version == protocol_version)
          || not (str_eq r.request_id request_id)
          || not (str_eq r.request_nonce nonce)
          || ltb_ℤ r.sent_at request_sent_at
          || ltb skew (abs_diff r.sent_at (pos now)))
        ≡ false
      → (str_eq r.request_id request_id ≡ true)
        × (str_eq r.request_nonce nonce ≡ true)
        × (ltb_ℤ r.sent_at request_sent_at ≡ false)
        × (abs_diff r.sent_at (pos now) ≤ skew)
  envelope_parts r request_id nonce request_sent_at now skew h = ground arith

  -- A response that the host accepts answers its request: it bears the request's id and nonce, is
  -- not older than the request, is within the clock skew and carries the HMAC of its other fields;
  -- what it yields is data of the command's kind if it says that it succeeded, and otherwise an
  -- error.
  pub verify_response-genuine :
      (r : Response) (secret : List ℕ) (request_id nonce : String) (command : Command)
      (request_sent_at : ℤ) (now skew : ℕ) {p : ResponsePayload}
      → verify_response x r secret request_id nonce command request_sent_at now skew ≡ ok p
      → (r.request_id ≡ request_id)
        × (r.request_nonce ≡ nonce)
        × (ltb_ℤ r.sent_at request_sent_at ≡ false)
        × (abs_diff r.sent_at (pos now) ≤ skew)
        × (x.decode (codes r.signature)
            ≡ some (x.hmac secret (response_domain ++ unsigned_response x r)))
        × (is_some p.payload ≡ r.ok)
        × (is_some p.error ≡ not r.ok)
        × (matches_command x command p.payload ≡ true)
  verify_response-genuine r secret request_id nonce command request_sent_at now skew e =
      let (fits, tag) =
        verify_response-envelope r secret request_id nonce command request_sent_at now skew e in
      let (consistent, right) =
        verify_response-payload r secret request_id nonce command request_sent_at now skew e in
      let (id, nonce', later, near) =
        envelope_parts r request_id nonce request_sent_at now skew fits in
      let (some_data, some_error) = consistent_parts r.ok _ consistent in
      (
        (eq_iff r.request_id request_id).0 id,
        (eq_iff r.request_nonce nonce).0 nonce',
        later,
        near,
        tag_equal x response_domain (unsigned_response x r) secret r.signature tag,
        some_data,
        some_error,
        right,
      )

module _ (x : Crypto) (f : IsFaithful x) where
  abbrev built : Request → ℤ → Bool → String → List ℕ → Response
  built request sent_at done sealed secret = record {
    version = protocol_version;
    request_id = request.request_id;
    sent_at = sent_at;
    request_nonce = request.nonce;
    ok = done;
    encrypted_payload = sealed;
    signature =
        sign_json x response_domain
          (x.unsigned_response_json protocol_version request.request_id sent_at request.nonce done
            sealed)
          secret;
  }

  signed_parts :
      (request : Request) (sent_at : ℤ) (done : Bool) (p : ResponsePayload) (secret : List ℕ)
      {r : Response}
      → sign_response x request sent_at done p secret ≡ ok r
      → (require_strong_secret secret ≡ ok tt)
        × (is_inconsistent x done p ≡ false)
        × (validate_some_data x p.payload ≡ ok tt)
        × (validate_some_error x p.error ≡ ok tt)
        × (encrypt_json x response_encryption_domain request.nonce
              (x.response_aad_json protocol_version request.request_id sent_at request.nonce done)
              (x.payload_json p)
              secret
            ≡ ok r.encrypted_payload)
        × (r ≡ built request sent_at done r.encrypted_payload secret)
  unfolding sign_response
  signed_parts request sent_at done p secret {r} e =
      let strong : require_strong_secret secret ≡ ok tt = ground arith in
      let consistent : is_inconsistent x done p ≡ false = ground arith in
      let some_data : validate_some_data x p.payload ≡ ok tt = ground arith in
      let some_error : validate_some_error x p.error ≡ ok tt = ground arith in
      elim (Result-cases (
        encrypt_json x response_encryption_domain request.nonce
          (x.response_aad_json protocol_version request.request_id sent_at request.nonce done)
          (x.payload_json p) secret)) [
            | inl (sealed, enc) ↦
                let is : built request sent_at done sealed secret ≡ r = ground (arith, enc) in
                let cipher : sealed ≡ r.encrypted_payload =
                  ap (λ (q : Response). q.encrypted_payload) is in
                (
                  strong,
                  consistent,
                  some_data,
                  some_error,
                  rw (← cipher) enc,
                  sym is ∙ ap (λ (s : String). built request sent_at done s secret) cipher,
                )
            | inr (e', bad) ↦ absurd (ground (arith, bad))
          ]

  verify-built :
      (request : Request) (sent_at : ℤ) (done : Bool) (sealed : String) (p : ResponsePayload)
      (secret : List ℕ) (command : Command) (request_sent_at : ℤ) (now skew : ℕ)
      → require_strong_secret secret ≡ ok tt
      → is_inconsistent x done p ≡ false
      → validate_some_data x p.payload ≡ ok tt
      → validate_some_error x p.error ≡ ok tt
      → validate_ciphertext x sealed "response" ≡ ok tt
      → decrypt_json x response_encryption_domain request.nonce
          (x.response_aad_json protocol_version request.request_id sent_at request.nonce done)
          sealed
          secret
          x.payload_of_json
        ≡ ok p
      → ltb_ℤ sent_at request_sent_at ≡ false
      → abs_diff sent_at (pos now) ≤ skew
      → matches_command x command p.payload ≡ true
      → verify_response x
          (built request sent_at done sealed secret)
          secret
          request.request_id
          request.nonce
          command
          request_sent_at
          now
          skew
        ≡ ok p
  unfolding verify_response
  verify-built request sent_at done sealed p secret command request_sent_at now skew strong
        consistent some_data some_error size clear later near right =
      let tag =
        verify-sign x f response_domain
          (x.unsigned_response_json protocol_version request.request_id sent_at request.nonce done
            sealed)
          secret in
      let skewed : ltb skew (abs_diff sent_at (pos now)) ≡ false = ground arith in
      ground (
        arith,
        strong,
        eq_refl request.request_id,
        eq_refl request.nonce,
        later,
        skewed,
        size,
        tag,
        clear,
        consistent,
        some_data,
        some_error,
        right,
      )

  -- A response that the agent signed, whose JSON parses back, and whose ciphertext has a size that a frame can hold, is
  -- accepted by the host that sent the request, and yields what the agent sent, if it is not older
  -- than the request, comes within the clock skew and is of the command's kind.
  pub verify_response-sign_response :
      (request : Request) (sent_at : ℤ) (done : Bool) (p : ResponsePayload) (secret : List ℕ)
      (command : Command) (request_sent_at : ℤ) (now skew : ℕ) {r : Response}
      → x.payload_of_json (x.payload_json p) ≡ ok p
      → sign_response x request sent_at done p secret ≡ ok r
      → validate_ciphertext x r.encrypted_payload "response" ≡ ok tt
      → ltb_ℤ sent_at request_sent_at ≡ false
      → abs_diff sent_at (pos now) ≤ skew
      → matches_command x command p.payload ≡ true
      → verify_response x r secret request.request_id request.nonce command request_sent_at now skew
        ≡ ok p
  verify_response-sign_response request sent_at done p secret command request_sent_at now skew {r}
        parses e size later near right =
      let (strong, consistent, some_data, some_error, enc, is) =
        signed_parts request sent_at done p secret e in
      let clear =
        decrypt_json-encrypt_json x f response_encryption_domain request.nonce
          (x.response_aad_json protocol_version request.request_id sent_at request.nonce done)
          (x.payload_json p) secret x.payload_of_json enc
        ∙ ap from_json parses in
      subst
        (λ (q : Response).
          verify_response x q secret request.request_id request.nonce command request_sent_at now
            skew
          ≡ ok p)
        (sym is)
        (verify-built request sent_at done r.encrypted_payload p secret command request_sent_at now
          skew strong consistent some_data some_error size clear later near right)
