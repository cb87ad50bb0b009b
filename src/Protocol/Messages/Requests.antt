-- ===== src/Protocol/Messages/Requests.antt =====
-- What a request that is accepted has been, and the way of a request from the host to the agent.
use mathlib.Core.Path.{subst}
use vexa_vm.Common.{
  ℕ, ◌≡◌, ◌≤◌, sym, ap, ◌∙◌, String, false, some, List, ◌++◌, arith, ltb, length, inl, inr,
}
use vexa_vm.Common.Chars.{codes}
use vexa_vm.Common.Int.{ℤ, pos}
use vexa_vm.Error.{ok, Result-cases}
use vexa_vm.Protocol.{ProtocolResult, Command, Request, protocol_version}
use vexa_vm.Protocol.Checks.{validate}
use vexa_vm.Protocol.Replay.{ReplayCache, accept}
use vexa_vm.Protocol.Messages.{
  Crypto, IsFaithful, abs_diff, require_strong_secret, from_json, validate_envelope,
  validate_ciphertext, encrypt_json, decrypt_json, sign_json, verify_json, unsigned, aad,
  sign_request, authenticate, open_command, verify_and_decrypt, request_domain,
  request_encryption_domain,
}
use vexa_vm.Protocol.Messages.Seals.{tag_equal, verify-sign, decrypt_json-encrypt_json}

strong_length : (secret : List ℕ) → require_strong_secret secret ≡ ok tt → 32 ≤ length secret
unfolding require_strong_secret
strong_length secret e = ground arith

module _ (x : Crypto) where
  -- A request that is genuine at one time is so at any other within the clock skew.
  pub authenticate-later :
      (r : Request) (secret : List ℕ) (t now skew : ℕ) {u : Unit {0}}
      → authenticate x r secret t skew ≡ ok u
      → abs_diff r.sent_at (pos now) ≤ skew
      → authenticate x r secret now skew ≡ ok tt
  unfolding authenticate
  authenticate-later r secret t now skew e near =
      let skewed : ltb skew (abs_diff r.sent_at (pos now)) ≡ false = ground arith in
      let strong : require_strong_secret secret ≡ ok tt = ground arith in
      let envelope : validate_envelope x r.version r.request_id r.nonce ≡ ok tt = ground arith in
      let size : validate_ciphertext x r.encrypted_command "request" ≡ ok tt = ground arith in
      let tag : verify_json x request_domain (unsigned x r) secret r.signature ≡ ok tt =
        ground arith in
      rw (strong, authenticate, envelope, size, skewed) tag

  opened_valid :
      (r : Request) (secret : List ℕ) {command : Command}
      → open_command x r secret ≡ ok command
      → validate x.decode x.decode_padded command ≡ ok tt
  unfolding open_command
  opened_valid r secret {command} e =
      elim (Result-cases (
        decrypt_json x request_encryption_domain r.nonce (aad x r) r.encrypted_command secret
          x.command_of_json)) [
            | inl (c, clear) ↦ elim (Result-cases (validate x.decode x.decode_padded c)) [
              | inl (u, valid) ↦
                  let same : c ≡ command = ground (arith, clear, valid) in rw (← same) valid
              | inr (e', bad) ↦ absurd (ground (arith, clear, bad))
            ]
            | inr (e', bad) ↦ absurd (ground (arith, bad))
          ]

  genuine_parts :
      (r : Request) (secret : List ℕ) (now skew : ℕ) {u : Unit {0}}
      → authenticate x r secret now skew ≡ ok u
      → (32 ≤ length secret)
        × (abs_diff r.sent_at (pos now) ≤ skew)
        × (x.decode (codes r.signature) ≡ some (x.hmac secret (request_domain ++ unsigned x r)))
  unfolding authenticate
  genuine_parts r secret now skew e =
      let strong : require_strong_secret secret ≡ ok tt = ground arith in
      let near : ltb skew (abs_diff r.sent_at (pos now)) ≡ false = ground arith in
      let tag : verify_json x request_domain (unsigned x r) secret r.signature ≡ ok tt =
        ground arith in
      (
        strong_length secret strong,
        ground (arith, near),
        tag_equal x request_domain (unsigned x r) secret r.signature tag,
      )

  -- A request that passes the checks and the cache is opened.
  pub verified :
      (r : Request) (secret : List ℕ) (now skew : ℕ) (cache : ReplayCache) {cache' : ReplayCache}
      → authenticate x r secret now skew ≡ ok tt
      → accept r.request_id r.nonce now skew cache ≡ (ok tt, cache')
      → verify_and_decrypt x r secret now skew cache ≡ (open_command x r secret, cache')
  unfolding verify_and_decrypt
  verified r secret now skew cache genuine fresh = ground (arith, genuine, fresh)

  -- What is accepted is a command that passes the checks, under a secret of at least 32 bytes, from a
  -- request within the clock skew that carries the HMAC of all its other fields, and that the
  -- replay cache had not seen.
  pub verify_and_decrypt-genuine :
      (r : Request) (secret : List ℕ) (now skew : ℕ) (cache : ReplayCache) {command : Command}
      {cache' : ReplayCache}
      → verify_and_decrypt x r secret now skew cache ≡ (ok command, cache')
      → (validate x.decode x.decode_padded command ≡ ok tt)
        × (32 ≤ length secret)
        × (abs_diff r.sent_at (pos now) ≤ skew)
        × (x.decode (codes r.signature) ≡ some (x.hmac secret (request_domain ++ unsigned x r)))
        × (accept r.request_id r.nonce now skew cache ≡ (ok tt, cache'))
  unfolding verify_and_decrypt
  verify_and_decrypt-genuine r secret now skew cache {command} {cache'} e =
      elim (Result-cases (authenticate x r secret now skew)) [
        | inl (u, genuine) ↦ elim (Result-cases (accept r.request_id r.nonce now skew cache).0) [
          | inl (u', fresh) ↦
              let opened : open_command x r secret ≡ ok command = ground (arith, genuine, fresh) in
              let left : (accept r.request_id r.nonce now skew cache).1 ≡ cache' =
                ground (arith, genuine, fresh) in
              let (strong, near, tag) = genuine_parts r secret now skew genuine in
              (opened_valid r secret opened, strong, near, tag, ground (arith, fresh, left))
          | inr (e', old) ↦ absurd (ground (arith, genuine, old))
        ]
        | inr (e', bad) ↦ absurd (ground (arith, bad))
      ]

module _ (x : Crypto) (f : IsFaithful x) where
  abbrev built : String → ℤ → String → String → List ℕ → Request
  built request_id sent_at nonce sealed secret = record {
    version = protocol_version;
    request_id = request_id;
    sent_at = sent_at;
    nonce = nonce;
    encrypted_command = sealed;
    signature =
        sign_json x request_domain
          (x.unsigned_json protocol_version request_id sent_at nonce sealed) secret;
  }

  signed_parts :
      (request_id : String) (sent_at : ℤ) (nonce : String) (command : Command) (secret : List ℕ)
      {r : Request}
      → sign_request x request_id sent_at nonce command secret ≡ ok r
      → (require_strong_secret secret ≡ ok tt)
        × (validate x.decode x.decode_padded command ≡ ok tt)
        × (validate_envelope x protocol_version request_id nonce ≡ ok tt)
        × (encrypt_json x request_encryption_domain nonce
              (x.aad_json protocol_version request_id sent_at nonce)
              (x.command_json command)
              secret
            ≡ ok r.encrypted_command)
        × (validate_ciphertext x r.encrypted_command "request" ≡ ok tt)
        × (r ≡ built request_id sent_at nonce r.encrypted_command secret)
  unfolding sign_request
  signed_parts request_id sent_at nonce command secret {r} e =
      let strong : require_strong_secret secret ≡ ok tt = ground arith in
      let valid : validate x.decode x.decode_padded command ≡ ok tt = ground arith in
      let envelope : validate_envelope x protocol_version request_id nonce ≡ ok tt = ground arith in
      elim (Result-cases (
        encrypt_json x request_encryption_domain nonce
          (x.aad_json protocol_version request_id sent_at nonce) (x.command_json command) secret)) [
            | inl (sealed, enc) ↦
                let size : validate_ciphertext x sealed "request" ≡ ok tt = ground (arith, enc) in
                let is : built request_id sent_at nonce sealed secret ≡ r =
                  ground (arith, enc, size) in
                let cipher : sealed ≡ r.encrypted_command =
                  ap (λ (q : Request). q.encrypted_command) is in
                (
                  strong,
                  valid,
                  envelope,
                  rw (← cipher) enc,
                  rw (← cipher) size,
                  sym is ∙ ap (λ (s : String). built request_id sent_at nonce s secret) cipher,
                )
            | inr (e', bad) ↦ absurd (ground (arith, bad))
          ]

  authenticate-built :
      (request_id : String) (sent_at : ℤ) (nonce sealed : String) (secret : List ℕ) (now skew : ℕ)
      → require_strong_secret secret ≡ ok tt
      → validate_envelope x protocol_version request_id nonce ≡ ok tt
      → validate_ciphertext x sealed "request" ≡ ok tt
      → ltb skew (abs_diff sent_at (pos now)) ≡ false
      → authenticate x (built request_id sent_at nonce sealed secret) secret now skew ≡ ok tt
  unfolding authenticate
  authenticate-built request_id sent_at nonce sealed secret now skew strong envelope size near =
      let tag =
        verify-sign x f request_domain
          (x.unsigned_json protocol_version request_id sent_at nonce sealed) secret in
      rw (strong, authenticate, envelope, size, near) tag

  open-built :
      (request_id : String) (sent_at : ℤ) (nonce sealed : String) (secret : List ℕ)
      (command : Command)
      → decrypt_json x request_encryption_domain nonce
          (x.aad_json protocol_version request_id sent_at nonce)
          sealed
          secret
          x.command_of_json
        ≡ ok command
      → validate x.decode x.decode_padded command ≡ ok tt
      → open_command x (built request_id sent_at nonce sealed secret) secret ≡ ok command
  unfolding open_command
  open-built request_id sent_at nonce sealed secret command clear valid =
      rw (clear, open_command, valid)

  -- A request that the host signed is accepted by an agent with the same secret, and yields the
  -- command that was sent, if its JSON parses back to it, it comes within the clock skew and the
  -- replay cache accepts it.
  pub verify_and_decrypt-sign_request :
      (request_id : String) (sent_at : ℤ) (nonce : String) (command : Command) (secret : List ℕ)
      (now skew : ℕ) (cache : ReplayCache) {r : Request} {cache' : ReplayCache}
      → x.command_of_json (x.command_json command) ≡ ok command
      → sign_request x request_id sent_at nonce command secret ≡ ok r
      → abs_diff sent_at (pos now) ≤ skew
      → accept request_id nonce now skew cache ≡ (ok tt, cache')
      → verify_and_decrypt x r secret now skew cache ≡ (ok command, cache')
  verify_and_decrypt-sign_request request_id sent_at nonce command secret now skew cache {r}
        {cache'} parses e near fresh =
      let (strong, valid, envelope, enc, size, is) =
        signed_parts request_id sent_at nonce command secret e in
      let sealed = r.encrypted_command in
      let clear =
        decrypt_json-encrypt_json x f request_encryption_domain nonce
          (x.aad_json protocol_version request_id sent_at nonce) (x.command_json command) secret
          x.command_of_json enc
        ∙ ap from_json parses in
      let skewed : ltb skew (abs_diff sent_at (pos now)) ≡ false = ground arith in
      subst (λ (q : Request). verify_and_decrypt x q secret now skew cache ≡ (ok command, cache'))
        (sym is)
        (verified x (built request_id sent_at nonce sealed secret) secret now skew cache
            (authenticate-built request_id sent_at nonce sealed secret now skew strong envelope size
              skewed)
            fresh
          ∙ ap (λ (o : ProtocolResult Command). (o, cache'))
              (open-built request_id sent_at nonce sealed secret command clear valid))
