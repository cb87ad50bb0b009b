-- ===== src/Protocol/Messages/Seals.antt =====
-- Signatures and ciphertexts are opened by what made them.
use vexa_vm.Common.{
  ℕ, ◌≡◌, refl, sym, ap, ◌∙◌, String, true, Option, none, some, List, [], ◌∷◌, ◌++◌, arith,
  Option-cases, inl, inr,
}
use vexa_vm.Common.Chars.{codes, text_eq}
use vexa_vm.Error.{Result, ok, Result-cases}
use vexa_vm.Protocol.{ProtocolError}
use vexa_vm.Protocol.Messages.{
  Crypto, IsFaithful, require_strong_secret, require, from_json, encryption_material, encrypt_json,
  decrypt_json, sign_json, verify_json,
}

pub text_eq_refl : (a : List ℕ) → text_eq a a ≡ true
text_eq_refl [] = refl
text_eq_refl (c ∷ cs) = ground (arith, text_eq_refl cs)

pub text_eq_sound : (a b : List ℕ) → text_eq a b ≡ true → a ≡ b
text_eq_sound [] [] h = refl
text_eq_sound [] (d ∷ ds) h = cc
text_eq_sound (c ∷ cs) [] h = cc
text_eq_sound (c ∷ cs) (d ∷ ds) h = ground (arith, text_eq_sound cs ds)

pub require-eq-ok :
    (o : Option (List ℕ)) (e : ProtocolError) {bytes : List ℕ}
    → require o e ≡ ok bytes
    → o ≡ some bytes
require-eq-ok none e h = cc
require-eq-ok (some b) e h = cc

module _ (x : Crypto) where
  pub tag_equal :
      (domain payload secret : List ℕ) (signature : String)
      → verify_json x domain payload secret signature ≡ ok tt
      → x.decode (codes signature) ≡ some (x.hmac secret (domain ++ payload))
  unfolding verify_json
  tag_equal domain payload secret signature e = elim (Option-cases (x.decode (codes signature))) [
    | inl bad ↦ absurd (ground (arith, bad))
    | inr (tag, read) ↦
        let equal : text_eq (x.hmac secret (domain ++ payload)) tag ≡ true = ground (arith, read) in
        read ∙ ap some (sym (text_eq_sound (x.hmac secret (domain ++ payload)) tag equal))
  ]

module _ (x : Crypto) (f : IsFaithful x) where
  pub verify-sign :
      (domain payload secret : List ℕ)
      → verify_json x domain payload secret (sign_json x domain payload secret) ≡ ok tt
  unfolding verify_json
  verify-sign domain payload secret = rw (
    f.decode-encode (x.hmac secret (domain ++ payload)),
    verify_json,
    text_eq_refl (x.hmac secret (domain ++ payload)),
  )

  -- What was encrypted is decrypted under the same domain, nonce, associated data and secret.
  pub decrypt_json-encrypt_json :
      {T : Type 0} (domain : List ℕ) (nonce : String) (aad' plaintext secret : List ℕ)
      (of_json : List ℕ → Result String T) {sealed : String}
      → encrypt_json x domain nonce aad' plaintext secret ≡ ok sealed
      → decrypt_json x domain nonce aad' sealed secret of_json ≡ from_json (of_json plaintext)
  unfolding encrypt_json decrypt_json
  decrypt_json-encrypt_json domain nonce aad' plaintext secret of_json {sealed} e =
      elim (Result-cases (require_strong_secret secret)) [
        | inl (u, strong) ↦ elim (Result-cases (encryption_material x domain nonce secret)) [
          | inl (material, made) ↦
              elim (Option-cases (x.seal material.0 material.1 (domain ++ aad') plaintext)) [
                | inl failed ↦ absurd (ground (arith, strong, made, failed))
                | inr (bytes, done) ↦
                    let is : sealed ≡ x.encode bytes = ground (arith, strong, made, done) in
                    let back : x.decode (codes sealed) ≡ some bytes =
                      rw is (f.decode-encode bytes) in
                    let clear =
                      f.unseal-seal material.0 material.1 (domain ++ aad') plaintext done in
                    ground (arith, strong, made, back, clear)
              ]
          | inr (e', bad) ↦ absurd (ground (arith, strong, bad))
        ]
        | inr (e', weak) ↦ absurd (ground (arith, weak))
      ]
