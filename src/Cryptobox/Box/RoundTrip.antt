-- ===== src/Cryptobox/Box/RoundTrip.antt =====
-- Sealing and then opening, and a change of the master key between them.
use opswarden.Prelude.{
  ℕ, ◌≡◌, refl, ap, sym, Bool-cases, inl, inr, true, arith, Option, Option-cases, subst, none, some,
  length, [], ◌∷◌,
}
use opswarden.Cryptobox.Bytes.{Bytes}
use opswarden.Cryptobox.Codec.{Envelope, Sizes, bytes_equal}
use opswarden.Cryptobox.Context.{
  CredentialContext, IdentityContext, payload_domain, wrap_domain, credential_aad,
}
use opswarden.Cryptobox.Box.{
  Aead, ok, same_context, Draws, encrypt_envelope, decrypt_envelope, encrypt_credential,
  decrypt_credential, encrypt_identity, decrypt_identity, rewrap_data_key,
}

-- A read of the random source fills the buffer: it fails or gives that many bytes.
abbrev pub Fills : ℕ → Option Bytes → Type 0
Fills n none = Unit
Fills n (some bytes) = length bytes ≡ n

pub record DrawsFill (sizes : Sizes) (draws : Draws) : Type 0 where
  pub nonce : Fills sizes.nonce_size draws.nonce
  pub wrap_nonce : Fills sizes.nonce_size draws.wrap_nonce

bytes_equal_sound : (a b : Bytes) → bytes_equal a b ≡ true → a ≡ b
bytes_equal_sound [] [] h = refl
bytes_equal_sound [] (y ∷ b) h = cc
bytes_equal_sound (x ∷ a) [] h = cc
bytes_equal_sound (x ∷ a) (y ∷ b) h = ground (arith, bytes_equal_sound a b)

same_context_sound : (c d : CredentialContext) → same_context c d ≡ true → c ≡ d
unfolding same_context
same_context_sound c d h = ground (
  arith,
  bytes_equal_sound c.credential_id d.credential_id,
  bytes_equal_sound c.space_id d.space_id,
  bytes_equal_sound c.type d.type,
)

module _ (aead : Aead) where
  open aead use {sizes, seal, open_sealed, open-seal}

  sealed-opens :
      (master_key payload_aad wrap_aad plaintext : Bytes) (k n v : Option Bytes) (env : Envelope)
      → Fills sizes.nonce_size n
      → Fills sizes.nonce_size v
      → encrypt_envelope aead master_key payload_aad wrap_aad plaintext
          (record { data_key = k; nonce = n; wrap_nonce = v })
        ≡ ok env
      → decrypt_envelope aead master_key payload_aad wrap_aad env ≡ ok plaintext
  unfolding encrypt_envelope decrypt_envelope
  sealed-opens m pa wa p none n v env fn fv h = cc
  sealed-opens m pa wa p (some k) none v env fn fv h = ground arith
  sealed-opens m pa wa p (some k) (some n) none env fn fv h = ground arith
  sealed-opens m pa wa p (some k) (some n) (some v) env fn fv h =
      ground (arith, open-seal k n p pa, open-seal m v k wa)

  -- What was sealed under a credential's context, with a random source that fails or fills its
  -- buffer, opens under the same master key and context to the same plaintext.
  pub decrypt-encrypt_credential :
      (master_key : Bytes) (ctx : CredentialContext) (plaintext : Bytes) (draws : Draws)
      (env : Envelope)
      → DrawsFill sizes draws
      → encrypt_credential aead master_key ctx plaintext draws ≡ ok env
      → decrypt_credential aead master_key ctx env ≡ ok plaintext
  unfolding encrypt_credential decrypt_credential
  decrypt-encrypt_credential m ctx p draws env f h =
      sealed-opens m _ _ p draws.data_key draws.nonce draws.wrap_nonce env f.nonce f.wrap_nonce h

  -- What was sealed for a user and a purpose, with a random source that fails or fills its buffer,
  -- opens under the same master key, user and purpose to the same plaintext.
  pub decrypt-encrypt_identity :
      (master_key : Bytes) (ctx : IdentityContext) (plaintext : Bytes) (draws : Draws)
      (env : Envelope)
      → DrawsFill sizes draws
      → encrypt_identity aead master_key ctx plaintext draws ≡ ok env
      → decrypt_identity aead master_key ctx env ≡ ok plaintext
  unfolding encrypt_identity decrypt_identity
  decrypt-encrypt_identity m ctx p draws env f h =
      sealed-opens m _ _ p draws.data_key draws.nonce draws.wrap_nonce env f.nonce f.wrap_nonce h

  -- What holds of a rewrapped envelope whose context is unchanged.
  abbrev pub KeepsPayload :
      Bytes → Bytes → CredentialContext → CredentialContext → Envelope → Envelope → Type 0
  KeepsPayload m m' c d env rewrapped =
      (plaintext : Bytes) × (decrypt_credential aead m c env ≡ ok plaintext)
      × (decrypt_credential aead m' d rewrapped ≡ ok plaintext)
      × (rewrapped.ciphertext ≡ env.ciphertext)
      × (rewrapped.nonce ≡ env.nonce)
      × (c ≡ d)

  module _ (m m' : Bytes) (c : CredentialContext) (env rewrapped : Envelope) where
    -- By the data key, the payload and the new nonce; without one of them rewrapping fails.
    rewrapped_opens :
        (key payload drawn : Option Bytes)
        → Fills sizes.nonce_size drawn
        → open_sealed m env.wrap_nonce env.wrapped_data_key (credential_aad wrap_domain c) ≡ key
        → ((k : Bytes)
            → key ≡ some k
            → open_sealed k env.nonce env.ciphertext (credential_aad payload_domain c) ≡ payload)
        → rewrap_data_key aead m c c env m' drawn ≡ ok rewrapped
        → KeepsPayload m m' c c env rewrapped
    unfolding rewrap_data_key decrypt_credential
    rewrapped_opens (some k) (some p) (some v) f e o h =
        let o' = o k refl in
        (
          p,
          ground arith,
          ground (arith, open-seal m' v k (credential_aad wrap_domain c)),
          ground arith,
          ground arith,
          refl,
        )
    rewrapped_opens (some k) none drawn f e o h = absurd (ground (arith, o k refl))
    rewrapped_opens (some k) q none f e o h = absurd (ground (arith, o k refl))
    rewrapped_opens none q drawn f e o h = absurd (ground arith)

    rewrap_same :
        (drawn : Option Bytes)
        → Fills sizes.nonce_size drawn
        → rewrap_data_key aead m c c env m' drawn ≡ ok rewrapped
        → KeepsPayload m m' c c env rewrapped
    rewrap_same drawn f h =
        elim (Option-cases
          (open_sealed m env.wrap_nonce env.wrapped_data_key (credential_aad wrap_domain c))) [
            | inl e ↦ rewrapped_opens none none drawn f e (λ k s. absurd (cc)) h
            | inr (k, e) ↦
                rewrapped_opens (some k)
                  (open_sealed k env.nonce env.ciphertext (credential_aad payload_domain c)) drawn f
                  e
                  (λ k' s.
                    ap
                      (λ x.
                        open_sealed x env.nonce env.ciphertext (credential_aad payload_domain c))
                      (ground arith))
                  h
          ]

  -- If changing the master key of an envelope succeeds, with a random source that fails or fills
  -- its buffer, then both contexts are one, the envelope opened under the old key, the new one
  -- opens under the new key to the same plaintext, and ciphertext and nonce are as they were.
  pub rewrap-decrypt :
      (master_key : Bytes) (old_ctx new_ctx : CredentialContext) (env rewrapped : Envelope)
      (new_master : Bytes) (drawn : Option Bytes)
      → Fills sizes.nonce_size drawn
      → rewrap_data_key aead master_key old_ctx new_ctx env new_master drawn ≡ ok rewrapped
      → KeepsPayload master_key new_master old_ctx new_ctx env rewrapped
  unfolding rewrap_data_key
  rewrap-decrypt m c d env rewrapped m' drawn f h = elim (Bool-cases (same_context c d)) [
    | inr apart ↦ absurd (ground arith)
    | inl e ↦
        let same = same_context_sound c d e in
        subst (λ x. KeepsPayload m m' c x env rewrapped) same
          (rewrap_same m m' c env rewrapped drawn f
            (subst (λ x. rewrap_data_key aead m c x env m' drawn ≡ ok rewrapped) (sym same) h))
  ]
