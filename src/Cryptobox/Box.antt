-- ===== src/Cryptobox/Box.antt =====
-- internal/cryptobox/envelope.go: sealing and opening envelopes. The cipher is golang.org/x/crypto's
-- and a parameter; a read of the random source is an argument, `none` where it fails.
pub mod RoundTrip
mod Examples
use opswarden.Prelude.{
  ℕ, ◌+◌, ◌≡◌, Bool, true, false, not, ◌&&◌, Option, none, some, length, ◌==◌, if◌then◌else◌,
}
use opswarden.Cryptobox.Bytes.{Bytes}
use opswarden.Cryptobox.Codec.{Envelope, Sizes, bytes_equal}
use opswarden.Cryptobox.Context.{
  CredentialContext, IdentityContext, payload_domain, wrap_domain, identity_payload_domain,
  identity_wrap_domain, credential_aad, identity_aad,
}

-- `seal` and `open_sealed` of an AEAD by key, nonce, text and additional data, for keys and nonces of
-- the right sizes: what was sealed opens under the same key, nonce and data, and is longer by the
-- overhead.
pub record Aead : Type 0 where
  pub sizes : Sizes
  pub seal : Bytes → Bytes → Bytes → Bytes → Bytes
  pub open_sealed : Bytes → Bytes → Bytes → Bytes → Option Bytes
  pub open-seal :
      (key nonce plaintext aad : Bytes)
      → length key ≡ sizes.key_size
      → length nonce ≡ sizes.nonce_size
      → open_sealed key nonce (seal key nonce plaintext aad) aad ≡ some plaintext
  pub length-seal :
      (key nonce plaintext aad : Bytes)
      → length (seal key nonce plaintext aad) ≡ length plaintext + sizes.overhead

pub data BoxError : Type 0 where
  random_failed cipher_failed err_authentication err_context_change : BoxError

pub data Result {ℓ} (A : Type ℓ) : Type ℓ where
  ok : A → Result A
  err : BoxError → Result A

infixl 5 ◌>>=◌
abbrev pub ◌>>=◌ {ℓ κ} : {A : Type ℓ} {B : Type κ} → Result A → (A → Result B) → Result B
ok a >>= f = f a
err e >>= f = err e

-- A read of the random source.
pub read_full : Option Bytes → Result Bytes
read_full none = err random_failed
read_full (some bytes) = ok bytes

-- CredentialContext values are compared by `==`.
pub same_context : CredentialContext → CredentialContext → Bool
same_context c d =
    bytes_equal c.credential_id d.credential_id
    && (bytes_equal c.space_id d.space_id && (c.version == d.version && bytes_equal c.type d.type))

-- What the random source gives to one encryption, in the order of the reads.
pub record Draws : Type 0 where
  pub data_key : Option Bytes
  pub nonce : Option Bytes
  pub wrap_nonce : Option Bytes

module _ (aead : Aead) where
  open aead use {sizes, seal, open_sealed}

  -- chacha20poly1305.NewX accepts a key by its length; its result is the key.
  unfoldable pub new_x : Bytes → BoxError → Result Bytes
  new_x key e = if length key == sizes.key_size then ok key else err e

  -- The box is its master key.
  pub encrypt_envelope : Bytes → Bytes → Bytes → Bytes → Draws → Result Envelope
  unfolding read_full new_x
  encrypt_envelope master_key payload_aad wrap_aad plaintext draws = do
    data_key ← read_full draws.data_key
    payload_key ← new_x data_key cipher_failed
    nonce ← read_full draws.nonce
    wrapping_key ← new_x master_key cipher_failed
    wrap_nonce ← read_full draws.wrap_nonce
    ok (record {
      ciphertext = seal payload_key nonce plaintext payload_aad;
      nonce = nonce;
      wrapped_data_key = seal wrapping_key wrap_nonce data_key wrap_aad;
      wrap_nonce = wrap_nonce;
    })

  -- An opened data key must have the size of a key.
  unfoldable pub checked_key : Option Bytes → Result Bytes
  checked_key none = err err_authentication
  checked_key (some data_key) =
      if length data_key == sizes.key_size then ok data_key else err err_authentication

  unfoldable pub unwrap_data_key : Bytes → Bytes → Envelope → Result Bytes
  unfolding new_x checked_key
  unwrap_data_key master_key wrap_aad env = do
    wrapping_key ← new_x master_key cipher_failed
    checked_key (open_sealed wrapping_key env.wrap_nonce env.wrapped_data_key wrap_aad)

  unfoldable pub opened : Option Bytes → Result Bytes
  opened none = err err_authentication
  opened (some plaintext) = ok plaintext

  unfoldable pub decrypt_payload : Bytes → Envelope → Bytes → Result Bytes
  unfolding new_x opened
  decrypt_payload payload_aad env data_key = do
    payload_key ← new_x data_key err_authentication
    opened (open_sealed payload_key env.nonce env.ciphertext payload_aad)

  unfoldable pub decrypt_envelope : Bytes → Bytes → Bytes → Envelope → Result Bytes
  unfolding unwrap_data_key decrypt_payload
  decrypt_envelope master_key payload_aad wrap_aad env = do
    data_key ← unwrap_data_key master_key wrap_aad env
    decrypt_payload payload_aad env data_key

  pub encrypt_credential : Bytes → CredentialContext → Bytes → Draws → Result Envelope
  unfolding encrypt_envelope
  encrypt_credential master_key ctx =
      encrypt_envelope master_key (credential_aad payload_domain ctx)
        (credential_aad wrap_domain ctx)

  pub decrypt_credential : Bytes → CredentialContext → Envelope → Result Bytes
  unfolding decrypt_envelope
  decrypt_credential master_key ctx =
      decrypt_envelope master_key (credential_aad payload_domain ctx)
        (credential_aad wrap_domain ctx)

  pub encrypt_identity : Bytes → IdentityContext → Bytes → Draws → Result Envelope
  unfolding encrypt_envelope
  encrypt_identity master_key ctx =
      encrypt_envelope master_key (identity_aad identity_payload_domain ctx)
        (identity_aad identity_wrap_domain ctx)

  unfoldable pub decrypt_identity : Bytes → IdentityContext → Envelope → Result Bytes
  unfolding decrypt_envelope
  decrypt_identity master_key ctx =
      decrypt_envelope master_key (identity_aad identity_payload_domain ctx)
        (identity_aad identity_wrap_domain ctx)

  -- The last argument is the read of the new wrapping nonce.
  pub rewrap_data_key :
      Bytes
      → CredentialContext
      → CredentialContext
      → Envelope
      → Bytes
      → Option Bytes
      → Result Envelope
  unfolding unwrap_data_key decrypt_payload new_x read_full
  rewrap_data_key master_key old_ctx new_ctx env new_master drawn =
      if not (same_context old_ctx new_ctx) then err err_context_change else do
        data_key ← unwrap_data_key master_key (credential_aad wrap_domain old_ctx) env
        plaintext ← decrypt_payload (credential_aad payload_domain old_ctx) env data_key
        wrapping_key ← new_x new_master cipher_failed
        wrap_nonce ← read_full drawn
        ok (record {
          ciphertext = env.ciphertext;
          nonce = env.nonce;
          wrapped_data_key =
              seal wrapping_key wrap_nonce data_key (credential_aad wrap_domain new_ctx);
          wrap_nonce = wrap_nonce;
        })
