-- ===== src/Cryptobox/Codec.antt =====
-- internal/cryptobox/envelope_binary.go: the encoding of an envelope. Bytes are numbers below 256;
-- what a caller holds after an error is not modelled, so an error is `none`.
pub mod Fields
pub mod RoundTrip
mod Examples
use opswarden.Prelude.{
  ◌-◌, ◌%◌, ℕ, ◌+◌, ◌≤◌, ◌<◌, Bool, true, false, not, ◌&&◌, ◌||◌, List, [], ◌∷◌, ◌++◌, Option, none,
  some, length, take, drop, ltb, leb, ◌==◌, if◌then◌else◌,
}
use opswarden.Cryptobox.Bytes.{Bytes, byte_at, u32_bytes, u32_value}

pub record Envelope : Type 0 where
  pub ciphertext : Bytes
  pub nonce : Bytes
  pub wrapped_data_key : Bytes
  pub wrap_nonce : Bytes

-- The sizes of golang.org/x/crypto/chacha20poly1305: Overhead, KeySize and NonceSizeX.
pub record Sizes : Type 0 where
  pub overhead : ℕ
  pub key_size : ℕ
  pub nonce_size : ℕ

-- "OWEN"
abbrev pub magic : Bytes
magic = 79 ∷ 87 ∷ 69 ∷ 78 ∷ []

abbrev pub version : ℕ
version = 1

abbrev pub max_size : ℕ
max_size = 65536

-- uint32(len(field)), and the field.
unfoldable pub append_field : Bytes → Bytes → Bytes
append_field dst field = (dst ++ u32_bytes (length field % 4294967296)) ++ field

-- What it reads and the offset behind it; `none` if the source's third result is false.
unfoldable pub read_field : Bytes → ℕ → Option (Bytes × ℕ)
read_field encoded offset =
    if ltb (length encoded) (offset + 4)
    then none
    else let size = u32_value (take 4 (drop offset encoded)) in
      let start = offset + 4 in
      if ltb (length encoded - start) size
      then none
      else some (take size (drop start encoded), start + size)

abbrev pub bytes_equal : Bytes → Bytes → Bool
bytes_equal [] [] = true
bytes_equal [] (b ∷ bs) = false
bytes_equal (a ∷ as') [] = false
bytes_equal (a ∷ as') (b ∷ bs) = a == b && bytes_equal as' bs

infixl 5 ◌>>=◌
abbrev pub ◌>>=◌ {ℓ κ} : {A : Type ℓ} {B : Type κ} → Option A → (A → Option B) → Option B
none >>= f = none
some a >>= f = f a

abbrev pub encoded_size : Envelope → ℕ
encoded_size env =
    4
    + 1
    + 4
    + length env.ciphertext
    + 4
    + length env.nonce
    + 4
    + length env.wrapped_data_key
    + 4
    + length env.wrap_nonce

abbrev pub bad_header : Bytes → Bool
bad_header encoded =
    ltb max_size (length encoded)
    || (ltb (length encoded) 5
        || (not (bytes_equal (take 4 encoded) magic) || not (byte_at encoded 4 == version)))

module _ (sizes : Sizes) where
  open sizes use {overhead, key_size, nonce_size}

  unfoldable pub marshal_envelope : Envelope → Option Bytes
  marshal_envelope env =
      if ltb (length env.ciphertext) overhead
        || not (length env.wrapped_data_key == key_size + overhead)
      then none
      else if ltb max_size (encoded_size env)
      then none
      else some (
          append_field
            (append_field
              (append_field (append_field (magic ++ version ∷ []) env.ciphertext) env.nonce)
              env.wrapped_data_key)
            env.wrap_nonce)

  -- The last check of `UnmarshalEnvelope`.
  unfoldable pub finish : Bytes → ℕ → Envelope → Option Envelope
  finish encoded next env =
      if not (next == length encoded)
        || (ltb (length env.ciphertext) overhead
            || (not (length env.nonce == nonce_size)
                || (not (length env.wrapped_data_key == key_size + overhead)
                    || not (length env.wrap_nonce == nonce_size))))
      then none
      else some env

  unfoldable pub read_envelope : Bytes → Option Envelope
  read_envelope encoded = do
    c ← read_field encoded 5
    n ← read_field encoded c.1
    w ← read_field encoded n.1
    v ← read_field encoded w.1
    finish encoded v.1
        (record { ciphertext = c.0; nonce = n.0; wrapped_data_key = w.0; wrap_nonce = v.0 })

  unfoldable pub unmarshal_envelope : Bytes → Option Envelope
  unfolding read_envelope
  unmarshal_envelope encoded = if bad_header encoded then none else read_envelope encoded
