-- ===== src/Identity/Totp.antt =====
-- internal/identity/service.go: one-time codes. HMAC-SHA1, SHA-256, base32 and the tables of Unicode
-- are the standard library's and are fields of Primitives; a text is the list of its code points.
use opswarden.Prelude.{
  ℕ, zero, suc, ◌+◌, ◌-◌, ◌/◌, ◌%◌, ◌^◌, ◌≡◌, Bool, false, ◌&&◌, Option, none, some, List, [], ◌∷◌,
  if◌then◌else◌, ◌==◌, leb, max, length, take, drop, all, String, Time, second,
}
use opswarden.Cryptobox.Bytes.{Bytes, byte_at, u32_value, u64_bytes}
use opswarden.Cryptobox.Codec.{bytes_equal}
use opswarden.Cryptobox.Box.{Aead}

-- `sha256` is of the bytes of a text, and `hex` is hex.EncodeToString. An HMAC-SHA1 has 20 bytes.
pub record Primitives : Type 0 where
  pub aead : Aead
  pub hmac_sha1 : Bytes → Bytes → Bytes
  pub length-hmac_sha1 : (key message : Bytes) → length (hmac_sha1 key message) ≡ 20
  pub sha256 : List ℕ → Bytes
  pub hex : Bytes → String
  pub base32_decode : Bytes → Option Bytes
  pub base64_decode : Bytes → Option Bytes
  pub base64_encode : Bytes → Bytes
  pub to_upper : List ℕ → List ℕ
  pub to_lower : List ℕ → List ℕ
  pub trim_space : List ℕ → List ℕ
  pub kdf : Bytes → Bytes → ℕ → Bytes

abbrev is_padding : ℕ → List ℕ → Bool
is_padding first [] = first == 61
is_padding first kept = false

-- strings.TrimRight(text, "=")
abbrev trim_padding : List ℕ → List ℕ
trim_padding [] = []
trim_padding (first ∷ rest) =
    let kept = trim_padding rest in if is_padding first kept then [] else first ∷ kept

abbrev pub is_digit : ℕ → Bool
is_digit character = leb 48 character && leb character 57

-- isTOTPCode. A text of six digits has six bytes and six code points, and no other passes.
unfoldable pub is_totp_code : List ℕ → Bool
is_totp_code value = length value == 6 && all is_digit value

-- `%06d` of a value below 1_000_000
abbrev pub six_digits : ℕ → Bytes
six_digits value =
    (48 + value / 100000 % 10)
    ∷ (48 + value / 10000 % 10)
    ∷ (48 + value / 1000 % 10)
    ∷ (48 + value / 100 % 10)
    ∷ (48 + value / 10 % 10)
    ∷ (48 + value % 10)
    ∷ []

-- The number of seconds from year 1 to 1970.
abbrev pub unix_epoch : ℕ
unix_epoch = 62135596800

-- The counters of the loop of matchingTOTPCounter, from -1 to 1 about the current one, without the
-- negative ones. Before 1970 the current one is the quotient by 30 rounded towards 0.
unfoldable pub totp_counters : Time → List ℕ
totp_counters now =
    let seconds = now / second in
    if leb unix_epoch seconds
    then around ((seconds - unix_epoch) / 30)
    else before_epoch ((unix_epoch - seconds) / 30)
  where
    around : ℕ → List ℕ
    around zero = 0 ∷ 1 ∷ []
    around (suc previous) = previous ∷ suc previous ∷ suc (suc previous) ∷ []

    before_epoch : ℕ → List ℕ
    before_epoch zero = 0 ∷ 1 ∷ []
    before_epoch (suc zero) = 0 ∷ []
    before_epoch (suc (suc periods)) = []

module _ (prim : Primitives) where
  open prim use {hmac_sha1, base32_decode, to_upper, trim_space, sha256, hex}

  -- The name of a text's hash in the tables, which hold the hash itself.
  abbrev pub hash_name : List ℕ → String
  hash_name text = hex (sha256 text)

  -- What an audit event tells of a text: the first eight bytes of its hash.
  abbrev pub fingerprint : List ℕ → String
  fingerprint text = hex (take 8 (sha256 text))

  abbrev pub normalize_totp_secret : List ℕ → List ℕ
  normalize_totp_secret secret = trim_padding (to_upper (trim_space secret))

  unfoldable pub decode_totp_secret : Bytes → Option Bytes
  decode_totp_secret secret = base32_decode (normalize_totp_secret secret)

  -- normalizeRecoveryCode
  abbrev pub normalize_recovery_code : List ℕ → List ℕ
  normalize_recovery_code code = to_upper (trim_space code)

  unfoldable pub totp_code : Bytes → ℕ → Bytes
  totp_code secret counter =
      let sum = hmac_sha1 secret (u64_bytes counter) in
      let offset = byte_at sum (length sum - 1) % 16 in
      six_digits (u32_value (take 4 (drop offset sum)) % 2 ^ 31 % 1000000)

  -- One pass of the loop: the counter that matched last or, if this one does, the larger of the two.
  unfoldable pub better_match : Bytes → List ℕ → Option ℕ → ℕ → Option ℕ
  unfolding totp_code
  better_match secret code matched counter =
      if bytes_equal (totp_code secret counter) code
      then some (elim matched [ none ↦ counter | some earlier ↦ max earlier counter ])
      else matched

  unfoldable pub match_counters : Bytes → List ℕ → Option ℕ → List ℕ → Option ℕ
  unfolding better_match
  match_counters secret code matched [] = matched
  match_counters secret code matched (counter ∷ rest) =
      match_counters secret code (better_match secret code matched counter) rest

  unfoldable pub matching_totp_counter : Bytes → List ℕ → Time → Option ℕ
  unfolding match_counters totp_counters
  matching_totp_counter secret code now = match_counters secret code none (totp_counters now)
