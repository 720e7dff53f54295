-- ===== src/Identity/Passwords.antt =====
-- internal/identity/service.go: the encoding of password hashes, and the check of a password. The
-- key derivation of golang.org/x/crypto and base64 are fields of Primitives. The parameters of the
-- derivation are constants but for the length of its output.
pub mod RoundTrip
use opswarden.Outcomes.{ok, err}
use opswarden.Prelude.{
  ℕ, ◌==◌, ◌&&◌, ◌||◌, Bool, true, false, not, List, [], ◌∷◌, ◌++◌, Option, none, some,
  if◌then◌else◌, length, drop, codes,
}
use opswarden.Cryptobox.Bytes.{Bytes}
use opswarden.Cryptobox.Codec.{bytes_equal}
use opswarden.Identity.Totp.{Primitives}
use opswarden.Identity.Tables.{Result, random_failed}

abbrev pub argon_salt_length : ℕ
argon_salt_length = 16

abbrev pub argon_output_length : ℕ
argon_output_length = 32

abbrev pub legacy_argon_output_length : ℕ
legacy_argon_output_length = 16

-- '$'
abbrev pub dollar : ℕ
dollar = 36

-- A byte in front of the first part.
abbrev cons_first : ℕ → List Bytes → List Bytes
cons_first byte [] = (byte ∷ []) ∷ []
cons_first byte (part ∷ parts) = (byte ∷ part) ∷ parts

-- strings.Split(text, "$")
unfoldable pub split : Bytes → List Bytes
split [] = [] ∷ []
split (byte ∷ rest) =
    let parts = split rest in if byte == dollar then [] ∷ parts else cons_first byte parts

abbrev pub part_at : List Bytes → ℕ → Bytes
part_at parts index = elim (drop index parts) [ [] ↦ [] | part ∷ rest ↦ part ]

abbrev pub algorithm : Bytes
algorithm = codes "argon2id"

abbrev pub version : Bytes
version = codes "v=19"

abbrev pub parameters : Bytes
parameters = codes "m=65536,t=3,p=2"

-- What parsePasswordHash returns of a hash that is not invalid.
pub record PasswordHash : Type 0 where
  pub salt : Bytes
  pub sum : Bytes
  pub is_current : Bool

abbrev pub bad_header : List Bytes → Bool
bad_header parts =
    not (length parts == 6)
    || (not (bytes_equal (part_at parts 0) [])
        || (not (bytes_equal (part_at parts 1) algorithm)
            || (not (bytes_equal (part_at parts 2) version)
                || not (bytes_equal (part_at parts 3) parameters))))

module _ (prim : Primitives) where
  open prim use {base64_decode, base64_encode, kdf}

  -- A part decodes and is the encoding of what it decodes to.
  unfoldable pub decoded_part : Bytes → Option Bytes
  decoded_part part = elim (base64_decode part) [
    | none ↦ none
    | some bytes ↦ if bytes_equal (base64_encode bytes) part then some bytes else none
  ]

  unfoldable pub parse_parts : List Bytes → Option PasswordHash
  unfolding decoded_part
  parse_parts parts = if bad_header parts then none else elim (decoded_part (part_at parts 4)) [
    | none ↦ none
    | some salt ↦
        if not (length salt == argon_salt_length)
        then none
        else elim (decoded_part (part_at parts 5)) [
          | none ↦ none
          | some sum ↦
              if length sum == argon_output_length || length sum == legacy_argon_output_length
              then some (record {
                salt = salt;
                sum = sum;
                is_current = not (length sum == legacy_argon_output_length);
              })
              else none
        ]
  ]

  unfoldable pub parse_password_hash : Bytes → Option PasswordHash
  unfolding split parse_parts
  parse_password_hash encoded = parse_parts (split encoded)

  -- Whether the password is right, and whether its hash has the current parameters. The derivation
  -- that an invalid hash still costs has no effect on the result.
  unfoldable pub verify_password : Bytes → Bytes → Bool × Bool
  unfolding parse_password_hash
  verify_password encoded password = elim (parse_password_hash encoded) [
    | none ↦ (false, false)
    | some hash ↦ (bytes_equal (kdf password hash.salt (length hash.sum)) hash.sum, hash.is_current)
  ]

  -- The salt, and the encoding of the hash.
  unfoldable pub encode_password_hash : Bytes → Bytes → Bytes
  encode_password_hash salt sum =
      dollar ∷ algorithm
      ++ dollar ∷ version
      ++ dollar ∷ parameters
      ++ dollar ∷ base64_encode salt
      ++ dollar ∷ base64_encode sum

  -- The last but one argument is the read of the salt.
  unfoldable pub hash_password : Option Bytes → Bytes → Result Bytes
  unfolding encode_password_hash
  hash_password none password = err random_failed
  hash_password (some salt) password =
      ok (encode_password_hash salt (kdf password salt argon_output_length))
