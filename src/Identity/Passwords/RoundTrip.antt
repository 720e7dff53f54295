-- ===== src/Identity/Passwords/RoundTrip.antt =====
-- A stored password hash is read back, and its password is accepted.
use opswarden.Outcomes.{ok}
use opswarden.Prelude.{
  ℕ, ◌==◌, ◌≡◌, ◌≢◌, refl, sym, ap, ◌∙◌, true, false, arith, [], ◌∷◌, ◌++◌, some, length, All,
}
use opswarden.Cryptobox.Bytes.{Bytes}
use opswarden.Cryptobox.Codec.{bytes_equal}
use opswarden.Identity.Totp.{Primitives}
use opswarden.Identity.Passwords.{
  dollar, split, algorithm, version, parameters, argon_salt_length, argon_output_length,
  parse_parts, parse_password_hash, verify_password, decoded_part, encode_password_hash,
  hash_password,
}

-- Documented behaviour of base64 and of the key derivation: decoding undoes encoding, no encoding
-- has a '$', and the output has the length that was asked for.
pub record PrimitivesLawful (prim : Primitives) : Type 0 where
  pub decode-encode : (bytes : Bytes) → prim.base64_decode (prim.base64_encode bytes) ≡ some bytes
  pub encode_alphabet : (bytes : Bytes) → All (λ byte. byte ≢ dollar) (prim.base64_encode bytes)
  pub length-kdf :
      (password salt : Bytes) (output_length : ℕ)
      → length (prim.kdf password salt output_length) ≡ output_length

bytes_equal_refl : (bytes : Bytes) → bytes_equal bytes bytes ≡ true
bytes_equal_refl [] = refl
bytes_equal_refl (b ∷ bytes) = ground (arith, bytes_equal_refl bytes)

split-append :
    (xs ys : Bytes) → All (λ byte. byte ≢ dollar) xs → split (xs ++ dollar ∷ ys) ≡ xs ∷ split ys
unfolding split
split-append [] ys h = refl
split-append (x ∷ xs) ys (apart, h) =
    let apart' : (x == dollar) ≡ false = ground arith in rw (apart', split-append xs ys h)

split_last : (xs : Bytes) → All (λ byte. byte ≢ dollar) xs → split xs ≡ xs ∷ []
unfolding split
split_last [] h = refl
split_last (x ∷ xs) (apart, h) =
    let apart' : (x == dollar) ≡ false = ground arith in rw (apart', split_last xs h)

module _ (prim : Primitives) (lawful : PrimitivesLawful prim) where
  decoded : (bytes : Bytes) → decoded_part prim (prim.base64_encode bytes) ≡ some bytes
  unfolding decoded_part
  decoded bytes =
      rw (decoded_part, lawful.decode-encode bytes, bytes_equal_refl (prim.base64_encode bytes))

  module _ (salt sum : Bytes) where
    split-encode_password_hash :
        split (encode_password_hash prim salt sum)
        ≡ []
          ∷ algorithm
          ∷ version
          ∷ parameters
          ∷ prim.base64_encode salt
          ∷ prim.base64_encode sum
          ∷ []
    unfolding encode_password_hash split
    split-encode_password_hash =
        let last = split_last (prim.base64_encode sum) (lawful.encode_alphabet sum) in
        ap (λ parts. [] ∷ algorithm ∷ version ∷ parameters ∷ parts)
          (split-append (prim.base64_encode salt) (prim.base64_encode sum)
              (lawful.encode_alphabet salt)
            ∙ ap (λ parts. prim.base64_encode salt ∷ parts) last)

    parse_parts_lem :
        length salt ≡ argon_salt_length
        → length sum ≡ argon_output_length
        → parse_parts prim (
            []
            ∷ algorithm
            ∷ version
            ∷ parameters
            ∷ prim.base64_encode salt
            ∷ prim.base64_encode sum
            ∷ [])
          ≡ some (record { salt = salt; sum = sum; is_current = true })
    unfolding parse_parts
    parse_parts_lem hs hd = rw (decoded salt, decoded sum, hs, hd)

    parse-encode_password_hash :
        length salt ≡ argon_salt_length
        → length sum ≡ argon_output_length
        → parse_password_hash prim (encode_password_hash prim salt sum)
          ≡ some (record { salt = salt; sum = sum; is_current = true })
    unfolding parse_password_hash
    parse-encode_password_hash hs hd =
        ap (parse_parts prim) split-encode_password_hash ∙ parse_parts_lem hs hd

    verify-encode_password_hash :
        (password : Bytes)
        → length salt ≡ argon_salt_length
        → prim.kdf password salt argon_output_length ≡ sum
        → verify_password prim (encode_password_hash prim salt sum) password ≡ (true, true)
    unfolding verify_password
    verify-encode_password_hash password hs e =
        let hd : length sum ≡ argon_output_length =
          ap length (sym e) ∙ lawful.length-kdf password salt argon_output_length in
        rw (verify_password, parse-encode_password_hash hs hd, hd, e, bytes_equal_refl sum)

-- A password that was hashed with a salt of the right length is accepted against the stored text,
-- whose parameters are read back as the current ones.
pub verify-hash_password :
    (prim : Primitives) (salt password hash : Bytes)
    → PrimitivesLawful prim
    → length salt ≡ argon_salt_length
    → hash_password prim (some salt) password ≡ ok hash
    → verify_password prim hash password ≡ (true, true)
unfolding hash_password
verify-hash_password prim salt password hash lawful hs h =
    let same : encode_password_hash prim salt (prim.kdf password salt argon_output_length) ≡ hash =
      ground arith in
    ap (λ bytes. verify_password prim bytes password) (sym same)
    ∙ verify-encode_password_hash prim lawful salt (prim.kdf password salt argon_output_length)
        password hs refl
