-- ===== src/Cryptobox/Codec/Examples.antt =====
-- A small envelope and contexts on which the properties of the encodings are applied.
use opswarden.Prelude.{◌≡◌, ◌≢◌, refl, arith, [], ◌∷◌, some}
use opswarden.Cryptobox.Bytes.{Bytes, u32_bytes, u32_value}
use opswarden.Cryptobox.Codec.{
  Envelope, Sizes, marshal_envelope, unmarshal_envelope, read_envelope, read_field, append_field,
  finish,
}
use opswarden.Cryptobox.Codec.RoundTrip.{IsSized, unmarshal-marshal, marshal-unmarshal}
use opswarden.Cryptobox.Context.{
  CredentialContext, IdentityContext, CredentialFits, payload_domain, wrap_domain,
  identity_payload_domain, identity_wrap_domain, credential_aad, identity_aad,
  credential_aad-injective, identity_aad-injective, aad_apart,
}

abbrev sizes : Sizes
sizes = record { overhead = 1; key_size = 2; nonce_size = 1 }

abbrev env : Envelope
env = record {
  ciphertext = 0 ∷ 7 ∷ [];
  nonce = 5 ∷ [];
  wrapped_data_key = 0 ∷ 3 ∷ 4 ∷ [];
  wrap_nonce = 6 ∷ [];
}

abbrev encoded : Bytes
encoded =
    79 ∷ 87 ∷ 69 ∷ 78 ∷ 1 ∷ 0 ∷ 0 ∷ 0 ∷ 2 ∷ 0 ∷ 7 ∷ 0 ∷ 0 ∷ 0 ∷ 1 ∷ 5 ∷ 0 ∷ 0 ∷ 0 ∷ 3 ∷ 0 ∷ 3 ∷ 4
    ∷ 0 ∷ 0 ∷ 0 ∷ 1 ∷ 6 ∷ []

unmarshal-marshal_example : unmarshal_envelope sizes encoded ≡ some env
unfolding marshal_envelope append_field u32_bytes
unmarshal-marshal_example = unmarshal-marshal sizes env encoded refl refl refl

marshal-unmarshal_example : IsSized sizes env × (marshal_envelope sizes env ≡ some encoded)
unfolding unmarshal_envelope read_envelope read_field u32_value finish
marshal-unmarshal_example = marshal-unmarshal sizes env encoded (ground arith) refl

abbrev credential : CredentialContext
credential = record { credential_id = 99 ∷ []; space_id = 115 ∷ []; version = 3; type = 112 ∷ [] }

credential-Fits : CredentialFits credential
credential-Fits = record {
  id = omega arith;
  space = omega arith;
  version = omega arith;
  type = omega arith;
}

abbrev user : IdentityContext
user = record { user_id = 117 ∷ []; purpose = 116 ∷ [] }

credential_aad-injective_example : credential ≡ credential
credential_aad-injective_example =
    credential_aad-injective payload_domain credential credential credential-Fits credential-Fits
      refl

identity_aad-injective_example : user ≡ user
identity_aad-injective_example =
    identity_aad-injective identity_payload_domain user user (omega arith, omega arith)
      (omega arith, omega arith) refl

aad_apart_example :
    (credential_aad payload_domain credential ≢ credential_aad wrap_domain credential)
    × (identity_aad identity_payload_domain user ≢ identity_aad identity_wrap_domain user)
    × (credential_aad payload_domain credential ≢ identity_aad identity_payload_domain user)
    × (credential_aad payload_domain credential ≢ identity_aad identity_wrap_domain user)
    × (credential_aad wrap_domain credential ≢ identity_aad identity_payload_domain user)
    × (credential_aad wrap_domain credential ≢ identity_aad identity_wrap_domain user)
aad_apart_example = aad_apart credential credential user user
