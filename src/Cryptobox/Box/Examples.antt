-- ===== src/Cryptobox/Box/Examples.antt =====
-- A cipher of one byte of overhead, which hides nothing, and a box on which the properties are
-- applied.
use opswarden.Prelude.{◌≡◌, refl, arith, [], ◌∷◌, Option, none, some}
use opswarden.Cryptobox.Bytes.{Bytes}
use opswarden.Cryptobox.Codec.{Envelope}
use opswarden.Cryptobox.Context.{CredentialContext, IdentityContext}
use opswarden.Cryptobox.Box.{
  Aead, Draws, ok, encrypt_credential, decrypt_credential, encrypt_identity, decrypt_identity,
  rewrap_data_key, encrypt_envelope, read_full, new_x, unwrap_data_key, decrypt_payload,
  checked_key, opened, same_context,
}
use opswarden.Cryptobox.Box.RoundTrip.{
  DrawsFill, KeepsPayload, decrypt-encrypt_credential, decrypt-encrypt_identity, rewrap-decrypt,
}

abbrev open_plain : Bytes → Bytes → Bytes → Bytes → Option Bytes
open_plain key nonce [] aad = none
open_plain key nonce (b ∷ text) aad = some text

abbrev plain : Aead
plain = record {
  sizes = record { overhead = 1; key_size = 2; nonce_size = 1 };
  seal = λ key nonce text aad. 0 ∷ text;
  open_sealed = open_plain;
  open-seal = λ key nonce text aad h h'. refl;
  length-seal = λ key nonce text aad. omega arith;
}

abbrev master_key : Bytes
master_key = 1 ∷ 2 ∷ []

abbrev new_master : Bytes
new_master = 8 ∷ 9 ∷ []

abbrev secret : Bytes
secret = 104 ∷ 105 ∷ []

abbrev draws : Draws
draws = record { data_key = some (3 ∷ 4 ∷ []); nonce = some (5 ∷ []); wrap_nonce = some (6 ∷ []) }

draws-Fill : DrawsFill plain.sizes draws
draws-Fill = record { nonce = refl; wrap_nonce = refl }

abbrev credential : CredentialContext
credential = record { credential_id = 99 ∷ []; space_id = 115 ∷ []; version = 3; type = 112 ∷ [] }

abbrev user : IdentityContext
user = record { user_id = 117 ∷ []; purpose = 116 ∷ [] }

abbrev env : Envelope
env = record {
  ciphertext = 0 ∷ secret;
  nonce = 5 ∷ [];
  wrapped_data_key = 0 ∷ 3 ∷ 4 ∷ [];
  wrap_nonce = 6 ∷ [];
}

abbrev rewrapped : Envelope
rewrapped = record env { wrap_nonce = 7 ∷ [] }

decrypt-encrypt_credential_example : decrypt_credential plain master_key credential env ≡ ok secret
unfolding encrypt_credential encrypt_envelope read_full new_x
decrypt-encrypt_credential_example =
    decrypt-encrypt_credential plain master_key credential secret draws env draws-Fill refl

decrypt-encrypt_identity_example : decrypt_identity plain master_key user env ≡ ok secret
unfolding encrypt_identity encrypt_envelope read_full new_x
decrypt-encrypt_identity_example =
    decrypt-encrypt_identity plain master_key user secret draws env draws-Fill refl

rewrap-decrypt_example :
    KeepsPayload plain master_key new_master credential credential env rewrapped
unfolding rewrap_data_key unwrap_data_key decrypt_payload new_x read_full checked_key opened
    same_context
rewrap-decrypt_example =
    rewrap-decrypt plain master_key credential credential env rewrapped new_master (some (7 ∷ []))
      refl refl
