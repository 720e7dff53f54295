-- ===== src/Cryptobox/Context.antt =====
-- internal/cryptobox/envelope.go: the additional data that binds an envelope to its context. The
-- source's strings are their bytes.
use mathlib.Core.List.{append_assoc}
use opswarden.Prelude.{
  ℕ, ◌%◌, ◌^◌, ◌<◌, ◌≡◌, ◌≢◌, refl, sym, ap, ◌∙◌, arith, [], ◌++◌, length, codes,
}
use opswarden.Cryptobox.Bytes.{Bytes, byte_at, u64_bytes, u64_bytes-injective, append-injective}

abbrev pub payload_domain : Bytes
payload_domain = codes "opswarden/credential-payload/v1"

abbrev pub wrap_domain : Bytes
wrap_domain = codes "opswarden/data-key-wrap/v1"

abbrev pub identity_payload_domain : Bytes
identity_payload_domain = codes "opswarden/identity-payload/v1"

abbrev pub identity_wrap_domain : Bytes
identity_wrap_domain = codes "opswarden/identity-data-key-wrap/v1"

pub record CredentialContext : Type 0 where
  pub credential_id : Bytes
  pub space_id : Bytes
  pub version : ℕ
  pub type : Bytes

pub record IdentityContext : Type 0 where
  pub user_id : Bytes
  pub purpose : Bytes

pub append_length_prefixed : Bytes → Bytes → Bytes
append_length_prefixed dst value = (dst ++ u64_bytes (length value % 2 ^ 64)) ++ value

pub credential_aad : Bytes → CredentialContext → Bytes
unfolding append_length_prefixed
credential_aad domain ctx =
    append_length_prefixed
      (append_length_prefixed (append_length_prefixed domain ctx.credential_id) ctx.space_id
        ++ u64_bytes ctx.version)
      ctx.type

pub identity_aad : Bytes → IdentityContext → Bytes
unfolding append_length_prefixed
identity_aad domain ctx =
    append_length_prefixed (append_length_prefixed domain ctx.user_id) ctx.purpose

-- A length fits a uint64, as every Go length does.
abbrev pub Fits : Bytes → Type 0
Fits value = length value < 2 ^ 64

pub record CredentialFits (ctx : CredentialContext) : Type 0 where
  pub id : Fits ctx.credential_id
  pub space : Fits ctx.space_id
  pub version : ctx.version < 2 ^ 64
  pub type : Fits ctx.type

prefixed : Bytes → Bytes → Bytes
prefixed value rest = u64_bytes (length value % 2 ^ 64) ++ (value ++ rest)

prefixed-injective :
    (a b xs ys : Bytes) → Fits a → Fits b → prefixed a xs ≡ prefixed b ys → (a ≡ b) × (xs ≡ ys)
unfolding prefixed
prefixed-injective a b xs ys fa fb h =
    let (n, t) =
      u64_bytes-injective (length a % 2 ^ 64) (length b % 2 ^ 64) (a ++ xs) (b ++ ys) (omega arith)
        (omega arith) h in
    append-injective a b xs ys (omega arith) t

credential_aad_lem :
    (domain : Bytes) (ctx : CredentialContext)
    → credential_aad domain ctx ++ []
      ≡ domain
        ++ prefixed ctx.credential_id
            (prefixed ctx.space_id (u64_bytes ctx.version ++ prefixed ctx.type []))
unfolding credential_aad prefixed append_length_prefixed
credential_aad_lem domain ctx = simp append_assoc

-- Two credentials whose parts fit 64 bits never share their additional data in a domain: it
-- determines identifier, space, version and type.
pub credential_aad-injective :
    (domain : Bytes) (c d : CredentialContext)
    → CredentialFits c
    → CredentialFits d
    → credential_aad domain c ≡ credential_aad domain d
    → c ≡ d
credential_aad-injective domain c d fc fd h =
    let flat =
      sym (credential_aad_lem domain c) ∙ (ap (λ b. b ++ []) h ∙ credential_aad_lem domain d) in
    let (_, t1) = append-injective domain domain _ _ refl flat in
    let (same_id, t2) = prefixed-injective c.credential_id d.credential_id _ _ fc.id fd.id t1 in
    let (same_space, t3) = prefixed-injective c.space_id d.space_id _ _ fc.space fd.space t2 in
    let (same_version, t4) = u64_bytes-injective c.version d.version _ _ fc.version fd.version t3 in
    let (same_type, t5) = prefixed-injective c.type d.type [] [] fc.type fd.type t4 in
    λ i. record {
      credential_id = same_id i;
      space_id = same_space i;
      version = same_version i;
      type = same_type i;
    }

identity_aad_lem :
    (domain : Bytes) (ctx : IdentityContext)
    → identity_aad domain ctx ++ [] ≡ domain ++ prefixed ctx.user_id (prefixed ctx.purpose [])
unfolding identity_aad prefixed append_length_prefixed
identity_aad_lem domain ctx = simp append_assoc

-- Two secrets of users whose parts fit 64 bits never share their additional data in a domain: it
-- determines user and purpose.
pub identity_aad-injective :
    (domain : Bytes) (c d : IdentityContext)
    → Fits c.user_id × Fits c.purpose
    → Fits d.user_id × Fits d.purpose
    → identity_aad domain c ≡ identity_aad domain d
    → c ≡ d
identity_aad-injective domain c d fc fd h =
    let flat =
      sym (identity_aad_lem domain c) ∙ (ap (λ b. b ++ []) h ∙ identity_aad_lem domain d) in
    let (_, t1) = append-injective domain domain _ _ refl flat in
    let (same_user, t2) = prefixed-injective c.user_id d.user_id _ _ fc.0 fd.0 t1 in
    let (same_purpose, t3) = prefixed-injective c.purpose d.purpose [] [] fc.1 fd.1 t2 in
    λ i. record { user_id = same_user i; purpose = same_purpose i }

-- The four uses of a key are kept apart: no additional data of one use is that of another,
-- whatever the contexts.
pub aad_apart :
    (c d : CredentialContext) (i j : IdentityContext)
    → (credential_aad payload_domain c ≢ credential_aad wrap_domain d)
      × (identity_aad identity_payload_domain i ≢ identity_aad identity_wrap_domain j)
      × (credential_aad payload_domain c ≢ identity_aad identity_payload_domain i)
      × (credential_aad payload_domain c ≢ identity_aad identity_wrap_domain i)
      × (credential_aad wrap_domain c ≢ identity_aad identity_payload_domain i)
      × (credential_aad wrap_domain c ≢ identity_aad identity_wrap_domain i)
unfolding credential_aad identity_aad append_length_prefixed
aad_apart c d i j = (
  at 10 (omega arith),
  at 19 (omega arith),
  at 10 (omega arith),
  at 10 (omega arith),
  at 10 (omega arith),
  at 10 (omega arith),
)
  where
    at : (n : ℕ) {a b : Bytes} → byte_at a n ≢ byte_at b n → a ≢ b
    at n apart h = apart (ap (λ bytes. byte_at bytes n) h)
