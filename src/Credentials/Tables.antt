-- ===== src/Credentials/Tables.antt =====
-- internal/credentials/model.go and internal/credentials/repository.go: principals, credentials and
-- the tables that their life cycle reads and writes. The users and sessions are those of
-- internal/identity. The database itself does not fail.
use opswarden.Outcomes.{Outcome, ok, err, required}
use opswarden.Prelude.{
  ℕ, ◌==◌, ◌&&◌, Bool, true, false, not, String, List, [], ◌∷◌, Option, none, some, if◌then◌else◌,
  Dict, lookup, insert, delete, str_eq, Time,
}
use opswarden.Authorization.{HumanPrincipal, AgentPrincipal, Resource}
use opswarden.Identity.Tables as Identity

pub data CredentialError : Type 0 where
  invalid_input not_found denied unauthenticated : CredentialError
  version_conflict idempotency_required idempotency_conflict reason_required : CredentialError
  session_invalid session_expired session_revoked recent_totp_required user_forbidden :
      CredentialError
  audit_unavailable internal : CredentialError

abbrev pub Result {ℓ} : Type ℓ → Type ℓ
Result A = Outcome CredentialError A

-- audit.ActorType
pub data ActorType : Type 0 where
  actor_user actor_agent actor_system : ActorType
  other_actor : String → ActorType

-- audit.Actor
pub record Actor : Type 0 where
  pub type : ActorType
  pub id : String
  pub fingerprint : String

pub record Principal : Type 0 where
  pub human : Option HumanPrincipal
  pub agent : Option AgentPrincipal
  pub bound_space_id : String
  pub actor : Actor
  pub request_id : String
  pub source_ip : String
  pub user_agent : String

pub record WriteContext : Type 0 where
  pub actor : Actor
  pub idempotency_key : String
  pub reason : String

-- A row of credentials with its tags and links; Metadata is this and its identifier.
pub record Credential : Type 0 where
  pub space_id : String
  pub display_name : String
  pub type : String
  pub version : ℕ
  pub tags : Dict String
  pub asset_ids : List String
  pub deleted_at : Option Time

abbrev pub Metadata : Type 0
Metadata = String × Credential

-- A row of idempotency_records. The endpoint is an operation and a credential, which the source
-- joins by a slash.
pub record IdempotencyRow : Type 0 where
  pub agent_id : String
  pub endpoint : String × String
  pub key_hash : String
  pub request_hash : String
  pub resource_id : String
  pub version : ℕ
  pub status : ℕ
  pub expires_at : Time

-- audit.Event, as this package fills it.
pub record Event : Type 0 where
  pub id : String
  pub request_id : String
  pub created_at : Time
  pub actor : Actor
  pub action : String
  pub space_id : String
  pub resource_id : String
  pub source_ip : String
  pub user_agent : String
  pub is_success : Bool
  pub error_code : String
  pub change_fields : List String
  pub reason : String

-- The audit log has the newest event first.
pub record Store : Type 0 where
  pub credentials : Dict Credential
  pub idempotency_records : List IdempotencyRow
  pub identity : Identity.Store
  pub audit : List Event

-- metadataByID with deleted credentials
unfoldable pub metadata_by_id : Store → String → Result Credential
unfolding required
metadata_by_id store credential_id = required not_found (lookup credential_id store.credentials)

unfoldable pub resource_for_metadata : String → Credential → Resource
resource_for_metadata credential_id credential = record {
  space_id = credential.space_id;
  resource_id = credential_id;
  labels = credential.tags;
}

abbrev pub is_deleted : Credential → Bool
is_deleted credential = elim credential.deleted_at [ none ↦ false | some at ↦ true ]

-- UPDATE credentials SET deleted_at = ? WHERE id = ? AND current_version = ? AND deleted_at IS NULL,
-- or the other way round, which must change a row
unfoldable pub set_deleted_at : Store → String → ℕ → Option Time → Result Store
set_deleted_at store credential_id expected at = elim (lookup credential_id store.credentials) [
  | none ↦ err version_conflict
  | some credential ↦
      if (credential.version == expected)
        && elim at [ none ↦ is_deleted credential | some now ↦ not (is_deleted credential) ]
      then ok (record store {
        credentials =
            insert credential_id (record credential { deleted_at = at }) store.credentials;
      })
      else err version_conflict
]

-- DELETE FROM credentials WHERE id = ? AND space_id = ? AND current_version = ? AND deleted_at IS
-- NOT NULL, which must change a row
unfoldable pub delete_credential_row : Store → String → String → ℕ → Result Store
delete_credential_row store space_id credential_id expected =
    elim (lookup credential_id store.credentials) [
      | none ↦ err version_conflict
      | some credential ↦
          if str_eq credential.space_id space_id
            && ((credential.version == expected) && is_deleted credential)
          then ok (record store { credentials = delete credential_id store.credentials })
          else err version_conflict
    ]

-- The session with an identifier, which is a primary key.
unfoldable pub session_by_id : String → Dict Identity.SessionRow → Option Identity.SessionRow
session_by_id id [] = none
session_by_id id (entry ∷ rest) =
    let later = session_by_id id rest in if str_eq entry.1.id id then some entry.1 else later
