-- ===== src/Identity/Tables.antt =====
-- internal/identity/model.go and internal/identity/repository.go: the tables of users, second
-- factors, recovery codes and sessions, and the statements on them. The database itself does not
-- fail; a primary or unique key that is taken is an error.
use opswarden.Outcomes.{Outcome, ok, err, required, unless, ◌>>=◌}
use opswarden.Prelude.{
  ℕ, ◌+◌, ◌==◌, ◌&&◌, ◌||◌, Bool, true, false, not, String, List, [], ◌∷◌, Option, none, some,
  if◌then◌else◌, ltb, Dict, lookup, insert, str_eq, Time, before,
}
use opswarden.Identity.{SessionPrincipal}
use opswarden.Cryptobox.Bytes.{Bytes}
use opswarden.Authorization.{SystemRole, system_owner, other_system_role}

pub data IdentityError : Type 0 where
  owner_source_denied owner_exists invalid_owner_input : IdentityError
  invalid_credentials invalid_challenge invalid_totp totp_replay : IdentityError
  invalid_recovery_code invalid_session session_expired session_revoked : IdentityError
  user_not_found forbidden invalid_system_role recent_totp_required : IdentityError
  last_system_owner audit_unavailable random_failed storage_failed secret_failed : IdentityError

abbrev pub Result {ℓ} : Type ℓ → Type ℓ
Result A = Outcome IdentityError A

pub record User : Type 0 where
  pub email : List ℕ
  pub normalized_email : List ℕ
  pub password_hash : Bytes
  pub system_role : SystemRole
  pub is_deleted : Bool

pub record SecondFactor : Type 0 where
  pub encrypted_secret : Bytes
  pub last_used_counter : Option ℕ

pub record RecoveryCode : Type 0 where
  pub id : String
  pub user_id : String
  pub code_hash : String
  pub used_at : Option Time

pub record SessionRow : Type 0 where
  pub id : String
  pub user_id : String
  pub created_at : Time
  pub expires_at : Time
  pub idle_expires_at : Time
  pub revoked_at : Option Time
  pub recent_totp_at : Option Time

-- audit.Event, as this package fills it; `fingerprint` names the session.
pub record Event : Type 0 where
  pub id : String
  pub request_id : String
  pub created_at : Time
  pub actor_id : String
  pub fingerprint : String
  pub action : String
  pub resource_id : String
  pub source_ip : String
  pub user_agent : String
  pub change_fields : List String

-- Users and second factors by the user's identifier, sessions by the hash of their token, and the
-- audit log, the newest first.
pub record Store : Type 0 where
  pub users : Dict User
  pub user_totp : Dict SecondFactor
  pub recovery_codes : List RecoveryCode
  pub sessions : Dict SessionRow
  pub audit : List Event

abbrev pub is_nil : List ℕ → Bool
is_nil [] = true
is_nil (first ∷ rest) = false

-- SELECT ... FROM users WHERE id = ? AND deleted_at IS NULL
unfoldable pub active_user : Dict User → String → Option User
active_user users user_id = elim (lookup user_id users) [
  | none ↦ none
  | some user ↦ if user.is_deleted then none else some user
]

-- findUserByNormalizedEmail; the column is unique.
unfoldable pub find_user_by_normalized_email : (List ℕ → Bool) → Dict User → Option (String × User)
find_user_by_normalized_email same [] = none
find_user_by_normalized_email same (entry ∷ rest) =
    let later = find_user_by_normalized_email same rest in
    if same entry.1.normalized_email && not entry.1.is_deleted then some entry else later

abbrev pub is_system_owner : SystemRole → Bool
is_system_owner system_owner = true
is_system_owner role = false

-- The switch of changeSystemRole.
abbrev pub is_system_role : SystemRole → Bool
is_system_role (other_system_role text) = false
is_system_role role = true

abbrev pub is_active_owner : User → Bool
is_active_owner user = is_system_owner user.system_role && not user.is_deleted

-- SELECT count(*) FROM users WHERE system_role = ? AND deleted_at IS NULL AND id <> ?
unfoldable pub remaining_system_owners : String → Dict User → ℕ
remaining_system_owners user_id [] = 0
remaining_system_owners user_id (entry ∷ rest) =
    (if is_active_owner entry.1 && not (str_eq entry.0 user_id) then 1 else 0)
    + remaining_system_owners user_id rest

-- UPDATE sessions SET ... WHERE ...
unfoldable pub update_sessions :
    (SessionRow → Bool) → (SessionRow → SessionRow) → Dict SessionRow → Dict SessionRow
update_sessions chosen change [] = []
update_sessions chosen change (entry ∷ rest) =
    (entry.0, if chosen entry.1 then change entry.1 else entry.1)
    ∷ update_sessions chosen change rest

-- COALESCE(revoked_at, ?)
abbrev pub revoked_by : Time → SessionRow → SessionRow
revoked_by now session = record session {
  revoked_at = elim session.revoked_at [ none ↦ some now | some earlier ↦ some earlier ];
}

-- revokeUserSessionsTx
unfoldable pub revoke_user_sessions : Store → String → Time → Store
unfolding update_sessions
revoke_user_sessions store user_id now = record store {
  sessions =
      update_sessions (λ session. str_eq session.user_id user_id) (revoked_by now) store.sessions;
}

-- last_used_counter IS NULL OR last_used_counter < ?
abbrev pub is_fresh : Option ℕ → ℕ → Bool
is_fresh none counter = true
is_fresh (some last) counter = ltb last counter

-- consumeTOTPCounter
unfoldable pub consume_totp_counter : Store → String → ℕ → Result Store
consume_totp_counter store user_id counter = elim (lookup user_id store.user_totp) [
  | none ↦ err totp_replay
  | some factor ↦
      if is_fresh factor.last_used_counter counter
      then ok (record store {
        user_totp =
            insert user_id (record factor { last_used_counter = some counter }) store.user_totp;
      })
      else err totp_replay
]

-- WHERE user_id = ? AND code_hash = ? AND used_at IS NULL
abbrev pub is_unused : String → String → RecoveryCode → Bool
is_unused user_id code_hash code =
    (str_eq code.user_id user_id && str_eq code.code_hash code_hash)
    && elim code.used_at [ none ↦ true | some at ↦ false ]

unfoldable pub use_codes : String → String → Time → List RecoveryCode → List RecoveryCode
use_codes user_id code_hash now [] = []
use_codes user_id code_hash now (code ∷ rest) =
    (if is_unused user_id code_hash code then record code { used_at = some now } else code)
    ∷ use_codes user_id code_hash now rest

unfoldable pub unused_count : String → String → List RecoveryCode → ℕ
unused_count user_id code_hash [] = 0
unused_count user_id code_hash (code ∷ rest) =
    (if is_unused user_id code_hash code then 1 else 0) + unused_count user_id code_hash rest

-- consumeRecoveryCode
unfoldable pub consume_recovery_code : Store → String → String → Time → Result Store
consume_recovery_code store user_id code_hash now =
    unless (not (unused_count user_id code_hash store.recovery_codes == 1)) invalid_recovery_code
      (ok (record store { recovery_codes = use_codes user_id code_hash now store.recovery_codes }))

-- querySession
unfoldable pub query_session : Store → String → Result SessionRow
unfolding required
query_session store token_hash = required invalid_session (lookup token_hash store.sessions)

unfoldable pub principal_from_session : SessionRow → SessionPrincipal
principal_from_session session = record {
  user_id = session.user_id;
  session_id = session.id;
  issued_at = session.created_at;
  recent_totp_at = elim session.recent_totp_at [ none ↦ 0 | some at ↦ at ];
}

abbrev pub is_revoked : SessionRow → Bool
is_revoked session = elim session.revoked_at [ none ↦ false | some at ↦ true ]

abbrev pub is_expired : SessionRow → Time → Bool
is_expired session now =
    not (before now session.expires_at) || not (before now session.idle_expires_at)

-- A session that is there, not revoked and not expired, as four operations look for it.
unfoldable pub live_session : Store → String → Time → Result SessionRow
unfolding query_session
live_session store token_hash now = do
  session ← query_session store token_hash
  unless (is_revoked session) session_revoked
      (unless (is_expired session now) session_expired (ok session))
