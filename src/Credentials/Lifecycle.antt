-- ===== src/Credentials/Lifecycle.antt =====
-- internal/credentials/service.go: deleting, restoring and purging a credential.
use opswarden.Outcomes.{ok, err, required, unless, with_tx, ◌>>=◌}
use opswarden.Prelude.{
  ℕ, ◌==◌, ◌&&◌, ◌||◌, Bool, false, not, String, [], ◌∷◌, Option, none, some, if◌then◌else◌, lookup,
  str_eq, Time, before, time_sub, ltb,
}
use opswarden.Identity.{recent_totp_lifetime}
use opswarden.Identity.Tables as Identity
use opswarden.Authorization.{
  HumanPrincipal, is_empty, delete_credential, restore_credential, purge_credential,
}
use opswarden.Credentials.Tables.{
  CredentialError, not_found, denied, version_conflict, session_invalid, session_expired,
  session_revoked, recent_totp_required, user_forbidden, Result, Principal, WriteContext,
  Credential, Store, metadata_by_id, resource_for_metadata, is_deleted, set_deleted_at,
  delete_credential_row, session_by_id,
}
use opswarden.Credentials.Guards.{
  Env, authorize, validate_mutation_context, audit_event_at, append_event, with_failure,
}
use opswarden.Credentials.Idempotency.{Primitives, check_idempotency, save_idempotency}

-- The event of a change, within its transaction.
unfoldable pub append_change :
    Env → Store → Principal → WriteContext → String → String → Credential → Time → Result Store
unfolding append_event audit_event_at
append_change env store principal write action credential_id credential now =
    append_event env.drawn_event_id env.appends store (
      audit_event_at principal write.actor action credential.space_id credential_id
        ("deleted_at" ∷ []) write.reason now)

-- What a change knows of a credential when it fails: what the transaction read.
unfoldable pub read_metadata : Store → String → Option (String × Credential)
read_metadata store credential_id = elim (lookup credential_id store.credentials) [
  | none ↦ none
  | some credential ↦ some (credential_id, credential)
]

-- DeleteAt behind the check for a record, in its transaction.
unfoldable pub delete_from :
    Primitives
    → Env
    → Store
    → Principal
    → String
    → ℕ
    → WriteContext
    → Credential
    → Result (Store × Unit {0})
unfolding set_deleted_at append_change save_idempotency
delete_from prim env store principal credential_id expected write credential =
    unless (is_deleted credential) not_found (
      unless (not (credential.version == expected)) version_conflict (do
        s ← set_deleted_at store credential_id expected (some env.now)
        t ← append_change env s principal write "credential.delete" credential_id credential env.now
        u ←
            save_idempotency prim env.draws_record_id t principal.agent write
              ("credential.delete", credential_id) (prim.delete_fingerprint credential_id expected)
              credential_id expected 204 env.now
        ok (u, tt)))

-- A record answers for the deletion.
abbrev pub unless_replayed {ℓ} :
    {B : Type ℓ} → Store × Option B → Result (Store × Unit {0}) → Result (Store × Unit {0})
unless_replayed (s, some row) rest = ok (s, tt)
unless_replayed (s, none) rest = rest

unfoldable pub delete_tx :
    Primitives → Env → Store → Principal → String → ℕ → WriteContext → Result (Store × Unit {0})
unfolding metadata_by_id resource_for_metadata authorize check_idempotency delete_from
delete_tx prim env store principal credential_id expected write = do
  credential ← metadata_by_id store credential_id
  allowed ← authorize principal (resource_for_metadata credential_id credential) delete_credential
  found ←
      check_idempotency prim store principal.agent write ("credential.delete", credential_id)
        (prim.delete_fingerprint credential_id expected) 204 env.now
  unless_replayed found
      (delete_from prim env found.0 principal credential_id expected write credential)

-- The guards that come before the transaction of a change, and then the transaction. What a failed
-- change knows of the credential is what its transaction read.
unfoldable pub guarded_change :
    Primitives
    → Env
    → Store
    → Principal
    → String
    → String
    → WriteContext
    → Option CredentialError
    → Result (Store × Unit {0})
    → Time
    → Store × Result (Unit {0})
unfolding validate_mutation_context read_metadata
guarded_change prim env store principal action credential_id write bad tx failure_time = elim bad [
  | some e ↦ with_failure env principal action none env.now (store, err e)
  | none ↦ elim (validate_mutation_context prim.trim_space principal write) [
    | err e ↦ with_failure env principal action none env.now (store, err e)
    | ok valid ↦
        with_failure env principal action (read_metadata store credential_id) failure_time
          (with_tx store tx)
  ]
]

unfoldable pub delete_at :
    Primitives → Env → Store → Principal → String → ℕ → WriteContext → Store × Result (Unit {0})
unfolding guarded_change delete_tx
delete_at prim env store principal credential_id expected write =
    guarded_change prim env store principal "credential.delete" credential_id write
      (if expected == 0
        then some version_conflict
        else if is_empty credential_id
        then some not_found
        else none)
      (delete_tx prim env store principal credential_id expected write) env.now

unfoldable pub restore_tx :
    Env → Store → Principal → String → ℕ → WriteContext → Result (Store × Unit {0})
unfolding metadata_by_id resource_for_metadata authorize set_deleted_at append_change
restore_tx env store principal credential_id expected write = do
  credential ← metadata_by_id store credential_id
  unless (not (is_deleted credential)) not_found (do
    allowed ←
        authorize principal (resource_for_metadata credential_id credential) restore_credential
    unless (not (credential.version == expected)) version_conflict (do
      s ← set_deleted_at store credential_id expected none
      t ←
          append_change env s principal write "credential.restore" credential_id credential
            env.operation_time
      ok (t, tt)))

unfoldable pub restore :
    Primitives → Env → Store → Principal → String → ℕ → WriteContext → Store × Result (Unit {0})
unfolding guarded_change restore_tx
restore prim env store principal credential_id expected write =
    guarded_change prim env store principal "credential.restore" credential_id write
      (if is_empty credential_id
        then some not_found
        else if expected == 0
        then some version_conflict
        else none)
      (restore_tx env store principal credential_id expected write) env.now

-- The user of a session, as the join of verifyAuthoritativePurgeSession reads it.
unfoldable pub session_user : Store → String → Option (Identity.SessionRow × Identity.User)
unfolding session_by_id
session_user store session_id = elim (session_by_id session_id store.identity.sessions) [
  | none ↦ none
  | some session ↦ elim (lookup session.user_id store.identity.users) [
    | none ↦ none
    | some user ↦ some (session, user)
  ]
]

abbrev pub recent_enough : Option Time → Time → Bool
recent_enough none now = false
recent_enough (some recent) now =
    not (before now recent) && ltb (time_sub now recent) recent_totp_lifetime

-- The checks of verifyAuthoritativePurgeSession on what it read. A hash of a token is a SHA-256
-- value.
unfoldable pub verify_session :
    HumanPrincipal → Identity.SessionRow → Identity.User → Time → Result (Unit {0})
verify_session human session user now =
    unless
      (not (str_eq session.user_id human.session.user_id)
        || not (session.created_at == human.session.issued_at))
      session_invalid
      (unless (Identity.is_revoked session) session_revoked (
        unless (Identity.is_expired session now) session_expired (
          unless user.is_deleted user_forbidden (
            unless (not (Identity.is_system_owner user.system_role)) denied (
              unless (not (recent_enough session.recent_totp_at now)) recent_totp_required
                (ok tt))))))

unfoldable pub verify_authoritative_purge_session : Store → Principal → Time → Result (Unit {0})
unfolding required session_user verify_session
verify_authoritative_purge_session store principal now = elim principal.human [
  | none ↦ err not_found
  | some human ↦ elim principal.agent [
    | some agent ↦ err not_found
    | none ↦ do
      found ← required session_invalid (session_user store human.session.session_id)
      verify_session human found.0 found.1 now
  ]
]

unfoldable pub purge_tx :
    Env → Store → Principal → String → String → ℕ → WriteContext → Result (Store × Unit {0})
unfolding metadata_by_id resource_for_metadata authorize verify_authoritative_purge_session
    append_change delete_credential_row
purge_tx env store principal space_id credential_id expected write = do
  credential ← metadata_by_id store credential_id
  unless (not (str_eq credential.space_id space_id)) not_found (do
    allowed ← authorize principal (resource_for_metadata credential_id credential) purge_credential
    live ← verify_authoritative_purge_session store principal env.operation_time
    unless (not (is_deleted credential)) not_found (
        unless (not (credential.version == expected)) version_conflict (do
          s ←
              append_change env store principal write "credential.purge" credential_id credential
                env.operation_time
          t ← delete_credential_row s space_id credential_id expected
          ok (t, tt))))

-- The time of the event of a purge that failed: the second one if the principal was authorized.
unfoldable pub purge_failure_time : Env → Store → Principal → String → String → Time
unfolding metadata_by_id resource_for_metadata authorize
purge_failure_time env store principal space_id credential_id =
    elim (do
      credential ← metadata_by_id store credential_id
      unless (not (str_eq credential.space_id space_id)) not_found
          (authorize principal (resource_for_metadata credential_id credential) purge_credential)) [
            | ok allowed ↦ env.operation_time
            | err e ↦ env.now
          ]

unfoldable pub purge :
    Primitives
    → Env
    → Store
    → Principal
    → String
    → String
    → ℕ
    → WriteContext
    → Store × Result (Unit {0})
unfolding guarded_change purge_tx purge_failure_time
purge prim env store principal space_id credential_id expected write =
    guarded_change prim env store principal "credential.purge" credential_id write
      (if is_empty space_id || is_empty credential_id
        then some not_found
        else if expected == 0
        then some version_conflict
        else none)
      (purge_tx env store principal space_id credential_id expected write)
      (purge_failure_time env store principal space_id credential_id)
