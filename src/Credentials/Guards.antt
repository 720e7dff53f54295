-- ===== src/Credentials/Guards.antt =====
-- internal/credentials/service.go: who may act, what a write must carry, and the audit of an attempt
-- that failed.
use opswarden.Outcomes.{ok, err, required, unless, ◌>>=◌}
use opswarden.Prelude.{
  ℕ, ◌&&◌, ◌||◌, Bool, true, false, not, String, List, [], ◌∷◌, Option, none, some, if◌then◌else◌,
  str_eq, Time, leb, codes, all, utf8_length,
}
use opswarden.Authorization.{
  HumanPrincipal, AgentPrincipal, Resource, Action, Error, err_denied, err_not_found,
  err_unauthenticated, decision_err, decision_for_human, decision_for_agent, is_empty,
}
use opswarden.Credentials.Tables.{
  CredentialError, invalid_input, not_found, denied, unauthenticated, version_conflict,
  idempotency_required, idempotency_conflict, reason_required, session_invalid, session_expired,
  session_revoked, recent_totp_required, user_forbidden, audit_unavailable, internal, Result,
  ActorType, actor_user, actor_agent, actor_system, other_actor, Actor, Principal, WriteContext,
  Credential, Event, Store,
}

abbrev pub same_actor_type : ActorType → ActorType → Bool
same_actor_type actor_user actor_user = true
same_actor_type actor_agent actor_agent = true
same_actor_type actor_system actor_system = true
same_actor_type (other_actor a) (other_actor b) = str_eq a b
same_actor_type a b = false

-- Go's `==` on actors.
abbrev pub same_actor : Actor → Actor → Bool
same_actor a b =
    same_actor_type a.type b.type && (str_eq a.id b.id && str_eq a.fingerprint b.fingerprint)

abbrev pub is_user : ActorType → Bool
is_user actor_user = true
is_user type = false

abbrev pub is_agent : ActorType → Bool
is_agent actor_agent = true
is_agent type = false

-- Denial and concealment are told apart for a human only.
abbrev pub human_error : Option Error → Result (Unit {0})
human_error none = ok tt
human_error (some err_denied) = err denied
human_error (some err_not_found) = err not_found
human_error (some err_unauthenticated) = err unauthenticated

abbrev pub agent_error : Option Error → Result (Unit {0})
agent_error none = ok tt
agent_error (some err_denied) = err not_found
agent_error (some err_not_found) = err not_found
agent_error (some err_unauthenticated) = err unauthenticated

-- The switch of authorize.
unfoldable pub authorize_as :
    Option HumanPrincipal → Option AgentPrincipal → Actor → Resource → Action → Result (Unit {0})
unfolding decision_err
authorize_as (some human) none actor resource action =
    unless (not (is_user actor.type && str_eq actor.id human.session.user_id)) unauthenticated
      (human_error (decision_err (decision_for_human human resource action)))
authorize_as none (some agent) actor resource action =
    unless (not (is_agent actor.type && str_eq actor.id agent.agent_id)) unauthenticated
      (agent_error (decision_err (decision_for_agent agent resource action)))
authorize_as human agent actor resource action = err unauthenticated

unfoldable pub authorize : Principal → Resource → Action → Result (Unit {0})
unfolding authorize_as
authorize principal resource action =
    unless
      (not (is_empty principal.bound_space_id)
        && not (str_eq resource.space_id principal.bound_space_id))
      not_found (authorize_as principal.human principal.agent principal.actor resource action)

abbrev pub is_control : ℕ → Bool
is_control character = leb character 31 || (leb 127 character && leb character 159)

-- validText without an empty one. A text is valid UTF-8.
unfoldable pub valid_text : String → ℕ → Bool
valid_text value max_bytes =
    not (is_empty value)
    && (leb (utf8_length (codes value)) max_bytes && all (λ c. not (is_control c)) (codes value))

-- audit.MaxAuditTextBytes
abbrev pub max_audit_text_bytes : ℕ
max_audit_text_bytes = 512

-- strings.TrimSpace is an argument.
unfoldable pub validate_mutation_context :
    (String → String) → Principal → WriteContext → Result (Unit {0})
unfolding valid_text
validate_mutation_context trim_space principal write =
    unless (not (same_actor principal.actor write.actor)) denied (elim principal.agent [
      | none ↦ ok tt
      | some agent ↦ unless (not (valid_text write.idempotency_key 256)) idempotency_required (
          unless (not (valid_text (trim_space write.reason) max_audit_text_bytes)) reason_required
            (ok tt))
    ])

unfoldable pub actor_is_authenticated : Option HumanPrincipal → Option AgentPrincipal → Actor → Bool
actor_is_authenticated (some human) none actor =
    is_user actor.type && str_eq actor.id human.session.user_id
actor_is_authenticated none (some agent) actor =
    is_agent actor.type && str_eq actor.id agent.agent_id
actor_is_authenticated human agent actor = false

unfoldable pub credential_failure_code : CredentialError → String
credential_failure_code not_found = "NOT_FOUND"
credential_failure_code denied = "PERMISSION_DENIED"
credential_failure_code unauthenticated = "UNAUTHENTICATED"
credential_failure_code invalid_input = "INVALID_INPUT"
credential_failure_code reason_required = "INVALID_INPUT"
credential_failure_code version_conflict = "VERSION_CONFLICT"
credential_failure_code idempotency_required = "IDEMPOTENCY_REQUIRED"
credential_failure_code idempotency_conflict = "IDEMPOTENCY_CONFLICT"
credential_failure_code session_invalid = "AUTHORIZATION_FAILED"
credential_failure_code session_expired = "AUTHORIZATION_FAILED"
credential_failure_code session_revoked = "AUTHORIZATION_FAILED"
credential_failure_code recent_totp_required = "AUTHORIZATION_FAILED"
credential_failure_code user_forbidden = "PERMISSION_DENIED"
credential_failure_code audit_unavailable = "AUDIT_UNAVAILABLE"
credential_failure_code internal = "INTERNAL_ERROR"

-- auditEventAt, with the identifier that was drawn. An empty actor of the write means the
-- principal's.
unfoldable pub audit_event_at :
    Principal → Actor → String → String → String → List String → String → Time → String → Event
audit_event_at principal actor action space_id credential_id fields reason now id = record {
  id = id;
  request_id = principal.request_id;
  created_at = now;
  actor = if same_actor actor no_actor then principal.actor else actor;
  action = action;
  space_id = space_id;
  resource_id = credential_id;
  source_ip = principal.source_ip;
  user_agent = principal.user_agent;
  is_success = true;
  error_code = "";
  change_fields = fields;
  reason = reason;
}
  where
    no_actor : Actor
    no_actor = record { type = other_actor ""; id = ""; fingerprint = "" }

-- What a call finds: the time when it begins, the time of the second read of the clock by a restore
-- (for its event) or a purge (for the session), the reads of the random source, and whether appending to the audit log succeeds, in the operation and after it.
pub record Env : Type 0 where
  pub now : Time
  pub operation_time : Time
  pub drawn_event_id : Option String
  pub drawn_failure_id : Option String
  pub draws_record_id : Bool
  pub appends : Bool
  pub appends_failure : Bool

-- An event, if its identifier can be drawn and the log takes it.
unfoldable pub append_event : Option String → Bool → Store → (String → Event) → Result Store
unfolding required
append_event drawn appends store event_of = do
  id ← required audit_unavailable drawn
  unless (not appends) audit_unavailable (ok (record store { audit = event_of id ∷ store.audit }))

abbrev pub is_concealed : CredentialError → Bool
is_concealed not_found = true
is_concealed unauthenticated = true
is_concealed error = false

-- What an event may tell of the credential: nothing for a concealed error or if it was not read.
abbrev pub revealed : CredentialError → Option (String × Credential) → String × String
revealed error none = ("", "")
revealed error (some metadata) =
    if is_concealed error then ("", "") else (metadata.1.space_id, metadata.0)

unfoldable pub failure_event :
    Principal → String → CredentialError → Option (String × Credential) → Time → String → Event
unfolding audit_event_at credential_failure_code
failure_event principal action error metadata now id =
    record (audit_event_at principal principal.actor action (revealed error metadata).0
      (revealed error metadata).1 [] "" now id) {
        is_success = false;
        error_code = credential_failure_code error;
      }

-- appendCredentialFailure, in a transaction of its own
unfoldable pub append_credential_failure :
    Env
    → Store
    → Principal
    → String
    → Option (String × Credential)
    → CredentialError
    → Time
    → Result Store
unfolding actor_is_authenticated append_event failure_event
append_credential_failure env store principal action metadata error now =
    if not (actor_is_authenticated principal.human principal.agent principal.actor)
    then ok store
    else append_event env.drawn_failure_id env.appends_failure store
        (failure_event principal action error metadata now)

-- The deferred function of an operation.
abbrev pub with_failure {ℓ} :
    {A : Type ℓ}
    → Env
    → Principal
    → String
    → Option (String × Credential)
    → Time
    → Store × Result A
    → Store × Result A
with_failure env principal action metadata now (store, ok a) = (store, ok a)
with_failure env principal action metadata now (store, err e) =
    elim (append_credential_failure env store principal action metadata e now) [
      | ok s ↦ (s, err e)
      | err f ↦ (store, err f)
    ]
