-- ===== src/Spaces/Service/Guards.antt =====
-- internal/spaces/service.go: what a call finds, and the checks and steps that the operations share.
use opswarden.Outcomes.{checked, err, ok, unless, with_tx, ◌>>=◌}
use opswarden.Prelude.{
  ◌==◌, Bool, not, ◌||◌, String, List, [], ◌∷◌, Option, none, some, if◌then◌else◌, str_eq, Time,
}
use opswarden.Identity.{SessionPrincipal, has_recent_totp}
use opswarden.Authorization.{
  Action, Decision, decision_for_human, decision_err, err_denied, err_not_found,
  err_unauthenticated, is_empty,
}
use opswarden.Spaces.{
  SpaceError, space_unauthenticated, space_forbidden, space_not_found, last_owner,
  recent_totp_required, audit_unavailable, revocation_failed, Result, Store, human_principal,
  active_space, remaining_owner_count,
}

-- What a call finds: whether the service is audited, the time, reads of the random source, and
-- whether revoking sessions and appending to the audit log succeed.
pub record Env : Type 0 where
  pub is_audited : Bool
  pub now : Time
  pub drawn_event_id : Option String
  pub revokes : Bool
  pub appends : Bool

pub record MutationContext : Type 0 where
  pub session : SessionPrincipal
  pub actor_is_user : Bool
  pub actor_id : String
  pub request_id : String
  pub source_ip : String
  pub user_agent : String

-- decisionError; `none` is nil.
unfoldable pub decision_error : Decision → Option SpaceError
decision_error d = elim (decision_err d) [
  | none ↦ none
  | some err_unauthenticated ↦ some space_unauthenticated
  | some err_not_found ↦ some space_not_found
  | some err_denied ↦ some space_forbidden
]

-- authorizeMemberManagement, and what follows it.
unfoldable pub authorized {ℓ} :
    {A : Type ℓ} → Store → SessionPrincipal → String → Action → Result A → Result A
unfolding decision_error
authorized store session space_id action rest = do
  human ← human_principal store session space_id
  checked
      (decision_error (
        decision_for_human human (record { space_id = space_id; resource_id = ""; labels = [] })
          action))
      rest

-- requireRecentMutationTx, and what follows it.
unfoldable pub recently {ℓ} :
    {A : Type ℓ} → Env → Store → MutationContext → String → Action → Result A → Result A
unfolding authorized
recently env store mutation space_id action rest =
    unless (not (active_space store space_id)) space_not_found (
      authorized store mutation.session space_id action
        (unless (not (has_recent_totp mutation.session env.now)) recent_totp_required rest))

-- validateAuditedMutation; `none` is nil.
unfoldable pub audited_mutation_error : Env → MutationContext → Option SpaceError
audited_mutation_error env mutation =
    if not env.is_audited
    then some audit_unavailable
    else if is_empty mutation.session.user_id
        || (is_empty mutation.session.session_id
            || (not mutation.actor_is_user
                || not (str_eq mutation.actor_id mutation.session.user_id)))
    then some space_unauthenticated
    else none

-- requireAnotherOwner, and what follows it.
unfoldable pub another_owner {ℓ} : {A : Type ℓ} → Store → String → String → Result A → Result A
another_owner store space_id user_id rest =
    unless (remaining_owner_count store space_id user_id == 0) last_owner rest

-- RevokeUserSessionsTx
unfoldable pub revoke_user_sessions : Env → Store → String → Result Store
revoke_user_sessions env store user_id =
    if env.revokes
    then ok (record store { revoked = user_id ∷ store.revoked })
    else err revocation_failed

-- appendMembershipAudit
unfoldable pub append_membership_audit :
    Env → Store → MutationContext → String → String → String → List String → Result Store
append_membership_audit env store mutation action space_id user_id fields =
    elim env.drawn_event_id [
      | none ↦ err audit_unavailable
      | some id ↦
          if env.appends
          then ok (record store {
            audit =
                record {
                  id = id;
                  request_id = mutation.request_id;
                  created_at = env.now;
                  actor_id = mutation.actor_id;
                  action = action;
                  space_id = space_id;
                  resource_type = "membership";
                  resource_id = user_id;
                  source_ip = mutation.source_ip;
                  user_agent = mutation.user_agent;
                  change_fields = fields;
                }
                ∷ store.audit;
          })
          else err audit_unavailable
    ]

-- The check of the mutation comes before the transaction.
abbrev pub audited {ℓ} :
    {A : Type ℓ} → Env → Store → MutationContext → Result (Store × A) → Store × Result A
audited env store mutation tx = elim (audited_mutation_error env mutation) [
  | some e ↦ (store, err e)
  | none ↦ with_tx store tx
]

-- An owner's role is only given up if another owner stays.
unfoldable pub keeping_owner {ℓ} :
    {A : Type ℓ} → Store → String → String → Bool → Result A → Result A
unfolding another_owner
keeping_owner store space_id user_id gives_up rest =
    if gives_up then another_owner store space_id user_id rest else rest
