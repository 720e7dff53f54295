-- ===== src/Authorization.antt =====
-- internal/authorization/policy.go: the decision for a human and for an agent.
mod Tables
pub mod Human
pub mod Agent
mod Examples
unfoldable pub use Tables.*
use opswarden.Prelude.{
  Bool, true, false, not, ◌&&◌, ◌||◌, String, List, [], ◌∷◌, Option, none, some, if◌then◌else◌, any,
  all, Dict, lookup, str_eq,
}
use opswarden.Identity.{SessionPrincipal}

pub record Resource : Type 0 where
  pub space_id : String
  pub resource_id : String
  pub labels : Dict String

pub data Code : Type 0 where
  code_allowed code_unauthenticated code_forbidden code_concealed code_invalid_action : Code

pub data Error : Type 0 where
  err_denied err_not_found err_unauthenticated : Error

pub record Decision : Type 0 where
  pub is_allowed : Bool
  pub conceal : Bool
  pub reason : Code

abbrev is_unauthenticated : Code → Bool
is_unauthenticated code_unauthenticated = true
is_unauthenticated _ = false

-- Decision.Err; `none` is nil.
unfoldable pub decision_err : Decision → Option Error
decision_err d =
    if d.is_allowed
    then none
    else if is_unauthenticated d.reason
    then some err_unauthenticated
    else if d.conceal
    then some err_not_found
    else some err_denied

-- A grant's set of scopes is a list.
pub record Grant : Type 0 where
  pub space_id : String
  pub scopes : List Scope
  pub labels : Dict String

pub record HumanPrincipal : Type 0 where
  pub session : SessionPrincipal
  pub system_role : SystemRole
  pub space_roles : Dict Role

pub record AgentPrincipal : Type 0 where
  pub agent_id : String
  pub grants : List Grant

abbrev pub is_empty : String → Bool
is_empty s = str_eq s ""

-- ValidateGrant(grant) == nil
unfoldable pub grant_valid : Grant → Bool
grant_valid grant = all (λ label. not (is_empty label.0)) grant.labels

abbrev pub allowed : Decision
allowed = record { is_allowed = true; conceal = false; reason = code_allowed }

abbrev pub forbidden : Decision
forbidden = record { is_allowed = false; conceal = false; reason = code_forbidden }

abbrev pub concealed : Decision
concealed = record { is_allowed = false; conceal = true; reason = code_concealed }

abbrev pub invalid_action : Decision
invalid_action = record { is_allowed = false; conceal = false; reason = code_invalid_action }

abbrev pub unauthenticated : Decision
unauthenticated = record { is_allowed = false; conceal = false; reason = code_unauthenticated }

abbrev is_system_owner : SystemRole → Bool
is_system_owner system_owner = true
is_system_owner _ = false

abbrev is_system_admin : SystemRole → Bool
is_system_admin system_admin = true
is_system_admin _ = false

-- The end of `DecisionForHuman`: what the role in the resource's space allows.
unfoldable pub decide_by_role : Option Role → Action → Decision
decide_by_role none action = concealed
decide_by_role (some role) action = if role_allows role action then allowed else forbidden

unfoldable pub decision_for_human : HumanPrincipal → Resource → Action → Decision
decision_for_human principal resource action =
    if not (known_action action)
    then invalid_action
    else if is_empty principal.session.user_id || is_empty principal.session.session_id
    then unauthenticated
    else if same_action action manage_agent_grant && is_empty resource.space_id
    then concealed
    else if is_system_owner principal.system_role
    then allowed
    else if same_action action create_space || same_action action list_spaces
    then allowed
    else if is_system_admin principal.system_role && system_admin_allows action
    then allowed
    else if not (space_scoped_action action)
    then forbidden
    else if is_empty resource.space_id
    then concealed
    else decide_by_role (lookup resource.space_id principal.space_roles) action

abbrev label_matches : Dict String → String × String → Bool
label_matches actual (key, value) = elim (lookup key actual) [
  | none ↦ false
  | some actual_value ↦ str_eq actual_value value
]

unfoldable pub labels_match : Dict String → Dict String → Bool
labels_match required actual = all (label_matches actual) required

-- The body of the loop of `DecisionForAgent`: whether the grant lets the scope through.
unfoldable pub grant_allows : Resource → Scope → Grant → Bool
grant_allows resource scope grant =
    grant_valid grant
    && (str_eq grant.space_id resource.space_id
        && (any (λ s. same_scope s scope) grant.scopes
            && labels_match grant.labels resource.labels))

unfoldable pub decide_by_grants : List Grant → Resource → Scope → Decision
decide_by_grants grants resource scope =
    if any (grant_allows resource scope) grants then allowed else concealed

unfoldable pub decide_by_scope : AgentPrincipal → Resource → Action → Option Scope → Decision
unfolding decide_by_grants
decide_by_scope principal resource action none = concealed
decide_by_scope principal resource action (some scope) =
    if not (known_action action) || is_empty resource.space_id
    then concealed
    else decide_by_grants principal.grants resource scope

unfoldable pub decision_for_agent : AgentPrincipal → Resource → Action → Decision
unfolding decide_by_scope
decision_for_agent principal resource action =
    if is_empty principal.agent_id
    then unauthenticated
    else decide_by_scope principal resource action (scope_for_action action)
