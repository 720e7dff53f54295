-- ===== src/Credentials/Examples.antt =====
-- A credential of one space, on which the properties of its life cycle are applied.
use opswarden.Outcomes.{ok, required}
use opswarden.Prelude.{◌≡◌, refl, true, false, [], ◌∷◌, none, some, lookup}
use opswarden.Identity.Tables as Identity
use opswarden.Authorization.{
  HumanPrincipal, AgentPrincipal, system_owner, credential_delete, decision_for_human,
  decision_for_agent, decide_by_scope, decide_by_grants, grant_allows, grant_valid, labels_match,
  decision_err, known_action, scope_for_action,
}
use opswarden.Credentials.Tables.{
  actor_user, actor_agent, Actor, Principal, WriteContext, Credential, Store, metadata_by_id,
  resource_for_metadata, set_deleted_at, delete_credential_row, session_by_id,
}
use opswarden.Credentials.Guards.{
  Env, authorize, authorize_as, validate_mutation_context, valid_text, append_event,
}
use opswarden.Credentials.Idempotency.{
  Primitives, find_record, lookup_idempotency, check_idempotency, save_idempotency,
}
use opswarden.Credentials.Lifecycle.{
  append_change, delete_from, delete_tx, delete_at, purge_tx, purge, guarded_change, session_user,
  verify_session, verify_authoritative_purge_session, restore,
}
use opswarden.Credentials.Failures.{FailedIf, changes-FailedIf}
use opswarden.Credentials.Purging.{Purged, purge-Purged}
use opswarden.Credentials.Replays.{delete_at_once}

abbrev env : Env
env = record {
  now = 100;
  operation_time = 101;
  drawn_event_id = some "aud_1";
  drawn_failure_id = some "aud_2";
  draws_record_id = true;
  appends = true;
  appends_failure = true;
}

abbrev prim : Primitives
prim = record {
  key_hash = λ key. "k";
  delete_fingerprint =
      λ id version. "0123456789abcdef0123456789abcdef0123456789abcdef0123456789abcdef";
  trim_space = λ text. text;
}

abbrev credential : Credential
credential = record {
  space_id = "ops";
  display_name = "Root";
  type = "login";
  version = 3;
  tags = [];
  asset_ids = [];
  deleted_at = none;
}

abbrev identity : Identity.Store
identity = record {
  users =
      (
        "ann",
        record {
          email = [];
          normalized_email = [];
          password_hash = [];
          system_role = system_owner;
          is_deleted = false;
        },
      )
      ∷ [];
  user_totp = [];
  recovery_codes = [];
  sessions =
      (
        "h",
        record {
          id = "s1";
          user_id = "ann";
          created_at = 10;
          expires_at = 1000;
          idle_expires_at = 500;
          revoked_at = none;
          recent_totp_at = some 90;
        },
      )
      ∷ [];
  audit = [];
}

abbrev store : Store
store = record {
  credentials = ("crd_1", credential) ∷ [];
  idempotency_records = [];
  identity = identity;
  audit = [];
}

abbrev trash : Store
trash = record store { credentials = ("crd_1", record credential { deleted_at = some 50 }) ∷ [] }

abbrev ann_actor : Actor
ann_actor = record { type = actor_user; id = "ann"; fingerprint = "f" }

abbrev ann : HumanPrincipal
ann = record {
  session = record { user_id = "ann"; session_id = "s1"; issued_at = 10; recent_totp_at = 90 };
  system_role = system_owner;
  space_roles = [];
}

abbrev owner : Principal
owner = record {
  human = some ann;
  agent = none;
  bound_space_id = "";
  actor = ann_actor;
  request_id = "r1";
  source_ip = "10.0.0.1";
  user_agent = "";
}

abbrev by_ann : WriteContext
by_ann = record { actor = ann_actor; idempotency_key = ""; reason = "" }

abbrev bot_actor : Actor
bot_actor = record { type = actor_agent; id = "bot"; fingerprint = "g" }

abbrev bot : AgentPrincipal
bot = record {
  agent_id = "bot";
  grants = record { space_id = "ops"; scopes = credential_delete ∷ []; labels = [] } ∷ [];
}

abbrev robot : Principal
robot = record owner { human = none; agent = some bot; actor = bot_actor }

abbrev by_bot : WriteContext
by_bot = record { actor = bot_actor; idempotency_key = "key"; reason = "old" }

-- What a purge and a deletion lead to.
abbrev purged : Store
purged = (purge prim env trash owner "ops" "crd_1" 3 by_ann).0

abbrev deleted : Store
deleted = (delete_at prim env store robot "crd_1" 3 by_bot).0

purge-Purged_example : Purged env trash purged owner "ops" "crd_1" 3 by_ann
unfolding purge guarded_change validate_mutation_context purge_tx metadata_by_id required authorize
    authorize_as resource_for_metadata verify_authoritative_purge_session session_user session_by_id
    verify_session append_change append_event delete_credential_row lookup decision_for_human
    decision_err known_action
purge-Purged_example = purge-Purged prim env trash purged owner "ops" "crd_1" 3 by_ann refl

delete_at_once_example :
    delete_at prim (record env { now = 200 }) deleted robot "crd_1" 3 by_bot ≡ (deleted, ok tt)
unfolding find_record delete_at guarded_change validate_mutation_context valid_text delete_tx
    metadata_by_id required authorize authorize_as resource_for_metadata check_idempotency
    lookup_idempotency delete_from set_deleted_at append_change append_event save_idempotency lookup
    decision_for_agent decide_by_scope decide_by_grants grant_allows grant_valid labels_match
    decision_err scope_for_action known_action
delete_at_once_example =
    delete_at_once prim env (record env { now = 200 }) store deleted robot bot "crd_1" 3 by_bot refl
      refl refl refl refl

changes-FailedIf_example :
    FailedIf env trash owner "credential.delete" (delete_at prim env trash owner "crd_2" 3 by_ann)
    × FailedIf env trash owner "credential.restore" (restore prim env trash owner "crd_2" 3 by_ann)
    × FailedIf env trash owner "credential.purge"
        (purge prim env trash owner "ops" "crd_2" 3 by_ann)
changes-FailedIf_example = changes-FailedIf prim env trash owner by_ann "ops" "crd_2" 3
