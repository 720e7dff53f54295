-- ===== src/Spaces/Examples.antt =====
-- A space with an owner and a reader, on which the properties of the spaces are applied.
use opswarden.Prelude.{
  ◌≡◌, refl, ◌⊎◌, true, false, String, List, [], ◌∷◌, some, lookup, insert, delete,
}
use opswarden.Identity.{has_recent_totp}
use opswarden.Authorization.{
  owner, reader, member, decision_for_human, decide_by_role, decision_err, known_action,
  same_action, space_scoped_action, system_admin_allows, role_allows,
}
use opswarden.Spaces.{
  Store, User, human_principal, membership, remove_membership_version, other_owners,
}
use opswarden.Spaces.Service.{
  Env, MutationContext, remove_member_audited, remove_member_audited_tx, remove_member_audited_from,
  recently, authorized, decision_error, audited_mutation_error, keeping_owner, another_owner,
  revoke_user_sessions, append_membership_audit,
}
use opswarden.Spaces.Owners.{KeepsOwners}
use opswarden.Spaces.Requests.{Request, removes_audited, handle_all, handle_all-KeepsOwners}
use opswarden.Spaces.Removal.{Removed, remove_member_audited-Removed}

abbrev user : String → User
user email = record { email = email; system_role = member; is_deleted = false }

abbrev store : Store
store = record {
  users = ("ann", user "ann@example.org") ∷ ("bob", user "bob@example.org") ∷ [];
  spaces =
      ("ops", record { name = "Ops"; is_deleted = false; created_at = 1; updated_at = 1 }) ∷ [];
  memberships =
      (
        "ops",
        ("ann", record { role = owner; version = 1; created_at = 1 })
            ∷ ("bob", record { role = reader; version = 1; created_at = 2 })
            ∷ [],
      )
      ∷ [];
  revoked = [];
  audit = [];
}

abbrev env : Env
env = record {
  is_audited = true;
  now = 100;
  drawn_event_id = some "aud_1";
  revokes = true;
  appends = true;
}

abbrev mutation : MutationContext
mutation = record {
  session = record { user_id = "ann"; session_id = "s1"; issued_at = 10; recent_totp_at = 90 };
  actor_is_user = true;
  actor_id = "ann";
  request_id = "r1";
  source_ip = "10.0.0.1";
  user_agent = "";
}

abbrev requests : List (Env × Request)
requests =
    (env, removes_audited mutation "ops" "bob" 1)
    ∷ (env, removes_audited mutation "ops" "ann" 1)
    ∷ []

handle_all-KeepsOwners_example : KeepsOwners store (handle_all store requests)
handle_all-KeepsOwners_example = handle_all-KeepsOwners store requests

remove_member_audited-Removed_example :
    let s = (remove_member_audited env store mutation "ops" "bob" 1).0 in
    (s ≡ store) ⊎ Removed env store mutation "ops" "bob" 1 s
remove_member_audited-Removed_example =
    remove_member_audited-Removed env store mutation "ops" "bob" 1

-- The owner removes the reader, whose sessions end, and cannot leave.
removal_test : (remove_member_audited env store mutation "ops" "bob" 1).0.revoked ≡ "bob" ∷ []
unfolding remove_member_audited remove_member_audited_tx remove_member_audited_from recently
    authorized decision_error audited_mutation_error keeping_owner another_owner
    revoke_user_sessions append_membership_audit human_principal membership
    remove_membership_version other_owners has_recent_totp decision_for_human decide_by_role
    decision_err known_action same_action space_scoped_action system_admin_allows role_allows lookup
    insert delete
removal_test = refl

last_owner_test : (remove_member_audited env store mutation "ops" "ann" 1).0.revoked ≡ []
unfolding remove_member_audited remove_member_audited_tx remove_member_audited_from recently
    authorized decision_error audited_mutation_error keeping_owner another_owner
    revoke_user_sessions append_membership_audit human_principal membership
    remove_membership_version other_owners has_recent_totp decision_for_human decide_by_role
    decision_err known_action same_action space_scoped_action system_admin_allows role_allows lookup
    insert delete
last_owner_test = refl
