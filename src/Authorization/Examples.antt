-- ===== src/Authorization/Examples.antt =====
-- Principals, grants and resources on which the properties of the policy are applied.
use opswarden.Prelude.{
  ◌≡◌, ◌≢◌, refl, ◌↔◌, true, ◌||◌, [], ◌∷◌, ◌++◌, some, lookup, Any, insert, texts_apart,
}
use opswarden.Identity.{SessionPrincipal}
use opswarden.Authorization.{
  read_asset, update_asset, reader, editor, system_owner, member, Scope, asset_read,
  credential_read, Resource, Grant, HumanPrincipal, AgentPrincipal, decision_for_human,
  decision_for_agent, decision_err, err_not_found, known_action, scope_for_action,
  space_scoped_action, system_admin_allows, role_allows, decide_by_role, decide_by_scope,
  decide_by_grants, grant_allows, grant_valid, labels_match, same_action,
}
use opswarden.Authorization.Human.{
  IsAuthenticated, IsPlaced, Entitled, reader_editor, purge_system_owner, human_allowed_iff,
  decision_for_human_mono, outsider_not_found,
}
use opswarden.Authorization.Agent.{
  Permits, agent_allowed_iff, agent_refused_not_found, grants_add, label_narrows,
}

abbrev session : SessionPrincipal
session = record { user_id = "u1"; session_id = "s1"; issued_at = 10; recent_totp_at = 0 }

abbrev root : HumanPrincipal
root = record { session = session; system_role = system_owner; space_roles = [] }

abbrev alice : HumanPrincipal
alice = record { session = session; system_role = member; space_roles = ("ops", reader) ∷ [] }

abbrev in_ops : Resource
in_ops = record { space_id = "ops"; resource_id = "r1"; labels = ("env", "prod") ∷ [] }

abbrev in_lab : Resource
in_lab = record { space_id = "lab"; resource_id = "r2"; labels = [] }

abbrev in_hall : Resource
in_hall = record { space_id = "hall"; resource_id = "r3"; labels = [] }

abbrev reads_assets : Grant
reads_assets = record { space_id = "ops"; scopes = asset_read ∷ []; labels = [] }

abbrev reads_credentials : Grant
reads_credentials = record { space_id = "lab"; scopes = credential_read ∷ []; labels = [] }

abbrev bot : AgentPrincipal
bot = record { agent_id = "a1"; grants = reads_assets ∷ [] }

purge_system_owner_example : root.system_role ≡ system_owner
unfolding decision_for_human known_action
purge_system_owner_example = purge_system_owner root in_ops refl

human_allowed_iff_example : ((decision_for_human alice in_ops read_asset).is_allowed ≡ true) ↔ (
    (known_action read_asset ≡ true)
    × IsAuthenticated alice
    × IsPlaced in_ops read_asset
    × Entitled alice in_ops read_asset)
human_allowed_iff_example = human_allowed_iff alice in_ops read_asset

decision_for_human_mono_example :
    (decision_for_human
      (record alice { space_roles = insert "ops" editor alice.space_roles })
      in_ops
      read_asset).is_allowed
    ≡ true
unfolding decision_for_human known_action same_action space_scoped_action system_admin_allows
    decide_by_role role_allows lookup insert
decision_for_human_mono_example = decision_for_human_mono alice in_ops read_asset reader_editor refl

outsider_not_found_example :
    decision_err (decision_for_human alice in_lab update_asset) ≡ some err_not_found
unfolding lookup space_scoped_action
outsider_not_found_example =
    outsider_not_found alice in_lab update_asset
      (texts_apart "u1" "" refl, texts_apart "s1" "" refl) refl refl refl

agent_allowed_iff_example : ((decision_for_agent bot in_ops read_asset).is_allowed ≡ true) ↔ (
    (s : Scope) × (bot.agent_id ≢ "")
    × (in_ops.space_id ≢ "")
    × (scope_for_action read_asset ≡ some s)
    × Any (Permits in_ops s) bot.grants)
agent_allowed_iff_example = agent_allowed_iff bot in_ops read_asset

agent_refused_not_found_example :
    decision_err (decision_for_agent bot in_lab read_asset) ≡ some err_not_found
unfolding decision_for_agent decide_by_scope decide_by_grants grant_allows grant_valid labels_match
    scope_for_action known_action
agent_refused_not_found_example =
    agent_refused_not_found bot in_lab read_asset (texts_apart "a1" "" refl) refl

grants_add_example :
    (decision_for_agent
      (record { agent_id = "a1"; grants = (reads_assets ∷ []) ++ (reads_credentials ∷ []) })
      in_ops
      read_asset).is_allowed
    ≡ ((decision_for_agent
          (record { agent_id = "a1"; grants = reads_assets ∷ [] })
          in_ops
          read_asset).is_allowed
        || (decision_for_agent
            (record { agent_id = "a1"; grants = reads_credentials ∷ [] })
            in_ops
            read_asset).is_allowed)
grants_add_example = grants_add "a1" (reads_assets ∷ []) (reads_credentials ∷ []) in_ops read_asset

label_narrows_example :
    (decision_for_agent
      (record { agent_id = "a1"; grants = reads_assets ∷ [] })
      in_ops
      read_asset).is_allowed
    ≡ true
unfolding decision_for_agent decide_by_scope decide_by_grants grant_allows grant_valid labels_match
    scope_for_action known_action lookup
label_narrows_example = label_narrows "a1" reads_assets [] "env" "prod" in_ops read_asset refl
