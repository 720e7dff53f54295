-- ===== src/Authorization/Tables.antt =====
-- internal/authorization/policy.go: actions, roles and scopes, and the tables that classify them.
-- A Go string type with named constants is a data type with one constructor for each constant and
-- one more for every other string.
use opswarden.Prelude.{ℕ, Bool, true, false, List, [], ◌∷◌, Option, some, none, String, any, ◌==◌}

pub data Action : Type 0 where
  create_space list_spaces : Action
  list_credential read_credential create_credential update_credential : Action
  delete_credential restore_credential purge_credential generate_totp : Action
  list_asset read_asset create_asset update_asset delete_asset link_credential : Action
  list_members manage_members add_member change_member_role remove_member : Action
  list_agents read_agent create_agent update_agent delete_agent : Action
  issue_agent_token revoke_agent_token manage_agent_grant : Action
  list_audit_events purge_audit_events : Action
  list_backups create_backup restore_backup : Action
  read_settings update_settings manage_users read_health : Action
  other_action : String → Action

abbrev pub all_actions : List Action
all_actions =
    create_space ∷ list_spaces ∷ list_credential ∷ read_credential ∷ create_credential
    ∷ update_credential ∷ delete_credential ∷ restore_credential ∷ purge_credential ∷ generate_totp
    ∷ list_asset ∷ read_asset ∷ create_asset ∷ update_asset ∷ delete_asset ∷ link_credential
    ∷ list_members ∷ manage_members ∷ add_member ∷ change_member_role ∷ remove_member ∷ list_agents
    ∷ read_agent ∷ create_agent ∷ update_agent ∷ delete_agent ∷ issue_agent_token
    ∷ revoke_agent_token ∷ manage_agent_grant ∷ list_audit_events ∷ purge_audit_events
    ∷ list_backups ∷ create_backup ∷ restore_backup ∷ read_settings ∷ update_settings ∷ manage_users
    ∷ read_health ∷ []

pub data Role : Type 0 where
  owner editor reader : Role
  other_role : String → Role

-- The system roles of internal/identity/model.go.
pub data SystemRole : Type 0 where
  system_owner system_admin member : SystemRole
  other_system_role : String → SystemRole

pub data Scope : Type 0 where
  credential_list credential_read credential_create credential_update credential_delete : Scope
  asset_list asset_read : Scope
  other_scope : String → Scope

-- Go's `==` on the strings: the place of a constant among the constants tells them apart.
abbrev action_index : Action → ℕ
action_index create_space = 0
action_index list_spaces = 1
action_index list_credential = 2
action_index read_credential = 3
action_index create_credential = 4
action_index update_credential = 5
action_index delete_credential = 6
action_index restore_credential = 7
action_index purge_credential = 8
action_index generate_totp = 9
action_index list_asset = 10
action_index read_asset = 11
action_index create_asset = 12
action_index update_asset = 13
action_index delete_asset = 14
action_index link_credential = 15
action_index list_members = 16
action_index manage_members = 17
action_index add_member = 18
action_index change_member_role = 19
action_index remove_member = 20
action_index list_agents = 21
action_index read_agent = 22
action_index create_agent = 23
action_index update_agent = 24
action_index delete_agent = 25
action_index issue_agent_token = 26
action_index revoke_agent_token = 27
action_index manage_agent_grant = 28
action_index list_audit_events = 29
action_index purge_audit_events = 30
action_index list_backups = 31
action_index create_backup = 32
action_index restore_backup = 33
action_index read_settings = 34
action_index update_settings = 35
action_index manage_users = 36
action_index read_health = 37
action_index (other_action s) = 38

-- Used with a constant on at least one side.
unfoldable pub same_action : Action → Action → Bool
same_action a b = action_index a == action_index b

unfoldable pub known_action : Action → Bool
unfolding same_action
known_action action = any (same_action action) all_actions

unfoldable pub space_scoped_action : Action → Bool
space_scoped_action list_credential = true
space_scoped_action read_credential = true
space_scoped_action create_credential = true
space_scoped_action update_credential = true
space_scoped_action delete_credential = true
space_scoped_action restore_credential = true
space_scoped_action purge_credential = true
space_scoped_action generate_totp = true
space_scoped_action list_asset = true
space_scoped_action read_asset = true
space_scoped_action create_asset = true
space_scoped_action update_asset = true
space_scoped_action delete_asset = true
space_scoped_action link_credential = true
space_scoped_action list_members = true
space_scoped_action manage_members = true
space_scoped_action add_member = true
space_scoped_action change_member_role = true
space_scoped_action remove_member = true
space_scoped_action manage_agent_grant = true
space_scoped_action list_audit_events = true
space_scoped_action purge_audit_events = true
space_scoped_action _ = false

unfoldable pub system_admin_allows : Action → Bool
system_admin_allows restore_credential = true
system_admin_allows list_audit_events = true
system_admin_allows purge_audit_events = true
system_admin_allows list_agents = true
system_admin_allows read_agent = true
system_admin_allows create_agent = true
system_admin_allows update_agent = true
system_admin_allows delete_agent = true
system_admin_allows issue_agent_token = true
system_admin_allows revoke_agent_token = true
system_admin_allows manage_agent_grant = true
system_admin_allows list_backups = true
system_admin_allows create_backup = true
system_admin_allows restore_backup = true
system_admin_allows read_settings = true
system_admin_allows update_settings = true
system_admin_allows manage_users = true
system_admin_allows read_health = true
system_admin_allows _ = false

owner_allows : Action → Bool
unfolding space_scoped_action
owner_allows purge_credential = false
owner_allows purge_audit_events = false
owner_allows action = space_scoped_action action

editor_allows : Action → Bool
editor_allows list_credential = true
editor_allows read_credential = true
editor_allows create_credential = true
editor_allows update_credential = true
editor_allows delete_credential = true
editor_allows generate_totp = true
editor_allows list_asset = true
editor_allows read_asset = true
editor_allows create_asset = true
editor_allows update_asset = true
editor_allows delete_asset = true
editor_allows link_credential = true
editor_allows list_members = true
editor_allows _ = false

reader_allows : Action → Bool
reader_allows list_credential = true
reader_allows read_credential = true
reader_allows generate_totp = true
reader_allows list_asset = true
reader_allows read_asset = true
reader_allows list_members = true
reader_allows _ = false

-- The nested switches of `roleAllows`, one function for each role.
unfoldable pub role_allows : Role → Action → Bool
unfolding owner_allows editor_allows reader_allows
role_allows owner action = owner_allows action
role_allows editor action = editor_allows action
role_allows reader action = reader_allows action
role_allows (other_role s) action = false

unfoldable pub role_valid : Role → Bool
role_valid owner = true
role_valid editor = true
role_valid reader = true
role_valid (other_role s) = false

-- The source's second result is false where this is `none`.
unfoldable pub scope_for_action : Action → Option Scope
scope_for_action list_credential = some credential_list
scope_for_action read_credential = some credential_read
scope_for_action generate_totp = some credential_read
scope_for_action create_credential = some credential_create
scope_for_action update_credential = some credential_update
scope_for_action delete_credential = some credential_delete
scope_for_action list_asset = some asset_list
scope_for_action read_asset = some asset_read
scope_for_action _ = none

abbrev pub scope_index : Scope → ℕ
scope_index credential_list = 0
scope_index credential_read = 1
scope_index credential_create = 2
scope_index credential_update = 3
scope_index credential_delete = 4
scope_index asset_list = 5
scope_index asset_read = 6
scope_index (other_scope s) = 7

abbrev pub same_scope : Scope → Scope → Bool
same_scope a b = scope_index a == scope_index b
