-- ===== src/Spaces/Tables.antt =====
-- internal/spaces/model.go and internal/spaces/repository.go: the tables that the spaces live in, and
-- the queries. The database itself does not fail, and a primary key is the key of a map:
-- memberships are kept by space and user.
use opswarden.Prelude.{
  ℕ, ◌+◌, ◌==◌, Bool, true, false, not, ◌&&◌, ◌||◌, String, List, [], ◌∷◌, Option, none, some,
  if◌then◌else◌, Dict, lookup, insert, delete, str_eq, Time,
}
use opswarden.Outcomes.{Outcome, ok, err}
use opswarden.Identity.{SessionPrincipal}
use opswarden.Authorization.{
  Role, owner, editor, reader, other_role, SystemRole, HumanPrincipal, is_empty,
}

pub data SpaceError : Type 0 where
  space_unauthenticated space_forbidden space_not_found invalid_role : SpaceError
  user_not_found membership_exists membership_not_found last_owner version_conflict : SpaceError
  recent_totp_required audit_unavailable revocation_failed : SpaceError

abbrev pub Result {ℓ} : Type ℓ → Type ℓ
Result A = Outcome SpaceError A

pub record User : Type 0 where
  pub email : String
  pub system_role : SystemRole
  pub is_deleted : Bool

pub record SpaceRow : Type 0 where
  pub name : String
  pub is_deleted : Bool
  pub created_at : Time
  pub updated_at : Time

pub record Membership : Type 0 where
  pub role : Role
  pub version : ℕ
  pub created_at : Time

-- audit.Event, as this package fills it.
pub record Event : Type 0 where
  pub id : String
  pub request_id : String
  pub created_at : Time
  pub actor_id : String
  pub action : String
  pub space_id : String
  pub resource_type : String
  pub resource_id : String
  pub source_ip : String
  pub user_agent : String
  pub change_fields : List String

-- The tables, the revocations of sessions that were made, and the audit log, the newest first.
pub record Store : Type 0 where
  pub users : Dict User
  pub spaces : Dict SpaceRow
  pub memberships : Dict (Dict Membership)
  pub revoked : List String
  pub audit : List Event

abbrev pub members_of : Store → String → Dict Membership
members_of store space_id = elim (lookup space_id store.memberships) [ none ↦ [] | some d ↦ d ]

abbrev pub put_members : Store → String → Dict Membership → Store
put_members store space_id members = record store {
  memberships = insert space_id members store.memberships;
}

-- SELECT ... FROM users WHERE id = ? AND deleted_at IS NULL
abbrev pub active_user : Store → String → Option User
active_user store user_id = elim (lookup user_id store.users) [
  | none ↦ none
  | some user ↦ if user.is_deleted then none else some user
]

abbrev role_index : Role → ℕ
role_index owner = 0
role_index editor = 1
role_index reader = 2
role_index (other_role s) = 3

abbrev role_text : Role → String
role_text (other_role s) = s
role_text _ = ""

-- Go's `==` on roles.
abbrev pub same_role : Role → Role → Bool
same_role a b = role_index a == role_index b && str_eq (role_text a) (role_text b)

abbrev pub is_owner : Role → Bool
is_owner owner = true
is_owner _ = false

unfoldable pub human_principal : Store → SessionPrincipal → String → Result HumanPrincipal
human_principal store session space_id =
    if is_empty session.user_id || is_empty session.session_id
    then err space_unauthenticated
    else elim (active_user store session.user_id) [
      | none ↦ err space_unauthenticated
      | some user ↦ ok (record {
        session = session;
        system_role = user.system_role;
        space_roles =
            if is_empty space_id
            then []
            else elim (lookup session.user_id (members_of store space_id)) [
              | none ↦ []
              | some m ↦ (space_id, m.role) ∷ []
            ];
      })
    ]

abbrev pub active_space : Store → String → Bool
active_space store space_id = elim (lookup space_id store.spaces) [
  | none ↦ false
  | some space ↦ not space.is_deleted
]

unfoldable pub membership_role : Store → String → String → Result Role
membership_role store space_id user_id = elim (lookup user_id (members_of store space_id)) [
  | none ↦ err membership_not_found
  | some m ↦ ok m.role
]

-- Joined with the users that are not deleted.
unfoldable pub membership : Store → String → String → Result Membership
membership store space_id user_id = elim (lookup user_id (members_of store space_id)) [
  | none ↦ err membership_not_found
  | some m ↦ elim (active_user store user_id) [ none ↦ err membership_not_found | some user ↦ ok m ]
]

unfoldable pub add_membership : Store → String → String → Role → Time → Result Store
add_membership store space_id user_id role now = elim (lookup user_id (members_of store space_id)) [
  | some m ↦ err membership_exists
  | none ↦ ok (
      put_members store space_id (
        insert user_id (record { role = role; version = 1; created_at = now })
          (members_of store space_id)))
]

unfoldable pub change_membership_role : Store → String → String → Role → Result Store
change_membership_role store space_id user_id role =
    elim (lookup user_id (members_of store space_id)) [
      | none ↦ err membership_not_found
      | some m ↦ ok (
          put_members store space_id
            (insert user_id (record m { role = role }) (members_of store space_id)))
    ]

unfoldable pub change_membership_role_version : Store → String → String → Role → ℕ → Result Store
change_membership_role_version store space_id user_id role expected =
    elim (lookup user_id (members_of store space_id)) [
      | none ↦ err version_conflict
      | some m ↦
          if m.version == expected
          then ok (
              put_members store space_id (
                insert user_id (record m { role = role; version = m.version + 1 })
                  (members_of store space_id)))
          else err version_conflict
    ]

unfoldable pub remove_membership : Store → String → String → Result Store
remove_membership store space_id user_id = elim (lookup user_id (members_of store space_id)) [
  | none ↦ err membership_not_found
  | some m ↦ ok (put_members store space_id (delete user_id (members_of store space_id)))
]

unfoldable pub remove_membership_version : Store → String → String → ℕ → Result Store
remove_membership_version store space_id user_id expected =
    elim (lookup user_id (members_of store space_id)) [
      | none ↦ err version_conflict
      | some m ↦
          if m.version == expected
          then ok (put_members store space_id (delete user_id (members_of store space_id)))
          else err version_conflict
    ]

-- SELECT count(*) ... WHERE space_id = ? AND role = 'owner' AND user_id <> ?
unfoldable pub other_owners : String → Dict Membership → ℕ
other_owners user_id [] = 0
other_owners user_id (entry ∷ rest) =
    (if is_owner entry.1.role && not (str_eq entry.0 user_id) then 1 else 0)
    + other_owners user_id rest

abbrev pub remaining_owner_count : Store → String → String → ℕ
remaining_owner_count store space_id user_id = other_owners user_id (members_of store space_id)
