-- ===== src/Spaces/Invariant.antt =====
-- The writes of the repository and the owners of every space.
use opswarden.Outcomes.{ok}
use opswarden.Prelude.{
  ℕ, ◌+◌, ◌≡◌, ◌≢◌, sym, subst, inl, inr, true, not, ◌&&◌, String, arith, List, some, Option-cases,
  lookup, insert, delete, Time,
}
use opswarden.Authorization.{Role}
use opswarden.Spaces.{
  Membership, Store, members_of, put_members, is_owner, remaining_owner_count, membership_role,
  membership, add_membership, change_membership_role, change_membership_role_version,
  remove_membership, remove_membership_version,
}
use opswarden.Spaces.Service.{Env, MutationContext, revoke_user_sessions, append_membership_audit}
use opswarden.Spaces.Owners.{
  HasOwner, KeepsOwners, put_members-KeepsOwners, add_owner, delete_owner,
}

-- Only the memberships count.
pub same_members-KeepsOwners :
    (store s t : Store) → t.memberships ≡ s.memberships → KeepsOwners store s → KeepsOwners store t
same_members-KeepsOwners store s t e k other g =
    subst (λ ms. HasOwner (members_of (record s { memberships = ms }) other)) (sym e) (k other g)

pub revoke_same :
    (env : Env) (s t : Store) (user_id : String)
    → revoke_user_sessions env s user_id ≡ ok t
    → t.memberships ≡ s.memberships
unfolding revoke_user_sessions
revoke_same env s t user_id h = ground arith

pub append_same :
    (env : Env) (s t : Store) (mutation : MutationContext) (action space_id user_id : String)
    (fields : List String)
    → append_membership_audit env s mutation action space_id user_id fields ≡ ok t
    → t.memberships ≡ s.memberships
unfolding append_membership_audit
append_same env s t mutation action space_id user_id fields h = ground arith

module _ (store : Store) (space_id user_id : String) where
  put_role-KeepsOwners :
      (s : Store) (v : Membership)
      → s.memberships
        ≡ insert space_id (insert user_id v (members_of store space_id)) store.memberships
      → ((w : Membership)
          → lookup user_id (members_of store space_id) ≡ some w
          → (is_owner w.role && not (is_owner v.role)) ≡ true
          → remaining_owner_count store space_id user_id ≢ 0)
      → KeepsOwners store s
  put_role-KeepsOwners s v e h =
      same_members-KeepsOwners store
        (put_members store space_id (insert user_id v (members_of store space_id))) s e
        (put_members-KeepsOwners store space_id _
          (add_owner user_id v (members_of store space_id) h))

  pub add-KeepsOwners :
      (s : Store) (role : Role) (now : Time)
      → add_membership store space_id user_id role now ≡ ok s
      → KeepsOwners store s
  unfolding add_membership
  add-KeepsOwners s role now h = elim (Option-cases (lookup user_id (members_of store space_id))) [
    | inr (w, e) ↦ absurd (ground arith)
    | inl e ↦
        put_role-KeepsOwners s (record { role = role; version = 1; created_at = now })
          (ground arith) (λ w f g. absurd (ground arith))
  ]

  pub change-KeepsOwners :
      (s : Store) (role : Role)
      → ((w : Membership)
          → lookup user_id (members_of store space_id) ≡ some w
          → (is_owner w.role && not (is_owner role)) ≡ true
          → remaining_owner_count store space_id user_id ≢ 0)
      → change_membership_role store space_id user_id role ≡ ok s
      → KeepsOwners store s
  unfolding change_membership_role
  change-KeepsOwners s role h e = elim (Option-cases (lookup user_id (members_of store space_id))) [
    | inl f ↦ absurd (ground arith)
    | inr (w, f) ↦ put_role-KeepsOwners s (record w { role = role }) (ground arith) h
  ]

  pub change_version-KeepsOwners :
      (s : Store) (role : Role) (expected : ℕ)
      → ((w : Membership)
          → lookup user_id (members_of store space_id) ≡ some w
          → (is_owner w.role && not (is_owner role)) ≡ true
          → remaining_owner_count store space_id user_id ≢ 0)
      → change_membership_role_version store space_id user_id role expected ≡ ok s
      → KeepsOwners store s
  unfolding change_membership_role_version
  change_version-KeepsOwners s role expected h e =
      elim (Option-cases (lookup user_id (members_of store space_id))) [
        | inl f ↦ absurd (ground arith)
        | inr (w, f) ↦
            put_role-KeepsOwners s (record w { role = role; version = w.version + 1 })
              (ground arith) h
      ]

  delete-KeepsOwners :
      (s : Store) (w : Membership)
      → lookup user_id (members_of store space_id) ≡ some w
      → (is_owner w.role ≡ true → remaining_owner_count store space_id user_id ≢ 0)
      → s.memberships
        ≡ insert space_id (delete user_id (members_of store space_id)) store.memberships
      → KeepsOwners store s
  delete-KeepsOwners s w f h e =
      same_members-KeepsOwners store
        (put_members store space_id (delete user_id (members_of store space_id))) s e
        (put_members-KeepsOwners store space_id _
          (delete_owner user_id (members_of store space_id) w f h))

  pub remove-KeepsOwners :
      (s : Store) (w : Membership)
      → lookup user_id (members_of store space_id) ≡ some w
      → (is_owner w.role ≡ true → remaining_owner_count store space_id user_id ≢ 0)
      → remove_membership store space_id user_id ≡ ok s
      → KeepsOwners store s
  unfolding remove_membership
  remove-KeepsOwners s w f h e = delete-KeepsOwners s w f h (ground arith)

  pub remove_version-KeepsOwners :
      (s : Store) (w : Membership) (expected : ℕ)
      → lookup user_id (members_of store space_id) ≡ some w
      → (is_owner w.role ≡ true → remaining_owner_count store space_id user_id ≢ 0)
      → remove_membership_version store space_id user_id expected ≡ ok s
      → KeepsOwners store s
  unfolding remove_membership_version
  remove_version-KeepsOwners s w expected f h e = delete-KeepsOwners s w f h (ground arith)

  pub membership_role_found :
      (role : Role)
      → membership_role store space_id user_id ≡ ok role
      → (w : Membership) × (lookup user_id (members_of store space_id) ≡ some w) × (w.role ≡ role)
  unfolding membership_role
  membership_role_found role h = elim (Option-cases (lookup user_id (members_of store space_id))) [
    | inl f ↦ absurd (ground arith)
    | inr (w, f) ↦ (w, f, ground arith)
  ]

  pub membership_found :
      (m : Membership)
      → membership store space_id user_id ≡ ok m
      → lookup user_id (members_of store space_id) ≡ some m
  unfolding membership
  membership_found m h = ground arith
