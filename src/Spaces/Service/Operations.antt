-- ===== src/Spaces/Service/Operations.antt =====
-- internal/spaces/service.go: AddMember, ChangeRole, RemoveMember and their audited forms.
use opswarden.Outcomes.{err, ok, unless, with_tx, ◌>>=◌}
use opswarden.Prelude.{ℕ, ◌==◌, not, ◌&&◌, String, [], ◌∷◌, none, some, if◌then◌else◌}
use opswarden.Identity.{SessionPrincipal}
use opswarden.Authorization.{
  Role, role_valid, add_member, change_member_role, remove_member, is_empty,
}
use opswarden.Spaces.{
  space_not_found, invalid_role, user_not_found, membership_not_found, version_conflict, Result,
  Membership, Store, active_user, same_role, is_owner, active_space, membership_role, membership,
  add_membership, change_membership_role, change_membership_role_version, remove_membership,
  remove_membership_version,
}
use opswarden.Spaces.Service.Guards.{
  Env, MutationContext, audited, audited_mutation_error, authorized, recently, keeping_owner,
  revoke_user_sessions, append_membership_audit,
}

unfoldable pub add_member_tx :
    Env → Store → SessionPrincipal → String → String → Role → Result (Store × Unit {0})
unfolding authorized
add_member_tx env store session space_id user_id role =
    unless (not (active_space store space_id)) space_not_found (
      authorized store session space_id add_member (elim (active_user store user_id) [
        | none ↦ err user_not_found
        | some user ↦ do s ← add_membership store space_id user_id role env.now; ok (s, tt)
      ]))

unfoldable pub add_member_to :
    Env → Store → SessionPrincipal → String → String → Role → Store × Result (Unit {0})
unfolding add_member_tx
add_member_to env store session space_id user_id role =
    if not (role_valid role)
    then (store, err invalid_role)
    else if is_empty space_id
    then (store, err space_not_found)
    else if is_empty user_id
    then (store, err user_not_found)
    else with_tx store (add_member_tx env store session space_id user_id role)

unfoldable pub add_member_audited_tx :
    Env → Store → MutationContext → String → String → Role → Result (Store × Membership)
unfolding recently append_membership_audit
add_member_audited_tx env store mutation space_id user_id role =
    recently env store mutation space_id add_member (elim (active_user store user_id) [
      | none ↦ err user_not_found
      | some user ↦ do
        s ← add_membership store space_id user_id role env.now
        member ← membership s space_id user_id
        t ← append_membership_audit env s mutation "membership.add" space_id user_id ("role" ∷ [])
        ok (t, member)
    ])

unfoldable pub add_member_audited :
    Env → Store → MutationContext → String → String → Role → Store × Result Membership
unfolding add_member_audited_tx audited_mutation_error
add_member_audited env store mutation space_id user_id role =
    if not (role_valid role)
    then (store, err invalid_role)
    else if is_empty space_id
    then (store, err space_not_found)
    else if is_empty user_id
    then (store, err user_not_found)
    else audited env store mutation (add_member_audited_tx env store mutation space_id user_id role)

-- `ChangeRole` behind the read of the current role.
unfoldable pub change_role_from :
    Env → Store → String → String → Role → Role → Result (Store × Unit {0})
unfolding keeping_owner revoke_user_sessions
change_role_from env store space_id user_id role current =
    if same_role current role
    then ok (store, tt)
    else keeping_owner store space_id user_id (is_owner current && not (is_owner role)) (do
      s ← change_membership_role store space_id user_id role
      t ← revoke_user_sessions env s user_id
      ok (t, tt))

unfoldable pub change_role_tx :
    Env → Store → SessionPrincipal → String → String → Role → Result (Store × Unit {0})
unfolding authorized change_role_from
change_role_tx env store session space_id user_id role =
    unless (not (active_space store space_id)) space_not_found (
      authorized store session space_id change_member_role (do
        current ← membership_role store space_id user_id
        change_role_from env store space_id user_id role current))

unfoldable pub change_role :
    Env → Store → SessionPrincipal → String → String → Role → Store × Result (Unit {0})
unfolding change_role_tx
change_role env store session space_id user_id role =
    if not (role_valid role)
    then (store, err invalid_role)
    else if is_empty space_id
    then (store, err space_not_found)
    else if is_empty user_id
    then (store, err membership_not_found)
    else with_tx store (change_role_tx env store session space_id user_id role)

-- `ChangeRoleAudited` behind the read of the current membership.
unfoldable pub change_role_audited_from :
    Env
    → Store
    → MutationContext
    → String
    → String
    → Role
    → ℕ
    → Membership
    → Result (Store × Membership)
unfolding keeping_owner revoke_user_sessions append_membership_audit
change_role_audited_from env store mutation space_id user_id role expected current =
    unless (not (current.version == expected)) version_conflict (
      if same_role current.role role
      then ok (store, current)
      else keeping_owner store space_id user_id (is_owner current.role && not (is_owner role)) (do
        s ← change_membership_role_version store space_id user_id role expected
        t ← revoke_user_sessions env s user_id
        member ← membership t space_id user_id
        u ←
            append_membership_audit env t mutation "membership.role.change" space_id user_id
              ("role" ∷ "version" ∷ [])
        ok (u, member)))

unfoldable pub change_role_audited_tx :
    Env → Store → MutationContext → String → String → Role → ℕ → Result (Store × Membership)
unfolding recently change_role_audited_from
change_role_audited_tx env store mutation space_id user_id role expected =
    recently env store mutation space_id change_member_role (do
      current ← membership store space_id user_id
      change_role_audited_from env store mutation space_id user_id role expected current)

unfoldable pub change_role_audited :
    Env → Store → MutationContext → String → String → Role → ℕ → Store × Result Membership
unfolding change_role_audited_tx audited_mutation_error
change_role_audited env store mutation space_id user_id role expected =
    if not (role_valid role)
    then (store, err invalid_role)
    else if is_empty space_id
    then (store, err space_not_found)
    else if is_empty user_id
    then (store, err membership_not_found)
    else if expected == 0
    then (store, err version_conflict)
    else audited env store mutation
        (change_role_audited_tx env store mutation space_id user_id role expected)

-- `RemoveMember` behind the read of the current role.
unfoldable pub remove_member_from : Env → Store → String → String → Role → Result (Store × Unit {0})
unfolding keeping_owner revoke_user_sessions
remove_member_from env store space_id user_id current =
    keeping_owner store space_id user_id (is_owner current) (do
      s ← remove_membership store space_id user_id
      t ← revoke_user_sessions env s user_id
      ok (t, tt))

unfoldable pub remove_member_tx :
    Env → Store → SessionPrincipal → String → String → Result (Store × Unit {0})
unfolding authorized remove_member_from
remove_member_tx env store session space_id user_id =
    unless (not (active_space store space_id)) space_not_found (
      authorized store session space_id remove_member (do
        current ← membership_role store space_id user_id
        remove_member_from env store space_id user_id current))

unfoldable pub remove_member_of :
    Env → Store → SessionPrincipal → String → String → Store × Result (Unit {0})
unfolding remove_member_tx
remove_member_of env store session space_id user_id =
    if is_empty space_id
    then (store, err space_not_found)
    else if is_empty user_id
    then (store, err membership_not_found)
    else with_tx store (remove_member_tx env store session space_id user_id)

-- `RemoveMemberAudited` behind the read of the current membership.
unfoldable pub remove_member_audited_from :
    Env → Store → MutationContext → String → String → ℕ → Membership → Result (Store × Unit {0})
unfolding keeping_owner revoke_user_sessions append_membership_audit
remove_member_audited_from env store mutation space_id user_id expected current =
    unless (not (current.version == expected)) version_conflict (
      keeping_owner store space_id user_id (is_owner current.role) (do
        s ← remove_membership_version store space_id user_id expected
        t ← revoke_user_sessions env s user_id
        u ←
            append_membership_audit env t mutation "membership.remove" space_id user_id
              ("role" ∷ "version" ∷ [])
        ok (u, tt)))

unfoldable pub remove_member_audited_tx :
    Env → Store → MutationContext → String → String → ℕ → Result (Store × Unit {0})
unfolding recently remove_member_audited_from
remove_member_audited_tx env store mutation space_id user_id expected =
    recently env store mutation space_id remove_member (do
      current ← membership store space_id user_id
      remove_member_audited_from env store mutation space_id user_id expected current)

unfoldable pub remove_member_audited :
    Env → Store → MutationContext → String → String → ℕ → Store × Result (Unit {0})
unfolding remove_member_audited_tx audited_mutation_error
remove_member_audited env store mutation space_id user_id expected =
    if is_empty space_id
    then (store, err space_not_found)
    else if is_empty user_id
    then (store, err membership_not_found)
    else if expected == 0
    then (store, err version_conflict)
    else audited env store mutation
        (remove_member_audited_tx env store mutation space_id user_id expected)
