-- ===== src/Spaces/Requests.antt =====
-- Any requests on members, in any order: each runs in one transaction on the writer's connection.
use opswarden.Outcomes.{Holds, bind-Holds, err, guarded-Holds, with_tx, with_tx-Holds}
use opswarden.Prelude.{
  ℕ, ◌==◌, inl, inr, Bool-cases, false, not, String, List, [], ◌∷◌, Option-cases, if◌then◌else◌,
}
use opswarden.Identity.{SessionPrincipal}
use opswarden.Authorization.{
  Role, role_valid, is_empty, change_member_role, remove_member, add_member,
}
use opswarden.Spaces.{
  invalid_role, space_not_found, user_not_found, membership_not_found, version_conflict, Store,
  membership_role, membership, add_membership, active_user, active_space,
}
use opswarden.Spaces.Service.{
  Env, MutationContext, audited, append_membership_audit, add_member_tx, add_member_to,
  add_member_audited_tx, add_member_audited, change_role_tx, change_role, change_role_audited_tx,
  change_role_audited, remove_member_tx, remove_member_of, remove_member_audited_tx,
  remove_member_audited,
}
use opswarden.Spaces.Owners.{KeepsOwners}
use opswarden.Spaces.Outcomes.{
  audited-Holds, guarded_thrice-Holds, authorized-Holds, recently-Holds,
}
use opswarden.Spaces.Invariant.{add-KeepsOwners, same_members-KeepsOwners, append_same}
use opswarden.Spaces.Keeps.{
  change_role_from-Holds, change_role_audited_from-Holds, remove_member_from-Holds,
  remove_member_audited_from-Holds,
}

-- A request on the members of a space.
pub data Request : Type 0 where
  adds : SessionPrincipal → String → String → Role → Request
  adds_audited : MutationContext → String → String → Role → Request
  changes : SessionPrincipal → String → String → Role → Request
  changes_audited : MutationContext → String → String → Role → ℕ → Request
  removes : SessionPrincipal → String → String → Request
  removes_audited : MutationContext → String → String → ℕ → Request

pub handle : Env → Store → Request → Store
handle env store (adds session space_id user_id role) =
    (add_member_to env store session space_id user_id role).0
handle env store (adds_audited mutation space_id user_id role) =
    (add_member_audited env store mutation space_id user_id role).0
handle env store (changes session space_id user_id role) =
    (change_role env store session space_id user_id role).0
handle env store (changes_audited mutation space_id user_id role expected) =
    (change_role_audited env store mutation space_id user_id role expected).0
handle env store (removes session space_id user_id) =
    (remove_member_of env store session space_id user_id).0
handle env store (removes_audited mutation space_id user_id expected) =
    (remove_member_audited env store mutation space_id user_id expected).0

-- The requests with what each of them finds, the oldest first.
pub handle_all : Store → List (Env × Request) → Store
handle_all store [] = store
handle_all store ((env, request) ∷ rest) = handle_all (handle env store request) rest

stays : (store : Store) → KeepsOwners store store
stays store other g = g

module _ (env : Env) (store : Store) (space_id user_id : String) where
  add_member_tx-Holds :
      (session : SessionPrincipal) (role : Role)
      → Holds (KeepsOwners store) (add_member_tx env store session space_id user_id role)
  unfolding add_member_tx
  add_member_tx-Holds session role = elim (Bool-cases (active_space store space_id)) [
    | inr gone ↦ rw gone tt
    | inl active ↦ rw active (
        authorized-Holds (KeepsOwners store) store session space_id add_member _ (λ allowed.
          elim (Option-cases (active_user store user_id)) [
            | inl e ↦ rw e tt
            | inr (u, e) ↦ rw e (
                bind-Holds (KeepsOwners store) (add_membership store space_id user_id role env.now)
                  _ (λ s f. add-KeepsOwners store space_id user_id s role env.now f))
          ]))
  ]

  add_member_audited_tx-Holds :
      (mutation : MutationContext) (role : Role)
      → Holds (KeepsOwners store) (add_member_audited_tx env store mutation space_id user_id role)
  unfolding add_member_audited_tx
  add_member_audited_tx-Holds mutation role =
      recently-Holds (KeepsOwners store) env store mutation space_id add_member _ (λ allowed recent.
        elim (Option-cases (active_user store user_id)) [
          | inl e ↦ rw e tt
          | inr (u, e) ↦ rw e (
              bind-Holds (KeepsOwners store) (add_membership store space_id user_id role env.now) _
                (λ s f. bind-Holds (KeepsOwners store) (membership s space_id user_id) _ (λ m r.
                  bind-Holds (KeepsOwners store)
                    (append_membership_audit env s mutation "membership.add" space_id user_id
                      ("role" ∷ []))
                    _
                    (λ t a.
                      same_members-KeepsOwners store s t
                        (append_same env s t mutation _ space_id user_id _ a)
                        (add-KeepsOwners store space_id user_id s role env.now f)))))
        ])

  change_role_tx-Holds :
      (session : SessionPrincipal) (role : Role)
      → Holds (KeepsOwners store) (change_role_tx env store session space_id user_id role)
  unfolding change_role_tx
  change_role_tx-Holds session role = elim (Bool-cases (active_space store space_id)) [
    | inr gone ↦ rw gone tt
    | inl active ↦ rw active (
        authorized-Holds (KeepsOwners store) store session space_id change_member_role _ (λ allowed.
          bind-Holds (KeepsOwners store) (membership_role store space_id user_id) _
            (λ current e. change_role_from-Holds env store space_id user_id role current e)))
  ]

  change_role_audited_tx-Holds :
      (mutation : MutationContext) (role : Role) (expected : ℕ)
      → Holds
          (KeepsOwners store)
          (change_role_audited_tx env store mutation space_id user_id role expected)
  unfolding change_role_audited_tx
  change_role_audited_tx-Holds mutation role expected =
      recently-Holds (KeepsOwners store) env store mutation space_id change_member_role _
        (λ allowed recent.
          bind-Holds (KeepsOwners store) (membership store space_id user_id) _ (λ current e.
            change_role_audited_from-Holds env store space_id user_id mutation role expected current
              e))

  remove_member_tx-Holds :
      (session : SessionPrincipal)
      → Holds (KeepsOwners store) (remove_member_tx env store session space_id user_id)
  unfolding remove_member_tx
  remove_member_tx-Holds session = elim (Bool-cases (active_space store space_id)) [
    | inr gone ↦ rw gone tt
    | inl active ↦ rw active (
        authorized-Holds (KeepsOwners store) store session space_id remove_member _ (λ allowed.
          bind-Holds (KeepsOwners store) (membership_role store space_id user_id) _
            (λ current e. remove_member_from-Holds env store space_id user_id current e)))
  ]

  remove_member_audited_tx-Holds :
      (mutation : MutationContext) (expected : ℕ)
      → Holds
          (KeepsOwners store)
          (remove_member_audited_tx env store mutation space_id user_id expected)
  unfolding remove_member_audited_tx
  remove_member_audited_tx-Holds mutation expected =
      recently-Holds (KeepsOwners store) env store mutation space_id remove_member _
        (λ allowed recent.
          bind-Holds (KeepsOwners store) (membership store space_id user_id) _ (λ current e.
            remove_member_audited_from-Holds env store space_id user_id mutation expected current
              e))

handle-KeepsOwners :
    (env : Env) (store : Store) (request : Request) → KeepsOwners store (handle env store request)
unfolding handle add_member_to add_member_audited change_role change_role_audited remove_member_of
    remove_member_audited
handle-KeepsOwners env store (adds session space_id user_id role) =
    guarded_thrice-Holds (KeepsOwners store) store (not (role_valid role)) (is_empty space_id)
      (is_empty user_id) invalid_role space_not_found user_not_found
      (with_tx store (add_member_tx env store session space_id user_id role)) (stays store)
      (with_tx-Holds (KeepsOwners store) store _ (stays store)
        (add_member_tx-Holds env store space_id user_id session role))
handle-KeepsOwners env store (adds_audited mutation space_id user_id role) =
    guarded_thrice-Holds (KeepsOwners store) store (not (role_valid role)) (is_empty space_id)
      (is_empty user_id) invalid_role space_not_found user_not_found
      (audited env store mutation (add_member_audited_tx env store mutation space_id user_id role))
      (stays store)
      (audited-Holds (KeepsOwners store) env store mutation
        (add_member_audited_tx env store mutation space_id user_id role) (stays store)
        (λ valid. add_member_audited_tx-Holds env store space_id user_id mutation role))
handle-KeepsOwners env store (changes session space_id user_id role) =
    guarded_thrice-Holds (KeepsOwners store) store (not (role_valid role)) (is_empty space_id)
      (is_empty user_id) invalid_role space_not_found membership_not_found
      (with_tx store (change_role_tx env store session space_id user_id role)) (stays store)
      (with_tx-Holds (KeepsOwners store) store _ (stays store)
        (change_role_tx-Holds env store space_id user_id session role))
handle-KeepsOwners env store (changes_audited mutation space_id user_id role expected) =
    guarded_thrice-Holds (KeepsOwners store) store (not (role_valid role)) (is_empty space_id)
      (is_empty user_id) invalid_role space_not_found membership_not_found
      (if expected == 0
        then (store, err version_conflict)
        else audited env store mutation
            (change_role_audited_tx env store mutation space_id user_id role expected))
      (stays store)
      (guarded-Holds (KeepsOwners store) store (expected == 0) version_conflict
        (audited env store mutation
          (change_role_audited_tx env store mutation space_id user_id role expected))
        (stays store)
        (audited-Holds (KeepsOwners store) env store mutation
          (change_role_audited_tx env store mutation space_id user_id role expected) (stays store)
          (λ valid.
            change_role_audited_tx-Holds env store space_id user_id mutation role expected)))
handle-KeepsOwners env store (removes session space_id user_id) =
    guarded_thrice-Holds (KeepsOwners store) store (is_empty space_id) (is_empty user_id) false
      space_not_found membership_not_found membership_not_found
      (with_tx store (remove_member_tx env store session space_id user_id)) (stays store)
      (with_tx-Holds (KeepsOwners store) store _ (stays store)
        (remove_member_tx-Holds env store space_id user_id session))
handle-KeepsOwners env store (removes_audited mutation space_id user_id expected) =
    guarded_thrice-Holds (KeepsOwners store) store (is_empty space_id) (is_empty user_id)
      (expected == 0) space_not_found membership_not_found version_conflict
      (audited env store mutation
        (remove_member_audited_tx env store mutation space_id user_id expected))
      (stays store)
      (audited-Holds (KeepsOwners store) env store mutation
        (remove_member_audited_tx env store mutation space_id user_id expected) (stays store)
        (λ valid. remove_member_audited_tx-Holds env store space_id user_id mutation expected))

-- Whatever requests add, change or remove members, audited or not, in any order, with any
-- sessions, and whatever fails in them, every space whose users belong to it once and that has an
-- owner keeps both.
pub handle_all-KeepsOwners :
    (store : Store) (requests : List (Env × Request))
    → KeepsOwners store (handle_all store requests)
unfolding handle_all
handle_all-KeepsOwners store [] = stays store
handle_all-KeepsOwners store ((env, request) ∷ rest) = λ other g.
    handle_all-KeepsOwners (handle env store request) rest other
      (handle-KeepsOwners env store request other g)
