-- ===== src/Spaces/Keeps.antt =====
-- The changes behind the reads of the operations, and the owners of every space.
use opswarden.Outcomes.{Holds, bind-Holds, ok}
use opswarden.Prelude.{
  ℕ, ◌==◌, ◌≡◌, ◌∙◌, subst, inl, inr, Bool-cases, true, not, ◌&&◌, String, arith, [], ◌∷◌, some,
  lookup,
}
use opswarden.Authorization.{Role}
use opswarden.Spaces.{
  Membership, Store, members_of, same_role, is_owner, membership_role, membership,
  change_membership_role, change_membership_role_version, remove_membership,
  remove_membership_version,
}
use opswarden.Spaces.Service.{
  Env, MutationContext, revoke_user_sessions, append_membership_audit, change_role_from,
  change_role_audited_from, remove_member_from, remove_member_audited_from,
}
use opswarden.Spaces.Owners.{KeepsOwners}
use opswarden.Spaces.Outcomes.{keeping_owner-Holds}
use opswarden.Spaces.Invariant.{
  same_members-KeepsOwners, revoke_same, append_same, change-KeepsOwners,
  change_version-KeepsOwners, remove-KeepsOwners, remove_version-KeepsOwners, membership_role_found,
  membership_found,
}

role_read :
    (store : Store) (space_id user_id : String) (current : Role) (w : Membership)
    → membership_role store space_id user_id ≡ ok current
    → lookup user_id (members_of store space_id) ≡ some w
    → w.role ≡ current
unfolding membership_role
role_read store space_id user_id current w h e = ground arith

module _ (env : Env) (store : Store) (space_id user_id : String) where
  pub change_role_from-Holds :
      (role current : Role)
      → membership_role store space_id user_id ≡ ok current
      → Holds (KeepsOwners store) (change_role_from env store space_id user_id role current)
  unfolding change_role_from
  change_role_from-Holds role current read = elim (Bool-cases (same_role current role)) [
    | inl same ↦ rw same (λ other g. g)
    | inr new ↦ rw new (
        keeping_owner-Holds (KeepsOwners store) store space_id user_id
          (is_owner current && not (is_owner role)) _
          (λ kept.
            bind-Holds (KeepsOwners store) (change_membership_role store space_id user_id role) _
              (λ s e. bind-Holds (KeepsOwners store) (revoke_user_sessions env s user_id) _ (λ t f.
                same_members-KeepsOwners store s t (revoke_same env s t user_id f) (
                  change-KeepsOwners store space_id user_id s role
                    (λ w g h. kept (
                      subst (λ r. (is_owner r && not (is_owner role)) ≡ true)
                        (role_read store space_id user_id current w read g) h))
                    e)))))
  ]

  pub remove_member_from-Holds :
      (current : Role)
      → membership_role store space_id user_id ≡ ok current
      → Holds (KeepsOwners store) (remove_member_from env store space_id user_id current)
  unfolding remove_member_from
  remove_member_from-Holds current read =
      let (w, found, role) = membership_role_found store space_id user_id current read in
      keeping_owner-Holds (KeepsOwners store) store space_id user_id (is_owner current) _ (λ kept.
        bind-Holds (KeepsOwners store) (remove_membership store space_id user_id) _ (λ s e.
          bind-Holds (KeepsOwners store) (revoke_user_sessions env s user_id) _ (λ t f.
            same_members-KeepsOwners store s t (revoke_same env s t user_id f) (
              remove-KeepsOwners store space_id user_id s w found
                (λ h. kept (subst (λ r. is_owner r ≡ true) role h)) e))))

  pub change_role_audited_from-Holds :
      (mutation : MutationContext) (role : Role) (expected : ℕ) (current : Membership)
      → membership store space_id user_id ≡ ok current
      → Holds
          (KeepsOwners store)
          (change_role_audited_from env store mutation space_id user_id role expected current)
  unfolding change_role_audited_from
  change_role_audited_from-Holds mutation role expected current read =
      let found = membership_found store space_id user_id current read in
      elim (Bool-cases (current.version == expected)) [
        | inr stale ↦ rw stale tt
        | inl fits ↦ elim (Bool-cases (same_role current.role role)) [
          | inl same ↦ rw (fits, same) (λ other g. g)
          | inr new ↦
              rw (fits, new)
                (keeping_owner-Holds (KeepsOwners store) store space_id user_id
                  (is_owner current.role && not (is_owner role)) _
                  (λ kept.
                    bind-Holds (KeepsOwners store)
                      (change_membership_role_version store space_id user_id role expected) _
                      (λ s e.
                        bind-Holds (KeepsOwners store) (revoke_user_sessions env s user_id) _
                          (λ t f.
                            bind-Holds (KeepsOwners store) (membership t space_id user_id) _ (λ m r.
                              bind-Holds (KeepsOwners store)
                                (append_membership_audit env t mutation "membership.role.change"
                                  space_id user_id ("role" ∷ "version" ∷ []))
                                _
                                (λ u a.
                                  same_members-KeepsOwners store s u
                                    (append_same env t u mutation _ space_id user_id _ a
                                      ∙ revoke_same env s t user_id f)
                                    (change_version-KeepsOwners store space_id user_id s role
                                      expected (λ w g h. kept (role_of current w found g h))
                                      e)))))))
        ]
      ]
    where
      role_of :
          (c w : Membership)
          → lookup user_id (members_of store space_id) ≡ some c
          → lookup user_id (members_of store space_id) ≡ some w
          → (is_owner w.role && not (is_owner role)) ≡ true
          → (is_owner c.role && not (is_owner role)) ≡ true
      role_of c w e f h = ground arith

  pub remove_member_audited_from-Holds :
      (mutation : MutationContext) (expected : ℕ) (current : Membership)
      → membership store space_id user_id ≡ ok current
      → Holds
          (KeepsOwners store)
          (remove_member_audited_from env store mutation space_id user_id expected current)
  unfolding remove_member_audited_from
  remove_member_audited_from-Holds mutation expected current read =
      let found = membership_found store space_id user_id current read in
      elim (Bool-cases (current.version == expected)) [
        | inr stale ↦ rw stale tt
        | inl fits ↦ rw fits (
            keeping_owner-Holds (KeepsOwners store) store space_id user_id (is_owner current.role) _
              (λ kept.
                bind-Holds (KeepsOwners store)
                  (remove_membership_version store space_id user_id expected) _
                  (λ s e.
                    bind-Holds (KeepsOwners store) (revoke_user_sessions env s user_id) _ (λ t f.
                      bind-Holds (KeepsOwners store)
                        (append_membership_audit env t mutation "membership.remove" space_id user_id
                          ("role" ∷ "version" ∷ []))
                        _
                        (λ u a.
                          same_members-KeepsOwners store s u
                            (append_same env t u mutation _ space_id user_id _ a
                              ∙ revoke_same env s t user_id f)
                            (remove_version-KeepsOwners store space_id user_id s current expected
                              found kept e))))))
      ]
