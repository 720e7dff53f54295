-- ===== src/Spaces/Removal.antt =====
-- What it takes to remove a member with an audit record, and what it leaves behind.
use opswarden.Outcomes.{Holds, bind-Holds, ok}
use opswarden.Prelude.{
  ℕ, ◌==◌, ◌≡◌, refl, sym, ap, ◌∙◌, subst, inl, inr, Bool-cases, true, String, arith, List, [], ◌∷◌,
  none, some, Option-cases, lookup, delete, lookup-insert, lookup-delete, str_eq_iff, ◌⊎◌,
}
use opswarden.Identity.{has_recent_totp}
use opswarden.Authorization.{is_empty, remove_member}
use opswarden.Spaces.{
  space_not_found, membership_not_found, version_conflict, Membership, Event, Store, members_of,
  is_owner, membership, remove_membership_version,
}
use opswarden.Spaces.Service.{
  Env, MutationContext, audited, revoke_user_sessions, append_membership_audit,
  remove_member_audited_from, remove_member_audited_tx, remove_member_audited,
}
use opswarden.Spaces.Invariant.{membership_found}
use opswarden.Spaces.Outcomes.{
  Allows, recently-Holds, keeping_owner-Holds, audited-Holds, guarded_thrice-Holds,
}

-- A removal: who may, what the table held, and what the store has then.
pub record Removed (env : Env) (store : Store) (mutation : MutationContext)
    (space_id user_id : String) (expected : ℕ) (s : Store) : Type 0 where
  pub event : Event
  pub member : Membership
  pub is_allowed : Allows store mutation.session space_id remove_member
  pub is_recent : has_recent_totp mutation.session env.now ≡ true
  pub held : lookup user_id (members_of store space_id) ≡ some member
  pub version_fits : member.version ≡ expected
  pub gone : lookup user_id (members_of s space_id) ≡ none
  pub audit : s.audit ≡ event ∷ store.audit
  pub by_actor : event.actor_id ≡ mutation.actor_id
  pub of_user : event.resource_id ≡ user_id
  pub revoked : s.revoked ≡ user_id ∷ store.revoked

abbrev Unless :
    (env : Env) (store : Store) (mutation : MutationContext) (space_id user_id : String)
    (expected : ℕ)
    → Store
    → Type 0
Unless env store mutation space_id user_id expected s =
    (s ≡ store) ⊎ Removed env store mutation space_id user_id expected s

removed_facts :
    (store s : Store) (space_id user_id : String) (expected : ℕ)
    → remove_membership_version store space_id user_id expected ≡ ok s
    → (lookup user_id (members_of s space_id) ≡ none)
      × (s.audit ≡ store.audit)
      × (s.revoked ≡ store.revoked)
unfolding remove_membership_version
removed_facts store s space_id user_id expected h =
    let gone = lookup-delete user_id user_id (members_of store space_id) in
    let put =
      lookup-insert space_id space_id (delete user_id (members_of store space_id))
        store.memberships in
    (
      ground (arith, gone, put, str_eq_iff space_id space_id, str_eq_iff user_id user_id),
      ground arith,
      ground arith,
    )

revoke_facts :
    (env : Env) (s t : Store) (user_id : String)
    → revoke_user_sessions env s user_id ≡ ok t
    → (t.memberships ≡ s.memberships) × (t.audit ≡ s.audit) × (t.revoked ≡ user_id ∷ s.revoked)
unfolding revoke_user_sessions
revoke_facts env s t user_id h = (ground arith, ground arith, ground arith)

append_facts :
    (env : Env) (s t : Store) (mutation : MutationContext) (action space_id user_id : String)
    (fields : List String)
    → append_membership_audit env s mutation action space_id user_id fields ≡ ok t
    → (event : Event) × (t.memberships ≡ s.memberships)
      × (t.audit ≡ event ∷ s.audit)
      × (t.revoked ≡ s.revoked)
      × (event.actor_id ≡ mutation.actor_id)
      × (event.resource_id ≡ user_id)
unfolding append_membership_audit
append_facts env s t mutation action space_id user_id fields h =
    elim (Option-cases env.drawn_event_id) [
      | inl e ↦ absurd (ground arith)
      | inr (id, e) ↦ (
        record {
          id = id;
          request_id = mutation.request_id;
          created_at = env.now;
          actor_id = mutation.actor_id;
          action = action;
          space_id = space_id;
          resource_type = "membership";
          resource_id = user_id;
          source_ip = mutation.source_ip;
          user_agent = mutation.user_agent;
          change_fields = fields;
        },
        ground arith,
        ground arith,
        ground arith,
        refl,
        refl,
      )
    ]

module _ (env : Env) (store : Store) (mutation : MutationContext) (space_id user_id : String)
    (expected : ℕ) where
  removal :
      (current : Membership) (s t u : Store)
      → Allows store mutation.session space_id remove_member
      → has_recent_totp mutation.session env.now ≡ true
      → lookup user_id (members_of store space_id) ≡ some current
      → current.version ≡ expected
      → remove_membership_version store space_id user_id expected ≡ ok s
      → revoke_user_sessions env s user_id ≡ ok t
      → append_membership_audit env t mutation "membership.remove" space_id user_id
          ("role" ∷ "version" ∷ [])
        ≡ ok u
      → Removed env store mutation space_id user_id expected u
  removal current s t u allowed recent held fits e f a =
      let (gone, audit1, revoked1) = removed_facts store s space_id user_id expected e in
      let (same2, audit2, revoked2) = revoke_facts env s t user_id f in
      let (event, same3, audit3, revoked3, actor, user) =
        append_facts env t u mutation "membership.remove" space_id user_id ("role" ∷ "version" ∷ [])
          a in
      record {
        event = event;
        member = current;
        is_allowed = allowed;
        is_recent = recent;
        held = held;
        version_fits = fits;
        gone =
            subst
              (λ ms. lookup user_id (members_of (record s { memberships = ms }) space_id) ≡ none)
              (sym (same3 ∙ same2)) gone;
        audit = audit3 ∙ ap (λ log. event ∷ log) (audit2 ∙ audit1);
        by_actor = actor;
        of_user = user;
        revoked = revoked3 ∙ (revoked2 ∙ ap (λ users. user_id ∷ users) revoked1);
      }

  removal_tx :
      Holds
        (Unless env store mutation space_id user_id expected)
        (remove_member_audited_tx env store mutation space_id user_id expected)
  unfolding remove_member_audited_tx remove_member_audited_from
  removal_tx = recently-Holds P env store mutation space_id remove_member _ (λ allowed recent.
      bind-Holds P (membership store space_id user_id) _ (λ current read.
        elim (Bool-cases (current.version == expected)) [
          | inr stale ↦ rw stale tt
          | inl fits ↦ rw fits (
              keeping_owner-Holds P store space_id user_id (is_owner current.role) _ (λ kept.
                bind-Holds P (remove_membership_version store space_id user_id expected) _ (λ s e.
                  bind-Holds P (revoke_user_sessions env s user_id) _ (λ t f.
                    bind-Holds P
                      (append_membership_audit env t mutation "membership.remove" space_id user_id
                        ("role" ∷ "version" ∷ []))
                      _
                      (λ u a. inr (
                        removal current s t u allowed recent
                          (membership_found store space_id user_id current read) (ground arith) e f
                          a))))))
        ]))
    where
      P : Store → Type 0
      P = Unless env store mutation space_id user_id expected

  -- An audited removal either leaves the store as it was, or the session's principal was allowed
  -- to remove members in the space and had a recent second factor, the user was a member with the
  -- expected version and is none any more, one event of the actor and the user was appended to the
  -- audit log, and the user's sessions were revoked.
  pub remove_member_audited-Removed :
      let s = (remove_member_audited env store mutation space_id user_id expected).0 in
      (s ≡ store) ⊎ Removed env store mutation space_id user_id expected s
  unfolding remove_member_audited
  remove_member_audited-Removed =
      guarded_thrice-Holds (Unless env store mutation space_id user_id expected) store
        (is_empty space_id) (is_empty user_id) (expected == 0) space_not_found membership_not_found
        version_conflict
        (audited env store mutation
          (remove_member_audited_tx env store mutation space_id user_id expected))
        (inl refl)
        (audited-Holds (Unless env store mutation space_id user_id expected) env store mutation
          (remove_member_audited_tx env store mutation space_id user_id expected) (inl refl)
          (λ valid. removal_tx))
