-- ===== src/Authorization/Human.antt =====
-- What a human principal may do: properties of `DecisionForHuman`.
use opswarden.Prelude.{
  ◌≡◌, ◌↔◌, ◌⊎◌, inl, inr, ◌≢◌, true, false, ◌&&◌, ◌||◌, Bool-cases, lookup-insert, none, some,
  arith, lookup, str_eq_iff, insert,
}
use opswarden.Authorization.Tables.{
  Action, other_action, purge_credential, manage_agent_grant, create_space, list_spaces, Role,
  owner, editor, reader, other_role, system_owner, system_admin, member, known_action,
  space_scoped_action, system_admin_allows, role_allows, same_action,
}
use opswarden.Authorization.{
  Resource, HumanPrincipal, decision_for_human, decide_by_role, is_system_owner, is_system_admin,
  decision_err, err_not_found,
}

-- The tables are nested: a reader's actions are an editor's, and an editor's an owner's.
pub role_allows_mono :
    (a : Action)
    → (role_allows reader a ≡ true → role_allows editor a ≡ true)
      × (role_allows editor a ≡ true → role_allows owner a ≡ true)
unfolding role_allows
role_allows_mono (other_action s) = ground arith
role_allows_mono _ = ground arith

-- Every action that a role allows is scoped to a space.
role_allows_scoped : (r : Role) (a : Action) → role_allows r a ≡ true → space_scoped_action a ≡ true
unfolding role_allows
role_allows_scoped owner (other_action s) h = ground arith
role_allows_scoped owner _ h = ground arith
role_allows_scoped editor (other_action s) h = ground arith
role_allows_scoped editor _ h = ground arith
role_allows_scoped reader (other_action s) h = ground arith
role_allows_scoped reader _ h = ground arith
role_allows_scoped (other_role t) a h = cc

-- The roles of a space in their order.
pub data RoleLe : Role → Role → Type 0 where
  same : {r : Role} → RoleLe r r
  reader_editor : RoleLe reader editor
  reader_owner : RoleLe reader owner
  editor_owner : RoleLe editor owner

role_allows_le :
    {s t : Role} (a : Action) → RoleLe s t → role_allows s a ≡ true → role_allows t a ≡ true
role_allows_le a same h = h
role_allows_le a reader_editor h = (role_allows_mono a).0 h
role_allows_le a reader_owner h = (role_allows_mono a).1 ((role_allows_mono a).0 h)
role_allows_le a editor_owner h = (role_allows_mono a).1 h

abbrev pub IsAuthenticated : HumanPrincipal → Type 0
IsAuthenticated p = (p.session.user_id ≢ "") × (p.session.session_id ≢ "")

-- The ways in which a human principal is entitled to an action on a resource.
pub data Entitled (p : HumanPrincipal) (r : Resource) (a : Action) : Type 0 where
  by_ownership : p.system_role ≡ system_owner → Entitled p r a
  by_login : (a ≡ create_space) ⊎ (a ≡ list_spaces) → Entitled p r a
  by_administration : p.system_role ≡ system_admin → system_admin_allows a ≡ true → Entitled p r a
  by_membership :
      (role : Role)
      → r.space_id ≢ ""
      → lookup r.space_id p.space_roles ≡ some role
      → role_allows role a ≡ true
      → Entitled p r a

same_grant_iff : (a : Action) → (same_action a manage_agent_grant ≡ true) ↔ (a ≡ manage_agent_grant)
unfolding same_action
same_grant_iff (other_action s) = ground arith
same_grant_iff _ = ground arith

same_login_iff :
    (a : Action)
    → ((same_action a create_space || same_action a list_spaces) ≡ true)
      ↔ ((a ≡ create_space) ⊎ (a ≡ list_spaces))
unfolding same_action
same_login_iff (other_action s) = ground arith
same_login_iff _ = ground arith

abbrev pub IsPlaced : Resource → Action → Type 0
IsPlaced r a = (a ≢ manage_agent_grant) ⊎ (r.space_id ≢ "")

-- An action that is scoped to a space is a known one, and not one of those open to every login.
scoped_action_lem :
    (a : Action)
    → space_scoped_action a ≡ true
    → (known_action a ≡ true) × ((same_action a create_space || same_action a list_spaces) ≡ false)
unfolding space_scoped_action known_action
scoped_action_lem (other_action s) h = ground arith
scoped_action_lem _ h = ground arith

module _ (p : HumanPrincipal) (r : Resource) where
  -- A human who is allowed to delete a credential permanently is the System Owner, whatever else
  -- the principal and the resource are.
  pub purge_system_owner :
      (decision_for_human p r purge_credential).is_allowed ≡ true → p.system_role ≡ system_owner
  unfolding decision_for_human known_action system_admin_allows space_scoped_action decide_by_role
      role_allows
  purge_system_owner h = ground arith

  Entitled-allowed :
      (a : Action)
      → known_action a ≡ true
      → IsAuthenticated p
      → IsPlaced r a
      → Entitled p r a
      → (decision_for_human p r a).is_allowed ≡ true
  unfolding decision_for_human decide_by_role
  Entitled-allowed a k u l (by_ownership h) = ground (
    arith,
    str_eq_iff p.session.user_id "",
    str_eq_iff p.session.session_id "",
    str_eq_iff r.space_id "",
    same_grant_iff a,
  )
  Entitled-allowed a k u l (by_login e) = ground (
    arith,
    str_eq_iff p.session.user_id "",
    str_eq_iff p.session.session_id "",
    str_eq_iff r.space_id "",
    same_grant_iff a,
    same_login_iff a,
  )
  Entitled-allowed a k u l (by_administration h t) = ground (
    arith,
    str_eq_iff p.session.user_id "",
    str_eq_iff p.session.session_id "",
    str_eq_iff r.space_id "",
    same_grant_iff a,
  )
  Entitled-allowed a k u l (by_membership role n h t) = ground (
    arith,
    str_eq_iff p.session.user_id "",
    str_eq_iff p.session.session_id "",
    str_eq_iff r.space_id "",
    same_grant_iff a,
    role_allows_scoped role a t,
  )

  allowed_entitled :
      (a : Action)
      → (decision_for_human p r a).is_allowed ≡ true
      → (known_action a ≡ true) × IsAuthenticated p × IsPlaced r a
  unfolding decision_for_human decide_by_role
  allowed_entitled a h = ground (
    arith,
    str_eq_iff p.session.user_id "",
    str_eq_iff p.session.session_id "",
    str_eq_iff r.space_id "",
    same_grant_iff a,
  )

  member_allowed :
      (a : Action)
      → is_system_owner p.system_role ≡ false
      → (same_action a create_space || same_action a list_spaces) ≡ false
      → (is_system_admin p.system_role && system_admin_allows a) ≡ false
      → (decision_for_human p r a).is_allowed ≡ true
      → (role : Role) × (r.space_id ≢ "")
        × (lookup r.space_id p.space_roles ≡ some role)
        × (role_allows role a ≡ true)
  unfolding decision_for_human decide_by_role
  member_allowed a o l s h = ground (arith, str_eq_iff r.space_id "")

  allowed_source : (a : Action) → (decision_for_human p r a).is_allowed ≡ true → Entitled p r a
  allowed_source a h = elim (Bool-cases (is_system_owner p.system_role)) [
    | inl o ↦ by_ownership (ground arith)
    | inr o ↦ elim (Bool-cases (same_action a create_space || same_action a list_spaces)) [
      | inl l ↦ by_login ((same_login_iff a).0 l)
      | inr l ↦ elim (Bool-cases (is_system_admin p.system_role && system_admin_allows a)) [
        | inl s ↦ by_administration (ground arith) (ground arith)
        | inr s ↦ let (role, n, e, t) = member_allowed a o l s h in by_membership role n e t
      ]
    ]
  ]

  -- A human is allowed an action exactly if the action is one of the program's, the principal is
  -- authenticated, a grant is managed within a space, and one of the four entitlements is there
  -- (System Owner, an action open to every login, administration, a role in the resource's space).
  pub human_allowed_iff :
      (a : Action)
      → ((decision_for_human p r a).is_allowed ≡ true)
        ↔ ((known_action a ≡ true) × IsAuthenticated p × IsPlaced r a × Entitled p r a)
  human_allowed_iff a = (
    λ h. let (k, u, l) = allowed_entitled a h in (k, u, l, allowed_source a h),
    λ e. Entitled-allowed a e.0 e.1 e.2 e.3,
  )

-- The principal with a role in the resource's space.
abbrev with_role : HumanPrincipal → Resource → Role → HumanPrincipal
with_role p r role = record p { space_roles = insert r.space_id role p.space_roles }

-- What a principal may do in a space grows with the role: a higher role allows all that a lower
-- one does, whatever else the principal is.
pub decision_for_human_mono :
    (p : HumanPrincipal) (r : Resource) (a : Action) {s t : Role}
    → RoleLe s t
    → (decision_for_human (with_role p r s) r a).is_allowed ≡ true
    → (decision_for_human (with_role p r t) r a).is_allowed ≡ true
unfolding decision_for_human decide_by_role
decision_for_human_mono p r a {s} {t} le h = ground (
  arith,
  lookup-insert r.space_id r.space_id s p.space_roles,
  lookup-insert r.space_id r.space_id t p.space_roles,
  str_eq_iff r.space_id r.space_id,
  role_allows_le a le,
)

-- An authenticated user without a system role is answered, on every action that is scoped to a
-- space, in a space that is not theirs, that nothing was found.
pub outsider_not_found :
    (p : HumanPrincipal) (r : Resource) (a : Action)
    → IsAuthenticated p
    → p.system_role ≡ member
    → lookup r.space_id p.space_roles ≡ none
    → space_scoped_action a ≡ true
    → decision_err (decision_for_human p r a) ≡ some err_not_found
unfolding decision_for_human decide_by_role decision_err
outsider_not_found p r a u m h s = ground (
  arith,
  str_eq_iff p.session.user_id "",
  str_eq_iff p.session.session_id "",
  scoped_action_lem a s,
)
