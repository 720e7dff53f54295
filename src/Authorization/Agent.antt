-- ===== src/Authorization/Agent.antt =====
-- What an agent may do: properties of `DecisionForAgent`.
use opswarden.Prelude.{
  ◌<◌, any_iff, all_iff, all-and, any-append, ◌≡◌, ◌∙◌, ◌↔◌, ◌⊎◌, inl, inr, ◌≢◌, Bool, true, false,
  not, ◌&&◌, ◌||◌, none, some, Option-cases, String, arith, List, ◌∷◌, ◌++◌, Dict, lookup,
  str_eq_iff, any, all, Any, All,
}
use opswarden.Authorization.Tables.{
  Action, other_action, Scope, known_action, scope_for_action, same_scope, scope_index,
}
use opswarden.Authorization.{
  Resource, Grant, AgentPrincipal, decision_for_agent, grant_allows, grant_valid, labels_match,
  label_matches, is_empty, decision_err, err_not_found,
}

-- The labels of a grant: each key is there, and the resource carries the label.
abbrev pub CarriesLabel : Dict String → String × String → Type 0
CarriesLabel labels (key, value) = (key ≢ "") × (lookup key labels ≡ some value)

-- A grant permits a scope on a resource.
pub record Permits (r : Resource) (s : Scope) (g : Grant) : Type 0 where
  pub same_space : g.space_id ≡ r.space_id
  pub in_scope : Any (λ t. t ≡ s) g.scopes
  pub labelled : All (CarriesLabel r.labels) g.labels

scope_for_action-known :
    (a : Action) {s : Scope} → scope_for_action a ≡ some s → known_action a ≡ true
unfolding scope_for_action known_action
scope_for_action-known (other_action t) h = cc
scope_for_action-known _ h = ground arith

-- The scopes that an action asks for are constants.
scope_for_action_constant :
    (a : Action) (s : Scope) → scope_for_action a ≡ some s → scope_index s < 7
unfolding scope_for_action
scope_for_action_constant (other_action t) s h = cc
scope_for_action_constant _ s h = ground arith

same_scope_iff : (t s : Scope) → scope_index s < 7 → (same_scope t s ≡ true) ↔ (t ≡ s)
same_scope_iff t s c = ground arith

carries_iff :
    (labels : Dict String) (label : String × String)
    → ((not (is_empty label.0) && label_matches labels label) ≡ true)
      ↔ ((label.0 ≢ "") × (lookup label.0 labels ≡ some label.1))
carries_iff labels (key, value) = elim (Option-cases (lookup key labels)) [
  | inl e ↦ rw e (ground (arith, str_eq_iff key ""))
  | inr (v, e) ↦ rw e (ground (arith, str_eq_iff key "", str_eq_iff v value))
]

grant_allows_iff :
    (r : Resource) (s : Scope) (g : Grant)
    → scope_index s < 7
    → (grant_allows r s g ≡ true) ↔ Permits r s g
unfolding grant_allows grant_valid labels_match
grant_allows_iff r s g c = (
  λ h. record {
    same_space = ground (arith, str_eq_iff g.space_id r.space_id);
    in_scope = scopes.0 (ground arith);
    labelled = labels.0 (split ∙ ground arith);
  },
  λ h.
      ground
        (arith, str_eq_iff g.space_id r.space_id, scopes.1 h.in_scope, labels.1 h.labelled, split),
)
  where
    split :
        all (λ l. not (is_empty l.0) && label_matches r.labels l) g.labels
        ≡ (all (λ l. not (is_empty l.0)) g.labels && all (label_matches r.labels) g.labels)
    split = all-and (λ l. not (is_empty l.0)) (label_matches r.labels) g.labels

    scopes : (any (λ t. same_scope t s) g.scopes ≡ true) ↔ Any (λ t. t ≡ s) g.scopes
    scopes = any_iff _ _ (λ t. same_scope_iff t s c) g.scopes

    labels :
        (all (λ l. not (is_empty l.0) && label_matches r.labels l) g.labels ≡ true)
        ↔ All (CarriesLabel r.labels) g.labels
    labels = all_iff _ _ (carries_iff r.labels) g.labels

module _ (p : AgentPrincipal) (r : Resource) where
  -- An agent is allowed an action exactly if it is authenticated, the resource stands in a space,
  -- the action asks for a scope, and one of its grants has that scope in that space and only
  -- labels that the resource carries.
  pub agent_allowed_iff :
      (a : Action)
      → ((decision_for_agent p r a).is_allowed ≡ true) ↔ (
          (s : Scope) × (p.agent_id ≢ "")
          × (r.space_id ≢ "")
          × (scope_for_action a ≡ some s)
          × Any (Permits r s) p.grants)
  unfolding decision_for_agent
  agent_allowed_iff a = (λ h. sound h (Option-cases (scope_for_action a)), complete)
    where
      grants :
          (s : Scope)
          → scope_for_action a ≡ some s
          → (any (grant_allows r s) p.grants ≡ true) ↔ Any (Permits r s) p.grants
      grants s e =
          any_iff (grant_allows r s) (Permits r s)
            (λ g. grant_allows_iff r s g (scope_for_action_constant a s e)) p.grants

      sound :
          (decision_for_agent p r a).is_allowed ≡ true
          → (scope_for_action a ≡ none) ⊎ ((s : Scope) × (scope_for_action a ≡ some s))
          → (s : Scope) × (p.agent_id ≢ "")
            × (r.space_id ≢ "")
            × (scope_for_action a ≡ some s)
            × Any (Permits r s) p.grants
      sound h (inl e) = absurd (ground arith)
      sound h (inr (s, e)) = (
        s,
        ground (arith, str_eq_iff p.agent_id ""),
        ground (arith, str_eq_iff r.space_id ""),
        e,
        (grants s e).0 (ground arith),
      )

      complete :
          ((s : Scope) × (p.agent_id ≢ "")
            × (r.space_id ≢ "")
            × (scope_for_action a ≡ some s)
            × Any (Permits r s) p.grants)
          → (decision_for_agent p r a).is_allowed ≡ true
      complete (s, u, n, e, g) = ground (
        arith,
        str_eq_iff p.agent_id "",
        str_eq_iff r.space_id "",
        (grants s e).1 g,
        scope_for_action-known a e,
      )

  -- An authenticated agent that is not allowed an action is told that the resource was not found.
  pub agent_refused_not_found :
      (a : Action)
      → p.agent_id ≢ ""
      → (decision_for_agent p r a).is_allowed ≡ false
      → decision_err (decision_for_agent p r a) ≡ some err_not_found
  unfolding decision_for_agent decision_err
  agent_refused_not_found a n h = ground (arith, str_eq_iff p.agent_id "")

-- Grants only add up: an agent with two lists of grants may do what it may do with one or with the
-- other.
pub grants_add :
    (id : String) (gs hs : List Grant) (r : Resource) (a : Action)
    → let may = λ (grants : List Grant).
      (decision_for_agent (record { agent_id = id; grants = grants }) r a).is_allowed in
      may (gs ++ hs) ≡ (may gs || may hs)
unfolding decision_for_agent
grants_add id gs hs r a = elim (Option-cases (scope_for_action a)) [
  | inl e ↦ rw e (ground arith)
  | inr (s, e) ↦ rw e (ground (arith, any-append (grant_allows r s) gs hs))
]

-- Whether an agent with the grant and the others is allowed the action.
abbrev may_with : String → Grant → List Grant → Resource → Action → Bool
may_with id g gs r a =
    (decision_for_agent (record { agent_id = id; grants = g ∷ gs }) r a).is_allowed

-- With one more label on a grant, whatever it is, an agent may do no more than before.
pub label_narrows :
    (id : String) (g : Grant) (gs : List Grant) (key value : String) (r : Resource) (a : Action)
    → may_with id (record g { labels = (key, value) ∷ g.labels }) gs r a ≡ true
    → may_with id g gs r a ≡ true
unfolding decision_for_agent grant_allows grant_valid labels_match
label_narrows id g gs key value r a h = elim (Option-cases (scope_for_action a)) [
  | inl e ↦ ground arith
  | inr (s, e) ↦ ground arith
]
