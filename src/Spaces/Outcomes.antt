-- ===== src/Spaces/Outcomes.antt =====
-- What holds of the store and the answer of a transaction that succeeds.
use opswarden.Outcomes.{
  Holds, err, ok, with_tx, unless-Holds, bind-Holds, checked-Holds, with_tx-Holds,
}
use opswarden.Prelude.{
  ◌==◌, ◌≡◌, ◌≢◌, refl, Bool, true, false, not, String, arith, [], Option, none, some,
  if◌then◌else◌,
}
use opswarden.Identity.{SessionPrincipal, has_recent_totp}
use opswarden.Authorization.{Action, HumanPrincipal, Decision, decision_for_human, decision_err}
use opswarden.Spaces.{
  SpaceError, Result, Store, human_principal, active_space, remaining_owner_count,
}
use opswarden.Spaces.Service.{
  Env, MutationContext, decision_error, authorized, recently, another_owner, keeping_owner, audited,
  audited_mutation_error,
}

-- The session's principal is allowed the action in the space.
abbrev pub Allows : Store → SessionPrincipal → String → Action → Type 0
Allows store session space_id action =
    (human : HumanPrincipal) × (human_principal store session space_id ≡ ok human)
    × ((decision_for_human human (record { space_id = space_id; resource_id = ""; labels = [] })
          action).is_allowed
        ≡ true)

decision_error_allowed : (d : Decision) → decision_error d ≡ none → d.is_allowed ≡ true
unfolding decision_error decision_err
decision_error_allowed d h = ground arith

module _ {ℓ} {A : Type ℓ} (P : Store → Type 0) where
  pub authorized-Holds :
      (store : Store) (session : SessionPrincipal) (space_id : String) (action : Action)
      (rest : Result (Store × A))
      → (Allows store session space_id action → Holds P rest)
      → Holds P (authorized store session space_id action rest)
  unfolding authorized
  authorized-Holds store session space_id action rest h =
      bind-Holds P (human_principal store session space_id) _ (λ human e.
        checked-Holds P _ rest (λ none_e. h (human, e, decision_error_allowed _ none_e)))

  pub recently-Holds :
      (env : Env) (store : Store) (mutation : MutationContext) (space_id : String) (action : Action)
      (rest : Result (Store × A))
      → (Allows store mutation.session space_id action
          → has_recent_totp mutation.session env.now ≡ true
          → Holds P rest)
      → Holds P (recently env store mutation space_id action rest)
  unfolding recently
  recently-Holds env store mutation space_id action rest h =
      unless-Holds P (not (active_space store space_id)) _ _ (λ active.
        authorized-Holds store mutation.session space_id action _ (λ allowed.
          unless-Holds P (not (has_recent_totp mutation.session env.now)) _ _
            (λ recent. h allowed (ground arith))))

  pub keeping_owner-Holds :
      (store : Store) (space_id user_id : String) (gives_up : Bool) (rest : Result (Store × A))
      → ((gives_up ≡ true → remaining_owner_count store space_id user_id ≢ 0) → Holds P rest)
      → Holds P (keeping_owner store space_id user_id gives_up rest)
  unfolding keeping_owner another_owner
  keeping_owner-Holds store space_id user_id false rest h = h (λ e. absurd (ground arith))
  keeping_owner-Holds store space_id user_id true rest h =
      unless-Holds P (remaining_owner_count store space_id user_id == 0) _ rest
        (λ e. h (λ t. ground arith))

pub audited-Holds {ℓ} :
    {A : Type ℓ} (P : Store → Type 0) (env : Env) (store : Store) (mutation : MutationContext)
    (r : Result (Store × A))
    → P store
    → (audited_mutation_error env mutation ≡ none → Holds P r)
    → P (audited env store mutation r).0
audited-Holds {A = A} P env store mutation r p h = go (audited_mutation_error env mutation) refl
  where
    go :
        (o : Option SpaceError)
        → audited_mutation_error env mutation ≡ o
        → P
            (elim o as (λ x. Store × Result A) [
              | some e ↦ (store, err e)
              | none ↦ with_tx store r
            ]).0
    go none e = with_tx-Holds P store r p (h e)
    go (some x) e = p

-- Three guards in front of an operation.
pub guarded_thrice-Holds {ℓ} :
    {A : Type ℓ} (P : Store → Type 0) (store : Store) (b c d : Bool) (e f g : SpaceError)
    (rest : Store × Result A)
    → P store
    → P rest.0
    → P
        (if b
          then (store, err e)
          else if c
          then (store, err f)
          else if d
          then (store, err g)
          else rest).0
guarded_thrice-Holds P store true c d e f g rest p h = p
guarded_thrice-Holds P store false true d e f g rest p h = p
guarded_thrice-Holds P store false false true e f g rest p h = p
guarded_thrice-Holds P store false false false e f g rest p h = h
