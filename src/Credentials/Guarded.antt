-- ===== src/Credentials/Guarded.antt =====
-- A change behind its guards: when it succeeds.
use opswarden.Outcomes.{ok, err, with_tx}
use opswarden.Prelude.{◌≡◌, refl, String, Option, none, some, Time}
use opswarden.Credentials.Tables.{
  CredentialError, Result, Principal, WriteContext, Credential, Store,
}
use opswarden.Credentials.Guards.{
  Env, append_credential_failure, with_failure, validate_mutation_context,
}
use opswarden.Credentials.Idempotency.{Primitives}
use opswarden.Credentials.Lifecycle.{guarded_change, read_metadata}

module _ {A : Type 0} (env : Env) (principal : Principal) (action : String)
    (metadata : Option (String × Credential)) (now : Time) (store s : Store) (a : A) where
  with_failure_err :
      (error : CredentialError)
      → with_failure env principal action metadata now (store, err error) ≡ (s, ok a)
      → ⊥
  with_failure_err error h =
      go (append_credential_failure env store principal action metadata error now) h
    where
      go :
          (appended : Result Store)
          → Path
              (Store × Result A)
              (elim appended as (λ x. Store × Result A) [
                | ok t ↦ (t, err error)
                | err f ↦ (store, err f)
              ])
              (s, ok a)
          → ⊥
      go (ok t) e = absurd (cc)
      go (err f) e = absurd (cc)

  with_failure_ok :
      (tx : Result (Store × A))
      → with_failure env principal action metadata now (with_tx store tx) ≡ (s, ok a)
      → tx ≡ ok (s, a)
  with_failure_ok (ok (t, b)) h = cc
  with_failure_ok (err e) h = absurd (with_failure_err e h)

module _ (prim : Primitives) (env : Env) (store s : Store) (principal : Principal)
    (write : WriteContext) (action credential_id : String) (tx : Result (Store × Unit {0}))
    (failure_time : Time) where
  -- A change that succeeds was valid, and its transaction succeeded.
  pub guarded_change_ok :
      (bad : Option CredentialError)
      → guarded_change prim env store principal action credential_id write bad tx failure_time
        ≡ (s, ok tt)
      → (bad ≡ none)
        × (validate_mutation_context prim.trim_space principal write ≡ ok tt)
        × (tx ≡ ok (s, tt))
  unfolding guarded_change
  guarded_change_ok (some e) h =
      absurd (with_failure_err env principal action none env.now store s tt e h)
  guarded_change_ok none h = go (validate_mutation_context prim.trim_space principal write) refl h
    where
      go :
          (valid : Result (Unit {0}))
          → validate_mutation_context prim.trim_space principal write ≡ valid
          → Path
              (Store × Result (Unit {0}))
              (elim valid as (λ x. Store × Result (Unit {0})) [
                | err e ↦ with_failure env principal action none env.now (store, err e)
                | ok u ↦
                    with_failure env principal action
                      (read_metadata store credential_id)
                      failure_time
                      (with_tx store tx)
              ])
              (s, ok tt)
          → (Path (Option CredentialError) none none)
            × (validate_mutation_context prim.trim_space principal write ≡ ok tt)
            × (tx ≡ ok (s, tt))
      go (err e) v k = absurd (with_failure_err env principal action none env.now store s tt e k)
      go (ok u) v k = (
        refl,
        v,
        with_failure_ok env principal action (read_metadata store credential_id) failure_time store
            s tt tx k,
      )

  -- And the other way round.
  pub guarded_change_done :
      (bad : Option CredentialError)
      → bad ≡ none
      → validate_mutation_context prim.trim_space principal write ≡ ok tt
      → tx ≡ ok (s, tt)
      → guarded_change prim env store principal action credential_id write bad tx failure_time
        ≡ (s, ok tt)
  unfolding guarded_change
  guarded_change_done bad e v t = rw (guarded_change, e, v, t) refl
