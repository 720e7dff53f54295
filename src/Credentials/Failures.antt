-- ===== src/Credentials/Failures.antt =====
-- What a change that failed leaves behind.
use opswarden.Outcomes.{ok, err, required, with_tx, ok_injective}
use opswarden.Prelude.{
  ℕ, ◌≡◌, refl, sym, subst, inl, inr, ◌⊎◌, Bool, Bool-cases, true, false, String, ◌∷◌, Option, none,
  some, if◌then◌else◌, Time,
}
use opswarden.Credentials.Tables.{
  CredentialError, Actor, Result, Principal, WriteContext, Credential, Event, Store,
  audit_unavailable,
}
use opswarden.Credentials.Guards.{
  Env, audit_event_at, actor_is_authenticated, append_event, append_credential_failure,
  failure_event, with_failure, is_concealed, credential_failure_code, validate_mutation_context,
  revealed,
}
use opswarden.Credentials.Idempotency.{Primitives}
use opswarden.Credentials.Lifecycle.{
  guarded_change, read_metadata, delete_at, restore, purge, delete_tx, restore_tx, purge_tx,
  purge_failure_time,
}

-- One event of a failed attempt, which the log took, and which says nothing of the credential if the
-- error is concealed.
pub record Reported (env : Env) (store s : Store) (principal : Principal) (action : String)
    (error : CredentialError) : Type 0 where
  pub event : Event
  pub audit : s ≡ record store { audit = event ∷ store.audit }
  pub drawn : env.drawn_failure_id ≡ some event.id
  pub is_taken : env.appends_failure ≡ true
  pub is_known : actor_is_authenticated principal.human principal.agent principal.actor ≡ true
  pub is_failure : event.is_success ≡ false
  pub action_named : event.action ≡ action
  pub actor : event.actor ≡ principal.actor
  pub request : event.request_id ≡ principal.request_id
  pub address : event.source_ip ≡ principal.source_ip
  pub code : event.error_code ≡ credential_failure_code error
  pub concealed : is_concealed error ≡ true → (event.space_id ≡ "") × (event.resource_id ≡ "")

-- What keeps an event out of the log: no identifier is drawn for it, or the log does not take it.
pub IsLost : Env → Type 0
IsLost env = (env.drawn_failure_id ≡ none) ⊎ (env.appends_failure ≡ false)

-- After a failure the store is as it was but for one event, or as it was: the actor is not
-- authenticated, or the event was kept out of the log, and then the answer says that.
pub Failed : Env → Store → Principal → String → Store → CredentialError → Type 0
unfolding IsLost
Failed env store principal action s error =
    Reported env store s principal action error
    ⊎ ((s ≡ store)
        × ((actor_is_authenticated principal.human principal.agent principal.actor ≡ false)
            ⊎ (IsLost env × (error ≡ audit_unavailable))))

-- A change that succeeded, or one that failed like this.
pub FailedIf : Env → Store → Principal → String → Store × Result (Unit {0}) → Type 0
unfolding Failed
FailedIf env store principal action (s, ok u) = Unit
FailedIf env store principal action (s, err e) = Failed env store principal action s e

-- What becomes of an event: the log takes it, or it is lost.
Appended : Option String → Bool → Store → (String → Event) → Result Store → Type 0
Appended drawn appends store event_of result =
    ((id : String) × (drawn ≡ some id)
      × (appends ≡ true)
      × (result ≡ ok (record store { audit = event_of id ∷ store.audit })))
    ⊎ (((drawn ≡ none) ⊎ (appends ≡ false)) × (result ≡ err audit_unavailable))

append_event-Appended :
    (drawn : Option String) (appends : Bool) (store : Store) (event_of : String → Event)
    → Appended drawn appends store event_of (append_event drawn appends store event_of)
unfolding append_event required Appended
append_event-Appended none appends store event_of = inr (inl refl, refl)
append_event-Appended (some id) true store event_of = inl (id, refl, refl, refl)
append_event-Appended (some id) false store event_of = inr (inr refl, refl)

module _ (env : Env) (principal : Principal) (action : String)
    (metadata : Option (String × Credential)) (now : Time) (store : Store) where
  failure_event-Reported :
      (error : CredentialError) (id : String)
      → env.drawn_failure_id ≡ some id
      → env.appends_failure ≡ true
      → actor_is_authenticated principal.human principal.agent principal.actor ≡ true
      → Reported env store
          (record store {
            audit = failure_event principal action error metadata now id ∷ store.audit;
          })
          principal
          action
          error
  unfolding failure_event audit_event_at
  failure_event-Reported error id drawn taken known = record {
    event = failure_event principal action error metadata now id;
    audit = refl;
    drawn = drawn;
    is_taken = taken;
    is_known = known;
    is_failure = refl;
    action_named = refl;
    actor = either _ principal.actor;
    request = refl;
    address = refl;
    code = refl;
    concealed = hidden error metadata;
  }
    where
      either : (b : Bool) (actor : Actor) → (if b then actor else actor) ≡ actor
      either true actor = refl
      either false actor = refl

      hidden :
          (e : CredentialError) (m : Option (String × Credential))
          → is_concealed e ≡ true
          → ((revealed e m).0 ≡ "") × ((revealed e m).1 ≡ "")
      hidden e none h = (refl, refl)
      hidden e (some (id, credential)) h = rw h (refl, refl)

  -- What the log's answer makes of the store.
  after : CredentialError → Result Store → Store × Result (Unit {0})
  after error appended = elim appended [ ok s ↦ (s, err error) | err f ↦ (store, err f) ]

  after-FailedIf :
      (error : CredentialError) (appended : Result Store)
      → actor_is_authenticated principal.human principal.agent principal.actor ≡ true
      → Appended env.drawn_failure_id env.appends_failure store
          (failure_event principal action error metadata now)
          appended
      → FailedIf env store principal action (after error appended)
  unfolding FailedIf after Appended
  after-FailedIf error (ok s) known (inl (id, drawn, taken, e)) = inl (
      subst (λ t. Reported env store t principal action error) (sym (ok_injective e))
        (failure_event-Reported error id drawn taken known))
  after-FailedIf error (ok s) known (inr (lost, e)) = absurd (cc)
  after-FailedIf error (err f) known (inl (id, drawn, taken, e)) = absurd (cc)
  after-FailedIf error (err f) known (inr (lost, e)) = inr (refl, inr (lost, cc))

  with_failure-FailedIf :
      (error : CredentialError)
      → FailedIf env store principal action
          (with_failure {A = Unit {0}} env principal action metadata now (store, err error))
  unfolding after append_credential_failure FailedIf
  with_failure-FailedIf error =
      elim (Bool-cases (actor_is_authenticated principal.human principal.agent principal.actor)) [
        | inr anonymous ↦
            subst (λ r. FailedIf env store principal action (after error r))
              (sym (skipped error anonymous)) (unreported error anonymous)
        | inl known ↦
            subst (λ r. FailedIf env store principal action (after error r))
              (sym (appended error known))
              (after-FailedIf error _ known (
                append_event-Appended env.drawn_failure_id env.appends_failure store
                  (failure_event principal action error metadata now)))
      ]
    where
      skipped :
          (error : CredentialError)
          → actor_is_authenticated principal.human principal.agent principal.actor ≡ false
          → append_credential_failure env store principal action metadata error now ≡ ok store
      skipped e anonymous = rw (append_credential_failure, anonymous) refl

      appended :
          (error : CredentialError)
          → actor_is_authenticated principal.human principal.agent principal.actor ≡ true
          → append_credential_failure env store principal action metadata error now
            ≡ append_event env.drawn_failure_id env.appends_failure store
                (failure_event principal action error metadata now)
      appended e known = rw (append_credential_failure, known) refl

      unreported :
          (error : CredentialError)
          → actor_is_authenticated principal.human principal.agent principal.actor ≡ false
          → FailedIf env store principal action (store, err error)
      unreported e anonymous = inr (refl, inl anonymous)

  with_failure_tx-FailedIf :
      (tx : Result (Store × Unit {0}))
      → FailedIf env store principal action
          (with_failure env principal action metadata now (with_tx store tx))
  unfolding FailedIf
  with_failure_tx-FailedIf (ok (s, u)) = tt
  with_failure_tx-FailedIf (err e) = with_failure-FailedIf e

module _ (prim : Primitives) (env : Env) (store : Store) (principal : Principal)
    (write : WriteContext) where
  guarded_change-FailedIf :
      (action credential_id : String) (bad : Option CredentialError)
      (tx : Result (Store × Unit {0})) (failure_time : Time)
      → FailedIf env store principal action
          (guarded_change prim env store principal action credential_id write bad tx failure_time)
  unfolding guarded_change
  guarded_change-FailedIf action credential_id (some e) tx failure_time =
      with_failure-FailedIf env principal action none env.now store e
  guarded_change-FailedIf action credential_id none tx failure_time =
      go (validate_mutation_context prim.trim_space principal write)
    where
      go :
          (valid : Result (Unit {0}))
          → FailedIf env store principal action (elim valid as (λ x. Store × Result (Unit {0})) [
            | err e ↦ with_failure env principal action none env.now (store, err e)
            | ok u ↦
                with_failure env principal action
                  (read_metadata store credential_id)
                  failure_time
                  (with_tx store tx)
          ])
      go (err e) = with_failure-FailedIf env principal action none env.now store e
      go (ok u) =
          with_failure_tx-FailedIf env principal action (read_metadata store credential_id)
            failure_time store tx

  -- A deletion, restoration or purge that fails leaves the store as it was but for one event in
  -- the audit log, under the identifier that was drawn for it, which is marked as a failure of the
  -- action by the principal's authenticated actor, with the principal's request and address and
  -- the code of the error, and which names neither space nor credential if the error is concealed;
  -- or it leaves the store as it was, only if the actor is not authenticated, or no identifier was
  -- drawn or the log did not take the event, and in these two cases the answer is that the audit
  -- log is not available.
  pub changes-FailedIf :
      (space_id credential_id : String) (expected : ℕ)
      → FailedIf env store principal "credential.delete"
          (delete_at prim env store principal credential_id expected write)
        × FailedIf env store principal "credential.restore"
            (restore prim env store principal credential_id expected write)
        × FailedIf env store principal "credential.purge"
            (purge prim env store principal space_id credential_id expected write)
  unfolding delete_at restore purge
  changes-FailedIf space_id credential_id expected = (
    guarded_change-FailedIf "credential.delete" credential_id _
        (delete_tx prim env store principal credential_id expected write) env.now,
    guarded_change-FailedIf "credential.restore" credential_id _
        (restore_tx env store principal credential_id expected write) env.now,
    guarded_change-FailedIf "credential.purge" credential_id _
        (purge_tx env store principal space_id credential_id expected write)
        (purge_failure_time env store principal space_id credential_id),
  )
