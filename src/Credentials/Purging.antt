-- ===== src/Credentials/Purging.antt =====
-- What it takes to purge a credential, and what is left.
use opswarden.Outcomes.{ok, required, bind_ok, unless_ok, ok_injective, required_ok}
use opswarden.Prelude.{
  ℕ, ◌==◌, ◌≡◌, refl, sym, subst, ◌∙◌, ap, inl, inr, Bool, true, false, not, ◌||◌, String, arith,
  [], ◌∷◌, Option-cases, none, some, if◌then◌else◌, Time, lookup, delete, lookup-delete, str_eq,
  str_eq_iff, before,
}
use opswarden.Identity.Tables as Identity
use opswarden.Authorization.{HumanPrincipal, SystemRole, system_owner, purge_credential}
use opswarden.Credentials.Tables.{
  not_found, denied, version_conflict, session_invalid, session_expired, session_revoked,
  recent_totp_required, user_forbidden, Principal, WriteContext, Credential, Event, Store,
  metadata_by_id, resource_for_metadata, is_deleted, delete_credential_row, audit_unavailable,
}
use opswarden.Credentials.Guards.{Env, authorize, append_event, audit_event_at}
use opswarden.Credentials.Idempotency.{Primitives}
use opswarden.Credentials.Lifecycle.{
  append_change, session_user, verify_session, recent_enough, verify_authoritative_purge_session,
  purge_tx, purge, purge_failure_time,
}
use opswarden.Credentials.Guarded.{guarded_change_ok}

-- A session as the database has it at the time: the principal's, alive, of a System Owner who is not
-- deleted, with a recent second factor.
pub record LiveOwnerSession (store : Store) (human : HumanPrincipal) (now : Time) : Type 0 where
  pub session : Identity.SessionRow
  pub user : Identity.User
  pub found : session_user store human.session.session_id ≡ some (session, user)
  pub own : session.user_id ≡ human.session.user_id
  pub not_revoked : session.revoked_at ≡ none
  pub not_expired : before now session.expires_at ≡ true
  pub not_idle : before now session.idle_expires_at ≡ true
  pub not_deleted : user.is_deleted ≡ false
  pub is_owner : user.system_role ≡ system_owner
  pub is_recent : recent_enough session.recent_totp_at now ≡ true

negation_fails : (b : Bool) → not b ≡ false → b ≡ true
negation_fails true h = refl
negation_fails false h = sym h

verify_session_ok :
    (store : Store) (human : HumanPrincipal) (session : Identity.SessionRow) (user : Identity.User)
    (now : Time)
    → session_user store human.session.session_id ≡ some (session, user)
    → verify_session human session user now ≡ ok tt
    → LiveOwnerSession store human now
unfolding verify_session
verify_session_ok store human session user now found h =
    let (own, h1) =
      unless_ok
        (not (str_eq session.user_id human.session.user_id)
          || not (session.created_at == human.session.issued_at))
        session_invalid _ tt h in
    let (open1, h2) = unless_ok (Identity.is_revoked session) session_revoked _ tt h1 in
    let (fresh, h3) = unless_ok (Identity.is_expired session now) session_expired _ tt h2 in
    let (there, h4) = unless_ok user.is_deleted user_forbidden _ tt h3 in
    let (owns, h5) = unless_ok (not (Identity.is_system_owner user.system_role)) denied _ tt h4 in
    let (recent, h6) =
      unless_ok (not (recent_enough session.recent_totp_at now)) recent_totp_required (ok tt) tt
        h5 in
    record {
      session = session;
      user = user;
      found = found;
      own = ground (arith, own, str_eq_iff session.user_id human.session.user_id);
      not_revoked = unrevoked session open1;
      not_expired = ground (arith, fresh);
      not_idle = ground (arith, fresh);
      not_deleted = there;
      is_owner = owner_role user.system_role (negation_fails _ owns);
      is_recent = negation_fails _ recent;
    }
  where
    unrevoked :
        (row : Identity.SessionRow) → Identity.is_revoked row ≡ false → row.revoked_at ≡ none
    unrevoked row e = ground arith

    owner_role : (role : SystemRole) → Identity.is_system_owner role ≡ true → role ≡ system_owner
    owner_role role e = ground arith

-- A purge that was done.
pub record Purged (env : Env) (store s : Store) (principal : Principal)
    (space_id credential_id : String) (expected : ℕ) (write : WriteContext) : Type 0 where
  pub human : HumanPrincipal
  pub credential : Credential
  pub event : Event
  pub is_human : principal.human ≡ some human
  pub no_agent : principal.agent ≡ none
  pub live : LiveOwnerSession store human env.operation_time
  pub held : lookup credential_id store.credentials ≡ some credential
  pub in_space : credential.space_id ≡ space_id
  pub was_deleted : is_deleted credential ≡ true
  pub version_fits : credential.version ≡ expected
  pub allowed :
      authorize principal (resource_for_metadata credential_id credential) purge_credential ≡ ok tt
  pub gone :
      (other : String)
      → lookup other s.credentials
        ≡ (if str_eq credential_id other then none else lookup other store.credentials)
  pub audit : s.audit ≡ event ∷ store.audit
  pub of_credential : event.resource_id ≡ credential_id
  pub others : (s.identity ≡ store.identity) × (s.idempotency_records ≡ store.idempotency_records)

module _ (env : Env) (store s : Store) (principal : Principal) (space_id credential_id : String)
    (expected : ℕ) (write : WriteContext) where
  authoritative_lem :
      verify_authoritative_purge_session store principal env.operation_time ≡ ok tt
      → (human : HumanPrincipal) × (principal.human ≡ some human)
        × (principal.agent ≡ none)
        × LiveOwnerSession store human env.operation_time
  unfolding verify_authoritative_purge_session
  authoritative_lem h = elim (Option-cases principal.human) [
    | inl e ↦ absurd (cc (rw (verify_authoritative_purge_session, e) at h))
    | inr (human, e) ↦ elim (Option-cases principal.agent) [
      | inr (agent, f) ↦ absurd (cc (rw (verify_authoritative_purge_session, e, f) at h))
      | inl f ↦
          let (pair, g, k) =
            bind_ok (required session_invalid (session_user store human.session.session_id))
              (λ found. verify_session human found.0 found.1 env.operation_time) tt
              (rw (verify_authoritative_purge_session, e, f) at h) in
          (
            human,
            e,
            f,
            verify_session_ok store human pair.0 pair.1 env.operation_time
                (required_ok session_invalid _ pair g) k,
          )
    ]
  ]

  append_change_lem :
      (t : Store) (credential : Credential)
      → append_change env store principal write "credential.purge" credential_id credential
          env.operation_time
        ≡ ok t
      → (event : Event) × (event.resource_id ≡ credential_id)
        × (t ≡ record store { audit = event ∷ store.audit })
  unfolding append_change append_event audit_event_at
  append_change_lem t credential h =
      let (id, e, f) = bind_ok (required audit_unavailable env.drawn_event_id) _ t h in
      let (appends, g) = unless_ok (not env.appends) audit_unavailable _ t f in
      (
        audit_event_at principal write.actor "credential.purge" credential.space_id credential_id
            ("deleted_at" ∷ []) write.reason env.operation_time id,
        refl,
        sym (ok_injective g),
      )

  delete_row_lem :
      (t : Store)
      → delete_credential_row t space_id credential_id expected ≡ ok s
      → s ≡ record t { credentials = delete credential_id t.credentials }
  unfolding delete_credential_row
  delete_row_lem t h = elim (Option-cases (lookup credential_id t.credentials)) [
    | inl e ↦ absurd (ground arith)
    | inr (credential, e) ↦ ground arith
  ]

  purge_tx-Purged :
      purge_tx env store principal space_id credential_id expected write ≡ ok (s, tt)
      → Purged env store s principal space_id credential_id expected write
  unfolding purge_tx metadata_by_id
  purge_tx-Purged h =
      let (credential, e, h1) =
        bind_ok (required not_found (lookup credential_id store.credentials)) _ (s, tt) h in
      let (in_space, h2) =
        unless_ok (not (str_eq credential.space_id space_id)) not_found _ (s, tt) h1 in
      let (u, allowed, h3) =
        bind_ok
          (authorize principal (resource_for_metadata credential_id credential) purge_credential) _
          (s, tt) h2 in
      let (v, live, h4) =
        bind_ok (verify_authoritative_purge_session store principal env.operation_time) _ (s, tt)
          h3 in
      let (was_deleted, h5) = unless_ok (not (is_deleted credential)) not_found _ (s, tt) h4 in
      let (fits, h6) =
        unless_ok (not (credential.version == expected)) version_conflict _ (s, tt) h5 in
      let (t, appended, h7) =
        bind_ok
          (append_change env store principal write "credential.purge" credential_id credential
            env.operation_time)
          _ (s, tt) h6 in
      let (w, removed, h8) =
        bind_ok (delete_credential_row t space_id credential_id expected) _ (s, tt) h7 in
      purged credential t (required_ok not_found _ credential e) in_space allowed live was_deleted
        fits appended
        (subst (λ x. delete_credential_row t space_id credential_id expected ≡ ok x)
          (ap (λ pair. pair.0) (ok_injective h8)) removed)
    where
      purged :
          (credential : Credential) (t : Store)
          → lookup credential_id store.credentials ≡ some credential
          → not (str_eq credential.space_id space_id) ≡ false
          → authorize principal (resource_for_metadata credential_id credential) purge_credential
            ≡ ok tt
          → verify_authoritative_purge_session store principal env.operation_time ≡ ok tt
          → not (is_deleted credential) ≡ false
          → not (credential.version == expected) ≡ false
          → append_change env store principal write "credential.purge" credential_id credential
              env.operation_time
            ≡ ok t
          → delete_credential_row t space_id credential_id expected ≡ ok s
          → Purged env store s principal space_id credential_id expected write
      purged credential t held in_space allowed live was_deleted fits appended removed =
          let (human, is_human, no_agent, session) = authoritative_lem live in
          let (event, names, at_t) = append_change_lem t credential appended in
          let row = delete_row_lem t removed in
          let done : s ≡ record store {
            audit = event ∷ store.audit;
            credentials = delete credential_id store.credentials;
          } =
            row
            ∙ ap {A = Store} (λ x. record x { credentials = delete credential_id x.credentials })
                at_t in
          record {
            human = human;
            credential = credential;
            event = event;
            is_human = is_human;
            no_agent = no_agent;
            live = session;
            held = held;
            in_space = (str_eq_iff credential.space_id space_id).0 (negation_fails _ in_space);
            was_deleted = negation_fails _ was_deleted;
            version_fits = ground arith;
            allowed = allowed;
            gone = λ other.
                ap (λ x. lookup other x.credentials) done
                ∙ lookup-delete credential_id other store.credentials;
            audit = ap (λ x. x.audit) done;
            of_credential = names;
            others = (ap (λ x. x.identity) done, ap (λ x. x.idempotency_records) done);
          }

-- A credential that was purged stood in the space, soft-deleted and with the expected version; the
-- principal was an authorized human and no agent, whose own session the database has as alive at
-- that time, neither revoked nor expired, with a second factor that is recent, of a user who is
-- not deleted and is System Owner; no other credential is gone, one event of the credential was
-- appended to the audit log, and users, sessions and idempotency records are as they were.
pub purge-Purged :
    (prim : Primitives) (env : Env) (store s : Store) (principal : Principal)
    (space_id credential_id : String) (expected : ℕ) (write : WriteContext)
    → purge prim env store principal space_id credential_id expected write ≡ (s, ok tt)
    → Purged env store s principal space_id credential_id expected write
unfolding purge
purge-Purged prim env store s principal space_id credential_id expected write h =
    let (valid, allowed, done) =
      guarded_change_ok prim env store s principal write "credential.purge" credential_id
        (purge_tx env store principal space_id credential_id expected write)
        (purge_failure_time env store principal space_id credential_id) _ h in
    purge_tx-Purged env store s principal space_id credential_id expected write done
