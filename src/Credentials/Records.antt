-- ===== src/Credentials/Records.antt =====
-- What an agent's deletion is recorded as.
use opswarden.Outcomes.{ok, required, bind_ok, unless_ok, ok_injective}
use opswarden.Prelude.{
  ℕ, ◌+◌, ◌==◌, ◌≡◌, sym, subst, ◌∙◌, ap, not, String, arith, ◌∷◌, some, Time, lookup,
  lookup-insert, str_eq_iff,
}
use opswarden.Authorization.{AgentPrincipal}
use opswarden.Credentials.Tables.{
  not_found, version_conflict, audit_unavailable, internal, Principal, WriteContext, Credential,
  IdempotencyRow, Store, is_deleted, set_deleted_at,
}
use opswarden.Credentials.Guards.{Env, append_event}
use opswarden.Credentials.Idempotency.{Primitives, idempotency_lifetime, save_idempotency}
use opswarden.Credentials.Lifecycle.{append_change, delete_from}

-- What an answered deletion is recorded as.
abbrev pub delete_record :
    Primitives → Time → AgentPrincipal → WriteContext → String → ℕ → IdempotencyRow
delete_record prim now agent write credential_id expected = record {
  agent_id = agent.agent_id;
  endpoint = ("credential.delete", credential_id);
  key_hash = prim.key_hash write.idempotency_key;
  request_hash = prim.delete_fingerprint credential_id expected;
  resource_id = credential_id;
  version = expected;
  status = 204;
  expires_at = now + idempotency_lifetime;
}

module _ (prim : Primitives) (env : Env) (principal : Principal) (agent : AgentPrincipal)
    (credential_id : String) (expected : ℕ) (write : WriteContext) where
  set_deleted_at_lem :
      (store s : Store) (credential : Credential)
      → lookup credential_id store.credentials ≡ some credential
      → set_deleted_at store credential_id expected (some env.now) ≡ ok s
      → (s.idempotency_records ≡ store.idempotency_records)
        × (lookup credential_id s.credentials
            ≡ some (record credential { deleted_at = some env.now }))
  unfolding set_deleted_at
  set_deleted_at_lem store s credential held h =
      let put =
        lookup-insert credential_id credential_id (record credential { deleted_at = some env.now })
          store.credentials in
      (ground arith, ground (arith, put, str_eq_iff credential_id credential_id))

  append_lem :
      (s t : Store) (credential : Credential)
      → append_change env s principal write "credential.delete" credential_id credential env.now
        ≡ ok t
      → (t.idempotency_records ≡ s.idempotency_records) × (t.credentials ≡ s.credentials)
  unfolding append_change append_event
  append_lem s t credential h =
      let (id, e, f) = bind_ok (required audit_unavailable env.drawn_event_id) _ t h in
      let (appends, g) = unless_ok (not env.appends) audit_unavailable _ t f in
      (
        ap (λ x. x.idempotency_records) (sym (ok_injective g)),
        ap (λ x. x.credentials) (sym (ok_injective g)),
      )

  save_lem :
      (t u : Store)
      → principal.agent ≡ some agent
      → save_idempotency prim env.draws_record_id t principal.agent write
          ("credential.delete", credential_id)
          (prim.delete_fingerprint credential_id expected)
          credential_id
          expected
          204
          env.now
        ≡ ok u
      → (u.idempotency_records
          ≡ delete_record prim env.now agent write credential_id expected ∷ t.idempotency_records)
        × (u.credentials ≡ t.credentials)
  unfolding save_idempotency
  save_lem t u is_agent h =
      let (draws, g) =
        unless_ok (not env.draws_record_id) internal _ u (rw (save_idempotency, is_agent) at h) in
      (
        ap (λ x. x.idempotency_records) (sym (ok_injective g)),
        ap (λ x. x.credentials) (sym (ok_injective g)),
      )

  pub delete_from_lem :
      (store s : Store) (credential : Credential)
      → principal.agent ≡ some agent
      → lookup credential_id store.credentials ≡ some credential
      → delete_from prim env store principal credential_id expected write credential ≡ ok (s, tt)
      → (s.idempotency_records
          ≡ delete_record prim env.now agent write credential_id expected
            ∷ store.idempotency_records)
        × (lookup credential_id s.credentials
            ≡ some (record credential { deleted_at = some env.now }))
  unfolding delete_from
  delete_from_lem store s credential is_agent held h =
      let (there, h1) = unless_ok (is_deleted credential) not_found _ (s, tt) h in
      let (fits, h2) =
        unless_ok (not (credential.version == expected)) version_conflict _ (s, tt) h1 in
      let (a, e, h3) =
        bind_ok (set_deleted_at store credential_id expected (some env.now)) _ (s, tt) h2 in
      let (b, f, h4) =
        bind_ok
          (append_change env a principal write "credential.delete" credential_id credential env.now)
          _ (s, tt) h3 in
      let (c, g, h5) =
        bind_ok
          (save_idempotency prim env.draws_record_id b principal.agent write
            ("credential.delete", credential_id) (prim.delete_fingerprint credential_id expected)
            credential_id expected 204 env.now)
          _ (s, tt) h4 in
      let done : c ≡ s = ap (λ pair. pair.0) (ok_injective h5) in
      let (records, found) = set_deleted_at_lem store a credential held e in
      let (records', same) = append_lem a b credential f in
      let (records'', same') = save_lem b c is_agent g in
      subst
        (λ x.
          (x.idempotency_records
            ≡ delete_record prim env.now agent write credential_id expected
              ∷ store.idempotency_records)
          × (lookup credential_id x.credentials
              ≡ some (record credential { deleted_at = some env.now })))
        done
        (
          records''
              ∙ ap (λ rows. delete_record prim env.now agent write credential_id expected ∷ rows)
                  (records' ∙ records),
          ap (lookup credential_id) (same' ∙ same) ∙ found,
        )
