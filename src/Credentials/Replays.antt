-- ===== src/Credentials/Replays.antt =====
-- An agent's deletion that is sent again.
use opswarden.Outcomes.{ok, required, bind_ok, ok_injective, required_ok}
use opswarden.Prelude.{
  ℕ, ◌+◌, ◌==◌, ◌≡◌, refl, sym, subst, ◌∙◌, ap, true, false, String, List, arith, ◌∷◌, none, some,
  if◌then◌else◌, Time, lookup, str_eq, str_eq_iff, before, length, codes,
}
use opswarden.Authorization.{AgentPrincipal, delete_credential, is_empty}
use opswarden.Credentials.Tables.{
  not_found, version_conflict, Principal, WriteContext, Credential, IdempotencyRow, Store,
  metadata_by_id, resource_for_metadata,
}
use opswarden.Credentials.Guards.{Env, authorize}
use opswarden.Credentials.Idempotency.{
  Primitives, idempotency_lifetime, find_record, lookup_idempotency, check_idempotency, bad_record,
}
use opswarden.Credentials.Lifecycle.{delete_from, delete_tx, delete_at, unless_replayed}
use opswarden.Credentials.Guarded.{guarded_change_ok, guarded_change_done}
use opswarden.Credentials.Records.{delete_record, delete_from_lem}

same_text : (text : String) → str_eq text text ≡ true
same_text text = (str_eq_iff text text).1 refl

find_first :
    (row : IdempotencyRow) (rows : List IdempotencyRow)
    → find_record row.agent_id row.endpoint row.key_hash (row ∷ rows) ≡ some row
unfolding find_record
find_first row rows =
    rw
      (
        same_text row.agent_id,
        same_text row.endpoint.0,
        same_text row.endpoint.1,
        same_text row.key_hash,
      )
      refl

good_record :
    (row : IdempotencyRow)
    → length (codes row.request_hash) ≡ 64
    → is_empty row.resource_id ≡ false
    → (row.version == 0) ≡ false
    → row.status ≡ 204
    → bad_record row ≡ false
good_record row hash filled positive status = rw (hash, filled, positive, status) refl

lookup_found :
    (store : Store) (agent_id : String) (endpoint : String × String) (key_hash : String)
    (now : Time) (row : IdempotencyRow)
    → find_record agent_id endpoint key_hash store.idempotency_records ≡ some row
    → before now row.expires_at ≡ true
    → bad_record row ≡ false
    → lookup_idempotency store agent_id endpoint key_hash now ≡ ok (store, some row)
unfolding lookup_idempotency
lookup_found store agent_id endpoint key_hash now row found in_time good =
    rw (lookup_idempotency, found, in_time, good) refl

module _ (prim : Primitives) (env : Env) (principal : Principal) (agent : AgentPrincipal)
    (credential_id : String) (expected : ℕ) (write : WriteContext) where
  -- The record is found, and answers.
  replayed_check :
      (s : Store) (rows : List IdempotencyRow) (now : Time)
      → principal.agent ≡ some agent
      → s.idempotency_records ≡ delete_record prim env.now agent write credential_id expected ∷ rows
      → length (codes (prim.delete_fingerprint credential_id expected)) ≡ 64
      → is_empty credential_id ≡ false
      → (expected == 0) ≡ false
      → before now (env.now + idempotency_lifetime) ≡ true
      → check_idempotency prim s principal.agent write
          ("credential.delete", credential_id)
          (prim.delete_fingerprint credential_id expected)
          204
          now
        ≡ ok (s, some (delete_record prim env.now agent write credential_id expected))
  unfolding check_idempotency lookup_idempotency find_record
  replayed_check s rows now is_agent records hash filled positive in_time =
      let row = delete_record prim env.now agent write credential_id expected in
      let found =
        ap
          (find_record agent.agent_id ("credential.delete", credential_id)
            (prim.key_hash write.idempotency_key))
          records
        ∙ find_first row rows in
      rw (check_idempotency, is_agent)
        (answers s now (
          lookup_found s agent.agent_id ("credential.delete", credential_id)
            (prim.key_hash write.idempotency_key) now row found in_time
            (good_record row hash filled positive refl)))
    where
      answers :
          (s : Store) (now : Time)
          → lookup_idempotency s agent.agent_id
              ("credential.delete", credential_id)
              (prim.key_hash write.idempotency_key)
              now
            ≡ ok (s, some (delete_record prim env.now agent write credential_id expected))
          → check_idempotency prim s
              (some agent)
              write
              ("credential.delete", credential_id)
              (prim.delete_fingerprint credential_id expected)
              204
              now
            ≡ ok (s, some (delete_record prim env.now agent write credential_id expected))
      answers s now h =
          rw (check_idempotency, h, same_text (prim.delete_fingerprint credential_id expected)) refl

  unrecorded :
      (store : Store) (now : Time)
      → principal.agent ≡ some agent
      → find_record agent.agent_id
          ("credential.delete", credential_id)
          (prim.key_hash write.idempotency_key)
          store.idempotency_records
        ≡ none
      → check_idempotency prim store principal.agent write
          ("credential.delete", credential_id)
          (prim.delete_fingerprint credential_id expected)
          204
          now
        ≡ ok (store, none)
  unfolding check_idempotency lookup_idempotency
  unrecorded store now is_agent none_there =
      rw (check_idempotency, is_agent, lookup_idempotency, none_there) refl

  -- The first deletion, in its transaction.
  delete_tx_lem :
      (store s : Store)
      → principal.agent ≡ some agent
      → find_record agent.agent_id
          ("credential.delete", credential_id)
          (prim.key_hash write.idempotency_key)
          store.idempotency_records
        ≡ none
      → delete_tx prim env store principal credential_id expected write ≡ ok (s, tt)
      → (credential : Credential) × (authorize principal
            (resource_for_metadata credential_id credential)
            delete_credential
          ≡ ok tt)
        × (s.idempotency_records
            ≡ delete_record prim env.now agent write credential_id expected
              ∷ store.idempotency_records)
        × (lookup credential_id s.credentials
            ≡ some (record credential { deleted_at = some env.now }))
  unfolding delete_tx metadata_by_id
  delete_tx_lem store s is_agent none_there h =
      let (credential, e, h1) =
        bind_ok (required not_found (lookup credential_id store.credentials)) _ (s, tt) h in
      let (u, allowed, h2) =
        bind_ok
          (authorize principal (resource_for_metadata credential_id credential) delete_credential) _
          (s, tt) h1 in
      let (found, f, h3) =
        bind_ok
          (check_idempotency prim store principal.agent write ("credential.delete", credential_id)
            (prim.delete_fingerprint credential_id expected) 204 env.now)
          _ (s, tt) h2 in
      let fresh : found ≡ (store, none) =
        ok_injective (sym f ∙ unrecorded store env.now is_agent none_there) in
      let (records, there) =
        delete_from_lem prim env principal agent credential_id expected write store s credential
          is_agent (required_ok not_found _ credential e)
          (subst
            (λ pair.
              unless_replayed pair
                (delete_from prim env pair.0 principal credential_id expected write credential)
              ≡ ok (s, tt))
            fresh h3) in
      (credential, allowed, records, there)

  -- The second one.
  replayed_tx :
      (env' : Env) (s : Store) (credential : Credential)
      → authorize principal (resource_for_metadata credential_id credential) delete_credential
        ≡ ok tt
      → lookup credential_id s.credentials ≡ some (record credential { deleted_at = some env.now })
      → check_idempotency prim s principal.agent write
          ("credential.delete", credential_id)
          (prim.delete_fingerprint credential_id expected)
          204
          env'.now
        ≡ ok (s, some (delete_record prim env.now agent write credential_id expected))
      → delete_tx prim env' s principal credential_id expected write ≡ ok (s, tt)
  unfolding delete_tx metadata_by_id required resource_for_metadata
  replayed_tx env' s credential allowed there found = rw (delete_tx, there, allowed, found) refl

guards_passed :
    (credential_id : String) (expected : ℕ)
    → (if expected == 0
        then some version_conflict
        else if is_empty credential_id
        then some not_found
        else none)
      ≡ none
    → ((expected == 0) ≡ false) × (is_empty credential_id ≡ false)
guards_passed credential_id expected h = (ground arith, ground arith)

-- An agent's deletion that succeeded, with a key that was not recorded and a fingerprint of 64
-- characters, succeeds again within 24 hours of its time with the same request, and then changes
-- nothing.
pub delete_at_once :
    (prim : Primitives) (env again : Env) (store s : Store) (principal : Principal)
    (agent : AgentPrincipal) (credential_id : String) (expected : ℕ) (write : WriteContext)
    → principal.agent ≡ some agent
    → find_record agent.agent_id
        ("credential.delete", credential_id)
        (prim.key_hash write.idempotency_key)
        store.idempotency_records
      ≡ none
    → length (codes (prim.delete_fingerprint credential_id expected)) ≡ 64
    → delete_at prim env store principal credential_id expected write ≡ (s, ok tt)
    → before again.now (env.now + idempotency_lifetime) ≡ true
    → delete_at prim again s principal credential_id expected write ≡ (s, ok tt)
unfolding delete_at
delete_at_once prim env again store s principal agent credential_id expected write is_agent
      none_there hash h in_time =
    let (guards, valid, done) =
      guarded_change_ok prim env store s principal write "credential.delete" credential_id
        (delete_tx prim env store principal credential_id expected write) env.now _ h in
    let (positive, filled) = guards_passed credential_id expected guards in
    let (credential, allowed, records, there) =
      delete_tx_lem prim env principal agent credential_id expected write store s is_agent
        none_there done in
    guarded_change_done prim again s s principal write "credential.delete" credential_id
      (delete_tx prim again s principal credential_id expected write) again.now _ guards valid
      (replayed_tx prim env principal agent credential_id expected write again s credential allowed
        there
        (replayed_check prim env principal agent credential_id expected write s
          store.idempotency_records again.now is_agent records hash filled positive in_time))
