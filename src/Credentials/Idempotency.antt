-- ===== src/Credentials/Idempotency.antt =====
-- internal/credentials/service.go and repository.go: the records by which an agent's repeated write
-- is answered once.
use opswarden.Outcomes.{ok, err, unless, ◌>>=◌}
use opswarden.Prelude.{
  ℕ, ◌+◌, ◌==◌, ◌&&◌, ◌||◌, Bool, not, String, List, [], ◌∷◌, Option, none, some, if◌then◌else◌,
  str_eq, Time, before, ltb, length, codes, Duration,
}
use opswarden.Authorization.{AgentPrincipal, is_empty}
use opswarden.Credentials.Tables.{
  internal, idempotency_conflict, Result, WriteContext, IdempotencyRow, Store,
}

-- 24 * time.Hour
abbrev pub idempotency_lifetime : Duration
idempotency_lifetime = 86400000000000

-- The standard library's hash of a key, the fingerprint of a deletion, and strings.TrimSpace.
pub record Primitives : Type 0 where
  pub key_hash : String → String
  pub delete_fingerprint : String → ℕ → String
  pub trim_space : String → String

-- WHERE agent_id = ? AND endpoint = ? AND key_hash = ?
abbrev pub is_record : String → String × String → String → IdempotencyRow → Bool
is_record agent_id endpoint key_hash row =
    str_eq row.agent_id agent_id
    && ((str_eq row.endpoint.0 endpoint.0 && str_eq row.endpoint.1 endpoint.1)
        && str_eq row.key_hash key_hash)

unfoldable pub find_record :
    String → String × String → String → List IdempotencyRow → Option IdempotencyRow
find_record agent_id endpoint key_hash [] = none
find_record agent_id endpoint key_hash (row ∷ rows) =
    let later = find_record agent_id endpoint key_hash rows in
    if is_record agent_id endpoint key_hash row then some row else later

unfoldable pub delete_records :
    String → String × String → String → List IdempotencyRow → List IdempotencyRow
delete_records agent_id endpoint key_hash [] = []
delete_records agent_id endpoint key_hash (row ∷ rows) =
    let kept = delete_records agent_id endpoint key_hash rows in
    if is_record agent_id endpoint key_hash row then kept else row ∷ kept

abbrev pub bad_record : IdempotencyRow → Bool
bad_record row =
    not (length (codes row.request_hash) == 64)
    || (is_empty row.resource_id
        || ((row.version == 0) || (ltb row.status 200 || ltb 299 row.status)))

-- lookupIdempotency; a record that is past its time is deleted.
unfoldable pub lookup_idempotency :
    Store → String → String × String → String → Time → Result (Store × Option IdempotencyRow)
unfolding find_record delete_records
lookup_idempotency store agent_id endpoint key_hash now =
    elim (find_record agent_id endpoint key_hash store.idempotency_records) [
      | none ↦ ok (store, none)
      | some row ↦
          if not (before now row.expires_at)
          then ok (
            record store {
              idempotency_records =
                  delete_records agent_id endpoint key_hash store.idempotency_records;
            },
            none,
          )
          else if bad_record row
          then err internal
          else ok (store, some row)
    ]

-- checkIdempotency; a record that is found is the answer.
unfoldable pub check_idempotency :
    Primitives
    → Store
    → Option AgentPrincipal
    → WriteContext
    → String × String
    → String
    → ℕ
    → Time
    → Result (Store × Option IdempotencyRow)
unfolding lookup_idempotency
check_idempotency prim store none write endpoint request_hash expected_status now = ok (store, none)
check_idempotency prim store (some agent) write endpoint request_hash expected_status now = do
  found ← lookup_idempotency store agent.agent_id endpoint (prim.key_hash write.idempotency_key) now
  elim found.1 [
    | none ↦ ok found
    | some row ↦
        unless (not (str_eq row.request_hash request_hash)) idempotency_conflict
          (unless (not (row.status == expected_status)) internal (ok found))
  ]

-- saveIdempotency with storeIdempotency; the Boolean is the read of the record's identifier.
unfoldable pub save_idempotency :
    Primitives
    → Bool
    → Store
    → Option AgentPrincipal
    → WriteContext
    → String × String
    → String
    → String
    → ℕ
    → ℕ
    → Time
    → Result Store
save_idempotency prim draws store none write endpoint request_hash resource_id version status now =
    ok store
save_idempotency prim draws store (some agent) write endpoint request_hash resource_id version
      status now =
    unless (not draws) internal (
      ok (record store {
        idempotency_records =
            record {
              agent_id = agent.agent_id;
              endpoint = endpoint;
              key_hash = prim.key_hash write.idempotency_key;
              request_hash = request_hash;
              resource_id = resource_id;
              version = version;
              status = status;
              expires_at = now + idempotency_lifetime;
            }
            ∷ store.idempotency_records;
      }))
