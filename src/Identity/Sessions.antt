-- ===== src/Identity/Sessions.antt =====
-- internal/identity/service.go: second factors and sessions.
use opswarden.Outcomes.{ok, err, required, unless, with_tx, ◌>>=◌}
use opswarden.Prelude.{
  ℕ, ◌+◌, Bool, false, not, String, [], ◌∷◌, Option, none, some, if◌then◌else◌, List, leb, before,
  lookup, insert, str_eq, Time, Duration, codes,
}
use opswarden.Identity.{SessionPrincipal}
use opswarden.Authorization.{is_empty}
use opswarden.Cryptobox.Bytes.{Bytes}
use opswarden.Cryptobox.Codec.{unmarshal_envelope}
use opswarden.Cryptobox.Box as Box
use opswarden.Identity.Totp.{
  hash_name, fingerprint, Primitives, is_totp_code, decode_totp_secret, matching_totp_counter,
}
use opswarden.Identity.Tables.{
  invalid_totp, totp_replay, invalid_session, audit_unavailable, random_failed, storage_failed,
  secret_failed, Result, SessionRow, Event, Store, consume_totp_counter, principal_from_session,
  live_session, update_sessions, revoked_by, revoke_user_sessions, user_not_found, SecondFactor,
}

-- 8 * time.Hour
abbrev pub session_idle_lifetime : Duration
session_idle_lifetime = 28800000000000

-- 24 * time.Hour
abbrev pub session_absolute_lifetime : Duration
session_absolute_lifetime = 86400000000000

abbrev pub login_totp_purpose : Bytes
login_totp_purpose = codes "login-totp"

pub record AuthenticationContext : Type 0 where
  pub request_id : String
  pub source_ip : String
  pub user_agent : String

-- The part of a Service that does not change, and whether it is audited.
pub record Config : Type 0 where
  pub prim : Primitives
  pub master_key : Bytes
  pub is_audited : Bool

-- What a call finds: the time, one read of the random source for its event, and whether appending
-- to the audit log succeeds.
pub record Env : Type 0 where
  pub now : Time
  pub drawn_event_id : Option String
  pub appends : Bool

-- The envelope, its secret and the secret's decoding, of which each may fail.
unfoldable pub totp_secret : Config → String → Bytes → Result Bytes
unfolding decode_totp_secret
totp_secret config user_id encoded_secret =
    elim (unmarshal_envelope config.prim.aead.sizes encoded_secret) [
      | none ↦ err secret_failed
      | some envelope ↦
          elim (Box.decrypt_identity config.prim.aead config.master_key
            (record { user_id = codes user_id; purpose = login_totp_purpose }) envelope) [
              | Box.err e ↦ err secret_failed
              | Box.ok text ↦ elim (decode_totp_secret config.prim text) [
                | none ↦ err secret_failed
                | some secret ↦ ok secret
              ]
            ]
    ]

-- lastCounter.Valid && counter <= lastCounter.Int64
abbrev pub is_replay : Option ℕ → ℕ → Bool
is_replay none counter = false
is_replay (some last) counter = leb counter last

unfoldable pub consume_matched : Store → String → SecondFactor → Option ℕ → Result Store
unfolding consume_totp_counter
consume_matched store user_id factor none = err invalid_totp
consume_matched store user_id factor (some counter) =
    unless (is_replay factor.last_used_counter counter) totp_replay
      (consume_totp_counter store user_id counter)

unfoldable pub verify_and_consume_totp :
    Config → Store → String → SecondFactor → List ℕ → Time → Result Store
unfolding totp_secret consume_matched matching_totp_counter
verify_and_consume_totp config store user_id factor code now = do
  secret ← totp_secret config user_id factor.encrypted_secret
  consume_matched store user_id factor (matching_totp_counter config.prim secret code now)

-- The idle expiry that a use of the session sets, never after its absolute one.
abbrev pub next_idle : Time → SessionRow → Time
next_idle now session =
    if before session.expires_at (now + session_idle_lifetime)
    then session.expires_at
    else now + session_idle_lifetime

abbrev pub token_hash : Config → String → String
token_hash config raw_token = hash_name config.prim (codes raw_token)

-- UPDATE sessions SET idle_expires_at = ? WHERE id = ?
unfoldable pub refresh_idle : Store → SessionRow → Time → Store
unfolding update_sessions
refresh_idle store session now = record store {
  sessions =
      update_sessions (λ row. str_eq row.id session.id)
        (λ row. record row { idle_expires_at = next_idle now session }) store.sessions;
}

unfoldable pub resolve_session_tx :
    Config → Store → String → Time → Result (Store × SessionPrincipal)
unfolding live_session refresh_idle principal_from_session
resolve_session_tx config store raw_token now = do
  session ← live_session store (token_hash config raw_token) now
  ok (refresh_idle store session now, principal_from_session session)

unfoldable pub resolve_session : Config → Env → Store → String → Store × Result SessionPrincipal
unfolding resolve_session_tx
resolve_session config env store raw_token =
    if is_empty raw_token
    then (store, err invalid_session)
    else with_tx store (resolve_session_tx config store raw_token env.now)

-- AppendTx of an event that this package fills.
unfoldable pub append_event : Env → Store → Event → Result Store
append_event env store event =
    if env.appends then ok (record store { audit = event ∷ store.audit }) else err audit_unavailable

unfoldable pub session_event :
    Config → Env → AuthenticationContext → String → String → String → String → Event
session_event config env authentication raw_token id action user_id = record {
  id = id;
  request_id = authentication.request_id;
  created_at = env.now;
  actor_id = user_id;
  fingerprint = fingerprint config.prim (codes raw_token);
  action = action;
  resource_id = user_id;
  source_ip = authentication.source_ip;
  user_agent = authentication.user_agent;
  change_fields = [];
}

-- UPDATE sessions SET recent_totp_at = ?, idle_expires_at = ? WHERE id = ?
unfoldable pub record_recent_totp : Store → SessionRow → Time → Store
unfolding update_sessions
record_recent_totp store session now = record store {
  sessions =
      update_sessions (λ row. str_eq row.id session.id)
        (λ row. record row { recent_totp_at = some now; idle_expires_at = next_idle now session })
        store.sessions;
}

-- SELECT encrypted_secret, last_used_counter FROM user_totp WHERE user_id = ?
unfoldable pub second_factor_of : Store → String → Result SecondFactor
unfolding required
second_factor_of store user_id = required storage_failed (lookup user_id store.user_totp)

-- The closure `beforeCommit`: the event to append, if one is.
unfoldable pub append_if : Env → Store → Option Event → Result Store
unfolding append_event
append_if env store none = ok store
append_if env store (some event) = append_event env store event

unfoldable pub verify_recent_totp_tx :
    Config
    → Env
    → Store
    → String
    → List ℕ
    → (String → Option Event)
    → Result (Store × SessionPrincipal)
unfolding live_session verify_and_consume_totp record_recent_totp principal_from_session append_if
    second_factor_of
verify_recent_totp_tx config env store raw_token code event_of = do
  session ← live_session store (token_hash config raw_token) env.now
  factor ← second_factor_of store session.user_id
  s ← verify_and_consume_totp config store session.user_id factor code env.now
  let t = record_recent_totp s session env.now
  u ← append_if env t (event_of session.user_id)
  ok (u, principal_from_session (record session { recent_totp_at = some env.now }))

-- VerifyRecentTOTP, without an event
unfoldable pub verify_recent_totp :
    Config → Env → Store → String → List ℕ → Store × Result SessionPrincipal
unfolding is_totp_code verify_recent_totp_tx
verify_recent_totp config env store raw_token code =
    if is_empty raw_token
    then (store, err invalid_session)
    else if not (is_totp_code code)
    then (store, err invalid_totp)
    else with_tx store (verify_recent_totp_tx config env store raw_token code (λ user_id. none))

unfoldable pub verify_recent_totp_audited :
    Config → Env → Store → String → List ℕ → AuthenticationContext → Store × Result SessionPrincipal
unfolding is_totp_code verify_recent_totp_tx session_event
verify_recent_totp_audited config env store raw_token code authentication =
    if is_empty raw_token
    then (store, err invalid_session)
    else if not (is_totp_code code)
    then (store, err invalid_totp)
    else if not config.is_audited
    then (store, err audit_unavailable)
    else elim env.drawn_event_id [
      | none ↦ (store, err random_failed)
      | some id ↦ with_tx store (
          verify_recent_totp_tx config env store raw_token code (λ user_id.
            some
              (session_event config env authentication raw_token id "auth.totp.reverify" user_id)))
    ]

-- UPDATE sessions SET revoked_at = COALESCE(revoked_at, ?) WHERE token_hash = ?
unfoldable pub revoke_session : Store → String → Time → Store
revoke_session store hash now = record store {
  sessions = elim (lookup hash store.sessions) [
    | none ↦ store.sessions
    | some session ↦ insert hash (revoked_by now session) store.sessions
  ];
}

unfoldable pub logout : Config → Env → Store → String → Store × Result (Unit {0})
unfolding revoke_session
logout config env store raw_token =
    if is_empty raw_token
    then (store, ok tt)
    else (revoke_session store (token_hash config raw_token) env.now, ok tt)

unfoldable pub logout_audited_tx :
    Config → Env → Store → String → AuthenticationContext → String → Result (Store × Unit {0})
unfolding live_session revoke_session append_event session_event
logout_audited_tx config env store raw_token authentication id = do
  session ← live_session store (token_hash config raw_token) env.now
  t ←
      append_event env (revoke_session store (token_hash config raw_token) env.now)
        (session_event config env authentication raw_token id "auth.logout" session.user_id)
  ok (t, tt)

unfoldable pub logout_audited :
    Config → Env → Store → String → AuthenticationContext → Store × Result (Unit {0})
unfolding logout_audited_tx
logout_audited config env store raw_token authentication =
    if is_empty raw_token
    then (store, err invalid_session)
    else if not config.is_audited
    then (store, err audit_unavailable)
    else elim env.drawn_event_id [
      | none ↦ (store, err random_failed)
      | some id ↦ with_tx store (logout_audited_tx config env store raw_token authentication id)
    ]

-- RevokeUserSessions
unfoldable pub revoke_all_sessions : Env → Store → String → Store × Result (Unit {0})
unfolding revoke_user_sessions
revoke_all_sessions env store user_id =
    if is_empty user_id
    then (store, err user_not_found)
    else (revoke_user_sessions store user_id env.now, ok tt)
