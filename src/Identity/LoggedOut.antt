-- ===== src/Identity/LoggedOut.antt =====
-- What it takes to log out, and what a logout leaves behind.
use opswarden.Outcomes.{ok, err, with_tx, bind_ok, ok_injective}
use opswarden.Prelude.{
  ◌≡◌, refl, sym, subst, ap, ◌∙◌, inl, inr, ◌⊎◌, Bool, Bool-cases, true, false, String, List, ◌∷◌,
  take, arith, Option-cases, none, some, Dict, lookup, insert, lookup-insert, str_eq_iff, Time,
  codes,
}
use opswarden.Authorization.{is_empty}
use opswarden.Identity.Tables.{
  Store, SessionRow, Event, Result, is_expired, live_session, revoked_by, session_revoked,
  random_failed, audit_unavailable, invalid_session,
}
use opswarden.Identity.Sessions.{
  Config, Env, AuthenticationContext, token_hash, revoke_session, session_event, append_event,
  logout, logout_audited, logout_audited_tx, resolve_session,
}
use opswarden.Identity.Login.{Service}
use opswarden.Identity.Bootstrap.{Address}
use opswarden.Identity.Lifetimes.{live_session_found}
use opswarden.Identity.Requests.{Request, handle_all}
use opswarden.Identity.Revocation.{revoked_refused, revoked_there}

-- An audited logout that succeeded: the session of the token was alive, it is revoked now, and one
-- event of its user names the token by the first eight bytes of its hash.
pub record LoggedOut (config : Config) (env : Env) (store s : Store) (raw_token : String)
    (authentication : AuthenticationContext) : Type 0 where
  pub session : SessionRow
  pub event : Event
  pub is_filled : is_empty raw_token ≡ false
  pub is_audited : config.is_audited ≡ true
  pub found : lookup (token_hash config raw_token) store.sessions ≡ some session
  pub was_not_revoked : session.revoked_at ≡ none
  pub was_not_expired : is_expired session env.now ≡ false
  pub left : s ≡ record store {
    sessions =
        insert
          (token_hash config raw_token)
          (record session { revoked_at = some env.now })
          store.sessions;
    audit = event ∷ store.audit;
  }
  pub drawn : env.drawn_event_id ≡ some event.id
  pub is_taken : env.appends ≡ true
  pub action : event.action ≡ "auth.logout"
  pub actor : event.actor_id ≡ session.user_id
  pub fingerprint :
      event.fingerprint ≡ config.prim.hex (take 8 (config.prim.sha256 (codes raw_token)))
  pub request : event.request_id ≡ authentication.request_id
  pub at : event.created_at ≡ env.now

unfoldable pub LoggedOutIf :
    Config → Env → Store → String → AuthenticationContext → Store × Result (Unit {0}) → Type 0
LoggedOutIf config env store raw_token authentication (s, ok u) =
    LoggedOut config env store s raw_token authentication
LoggedOutIf config env store raw_token authentication (s, err e) = s ≡ store

lookup-insert_same :
    (hash : String) (session : SessionRow) (sessions : Dict SessionRow)
    → lookup hash (insert hash session sessions) ≡ some session
lookup-insert_same hash session sessions =
    rw (lookup-insert hash hash session sessions, (str_eq_iff hash hash).1 refl) refl

append_event_ok :
    (env : Env) (store t : Store) (event : Event)
    → append_event env store event ≡ ok t
    → (env.appends ≡ true) × (t ≡ record store { audit = event ∷ store.audit })
unfolding append_event
append_event_ok env store t event h = elim (Bool-cases env.appends) [
  | inl e ↦ (e, sym (ok_injective (rw e at h)))
  | inr e ↦ absurd (ground arith)
]

revoked_by_lem :
    (now : Time) (session : SessionRow)
    → session.revoked_at ≡ none
    → revoked_by now session ≡ record session { revoked_at = some now }
revoked_by_lem now session h = rw h refl

module _ (config : Config) (env : Env) (store : Store) (raw_token : String) where
  revoke_session_lem :
      (session : SessionRow)
      → lookup (token_hash config raw_token) store.sessions ≡ some session
      → revoke_session store (token_hash config raw_token) env.now ≡ record store {
        sessions = insert (token_hash config raw_token) (revoked_by env.now session) store.sessions;
      }
  unfolding revoke_session
  revoke_session_lem session found = rw found refl

  revoked_store :
      (session : SessionRow)
      → lookup (token_hash config raw_token) store.sessions ≡ some session
      → session.revoked_at ≡ none
      → (audit : List Event)
      → record (revoke_session store (token_hash config raw_token) env.now) { audit = audit }
        ≡ record store {
          sessions =
              insert
                (token_hash config raw_token)
                (record session { revoked_at = some env.now })
                store.sessions;
          audit = audit;
        }
  revoked_store session found unrevoked audit =
      rw (revoke_session_lem session found, revoked_by_lem env.now session unrevoked) refl

  -- The session of the token is there, and revoked.
  revoke_session-lookup :
      (session : SessionRow)
      → lookup (token_hash config raw_token) store.sessions ≡ some session
      → lookup
          (token_hash config raw_token)
          (revoke_session store (token_hash config raw_token) env.now).sessions
        ≡ some (revoked_by env.now session)
  revoke_session-lookup session found =
      rw (revoke_session_lem session found) (
        lookup-insert_same (token_hash config raw_token) (revoked_by env.now session)
          store.sessions)

  module _ (authentication : AuthenticationContext) where
    logout_audited_tx_lem :
        (id : String) (s : Store)
        → is_empty raw_token ≡ false
        → config.is_audited ≡ true
        → env.drawn_event_id ≡ some id
        → logout_audited_tx config env store raw_token authentication id ≡ ok (s, tt)
        → LoggedOut config env store s raw_token authentication
    unfolding logout_audited_tx session_event
    logout_audited_tx_lem id s filled audited drawn h =
        let hash = token_hash config raw_token in
        let (session, live, f) = bind_ok (live_session store hash env.now) _ (s, tt) h in
        let event =
          session_event config env authentication raw_token id "auth.logout" session.user_id in
        let (t, appended, g) =
          bind_ok (append_event env (revoke_session store hash env.now) event) _ (s, tt) f in
        let (found, unrevoked, fresh) = live_session_found store hash env.now session live in
        let (taken, written) =
          append_event_ok env (revoke_session store hash env.now) t event appended in
        record {
          session = session;
          event = event;
          is_filled = filled;
          is_audited = audited;
          found = found;
          was_not_revoked = unrevoked;
          was_not_expired = fresh;
          left =
              sym (ap (λ pair. pair.0) (ok_injective g))
              ∙ written
              ∙ revoked_store session found unrevoked (event ∷ store.audit);
          drawn = drawn;
          is_taken = taken;
          action = refl;
          actor = refl;
          fingerprint = refl;
          request = refl;
          at = refl;
        }

  -- An audited logout that fails leaves the store as it was; one that succeeds had a token that is
  -- not empty, of a session that was in the table, neither revoked nor past its expiries, and
  -- changes two things: the session is revoked at the time of the call, and one event is in front
  -- of the audit log, under the identifier that was drawn, with the session's user, the request,
  -- the time and, as its fingerprint, the first eight bytes of the token's hash.
  pub logout_audited-LoggedOut :
      (authentication : AuthenticationContext)
      → LoggedOutIf config env store raw_token authentication
          (logout_audited config env store raw_token authentication)
  unfolding logout_audited LoggedOutIf
  logout_audited-LoggedOut authentication = elim (Bool-cases (is_empty raw_token)) [
    | inl e ↦ from (store, err invalid_session) (rw e refl) refl
    | inr e ↦ elim (Bool-cases config.is_audited) [
      | inr f ↦ from (store, err audit_unavailable) (rw (e, f) refl) refl
      | inl f ↦ elim (Option-cases env.drawn_event_id) [
        | inl g ↦ from (store, err random_failed) (rw (e, f, g) refl) refl
        | inr (id, g) ↦
            let r = logout_audited_tx config env store raw_token authentication id in
            from (with_tx store r) (rw (e, f, g) refl) (done id e f g r refl)
      ]
    ]
  ]
    where
      from :
          (r : Store × Result (Unit {0}))
          → logout_audited config env store raw_token authentication ≡ r
          → LoggedOutIf config env store raw_token authentication r
          → LoggedOutIf config env store raw_token authentication
              (logout_audited config env store raw_token authentication)
      from r e h = subst (LoggedOutIf config env store raw_token authentication) (sym e) h

      done :
          (id : String)
          → is_empty raw_token ≡ false
          → config.is_audited ≡ true
          → env.drawn_event_id ≡ some id
          → (r : Result (Store × Unit {0}))
          → logout_audited_tx config env store raw_token authentication id ≡ r
          → LoggedOutIf config env store raw_token authentication (with_tx store r)
      done id e f g (err x) h = refl
      done id e f g (ok (s, u)) h = logout_audited_tx_lem authentication id s e f g h

-- What a logout that succeeded makes of the session of its token, if there is one.
Ended : Config → String → Store → Type 0
Ended config raw_token s =
    (next : SessionRow) × (lookup (token_hash config raw_token) s.sessions ≡ some next)
    × ((at : Time) × (next.revoked_at ≡ some at))

module _ (config : Config) (env : Env) (store s : Store) (raw_token : String)
    (row : SessionRow) where
  logout-Ended :
      lookup (token_hash config raw_token) store.sessions ≡ some row
      → is_empty raw_token ≡ false
      → logout config env store raw_token ≡ (s, ok tt)
      → Ended config raw_token s
  unfolding Ended logout
  logout-Ended found filled h =
      subst (Ended config raw_token) (ap (λ pair. pair.0) (rw filled at h)) (
        revoked_by env.now row,
        revoke_session-lookup config env store raw_token row found,
        revoked_there env.now row,
      )

  logout_audited-Ended :
      (authentication : AuthenticationContext)
      → logout_audited config env store raw_token authentication ≡ (s, ok tt)
      → Ended config raw_token s
  unfolding Ended LoggedOutIf
  logout_audited-Ended authentication h =
      let out =
        subst (LoggedOutIf config env store raw_token authentication) h
          (logout_audited-LoggedOut config env store raw_token authentication) in
      let hash = token_hash config raw_token in
      let next = record (out.session) { revoked_at = some env.now } in
      (
        next,
        subst (λ t. lookup hash t.sessions ≡ some next) (sym out.left)
            (lookup-insert_same hash next store.sessions),
        (env.now, refl),
      )

-- A logout of a session that is in the table, audited or not, ends it if it succeeds: whatever
-- calls follow, its token is refused as revoked, and the refusal changes nothing.
pub logout-resolve_session :
    (config : Config) (internal_cidrs : List (Address → Bool)) (service : Service) (s : Store)
    (authentication : AuthenticationContext) (requests : List (Env × Request)) (env env' : Env)
    (raw_token : String) (row : SessionRow)
    → (logout config env service.store raw_token ≡ (s, ok tt))
      ⊎ (logout_audited config env service.store raw_token authentication ≡ (s, ok tt))
    → lookup (token_hash config raw_token) service.store.sessions ≡ some row
    → is_empty raw_token ≡ false
    → let later =
        (handle_all config internal_cidrs (record service { store = s }) requests).store in
      resolve_session config env' later raw_token ≡ (later, err session_revoked)
unfolding Ended
logout-resolve_session config internal_cidrs service s authentication requests env env' raw_token
      row h found filled =
    let ended : Ended config raw_token s = elim h [
      | inl plain ↦ logout-Ended config env service.store s raw_token row found filled plain
      | inr audited ↦
          logout_audited-Ended config env service.store s raw_token row authentication audited
    ] in
    let (next, there, (at, revoked)) = ended in
    revoked_refused config internal_cidrs (record service { store = s }) requests env' raw_token
      next at there revoked filled
