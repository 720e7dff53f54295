-- ===== src/Identity/Lifetimes.antt =====
-- How long a session lives.
use opswarden.Outcomes.{ok, err, with_tx, bind_ok, unless_ok, ok_injective, required_ok, ◌>>=◌}
use opswarden.Prelude.{
  ◌≡◌, refl, sym, subst, ◌∙◌, inl, inr, Bool, Bool-cases, true, false, String, List, arith,
  Option-cases, none, some, lookup, before, Time, ap,
}
use opswarden.Authorization.{is_empty}
use opswarden.Identity.{SessionPrincipal}
use opswarden.Identity.Tables.{
  SessionRow, Store, invalid_session, live_session, query_session, is_revoked, is_expired,
  session_revoked, session_expired, principal_from_session, Result,
}
use opswarden.Identity.Sessions.{
  Config, Env, token_hash, resolve_session, resolve_session_tx, refresh_idle,
}
use opswarden.Identity.Login.{Service}
use opswarden.Identity.Bootstrap.{Address}
use opswarden.Identity.Later.{Continues, SessionsContinue}
use opswarden.Identity.Requests.{Request, handle_all, handle_all-Later}

-- A session that is found alive is in the table, not revoked and not expired.
pub live_session_found :
    (store : Store) (hash : String) (now : Time) (session : SessionRow)
    → live_session store hash now ≡ ok session
    → (lookup hash store.sessions ≡ some session)
      × (session.revoked_at ≡ none)
      × (is_expired session now ≡ false)
unfolding live_session query_session
live_session_found store hash now session h =
    let (row, e, g) = bind_ok (query_session store hash) _ session h in
    let (live, f) = unless_ok (is_revoked row) session_revoked _ session g in
    let (fresh, k) = unless_ok (is_expired row now) session_expired (ok row) session f in
    subst
      (λ s.
        (lookup hash store.sessions ≡ some s) × (s.revoked_at ≡ none) × (is_expired s now ≡ false))
      (ok_injective k) (required_ok invalid_session _ row e, not_revoked row live, fresh)
  where
    not_revoked : (row : SessionRow) → is_revoked row ≡ false → row.revoked_at ≡ none
    not_revoked row e = ground arith

pub resolve_session_inv :
    (config : Config) (env : Env) (store : Store) (raw_token : String)
    (principal : SessionPrincipal)
    → (resolve_session config env store raw_token).1 ≡ ok principal
    → (session : SessionRow) × (live_session store (token_hash config raw_token) env.now
        ≡ ok session)
      × (principal ≡ principal_from_session session)
unfolding resolve_session resolve_session_tx
resolve_session_inv config env store raw_token principal h =
    elim (Bool-cases (is_empty raw_token)) [
      | inl e ↦ absurd (ground arith)
      | inr e ↦ go (live_session store (token_hash config raw_token) env.now) refl (rw e at h)
    ]
  where
    go :
        (found : Result SessionRow)
        → live_session store (token_hash config raw_token) env.now ≡ found
        → (with_tx store (
            found >>= (λ session.
              ok (refresh_idle store session env.now, principal_from_session session)))).1
          ≡ ok principal
        → (session : SessionRow) × (live_session store (token_hash config raw_token) env.now
            ≡ ok session)
          × (principal ≡ principal_from_session session)
    go (ok session) e k = (session, e, sym (ok_injective k))
    go (err x) e k = absurd (cc)

-- Not revoked at the end, not revoked before.
unrevoked :
    (row next : SessionRow) → Continues row next → next.revoked_at ≡ none → row.revoked_at ≡ none
unrevoked row next t h = elim (Option-cases row.revoked_at) [
  | inl e ↦ e
  | inr (at, e) ↦ absurd (cc (t.revoked_at at e, h))
]

-- What a session that answers now was before.
pub record WasSession (row : SessionRow) (now : Time) (principal : SessionPrincipal) : Type 0 where
  pub user_id : principal.user_id ≡ row.user_id
  pub session_id : principal.session_id ≡ row.id
  pub issued_at : principal.issued_at ≡ row.created_at
  pub not_revoked : row.revoked_at ≡ none
  pub not_expired : before now row.expires_at ≡ true

-- Whatever calls come between, a token of a session in the table resolves only to that session and
-- its user, only if the session was not revoked, and only before the expiry that it had.
pub resolve_session-WasSession :
    (config : Config) (internal_cidrs : List (Address → Bool)) (service : Service)
    (requests : List (Env × Request)) (env : Env) (raw_token : String) (row : SessionRow)
    (principal : SessionPrincipal)
    → lookup (token_hash config raw_token) service.store.sessions ≡ some row
    → (resolve_session config env
        (handle_all config internal_cidrs service requests).store
        raw_token).1
      ≡ ok principal
    → WasSession row env.now principal
unfolding SessionsContinue principal_from_session
resolve_session-WasSession config internal_cidrs service requests env raw_token row principal found
      h =
    let later = handle_all config internal_cidrs service requests in
    let (next, there, t) =
      (handle_all-Later config internal_cidrs service requests).sessions
        (token_hash config raw_token) row found in
    let (session, live, same) = resolve_session_inv config env later.store raw_token principal h in
    let (here, unrevoked_now, fresh) =
      live_session_found later.store (token_hash config raw_token) env.now session live in
    was row next session principal env.now t (cc (there, here)) unrevoked_now fresh same
  where
    not_past :
        (session : SessionRow) (now : Time)
        → is_expired session now ≡ false
        → before now session.expires_at ≡ true
    not_past session now fresh = ground arith

    was :
        (row next session : SessionRow) (principal : SessionPrincipal) (now : Time)
        → Continues row next
        → next ≡ session
        → session.revoked_at ≡ none
        → is_expired session now ≡ false
        → principal ≡ principal_from_session session
        → WasSession row now principal
    was row next session principal now t e unrevoked_now fresh same = record {
      user_id = ap (λ p. p.user_id) same ∙ (ap (λ s. s.user_id) (sym e) ∙ t.user_id);
      session_id = ap (λ p. p.session_id) same ∙ (ap (λ s. s.id) (sym e) ∙ t.id);
      issued_at = ap (λ p. p.issued_at) same ∙ (ap (λ s. s.created_at) (sym e) ∙ t.created_at);
      not_revoked = unrevoked row next t (ap (λ s. s.revoked_at) e ∙ unrevoked_now);
      not_expired =
          subst (λ x. before now x ≡ true) (ap (λ s. s.expires_at) (sym e) ∙ t.expires_at)
            (not_past session now fresh);
    }
