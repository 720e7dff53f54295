-- ===== src/Identity/Revocation.antt =====
-- What ends the sessions of a user.
use opswarden.Outcomes.{ok, err, required, with_tx, bind_ok, ok_injective}
use opswarden.Prelude.{
  ◌≡◌, refl, sym, subst, inl, inr, Bool, Bool-cases, true, false, String, List, arith, [], ◌∷◌,
  Option, Option-cases, some, if◌then◌else◌, Dict, lookup, Time, ap, str_eq, str_eq_iff,
}
use opswarden.Authorization.{is_empty}
use opswarden.Cryptobox.Bytes.{Bytes}
use opswarden.Identity.Tables.{
  is_nil, SessionRow, Store, live_session, query_session, is_revoked, session_revoked,
  update_sessions, revoke_user_sessions, revoked_by, update_sessions, Result,
}
use opswarden.Identity.Sessions.{Config, Env, token_hash, resolve_session, resolve_session_tx}
use opswarden.Identity.Login.{Service}
use opswarden.Identity.Bootstrap.{Address}
use opswarden.Identity.Users.{reset_password, reset_password_tx, update_active_user, reset_with}
use opswarden.Identity.Passwords.{hash_password}
use opswarden.Identity.Later.{SessionsContinue}
use opswarden.Identity.Requests.{Request, handle_all, handle_all-Later}

lookup-update_sessions :
    (chosen : SessionRow → Bool) (change : SessionRow → SessionRow) (hash : String)
    (row : SessionRow) (sessions : Dict SessionRow)
    → lookup hash sessions ≡ some row
    → chosen row ≡ true
    → lookup hash (update_sessions chosen change sessions) ≡ some (change row)
unfolding lookup update_sessions
lookup-update_sessions chosen change hash row [] h c = absurd (cc)
lookup-update_sessions chosen change hash row (entry ∷ rest) h c =
    elim (Bool-cases (str_eq entry.0 hash)) [
      | inr apart ↦ rw apart (lookup-update_sessions chosen change hash row rest (rw apart at h) c)
      | inl same ↦
          let found : entry.1 ≡ row = cc (rw same at h) in
          rw same (
            subst (λ r. some (if chosen r then change r else r) ≡ some (change row)) (sym found)
              (rw c refl))
    ]

pub revoked_there :
    (now : Time) (row : SessionRow) → (at : Time) × ((revoked_by now row).revoked_at ≡ some at)
revoked_there now row = elim (Option-cases row.revoked_at) [
  | inl e ↦ (now, rw e refl)
  | inr (at, e) ↦ (at, rw e refl)
]

-- All sessions of the user are revoked.
revoke_user_sessions_lem :
    (store : Store) (user_id hash : String) (now : Time) (row : SessionRow)
    → lookup hash store.sessions ≡ some row
    → row.user_id ≡ user_id
    → (next : SessionRow) × (lookup hash (revoke_user_sessions store user_id now).sessions
        ≡ some next)
      × ((at : Time) × (next.revoked_at ≡ some at))
unfolding revoke_user_sessions
revoke_user_sessions_lem store user_id hash now row h own = (
  revoked_by now row,
  lookup-update_sessions (λ session. str_eq session.user_id user_id) (revoked_by now) hash row
      store.sessions h ((str_eq_iff row.user_id user_id).1 own),
  revoked_there now row,
)

refused :
    (config : Config) (env : Env) (store : Store) (raw_token : String) (row : SessionRow)
    (at : Time)
    → lookup (token_hash config raw_token) store.sessions ≡ some row
    → row.revoked_at ≡ some at
    → is_empty raw_token ≡ false
    → resolve_session config env store raw_token ≡ (store, err session_revoked)
unfolding resolve_session resolve_session_tx live_session query_session required
refused config env store raw_token row at found revoked filled =
    let dead : is_revoked row ≡ true = ground arith in rw (filled, found, dead) refl

-- A revoked session is refused as such, whatever comes after.
pub revoked_refused :
    (config : Config) (internal_cidrs : List (Address → Bool)) (service : Service)
    (requests : List (Env × Request)) (env : Env) (raw_token : String) (row : SessionRow)
    (at : Time)
    → lookup (token_hash config raw_token) service.store.sessions ≡ some row
    → row.revoked_at ≡ some at
    → is_empty raw_token ≡ false
    → let later = (handle_all config internal_cidrs service requests).store in
      resolve_session config env later raw_token ≡ (later, err session_revoked)
unfolding SessionsContinue
revoked_refused config internal_cidrs service requests env raw_token row at found revoked filled =
    let (next, there, t) =
      (handle_all-Later config internal_cidrs service requests).sessions
        (token_hash config raw_token) row found in
    refused config env (handle_all config internal_cidrs service requests).store raw_token next at
      there (t.revoked_at at revoked) filled

abbrev Reset : Env → Store → String → Store → Type 0
Reset env store user_id s =
    (t : Store) × (s ≡ revoke_user_sessions t user_id env.now) × (t.sessions ≡ store.sessions)

reset_password_tx_lem :
    (env : Env) (store s : Store) (user_id : String) (hash : Bytes)
    → reset_password_tx store user_id hash env.now ≡ ok (s, tt)
    → Reset env store user_id s
unfolding reset_password_tx update_active_user
reset_password_tx_lem env store s user_id hash h =
    let (t, e, f) =
      bind_ok (update_active_user store user_id (λ user. record user { password_hash = hash }))
        (λ t. ok (revoke_user_sessions t user_id env.now, tt)) (s, tt) h in
    (t, sym (ap (λ pair. pair.0) (ok_injective f)), ground arith)

-- What a reset of a password leaves.
reset_password_lem :
    (config : Config) (env : Env) (service after : Service) (user_id : String) (password : Bytes)
    (drawn_salt : Option Bytes)
    → reset_password config env service user_id password drawn_salt ≡ (after, ok tt)
    → Reset env service.store user_id after.store
unfolding reset_password
reset_password_lem config env service after user_id password drawn_salt h =
    elim (Bool-cases (is_empty user_id)) [
      | inl e ↦ absurd (ground arith)
      | inr e ↦ elim (Bool-cases (is_nil password)) [
        | inl f ↦ absurd (ground arith)
        | inr f ↦ go (hash_password config.prim drawn_salt password) (rw (e, f) at h)
      ]
    ]
  where
    done :
        (hash : Bytes) (r : Result (Store × Unit {0}))
        → reset_password_tx service.store user_id hash env.now ≡ r
        → reset_with service user_id (with_tx service.store r) ≡ (after, ok tt)
        → Reset env service.store user_id after.store
    done hash (err x) e k = absurd (cc)
    done hash (ok (s, u)) e k =
        subst (Reset env service.store user_id) {x = s} {y = after.store}
          (ap (λ pair. pair.0.store) k) (reset_password_tx_lem env service.store s user_id hash e)

    go :
        (hashed : Result Bytes)
        → elim hashed as (λ x. Service × Result (Unit {0})) [
          | err x ↦ (service, err x)
          | ok hash ↦
              reset_with service user_id
                (with_tx service.store (reset_password_tx service.store user_id hash env.now))
        ]
          ≡ (after, ok tt)
        → Reset env service.store user_id after.store
    go (err x) k = absurd (cc)
    go (ok hash) k = done hash (reset_password_tx service.store user_id hash env.now) refl k

-- A password reset ends every session that the user has: whatever calls follow, a token of such a
-- session is refused as revoked, and the refusal changes nothing.
pub reset_password-resolve_session :
    (config : Config) (internal_cidrs : List (Address → Bool)) (service after : Service)
    (user_id : String) (password : Bytes) (drawn_salt : Option Bytes)
    (requests : List (Env × Request)) (env env' : Env) (raw_token : String) (row : SessionRow)
    → reset_password config env service user_id password drawn_salt ≡ (after, ok tt)
    → lookup (token_hash config raw_token) service.store.sessions ≡ some row
    → row.user_id ≡ user_id
    → is_empty raw_token ≡ false
    → let later = (handle_all config internal_cidrs after requests).store in
      resolve_session config env' later raw_token ≡ (later, err session_revoked)
reset_password-resolve_session config internal_cidrs service after user_id password drawn_salt
      requests env env' raw_token row h found own filled =
    let (t, e, same) = reset_password_lem config env service after user_id password drawn_salt h in
    let (next, there, (at, revoked)) =
      revoke_user_sessions_lem t user_id (token_hash config raw_token) env.now row (rw same found)
        own in
    revoked_refused config internal_cidrs after requests env' raw_token next at
      (subst (λ st. lookup (token_hash config raw_token) st.sessions ≡ some next) (sym e) there)
      revoked filled
