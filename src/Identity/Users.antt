-- ===== src/Identity/Users.antt =====
-- internal/identity/service.go and repository.go: changes of system roles, and password resets.
use opswarden.Outcomes.{ok, err, required, unless, with_tx, ◌>>=◌}
use opswarden.Prelude.{
  ◌==◌, ◌&&◌, not, String, [], ◌∷◌, Option, none, some, if◌then◌else◌, Dict, insert, str_eq, Time,
}
use opswarden.Identity.{has_recent_totp}
use opswarden.Authorization.{SystemRole, is_empty}
use opswarden.Cryptobox.Bytes.{Bytes}
use opswarden.Identity.Tables.{
  is_nil, invalid_credentials, invalid_session, invalid_system_role, recent_totp_required,
  forbidden, user_not_found, last_system_owner, Result, User, Store, active_user, is_system_owner,
  is_system_role, remaining_system_owners, live_session, principal_from_session,
  revoke_user_sessions,
}
use opswarden.Identity.Passwords.{hash_password}
use opswarden.Identity.Sessions.{Config, Env, token_hash}
use opswarden.Identity.Login.{Challenge, Service}

-- UPDATE users SET ... WHERE id = ? AND deleted_at IS NULL, which must change a row
unfoldable pub update_active_user : Store → String → (User → User) → Result Store
unfolding active_user
update_active_user store user_id change = elim (active_user store.users user_id) [
  | none ↦ err user_not_found
  | some user ↦ ok (record store { users = insert user_id (change user) store.users })
]

-- A System Owner's role is only taken if another System Owner stays; and what follows.
unfoldable pub keeping_system_owner {ℓ} :
    {A : Type ℓ} → Store → String → SystemRole → SystemRole → Result A → Result A
unfolding remaining_system_owners
keeping_system_owner store user_id old new rest =
    unless
      ((is_system_owner old && not (is_system_owner new))
        && remaining_system_owners user_id store.users == 0)
      last_system_owner rest

-- The session's user, who must be a System Owner with a recent second factor; and what follows.
unfoldable pub as_system_owner {ℓ} : {A : Type ℓ} → Store → String → Time → Result A → Result A
unfolding live_session principal_from_session active_user has_recent_totp required
as_system_owner store hash now rest = do
  session ← live_session store hash now
  unless (not (has_recent_totp (principal_from_session session) now)) recent_totp_required (do
    actor ← required forbidden (active_user store.users session.user_id)
    unless (not (is_system_owner actor.system_role)) forbidden rest)

unfoldable pub change_system_role_from :
    Store → String → SystemRole → Time → Result (Store × Unit {0})
unfolding active_user required keeping_system_owner update_active_user revoke_user_sessions
change_system_role_from store user_id role now = do
  target ← required user_not_found (active_user store.users user_id)
  keeping_system_owner store user_id target.system_role role (do
    s ← update_active_user store user_id (λ user. record user { system_role = role })
    ok (revoke_user_sessions s user_id now, tt))

unfoldable pub change_system_role_tx :
    Config → Store → String → String → SystemRole → Time → Result (Store × Unit {0})
unfolding as_system_owner change_system_role_from
change_system_role_tx config store raw_token user_id role now =
    unless (not (is_system_role role)) invalid_system_role (
      as_system_owner store (token_hash config raw_token) now
        (change_system_role_from store user_id role now))

unfoldable pub change_system_role :
    Config → Env → Store → String → String → SystemRole → Store × Result (Unit {0})
unfolding change_system_role_tx
change_system_role config env store raw_token user_id role =
    if is_empty raw_token
    then (store, err invalid_session)
    else if is_empty user_id
    then (store, err user_not_found)
    else with_tx store (change_system_role_tx config store raw_token user_id role env.now)

unfoldable pub reset_password_tx : Store → String → Bytes → Time → Result (Store × Unit {0})
unfolding update_active_user revoke_user_sessions
reset_password_tx store user_id hash now = do
  s ← update_active_user store user_id (λ user. record user { password_hash = hash })
  ok (revoke_user_sessions s user_id now, tt)

-- for id, challenge := range s.challenges
unfoldable pub drop_challenges : String → Dict Challenge → Dict Challenge
drop_challenges user_id [] = []
drop_challenges user_id (entry ∷ rest) =
    let kept = drop_challenges user_id rest in
    if str_eq entry.1.user_id user_id then kept else entry ∷ kept

-- ResetPassword behind the new hash; the challenges of the user go if the reset succeeds.
abbrev pub reset_with : Service → String → Store × Result (Unit {0}) → Service × Result (Unit {0})
reset_with service user_id (store, err e) = (record service { store = store }, err e)
reset_with service user_id (store, ok done) =
    (record { store = store; challenges = drop_challenges user_id service.challenges }, ok done)

unfoldable pub reset_password :
    Config → Env → Service → String → Bytes → Option Bytes → Service × Result (Unit {0})
unfolding reset_password_tx drop_challenges hash_password
reset_password config env service user_id password drawn_salt =
    if is_empty user_id
    then (service, err user_not_found)
    else if is_nil password
    then (service, err invalid_credentials)
    else elim (hash_password config.prim drawn_salt password) [
      | err e ↦ (service, err e)
      | ok hash ↦
          reset_with service user_id
            (with_tx service.store (reset_password_tx service.store user_id hash env.now))
    ]
