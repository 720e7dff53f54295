-- ===== src/Identity/Changes.antt =====
-- Changes of roles and passwords lead to later stores.
use opswarden.Outcomes.{
  Holds, ok, err, with_tx, unless-Holds, bind-Holds, with_tx-Holds, required, required_ok,
}
use opswarden.Prelude.{
  ◌≡◌, ◌≢◌, subst, ◌⊎◌, inl, inr, Bool-cases, true, false, not, String, arith, Option, Dict, ◌&&◌,
  ◌==◌, Time,
}
use opswarden.Authorization.{SystemRole, is_empty}
use opswarden.Cryptobox.Bytes.{Bytes}
use opswarden.Identity.Tables.{
  is_nil, Result, User, Store, user_not_found, live_session, active_user, is_active_owner,
  remaining_system_owners, is_system_owner, is_system_role, invalid_system_role, last_system_owner,
  revoke_user_sessions, recent_totp_required, forbidden, principal_from_session,
}
use opswarden.Identity.Sessions.{Config, Env, token_hash}
use opswarden.Identity.Passwords.{hash_password}
use opswarden.Identity.Login.{Challenge, Service}
use opswarden.Identity.Users.{
  change_system_role, reset_password, reset_password_tx, change_system_role_tx,
  change_system_role_from, as_system_owner, keeping_system_owner, update_active_user, reset_with,
}
use opswarden.Identity.Later.{Later, Later-refl, Later-trans}
use opswarden.Identity.Keeps.{revoke_user_sessions-Later, update_active_user-Later}
use opswarden.Identity.{has_recent_totp}

module _ (config : Config) (env : Env) (store : Store) where
  -- An owner's role that is taken leaves another owner.
  role_keeps :
      (user_id : String) (role : SystemRole) (old : User)
      → is_active_owner old ≡ true
      → ((is_system_owner old.system_role && not (is_system_owner role))
          && remaining_system_owners user_id store.users == 0)
        ≡ false
      → (is_active_owner (record old { system_role = role }) ≡ true)
        ⊎ (remaining_system_owners user_id store.users ≢ 0)
  role_keeps user_id role old owns keeps = elim (Bool-cases (is_system_owner role)) [
    | inl stays ↦ inl (ground arith)
    | inr goes ↦ inr (ground arith)
  ]

  change_system_role_from-Later :
      (user_id : String) (role : SystemRole) (now : Time)
      → Holds (Later store) (change_system_role_from store user_id role now)
  unfolding change_system_role_from keeping_system_owner
  change_system_role_from-Later user_id role now =
      let change : User → User = λ user. record user { system_role = role } in
      bind-Holds (Later store) (required user_not_found (active_user store.users user_id)) _
        (λ target e.
          unless-Holds (Later store)
            ((is_system_owner target.system_role && not (is_system_owner role))
              && remaining_system_owners user_id store.users == 0)
            last_system_owner _
            (λ keeps. bind-Holds (Later store) (update_active_user store user_id change) _ (λ s f.
              Later-trans store s (revoke_user_sessions s user_id now)
                (update_active_user-Later store s user_id change f (λ old g owns.
                  role_keeps user_id role old owns (
                    subst
                      (λ u.
                        ((is_system_owner u.system_role && not (is_system_owner role))
                          && remaining_system_owners user_id store.users == 0)
                        ≡ false)
                      {x = target} {y = old} (cc (required_ok user_not_found _ target e, g))
                      keeps)))
                (revoke_user_sessions-Later s user_id now))))

  as_system_owner-Holds {ℓ} :
      {A : Type ℓ} (hash : String) (now : Time) (rest : Result (Store × A))
      → Holds (Later store) rest
      → Holds (Later store) (as_system_owner store hash now rest)
  unfolding as_system_owner
  as_system_owner-Holds hash now rest h =
      bind-Holds (Later store) (live_session store hash now) _ (λ session e.
        unless-Holds (Later store) (not (has_recent_totp (principal_from_session session) now))
          recent_totp_required _
          (λ recent.
            bind-Holds (Later store) (required forbidden (active_user store.users session.user_id))
              _
              (λ actor f.
                unless-Holds (Later store) (not (is_system_owner actor.system_role)) forbidden rest
                  (λ owner. h))))

  pub change_system_role-Later :
      (raw_token user_id : String) (role : SystemRole)
      → Later store (change_system_role config env store raw_token user_id role).0
  unfolding change_system_role change_system_role_tx
  change_system_role-Later raw_token user_id role = elim (Bool-cases (is_empty raw_token)) [
    | inl e ↦ rw e (Later-refl store)
    | inr e ↦ rw e (elim (Bool-cases (is_empty user_id)) [
      | inl f ↦ rw f (Later-refl store)
      | inr f ↦ rw f (
          with_tx-Holds (Later store) store
            (change_system_role_tx config store raw_token user_id role env.now) (Later-refl store)
            (unless-Holds (Later store) (not (is_system_role role)) invalid_system_role _ (λ known.
              as_system_owner-Holds (token_hash config raw_token) env.now _
                (change_system_role_from-Later user_id role env.now))))
    ])
  ]

  reset_password_tx-Later :
      (user_id : String) (hash : Bytes) (now : Time)
      → Holds (Later store) (reset_password_tx store user_id hash now)
  unfolding reset_password_tx
  reset_password_tx-Later user_id hash now =
      bind-Holds (Later store)
        (update_active_user store user_id (λ user. record user { password_hash = hash })) _
        (λ s f.
          Later-trans store s (revoke_user_sessions s user_id now)
            (update_active_user-Later store s user_id (λ user. record user { password_hash = hash })
              f (λ old g owns. inl owns))
            (revoke_user_sessions-Later s user_id now))

  pub reset_password-Later :
      (challenges : Dict Challenge) (user_id : String) (password : Bytes)
      (drawn_salt : Option Bytes)
      → let service : Service = record { store = store; challenges = challenges } in
        Later store (reset_password config env service user_id password drawn_salt).0.store
  unfolding reset_password
  reset_password-Later challenges user_id password drawn_salt =
      elim (Bool-cases (is_empty user_id)) [
        | inl e ↦ rw e (Later-refl store)
        | inr e ↦ rw e (elim (Bool-cases (is_nil password)) [
          | inl f ↦ rw f (Later-refl store)
          | inr f ↦ rw f (go (hash_password config.prim drawn_salt password))
        ])
      ]
    where
      after :
          (done : Store × Result (Unit {0}))
          → Later store done.0
          → Later store
              (reset_with (record { store = store; challenges = challenges }) user_id done).0.store
      after (s, err e) h = h
      after (s, ok done) h = h

      go :
          (hashed : Result Bytes)
          → Later store
              (elim hashed as (λ x. Service × Result (Unit {0})) [
                | err e ↦ (record { store = store; challenges = challenges }, err e)
                | ok hash ↦
                    reset_with
                      (record { store = store; challenges = challenges })
                      user_id
                      (with_tx store (reset_password_tx store user_id hash env.now))
              ]).0.store
      go (err e) = Later-refl store
      go (ok hash) = after (with_tx store (reset_password_tx store user_id hash env.now)) (
          with_tx-Holds (Later store) store (reset_password_tx store user_id hash env.now)
            (Later-refl store) (reset_password_tx-Later user_id hash env.now))
