-- ===== src/Identity/LoggedIn.antt =====
-- What it takes to complete a login, and what it leaves behind.
use opswarden.Outcomes.{ok, required, bind_ok, unless_ok, ok_injective, required_ok, with_tx_ok}
use opswarden.Prelude.{
  ℕ, ◌≡◌, refl, sym, subst, ◌∙◌, ap, inl, inr, Bool, Bool-cases, true, false, not, String, List,
  arith, Option-cases, none, some, lookup, delete, lookup-delete, str_eq_iff, Time, before,
}
use opswarden.Cryptobox.Codec.{bytes_equal}
use opswarden.Identity.Totp.{is_totp_code}
use opswarden.Identity.Tables.{
  Store, User, SecondFactor, active_user, invalid_challenge, invalid_credentials,
}
use opswarden.Identity.Sessions.{Config, token_hash}
use opswarden.Identity.Login.{
  Challenge, Service, verify_second_factor, upgrade_password, insert_session, new_session,
  complete_login_from, complete_login_tx, complete_login_with, complete_login,
}
use opswarden.Identity.FactorUsed.{
  FactorUsed, verify_second_factor-FactorUsed, upgrade_password_lem, insert_session_lem,
  FactorUsed-same,
}

-- A login that was completed.
pub record LoggedIn (config : Config) (service after : Service) (challenge_id : String)
    (second_factor : List ℕ) (now : Time) (raw_token session_id : String) : Type 0 where
  pub challenge : Challenge
  pub user : User
  pub begun : lookup challenge_id service.challenges ≡ some challenge
  pub in_time : before now challenge.expires_at ≡ true
  pub taken : lookup challenge_id after.challenges ≡ none
  pub is_active : active_user service.store.users challenge.user_id ≡ some user
  pub same_password : bytes_equal user.password_hash challenge.password_hash ≡ true
  pub used : FactorUsed config service.store after.store challenge.user_id second_factor now
  pub session :
      lookup (token_hash config raw_token) after.store.sessions
      ≡ some (new_session now session_id challenge.user_id (is_totp_code second_factor))

module _ (config : Config) (store t : Store) (challenge : Challenge) (second_factor : List ℕ)
    (now : Time) (raw_token session_id : String) where
  complete_login_from_lem :
      (factor : SecondFactor)
      → lookup challenge.user_id store.user_totp ≡ some factor
      → complete_login_from config store challenge factor second_factor now raw_token session_id
        ≡ ok (t, tt)
      → FactorUsed config store t challenge.user_id second_factor now
        × (lookup (token_hash config raw_token) t.sessions
            ≡ some (new_session now session_id challenge.user_id (is_totp_code second_factor)))
  unfolding complete_login_from
  complete_login_from_lem factor held h =
      let session = new_session now session_id challenge.user_id (is_totp_code second_factor) in
      let (s, e, f) =
        bind_ok (verify_second_factor config store challenge.user_id factor second_factor now) _
          (t, tt) h in
      let upgraded = upgrade_password s challenge.user_id challenge.upgraded_password_hash in
      let (u, g, k) =
        bind_ok (insert_session upgraded (token_hash config raw_token) session) _ (t, tt) f in
      let done : u ≡ t = ap (λ pair. pair.0) (ok_injective k) in
      let (totp, codes, there) =
        insert_session_lem config store upgraded u (token_hash config raw_token) session g in
      let (totp', codes') =
        upgrade_password_lem config store s challenge.user_id challenge.upgraded_password_hash in
      subst
        (λ st.
          FactorUsed config store st challenge.user_id second_factor now
          × (lookup (token_hash config raw_token) st.sessions ≡ some session))
        done
        (
          FactorUsed-same config store s u challenge.user_id second_factor now (totp ∙ totp')
              (codes ∙ codes')
              (verify_second_factor-FactorUsed config store s challenge.user_id factor second_factor
                now held e),
          there,
        )

  complete_login_tx_lem :
      complete_login_tx config store challenge second_factor now raw_token session_id ≡ ok (t, tt)
      → (user : User) × (active_user store.users challenge.user_id ≡ some user)
        × (bytes_equal user.password_hash challenge.password_hash ≡ true)
        × FactorUsed config store t challenge.user_id second_factor now
        × (lookup (token_hash config raw_token) t.sessions
            ≡ some (new_session now session_id challenge.user_id (is_totp_code second_factor)))
  unfolding complete_login_tx
  complete_login_tx_lem h =
      let (user, e, f) =
        bind_ok (required invalid_challenge (active_user store.users challenge.user_id)) _ (t, tt)
          h in
      let (same, g) =
        unless_ok (not (bytes_equal user.password_hash challenge.password_hash)) invalid_challenge _
          (t, tt) f in
      let (factor, k, l) =
        bind_ok (required invalid_credentials (lookup challenge.user_id store.user_totp)) _ (t, tt)
          g in
      let (used, there) =
        complete_login_from_lem factor (required_ok invalid_credentials _ factor k) l in
      (user, required_ok invalid_challenge _ user e, not_not _ same, used, there)
    where
      not_not : (b : Bool) → not b ≡ false → b ≡ true
      not_not true e = refl
      not_not false e = sym e

module _ (config : Config) (service after : Service) (second_factor : List ℕ) (now : Time)
    (raw_token session_id : String) where
  complete_login_with_lem :
      (challenge : Challenge)
      → complete_login_with config service challenge second_factor now
          (some raw_token)
          (some session_id)
        ≡ (after, ok tt)
      → (before now challenge.expires_at ≡ true)
        × (after.challenges ≡ service.challenges)
        × (complete_login_tx config service.store challenge second_factor now raw_token session_id
            ≡ ok (after.store, tt))
  unfolding complete_login_with
  complete_login_with_lem challenge h = elim (Bool-cases (before now challenge.expires_at)) [
    | inr e ↦ absurd (cc (rw e at h))
    | inl e ↦
        let k = rw e at h in
        (
          e,
          ap (λ pair. pair.0.challenges) (sym k),
          with_tx_ok service.store after.store
              (complete_login_tx config service.store challenge second_factor now raw_token
                session_id)
              tt (ap (λ pair. pair.1) k) (ap (λ pair. pair.0.store) k),
        )
  ]

-- A login that is completed had a challenge that was begun, not past its time, and is gone; its
-- user is not deleted and has the password it was begun with; a one-time code that matches, with a
-- counter after the last one, or a recovery code that was unused, is used up; and the session
-- stands under the hash of its token, with both expiries, and a recent second factor exactly for a
-- one-time code.
pub complete_login-LoggedIn :
    (config : Config) (service after : Service) (challenge_id : String) (second_factor : List ℕ)
    (now : Time) (raw_token session_id : String)
    → complete_login config service challenge_id second_factor now
        (some raw_token)
        (some session_id)
      ≡ (after, ok tt)
    → LoggedIn config service after challenge_id second_factor now raw_token session_id
unfolding complete_login
complete_login-LoggedIn config service after challenge_id second_factor now raw_token session_id h =
    elim (Option-cases (lookup challenge_id service.challenges)) [
      | inl e ↦ absurd (cc (rw (complete_login, e) at h))
      | inr (challenge, e) ↦
          let left : Service = record service {
            challenges = delete challenge_id service.challenges;
          } in
          let (in_time, challenges, done) =
            complete_login_with_lem config left after second_factor now raw_token session_id
              challenge (rw (complete_login, e) at h) in
          let (user, is_active, same, used, there) =
            complete_login_tx_lem config service.store after.store challenge second_factor now
              raw_token session_id done in
          record {
            challenge = challenge;
            user = user;
            begun = e;
            in_time = in_time;
            taken =
                ap (lookup challenge_id) challenges
                ∙ ground (
                  arith,
                  lookup-delete challenge_id challenge_id service.challenges,
                  str_eq_iff challenge_id challenge_id,
                );
            is_active = is_active;
            same_password = same;
            used = used;
            session = there;
          }
    ]
