-- ===== src/Identity/Logins.antt =====
-- Logins lead to later stores.
use opswarden.Outcomes.{Holds, ok, err, with_tx, unless-Holds, bind-Holds, with_tx-Holds, required}
use opswarden.Prelude.{
  ◌≡◌, inl, inr, Bool-cases, not, String, List, Option, none, some, Dict, lookup, delete, ℕ, Time,
  before,
}
use opswarden.Cryptobox.Codec.{bytes_equal}
use opswarden.Identity.Totp.{hash_name, is_totp_code, normalize_recovery_code}
use opswarden.Identity.Tables.{
  Result, Store, SecondFactor, active_user, invalid_challenge, invalid_credentials, random_failed,
}
use opswarden.Identity.Sessions.{Config, Env, token_hash}
use opswarden.Identity.Login.{
  Challenge, Service, complete_login, complete_login_with, complete_login_tx, complete_login_from,
  verify_second_factor, upgrade_password, insert_session, new_session,
}
use opswarden.Identity.Later.{Later, Later-refl, Later-trans}
use opswarden.Identity.Keeps.{
  consume_recovery_code-Later, upgrade_password-Later, insert_session-Later,
}
use opswarden.Identity.Operations.{verify_and_consume_totp-Later}

module _ (config : Config) (env : Env) (store : Store) where
  verify_second_factor-Later :
      (s : Store) (user_id : String) (factor : SecondFactor) (second_factor : List ℕ) (now : Time)
      → verify_second_factor config store user_id factor second_factor now ≡ ok s
      → Later store s
  unfolding verify_second_factor
  verify_second_factor-Later s user_id factor second_factor now h =
      elim (Bool-cases (is_totp_code second_factor)) [
        | inl e ↦
            verify_and_consume_totp-Later config env store s user_id factor second_factor now
              (rw e at h)
        | inr e ↦
            consume_recovery_code-Later store s user_id
              (hash_name config.prim (normalize_recovery_code config.prim second_factor)) now
              (rw e at h)
      ]

  complete_login_from-Later :
      (challenge : Challenge) (factor : SecondFactor) (second_factor : List ℕ) (now : Time)
      (raw_token session_id : String)
      → Holds
          (Later store)
          (complete_login_from config store challenge factor second_factor now raw_token session_id)
  unfolding complete_login_from
  complete_login_from-Later challenge factor second_factor now raw_token session_id =
      bind-Holds (Later store)
        (verify_second_factor config store challenge.user_id factor second_factor now) _
        (λ s e.
          let upgraded = upgrade_password s challenge.user_id challenge.upgraded_password_hash in
          let session = new_session now session_id challenge.user_id (is_totp_code second_factor) in
          bind-Holds (Later store) (insert_session upgraded (token_hash config raw_token) session) _
            (λ t f.
              Later-trans store s t
                (verify_second_factor-Later s challenge.user_id factor second_factor now e)
                (Later-trans s upgraded t
                  (upgrade_password-Later s challenge.user_id challenge.upgraded_password_hash)
                  (insert_session-Later upgraded t (token_hash config raw_token) session f))))

  complete_login_tx-Later :
      (challenge : Challenge) (second_factor : List ℕ) (now : Time) (raw_token session_id : String)
      → Holds
          (Later store)
          (complete_login_tx config store challenge second_factor now raw_token session_id)
  unfolding complete_login_tx
  complete_login_tx-Later challenge second_factor now raw_token session_id =
      bind-Holds (Later store)
        (required invalid_challenge (active_user store.users challenge.user_id)) _
        (λ user e.
          unless-Holds (Later store) (not (bytes_equal user.password_hash challenge.password_hash))
            invalid_challenge _
            (λ same.
              bind-Holds (Later store)
                (required invalid_credentials (lookup challenge.user_id store.user_totp)) _
                (λ factor f.
                  complete_login_from-Later challenge factor second_factor now raw_token
                    session_id)))

  complete_login_with-Later :
      (challenges : Dict Challenge) (challenge : Challenge) (second_factor : List ℕ) (now : Time)
      (drawn_token drawn_id : Option String)
      → let service : Service = record { store = store; challenges = challenges } in
        Later store
          (complete_login_with config service challenge second_factor now drawn_token
            drawn_id).0.store
  unfolding complete_login_with
  complete_login_with-Later challenges challenge second_factor now drawn_token drawn_id =
      elim (Bool-cases (before now challenge.expires_at)) [
        | inr e ↦ rw e (Later-refl store)
        | inl e ↦ rw e (go drawn_token drawn_id)
      ]
    where
      go :
          (token id : Option String)
          → Later store
              (elim token as (λ x. Service × Result (Unit {0})) [
                | none ↦ (record { store = store; challenges = challenges }, err random_failed)
                | some raw_token ↦ elim id as (λ x. Service × Result (Unit {0})) [
                  | none ↦ (record { store = store; challenges = challenges }, err random_failed)
                  | some session_id ↦
                      let done = with_tx store (
                        complete_login_tx config store challenge second_factor now raw_token
                          session_id) in
                      (record { store = done.0; challenges = challenges }, done.1)
                ]
              ]).0.store
      go none id = Later-refl store
      go (some token) none = Later-refl store
      go (some token) (some id) =
          with_tx-Holds (Later store) store
            (complete_login_tx config store challenge second_factor now token id) (Later-refl store)
            (complete_login_tx-Later challenge second_factor now token id)

  pub complete_login-Later :
      (challenges : Dict Challenge) (challenge_id : String) (second_factor : List ℕ) (now : Time)
      (drawn_token drawn_id : Option String)
      → let service : Service = record { store = store; challenges = challenges } in
        Later store
          (complete_login config service challenge_id second_factor now drawn_token
            drawn_id).0.store
  unfolding complete_login
  complete_login-Later challenges challenge_id second_factor now drawn_token drawn_id =
      go (lookup challenge_id challenges)
    where
      go :
          (found : Option Challenge)
          → Later store
              (elim found as (λ x. Service × Result (Unit {0})) [
                | none ↦ (record { store = store; challenges = challenges }, err invalid_challenge)
                | some challenge ↦
                    complete_login_with config
                      (record { store = store; challenges = delete challenge_id challenges })
                      challenge
                      second_factor
                      now
                      drawn_token
                      drawn_id
              ]).0.store
      go none = Later-refl store
      go (some challenge) =
          complete_login_with-Later (delete challenge_id challenges) challenge second_factor now
            drawn_token drawn_id
