-- ===== src/Identity/Operations.antt =====
-- Each operation of the identity service leads to a later store.
use opswarden.Outcomes.{
  Holds, ok, with_tx, bind-Holds, with_tx-Holds, guarded-Holds, drawn-Holds, bind_ok, unless_ok,
  ok_injective,
}
use opswarden.Prelude.{
  ◌≡◌, subst, inl, inr, Bool-cases, not, String, List, Option, none, some, ℕ, Time,
}
use opswarden.Authorization.{is_empty}
use opswarden.Identity.Totp.{is_totp_code, matching_totp_counter}
use opswarden.Identity.Tables.{
  Store, SecondFactor, invalid_session, invalid_totp, random_failed, live_session, Event,
  totp_replay,
}
use opswarden.Identity.Sessions.{
  AuthenticationContext, Config, Env, resolve_session, resolve_session_tx, verify_recent_totp,
  verify_recent_totp_audited, verify_recent_totp_tx, logout, logout_audited, logout_audited_tx,
  revoke_all_sessions, verify_and_consume_totp, consume_matched, totp_secret, is_replay,
  record_recent_totp, append_event, append_if, second_factor_of, session_event, revoke_session,
  token_hash,
}
use opswarden.Identity.Later.{Later, Later-refl, Later-trans}
use opswarden.Identity.Keeps.{
  revoke_user_sessions-Later, refresh_idle-Later, record_recent_totp-Later, revoke_session-Later,
  append_event-Later, consume_totp_counter-Later,
}

module _ (config : Config) (env : Env) (store : Store) where
  pub resolve_session-Later :
      (raw_token : String) → Later store (resolve_session config env store raw_token).0
  unfolding resolve_session resolve_session_tx
  resolve_session-Later raw_token =
      guarded-Holds (Later store) store (is_empty raw_token) invalid_session
        (with_tx store (resolve_session_tx config store raw_token env.now)) (Later-refl store)
        (with_tx-Holds (Later store) store _ (Later-refl store) (
          bind-Holds (Later store) (live_session store (token_hash config raw_token) env.now) _
            (λ session e. refresh_idle-Later store session env.now)))

  consume_matched-Later :
      (s : Store) (user_id : String) (factor : SecondFactor) (counter : Option ℕ)
      → consume_matched store user_id factor counter ≡ ok s
      → Later store s
  unfolding consume_matched
  consume_matched-Later s user_id factor none h = absurd (cc)
  consume_matched-Later s user_id factor (some counter) h =
      let (fresh, e) = unless_ok (is_replay factor.last_used_counter counter) totp_replay _ s h in
      consume_totp_counter-Later store s user_id counter e

  pub verify_and_consume_totp-Later :
      (s : Store) (user_id : String) (factor : SecondFactor) (code : List ℕ) (now : Time)
      → verify_and_consume_totp config store user_id factor code now ≡ ok s
      → Later store s
  unfolding verify_and_consume_totp
  verify_and_consume_totp-Later s user_id factor code now h =
      let (secret, e, f) =
        bind_ok (totp_secret config user_id factor.encrypted_secret)
          (λ secret.
            consume_matched store user_id factor
              (matching_totp_counter config.prim secret code now))
          s h in
      consume_matched-Later s user_id factor (matching_totp_counter config.prim secret code now) f

  -- The event is appended, or there is none.
  append_if-Later : (t u : Store) (event : Option Event) → append_if env t event ≡ ok u → Later t u
  unfolding append_if
  append_if-Later t u none h = subst (Later t) (ok_injective h) (Later-refl t)
  append_if-Later t u (some event) h = append_event-Later env t u event h

  verify_recent_totp_tx-Later :
      (raw_token : String) (code : List ℕ) (event_of : String → Option Event)
      → Holds (Later store) (verify_recent_totp_tx config env store raw_token code event_of)
  unfolding verify_recent_totp_tx
  verify_recent_totp_tx-Later raw_token code event_of =
      bind-Holds (Later store) (live_session store (token_hash config raw_token) env.now) _
        (λ session e.
          bind-Holds (Later store) (second_factor_of store session.user_id) _ (λ factor f.
            bind-Holds (Later store)
              (verify_and_consume_totp config store session.user_id factor code env.now) _
              (λ s g.
                bind-Holds (Later store)
                  (append_if env (record_recent_totp s session env.now) (event_of session.user_id))
                  _
                  (λ u k.
                    Later-trans store s u
                      (verify_and_consume_totp-Later s session.user_id factor code env.now g)
                      (Later-trans s (record_recent_totp s session env.now) u
                        (record_recent_totp-Later s session env.now)
                        (append_if-Later (record_recent_totp s session env.now) u
                          (event_of session.user_id) k))))))

  pub verify_recent_totp-Later :
      (raw_token : String) (code : List ℕ)
      → Later store (verify_recent_totp config env store raw_token code).0
  unfolding verify_recent_totp
  verify_recent_totp-Later raw_token code =
      guarded-Holds (Later store) store (is_empty raw_token) invalid_session _ (Later-refl store) (
        guarded-Holds (Later store) store (not (is_totp_code code)) invalid_totp _
          (Later-refl store)
          (with_tx-Holds (Later store) store
            (verify_recent_totp_tx config env store raw_token code (λ user_id. none))
            (Later-refl store) (verify_recent_totp_tx-Later raw_token code (λ user_id. none))))

  pub verify_recent_totp_audited-Later :
      (raw_token : String) (code : List ℕ) (authentication : AuthenticationContext)
      → Later store (verify_recent_totp_audited config env store raw_token code authentication).0
  unfolding verify_recent_totp_audited
  verify_recent_totp_audited-Later raw_token code authentication =
      elim (Bool-cases (is_empty raw_token)) [
        | inl e ↦ rw e (Later-refl store)
        | inr e ↦ rw e (elim (Bool-cases (is_totp_code code)) [
          | inr f ↦ rw f (Later-refl store)
          | inl f ↦ rw f (elim (Bool-cases config.is_audited) [
            | inr g ↦ rw g (Later-refl store)
            | inl g ↦ rw g (
                drawn-Holds (Later store) store env.drawn_event_id random_failed
                  (λ id.
                    with_tx store
                      (verify_recent_totp_tx config env store raw_token code (reverify_event id)))
                  (Later-refl store)
                  (λ id.
                    with_tx-Holds (Later store) store
                      (verify_recent_totp_tx config env store raw_token code (reverify_event id))
                      (Later-refl store)
                      (verify_recent_totp_tx-Later raw_token code (reverify_event id))))
          ])
        ])
      ]
    where
      reverify_event : String → String → Option Event
      reverify_event id user_id =
          some (session_event config env authentication raw_token id "auth.totp.reverify" user_id)

  pub logout-Later : (raw_token : String) → Later store (logout config env store raw_token).0
  unfolding logout
  logout-Later raw_token = elim (Bool-cases (is_empty raw_token)) [
    | inl e ↦ rw e (Later-refl store)
    | inr e ↦ rw e (revoke_session-Later store (token_hash config raw_token) env.now)
  ]

  logout_audited_tx-Later :
      (raw_token : String) (authentication : AuthenticationContext) (id : String)
      → Holds (Later store) (logout_audited_tx config env store raw_token authentication id)
  unfolding logout_audited_tx
  logout_audited_tx-Later raw_token authentication id =
      bind-Holds (Later store) (live_session store (token_hash config raw_token) env.now) _
        (λ session e.
          let revoked = revoke_session store (token_hash config raw_token) env.now in
          let event =
            session_event config env authentication raw_token id "auth.logout" session.user_id in
          bind-Holds (Later store) (append_event env revoked event) _ (λ t f.
            Later-trans store revoked t
              (revoke_session-Later store (token_hash config raw_token) env.now)
              (append_event-Later env revoked t event f)))

  pub logout_audited-Later :
      (raw_token : String) (authentication : AuthenticationContext)
      → Later store (logout_audited config env store raw_token authentication).0
  unfolding logout_audited
  logout_audited-Later raw_token authentication = elim (Bool-cases (is_empty raw_token)) [
    | inl e ↦ rw e (Later-refl store)
    | inr e ↦ rw e (elim (Bool-cases config.is_audited) [
      | inr g ↦ rw g (Later-refl store)
      | inl g ↦ rw g (
          drawn-Holds (Later store) store env.drawn_event_id random_failed
            (λ id. with_tx store (logout_audited_tx config env store raw_token authentication id))
            (Later-refl store)
            (λ id.
              with_tx-Holds (Later store) store
                (logout_audited_tx config env store raw_token authentication id) (Later-refl store)
                (logout_audited_tx-Later raw_token authentication id)))
    ])
  ]

  pub revoke_all_sessions-Later :
      (user_id : String) → Later store (revoke_all_sessions env store user_id).0
  unfolding revoke_all_sessions
  revoke_all_sessions-Later user_id = elim (Bool-cases (is_empty user_id)) [
    | inl e ↦ rw e (Later-refl store)
    | inr e ↦ rw e (revoke_user_sessions-Later store user_id env.now)
  ]
