-- ===== src/Identity/FactorUsed.antt =====
-- The second factor that a login uses up.
use opswarden.Outcomes.{ok, unless_ok, ok_injective}
use opswarden.Prelude.{
  ℕ, ◌==◌, ◌≡◌, refl, sym, ◌∙◌, ap, inl, inr, ◌⊎◌, Bool-cases, true, false, not, ◌||◌, String, List,
  arith, [], ◌∷◌, some, lookup, lookup-insert, str_eq, str_eq_iff, Time, any,
}
use opswarden.Cryptobox.Bytes.{Bytes}
use opswarden.Identity.Totp.{
  hash_name, is_totp_code, matching_totp_counter, normalize_recovery_code,
}
use opswarden.Identity.Tables.{
  Store, SecondFactor, SessionRow, RecoveryCode, consume_recovery_code, unused_count, use_codes,
  invalid_recovery_code, storage_failed,
}
use opswarden.Identity.Sessions.{Config, totp_secret, is_replay}
use opswarden.Identity.Login.{verify_second_factor, upgrade_password, insert_session}
use opswarden.Identity.Factors.{verify_and_consume_totp_lem}

-- A one-time code with a counter after the last one, which is the last one now.
pub record TotpUsed (config : Config) (store later : Store) (user_id : String) (code : List ℕ)
    (now : Time) : Type 0 where
  pub factor : SecondFactor
  pub secret : Bytes
  pub counter : ℕ
  pub held : lookup user_id store.user_totp ≡ some factor
  pub secret_held : totp_secret config user_id factor.encrypted_secret ≡ ok secret
  pub is_match : matching_totp_counter config.prim secret code now ≡ some counter
  pub fresh : is_replay factor.last_used_counter counter ≡ false
  pub spent :
      lookup user_id later.user_totp ≡ some (record factor { last_used_counter = some counter })

-- A recovery code that was unused and is used now.
pub record RecoveryCodeUsed (config : Config) (store later : Store) (user_id : String)
    (code : List ℕ) : Type 0 where
  pub unused :
      unused_count user_id
        (hash_name config.prim (normalize_recovery_code config.prim code))
        store.recovery_codes
      ≡ 1
  pub spent :
      unused_count user_id
        (hash_name config.prim (normalize_recovery_code config.prim code))
        later.recovery_codes
      ≡ 0

abbrev pub FactorUsed : Config → Store → Store → String → List ℕ → Time → Type 0
FactorUsed config store later user_id code now =
    ((is_totp_code code ≡ true) × TotpUsed config store later user_id code now)
    ⊎ ((is_totp_code code ≡ false) × RecoveryCodeUsed config store later user_id code)

unused_count-use_codes :
    (user_id hash : String) (now : Time) (codes : List RecoveryCode)
    → unused_count user_id hash (use_codes user_id hash now codes) ≡ 0
unfolding unused_count use_codes
unused_count-use_codes user_id hash now [] = refl
unused_count-use_codes user_id hash now (code ∷ rest) =
    ground (arith, unused_count-use_codes user_id hash now rest)

consume_recovery_code_lem :
    (store s : Store) (user_id hash : String) (now : Time)
    → consume_recovery_code store user_id hash now ≡ ok s
    → (unused_count user_id hash store.recovery_codes ≡ 1)
      × (unused_count user_id hash s.recovery_codes ≡ 0)
unfolding consume_recovery_code
consume_recovery_code_lem store s user_id hash now h =
    let (there, e) =
      unless_ok (not (unused_count user_id hash store.recovery_codes == 1)) invalid_recovery_code _
        s h in
    (
      ground arith,
      ap (λ t. unused_count user_id hash t.recovery_codes) (sym (ok_injective e))
          ∙ unused_count-use_codes user_id hash now store.recovery_codes,
    )

module _ (config : Config) (store : Store) where
  pub verify_second_factor-FactorUsed :
      (s : Store) (user_id : String) (factor : SecondFactor) (code : List ℕ) (now : Time)
      → lookup user_id store.user_totp ≡ some factor
      → verify_second_factor config store user_id factor code now ≡ ok s
      → FactorUsed config store s user_id code now
  unfolding verify_second_factor
  verify_second_factor-FactorUsed s user_id factor code now held h =
      elim (Bool-cases (is_totp_code code)) [
        | inr e ↦
            let (unused, spent) =
              consume_recovery_code_lem store s user_id
                (hash_name config.prim (normalize_recovery_code config.prim code)) now
                (rw e at h) in
            inr (e, record { unused = unused; spent = spent })
        | inl e ↦
            let (secret, counter, next, a, b, c, there, put) =
              verify_and_consume_totp_lem config store s user_id factor code now (rw e at h) in
            inl (
              e,
              record {
                factor = factor;
                secret = secret;
                counter = counter;
                held = held;
                secret_held = a;
                is_match = b;
                fresh = c;
                spent =
                    put
                    ∙ ap {A = SecondFactor}
                        (λ f. some (record f { last_used_counter = some counter })) {x = next}
                        {y = factor} (cc (there, held));
              },
            )
      ]

  pub upgrade_password_lem :
      (s : Store) (user_id : String) (hash : Bytes)
      → ((upgrade_password s user_id hash).user_totp ≡ s.user_totp)
        × ((upgrade_password s user_id hash).recovery_codes ≡ s.recovery_codes)
  unfolding upgrade_password
  upgrade_password_lem s user_id [] = (refl, refl)
  upgrade_password_lem s user_id (byte ∷ rest) = (ground arith, ground arith)

  pub insert_session_lem :
      (s t : Store) (hash : String) (session : SessionRow)
      → insert_session s hash session ≡ ok t
      → (t.user_totp ≡ s.user_totp)
        × (t.recovery_codes ≡ s.recovery_codes)
        × (lookup hash t.sessions ≡ some session)
  unfolding insert_session
  insert_session_lem s t hash session h =
      let (free, e) =
        unless_ok (any (λ entry. str_eq entry.0 hash || str_eq entry.1.id session.id) s.sessions)
          storage_failed _ t h in
      let put = lookup-insert hash hash session s.sessions in
      let done = ok_injective e in
      (
        ap (λ st. st.user_totp) (sym done),
        ap (λ st. st.recovery_codes) (sym done),
        ap (λ st. lookup hash st.sessions) (sym done) ∙ ground (arith, put, str_eq_iff hash hash),
      )

  pub FactorUsed-same :
      (s t : Store) (user_id : String) (code : List ℕ) (now : Time)
      → t.user_totp ≡ s.user_totp
      → t.recovery_codes ≡ s.recovery_codes
      → FactorUsed config store s user_id code now
      → FactorUsed config store t user_id code now
  FactorUsed-same s t user_id code now e f (inl (is_code, u)) = inl (
    is_code,
    record {
      factor = u.factor;
      secret = u.secret;
      counter = u.counter;
      held = u.held;
      secret_held = u.secret_held;
      is_match = u.is_match;
      fresh = u.fresh;
      spent = ap (lookup user_id) e ∙ u.spent;
    },
  )
  FactorUsed-same s t user_id code now e f (inr (no_code, u)) = inr (
    no_code,
    record {
      unused = u.unused;
      spent =
          ap
            (unused_count user_id
              (hash_name config.prim (normalize_recovery_code config.prim code)))
            f
          ∙ u.spent;
    },
  )
