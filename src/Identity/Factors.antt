-- ===== src/Identity/Factors.antt =====
-- A second factor is used once.
use opswarden.Outcomes.{ok, err, bind_ok, unless_ok, ok_injective}
use opswarden.Prelude.{
  ℕ, ◌≤◌, ◌≡◌, refl, sym, ◌∙◌, ap, inl, inr, Bool, true, false, String, List, arith, Option,
  Option-cases, none, some, lookup, lookup-insert, str_eq_iff, Time,
}
use opswarden.Cryptobox.Bytes.{Bytes}
use opswarden.Identity.Totp.{matching_totp_counter}
use opswarden.Identity.Tables.{Store, SecondFactor, consume_totp_counter, totp_replay}
use opswarden.Identity.Sessions.{
  Config, Env, totp_secret, consume_matched, is_replay, verify_and_consume_totp,
}
use opswarden.Identity.Login.{Service}
use opswarden.Identity.Bootstrap.{Address}
use opswarden.Identity.Later.{FactorsAdvance}
use opswarden.Identity.Requests.{Request, handle_all, handle_all-Later}

some_injective {ℓ} : {A : Type ℓ} {a b : A} → some a ≡ some b → a ≡ b
some_injective h = cc

consume_totp_counter_lem :
    (store s : Store) (user_id : String) (counter : ℕ)
    → consume_totp_counter store user_id counter ≡ ok s
    → (factor : SecondFactor) × (lookup user_id store.user_totp ≡ some factor)
      × (lookup user_id s.user_totp ≡ some (record factor { last_used_counter = some counter }))
unfolding consume_totp_counter
consume_totp_counter_lem store s user_id counter h =
    elim (Option-cases (lookup user_id store.user_totp)) [
      | inl e ↦ absurd (ground arith)
      | inr (factor, e) ↦
          let next = record factor { last_used_counter = some counter } in
          let put = lookup-insert user_id user_id next store.user_totp in
          (factor, e, ground (arith, put, str_eq_iff user_id user_id))
    ]

no_match :
    (store s : Store) (user_id : String) (factor : SecondFactor)
    → consume_matched store user_id factor none ≡ ok s
    → ⊥
unfolding consume_matched
no_match store s user_id factor h = cc

matched_lem :
    (store s : Store) (user_id : String) (factor : SecondFactor) (counter : ℕ)
    → consume_matched store user_id factor (some counter) ≡ ok s
    → (is_replay factor.last_used_counter counter ≡ false)
      × (consume_totp_counter store user_id counter ≡ ok s)
unfolding consume_matched
matched_lem store s user_id factor counter h =
    unless_ok (is_replay factor.last_used_counter counter) totp_replay _ s h

-- A code that was accepted had a counter after the last one, which is now the last one.
pub verify_and_consume_totp_lem :
    (config : Config) (store s : Store) (user_id : String) (factor : SecondFactor) (code : List ℕ)
    (now : Time)
    → verify_and_consume_totp config store user_id factor code now ≡ ok s
    → (secret : Bytes) × (counter : ℕ) × (next : SecondFactor) × (totp_secret config user_id
          factor.encrypted_secret
        ≡ ok secret)
      × (matching_totp_counter config.prim secret code now ≡ some counter)
      × (is_replay factor.last_used_counter counter ≡ false)
      × (lookup user_id store.user_totp ≡ some next)
      × (lookup user_id s.user_totp ≡ some (record next { last_used_counter = some counter }))
unfolding verify_and_consume_totp
verify_and_consume_totp_lem config store s user_id factor code now h =
    let (secret, e, f) =
      bind_ok (totp_secret config user_id factor.encrypted_secret)
        (λ secret.
          consume_matched store user_id factor (matching_totp_counter config.prim secret code now))
        s h in
    go secret e (matching_totp_counter config.prim secret code now) refl f
  where
    go :
        (secret : Bytes)
        → totp_secret config user_id factor.encrypted_secret ≡ ok secret
        → (matched : Option ℕ) → matching_totp_counter config.prim secret code now ≡ matched
        → consume_matched store user_id factor matched ≡ ok s
        → (secret : Bytes) × (counter : ℕ) × (next : SecondFactor) × (totp_secret config user_id
              factor.encrypted_secret
            ≡ ok secret)
          × (matching_totp_counter config.prim secret code now ≡ some counter)
          × (is_replay factor.last_used_counter counter ≡ false)
          × (lookup user_id store.user_totp ≡ some next)
          × (lookup user_id s.user_totp ≡ some (record next { last_used_counter = some counter }))
    go secret e none m f = absurd (no_match store s user_id factor f)
    go secret e (some counter) m f =
        let (fresh, k) = matched_lem store s user_id factor counter f in
        let (next, there, put) = consume_totp_counter_lem store s user_id counter k in
        (secret, counter, next, e, m, fresh, there, put)

replayed :
    (config : Config) (store : Store) (user_id : String) (factor : SecondFactor) (secret : Bytes)
    (code : List ℕ) (now : Time) (counter last : ℕ)
    → totp_secret config user_id factor.encrypted_secret ≡ ok secret
    → matching_totp_counter config.prim secret code now ≡ some counter
    → factor.last_used_counter ≡ some last
    → counter ≤ last
    → verify_and_consume_totp config store user_id factor code now ≡ err totp_replay
unfolding verify_and_consume_totp consume_matched
replayed config store user_id factor secret code now counter last e m l le =
    let used : is_replay factor.last_used_counter counter ≡ true = rw l (ground arith) in
    rw (e, m, used) refl

-- A one-time code is accepted once: after a code was accepted, whatever calls of the service
-- follow, every code of the same secret whose counter is not after that one is refused as a
-- replay.
pub verify_and_consume_totp_once :
    (config : Config) (internal_cidrs : List (Address → Bool)) (service : Service) (s : Store)
    (requests : List (Env × Request)) (user_id : String) (factor : SecondFactor) (secret : Bytes)
    (code again : List ℕ) (now moment : Time) (counter counter' : ℕ)
    → lookup user_id service.store.user_totp ≡ some factor
    → totp_secret config user_id factor.encrypted_secret ≡ ok secret
    → matching_totp_counter config.prim secret code now ≡ some counter
    → verify_and_consume_totp config service.store user_id factor code now ≡ ok s
    → matching_totp_counter config.prim secret again moment ≡ some counter'
    → counter' ≤ counter
    → let later =
        (handle_all config internal_cidrs (record service { store = s }) requests).store in
      (next : SecondFactor) × (lookup user_id later.user_totp ≡ some next)
      × (verify_and_consume_totp config later user_id next again moment ≡ err totp_replay)
unfolding FactorsAdvance
verify_and_consume_totp_once config internal_cidrs service s requests user_id factor secret code
      again now moment counter counter' held e m h m' le =
    let (secret1, counter1, old, e1, m1, fresh, there, put) =
      verify_and_consume_totp_lem config service.store s user_id factor code now h in
    let same_secret : secret1 ≡ secret = ok_injective (sym e1 ∙ e) in
    let same_counter : counter1 ≡ counter = some_injective (sym m1 ∙ (rw same_secret m)) in
    let same_factor : old ≡ factor = some_injective (sym there ∙ held) in
    let (next, found, t) =
      (handle_all-Later config internal_cidrs (record service { store = s }) requests).factors
        user_id (record old { last_used_counter = some counter1 }) put in
    let (newer, last, ge) = t.last_used_counter counter1 refl in
    (
      next,
      found,
      replayed config _ user_id next secret again moment counter' newer
          (ap (totp_secret config user_id)
              (t.encrypted_secret ∙ ap (λ f. f.encrypted_secret) same_factor)
            ∙ e)
          m' last (omega (arith, same_counter)),
    )
