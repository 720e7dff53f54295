-- ===== src/Identity/Login.antt =====
-- internal/identity/service.go: the two steps of a login, changes of roles, and password resets.
use opswarden.Outcomes.{ok, err, required, unless, with_tx, ◌>>=◌}
use opswarden.Prelude.{
  ℕ, ◌+◌, ◌||◌, Bool, true, false, not, String, List, [], ◌∷◌, Option, none, some, if◌then◌else◌,
  any, before, Dict, lookup, insert, delete, str_eq, Time, Duration,
}
use opswarden.Cryptobox.Bytes.{Bytes}
use opswarden.Cryptobox.Codec.{bytes_equal}
use opswarden.Identity.Totp.{hash_name, is_totp_code, normalize_recovery_code}
use opswarden.Identity.Tables.{
  invalid_credentials, invalid_challenge, random_failed, storage_failed, Result, User, SecondFactor,
  SessionRow, Store, active_user, find_user_by_normalized_email, consume_recovery_code,
}
use opswarden.Identity.Passwords.{verify_password, hash_password}
use opswarden.Identity.Sessions.{
  Config, verify_and_consume_totp, token_hash, session_idle_lifetime, session_absolute_lifetime,
}

-- 5 * time.Minute
abbrev pub login_challenge_lifetime : Duration
login_challenge_lifetime = 300000000000

-- loginChallengeState; no upgraded hash is an empty one.
pub record Challenge : Type 0 where
  pub user_id : String
  pub expires_at : Time
  pub password_hash : Bytes
  pub upgraded_password_hash : Bytes

-- The database and the challenges that the service holds, by their identifiers.
pub record Service : Type 0 where
  pub store : Store
  pub challenges : Dict Challenge

abbrev pub normalize_email : Config → List ℕ → List ℕ
normalize_email config email = config.prim.to_lower (config.prim.trim_space email)

-- removeExpiredChallengesLocked
unfoldable pub remove_expired_challenges : Time → Dict Challenge → Dict Challenge
remove_expired_challenges now [] = []
remove_expired_challenges now (entry ∷ rest) =
    let kept = remove_expired_challenges now rest in
    if before now entry.1.expires_at then entry ∷ kept else kept

-- An upgrade of the hash if its parameters are not the current ones.
unfoldable pub upgraded_hash : Config → Bool → Option Bytes → Bytes → Result Bytes
unfolding hash_password
upgraded_hash config true drawn_salt password = ok []
upgraded_hash config false drawn_salt password = hash_password config.prim drawn_salt password

unfoldable pub put_challenge : Service → Time → String → Challenge → Service
unfolding remove_expired_challenges
put_challenge service now id challenge = record service {
  challenges = insert id challenge (remove_expired_challenges now service.challenges);
}

-- BeginLogin behind the read of the user; the challenge's identifier and its expiry.
unfoldable pub begin_login_of :
    Config
    → Service
    → Time
    → String
    → User
    → Bytes
    → Option Bytes
    → Option String
    → Service × Result (String × Time)
unfolding verify_password upgraded_hash put_challenge
begin_login_of config service now user_id user password drawn_salt drawn_id =
    let verified = verify_password config.prim user.password_hash password in
    if not verified.0
    then (service, err invalid_credentials)
    else elim (upgraded_hash config verified.1 drawn_salt password) [
      | err e ↦ (service, err e)
      | ok upgraded ↦ elim drawn_id [
        | none ↦ (service, err random_failed)
        | some id ↦ (
          put_challenge service now id (record {
            user_id = user_id;
            expires_at = now + login_challenge_lifetime;
            password_hash = user.password_hash;
            upgraded_password_hash = upgraded;
          }),
          ok (id, now + login_challenge_lifetime),
        )
      ]
    ]

-- The last two arguments are the reads of a salt and of the challenge's identifier. The check
-- against the dummy hash has no effect on the result.
unfoldable pub begin_login :
    Config
    → Service
    → Time
    → List ℕ
    → Bytes
    → Option Bytes
    → Option String
    → Service × Result (String × Time)
unfolding begin_login_of
begin_login config service now email password drawn_salt drawn_id =
    elim (find_user_by_normalized_email (bytes_equal (normalize_email config email))
      service.store.users) [
        | none ↦ (service, err invalid_credentials)
        | some found ↦
            begin_login_of config service now found.0 found.1 password drawn_salt drawn_id
      ]

-- The closure `verify` of CompleteLogin.
unfoldable pub verify_second_factor :
    Config → Store → String → SecondFactor → List ℕ → Time → Result Store
unfolding is_totp_code verify_and_consume_totp consume_recovery_code
verify_second_factor config store user_id factor second_factor now =
    if is_totp_code second_factor
    then verify_and_consume_totp config store user_id factor second_factor now
    else consume_recovery_code store user_id
        (hash_name config.prim (normalize_recovery_code config.prim second_factor)) now

-- UPDATE users SET password_hash = ? WHERE id = ?, if there is an upgraded hash
unfoldable pub upgrade_password : Store → String → Bytes → Store
upgrade_password store user_id [] = store
upgrade_password store user_id (byte ∷ rest) = elim (lookup user_id store.users) [
  | none ↦ store
  | some user ↦ record store {
    users = insert user_id (record user { password_hash = byte ∷ rest }) store.users;
  }
]

-- INSERT INTO sessions; the identifier and the hash of the token are unique.
unfoldable pub insert_session : Store → String → SessionRow → Result Store
insert_session store hash session =
    unless (any (λ entry. str_eq entry.0 hash || str_eq entry.1.id session.id) store.sessions)
      storage_failed (ok (record store { sessions = insert hash session store.sessions }))

abbrev pub new_session : Time → String → String → Bool → SessionRow
new_session now id user_id recent_totp = record {
  id = id;
  user_id = user_id;
  created_at = now;
  expires_at = now + session_absolute_lifetime;
  idle_expires_at = now + session_idle_lifetime;
  revoked_at = none;
  recent_totp_at = if recent_totp then some now else none;
}

-- completeLogin behind the reads of the user and the second factor.
unfoldable pub complete_login_from :
    Config
    → Store
    → Challenge
    → SecondFactor
    → List ℕ
    → Time
    → String
    → String
    → Result (Store × Unit {0})
unfolding verify_second_factor upgrade_password insert_session is_totp_code
complete_login_from config store challenge factor second_factor now raw_token session_id = do
  s ← verify_second_factor config store challenge.user_id factor second_factor now
  t ←
      insert_session (upgrade_password s challenge.user_id challenge.upgraded_password_hash)
        (token_hash config raw_token)
        (new_session now session_id challenge.user_id (is_totp_code second_factor))
  ok (t, tt)

unfoldable pub complete_login_tx :
    Config → Store → Challenge → List ℕ → Time → String → String → Result (Store × Unit {0})
unfolding active_user complete_login_from required
complete_login_tx config store challenge second_factor now raw_token session_id = do
  user ← required invalid_challenge (active_user store.users challenge.user_id)
  unless (not (bytes_equal user.password_hash challenge.password_hash)) invalid_challenge (do
    factor ← required invalid_credentials (lookup challenge.user_id store.user_totp)
    complete_login_from config store challenge factor second_factor now raw_token session_id)

-- CompleteLogin behind consumeChallenge, on a service that the challenge is taken from. The last
-- two arguments are the reads of the token and of the session's identifier.
unfoldable pub complete_login_with :
    Config
    → Service
    → Challenge
    → List ℕ
    → Time
    → Option String
    → Option String
    → Service × Result (Unit {0})
unfolding complete_login_tx
complete_login_with config service challenge second_factor now drawn_token drawn_id =
    if not (before now challenge.expires_at)
    then (service, err invalid_challenge)
    else elim drawn_token [
      | none ↦ (service, err random_failed)
      | some raw_token ↦ elim drawn_id [
        | none ↦ (service, err random_failed)
        | some session_id ↦
            let done = with_tx service.store (
              complete_login_tx config service.store challenge second_factor now raw_token
                session_id) in
            (record service { store = done.0 }, done.1)
      ]
    ]

-- CompleteLogin with consumeChallenge, which takes the challenge whatever follows.
unfoldable pub complete_login :
    Config
    → Service
    → String
    → List ℕ
    → Time
    → Option String
    → Option String
    → Service × Result (Unit {0})
unfolding complete_login_with
complete_login config service challenge_id second_factor now drawn_token drawn_id =
    elim (lookup challenge_id service.challenges) [
      | none ↦ (service, err invalid_challenge)
      | some challenge ↦
          complete_login_with config
            (record service { challenges = delete challenge_id service.challenges }) challenge
            second_factor now drawn_token drawn_id
    ]
