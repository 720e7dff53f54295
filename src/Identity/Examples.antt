-- ===== src/Identity/Examples.antt =====
-- A service with one owner, on which the properties of the identity service are applied.
use opswarden.Outcomes.{err, required}
use opswarden.Prelude.{
  ℕ, zero, suc, ◌+◌, ◌-◌, ◌*◌, ◌≡◌, ◌≢◌, inr, refl, arith, true, false, List, [], ◌∷◌, Option, none,
  some, length, All, lookup, insert, delete, Time, second, ap,
}
use opswarden.Authorization.{system_owner, system_admin}
use opswarden.Cryptobox.Bytes.{Bytes, u32_value}
use opswarden.Cryptobox.Codec.{unmarshal_envelope, read_envelope, read_field, finish}
use opswarden.Cryptobox.Box as Box
use opswarden.Identity.Totp.{
  Primitives, unix_epoch, is_totp_code, decode_totp_secret, totp_code, better_match, match_counters,
  totp_counters, matching_totp_counter,
}
use opswarden.Identity.Tables.{
  User, SecondFactor, SessionRow, Store, active_user, query_session, live_session, update_sessions,
  revoke_user_sessions, consume_totp_counter, principal_from_session, session_revoked, totp_replay,
}
use opswarden.Identity.Passwords.{dollar, hash_password, verify_password, encode_password_hash}
use opswarden.Identity.Passwords.RoundTrip.{PrimitivesLawful, verify-hash_password}
use opswarden.Identity.Sessions.{
  Config, Env, totp_secret, consume_matched, verify_and_consume_totp, resolve_session,
  resolve_session_tx, refresh_idle, AuthenticationContext, logout_audited, logout_audited_tx,
  append_event, session_event, revoke_session,
}
use opswarden.Identity.Login.{
  Service, complete_login, complete_login_with, complete_login_tx, complete_login_from,
  verify_second_factor, upgrade_password, insert_session, new_session,
}
use opswarden.Identity.Users.{reset_password, reset_password_tx, update_active_user}
use opswarden.Identity.Later.{HasOwner}
use opswarden.Identity.Requests.{
  Request, resolves, begins, changes_role, handle_all, handle_all-HasOwner,
}
use opswarden.Identity.Lifetimes.{WasSession, resolve_session-WasSession}
use opswarden.Identity.Revocation.{reset_password-resolve_session}
use opswarden.Identity.LoggedOut.{
  LoggedOut, LoggedOutIf, logout_audited-LoggedOut, logout-resolve_session,
}
use opswarden.Identity.Factors.{verify_and_consume_totp_once}
use opswarden.Identity.LoggedIn.{LoggedIn, complete_login-LoggedIn}

abbrev open_plain : Bytes → Bytes → Bytes → Bytes → Option Bytes
open_plain key nonce [] aad = none
open_plain key nonce (b ∷ text) aad = some text

abbrev plain : Box.Aead
plain = record {
  sizes = record { overhead = 1; key_size = 2; nonce_size = 1 };
  seal = λ key nonce text aad. 0 ∷ text;
  open_sealed = open_plain;
  open-seal = λ key nonce text aad h h'. refl;
  length-seal = λ key nonce text aad. omega arith;
}

abbrev zeros : ℕ → Bytes
zeros zero = []
zeros (suc n) = 0 ∷ zeros n

length-zeros : (n : ℕ) → length (zeros n) ≡ n
length-zeros zero = refl
length-zeros (suc n) = omega (arith, length-zeros n)

-- No byte of an encoding is a '$'.
abbrev shifted : Bytes → Bytes
shifted [] = []
shifted (b ∷ bytes) = (b + 37) ∷ shifted bytes

abbrev unshifted : Bytes → Bytes
unshifted [] = []
unshifted (b ∷ bytes) = (b - 37) ∷ unshifted bytes

unshifted-shifted : (bytes : Bytes) → unshifted (shifted bytes) ≡ bytes
unshifted-shifted [] = refl
unshifted-shifted (b ∷ bytes) =
    let back : b + 37 - 37 ≡ b = omega arith in rw (back, unshifted-shifted bytes) refl

shifted_alphabet : (bytes : Bytes) → All (λ byte. byte ≢ dollar) (shifted bytes)
shifted_alphabet [] = tt
shifted_alphabet (b ∷ bytes) = (λ e. omega arith, shifted_alphabet bytes)

abbrev prim : Primitives
prim = record {
  aead = plain;
  hmac_sha1 = λ key message. zeros 20;
  length-hmac_sha1 = λ key message. refl;
  sha256 = λ text. [];
  hex = λ hash. "h";
  base32_decode = λ text. some text;
  base64_decode = λ text. some (unshifted text);
  base64_encode = shifted;
  to_upper = λ text. text;
  to_lower = λ text. text;
  trim_space = λ text. text;
  kdf = λ password salt n. zeros n;
}

prim-Lawful : PrimitivesLawful prim
prim-Lawful = record {
  decode-encode = λ bytes. ap some (unshifted-shifted bytes);
  encode_alphabet = shifted_alphabet;
  length-kdf = λ password salt n. length-zeros n;
}

abbrev config : Config
config = record { prim = prim; master_key = 1 ∷ 2 ∷ []; is_audited = true }

abbrev now : Time
now = (unix_epoch + 3000) * second

abbrev env : Env
env = record { now = now; drawn_event_id = some "aud_1"; appends = true }

-- The header, and the sealed secret and key with their lengths.
abbrev encoded : Bytes
encoded =
    79 ∷ 87 ∷ 69 ∷ 78 ∷ 1 ∷ 0 ∷ 0 ∷ 0 ∷ 2 ∷ 0 ∷ 65 ∷ 0 ∷ 0 ∷ 0 ∷ 1 ∷ 5 ∷ 0 ∷ 0 ∷ 0 ∷ 3 ∷ 0 ∷ 3 ∷ 4
    ∷ 0 ∷ 0 ∷ 0 ∷ 1 ∷ 6 ∷ []

abbrev code : List ℕ
code = 48 ∷ 48 ∷ 48 ∷ 48 ∷ 48 ∷ 48 ∷ []

verify-hash_password_example :
    verify_password prim (encode_password_hash prim (zeros 16) (zeros 32)) (104 ∷ []) ≡ (true, true)
unfolding hash_password
verify-hash_password_example =
    verify-hash_password prim (zeros 16) (104 ∷ [])
      (encode_password_hash prim (zeros 16) (zeros 32)) prim-Lawful refl refl

abbrev ann : User
ann = record {
  email = 97 ∷ [];
  normalized_email = 97 ∷ [];
  password_hash = 1 ∷ [];
  system_role = system_owner;
  is_deleted = false;
}

abbrev factor : SecondFactor
factor = record { encrypted_secret = encoded; last_used_counter = some 99 }

abbrev store : Store
store = record {
  users = ("ann", ann) ∷ ("bob", record ann { normalized_email = 98 ∷ [] }) ∷ [];
  user_totp = ("ann", factor) ∷ [];
  recovery_codes = [];
  sessions = [];
  audit = [];
}

abbrev spent : Store
spent = record store { user_totp = ("ann", record factor { last_used_counter = some 101 }) ∷ [] }

abbrev service : Service
service = record {
  store = store;
  challenges =
      (
        "c1",
        record {
          user_id = "ann";
          expires_at = now + 1;
          password_hash = 1 ∷ [];
          upgraded_password_hash = [];
        },
      )
      ∷ [];
}

abbrev session : SessionRow
session = new_session now "s1" "ann" true

abbrev after : Service
after = record { store = record spent { sessions = ("h", session) ∷ [] }; challenges = [] }

complete_login-LoggedIn_example : LoggedIn config service after "c1" code now "tok" "s1"
unfolding complete_login lookup insert delete Box.decrypt_identity Box.decrypt_envelope
    Box.unwrap_data_key Box.decrypt_payload Box.new_x Box.checked_key Box.opened read_envelope
    read_field u32_value finish complete_login_with complete_login_tx active_user required
    complete_login_from verify_second_factor is_totp_code verify_and_consume_totp totp_secret
    unmarshal_envelope decode_totp_secret consume_matched matching_totp_counter match_counters
    better_match totp_code totp_counters consume_totp_counter upgrade_password insert_session
complete_login-LoggedIn_example =
    complete_login-LoggedIn config service after "c1" code now "tok" "s1" refl

resolve_session-WasSession_example :
    WasSession session now
      (record { user_id = "ann"; session_id = "s1"; issued_at = now; recent_totp_at = now })
unfolding handle_all resolve_session resolve_session_tx live_session query_session required
    principal_from_session refresh_idle update_sessions lookup
resolve_session-WasSession_example =
    resolve_session-WasSession config [] after [] env "tok" session
      (record { user_id = "ann"; session_id = "s1"; issued_at = now; recent_totp_at = now }) refl
      refl

abbrev reset : Service
reset = record {
  store = record spent {
    users =
        ("ann", record ann { password_hash = encode_password_hash prim (zeros 16) (zeros 32) })
        ∷ ("bob", record ann { normalized_email = 98 ∷ [] })
        ∷ [];
    sessions = ("h", record session { revoked_at = some now }) ∷ [];
  };
  challenges = [];
}

abbrev requests : List (Env × Request)
requests = (env, begins (97 ∷ []) (104 ∷ []) none none) ∷ (env, resolves "tok") ∷ []

reset_password-resolve_session_example :
    let later = (handle_all config [] reset requests).store in
    resolve_session config env later "tok" ≡ (later, err session_revoked)
unfolding reset_password hash_password reset_password_tx update_active_user active_user required
    revoke_user_sessions update_sessions lookup insert
reset_password-resolve_session_example =
    reset_password-resolve_session config [] after reset "ann" (104 ∷ []) (some (zeros 16)) requests
      env env "tok" session refl refl refl refl

abbrev context : AuthenticationContext
context = record { request_id = "r1"; source_ip = "10.0.0.1"; user_agent = "" }

abbrev logged_out : Store
logged_out = (logout_audited config env after.store "tok" context).0

logout_audited-LoggedOut_example : LoggedOut config env after.store logged_out "tok" context
unfolding LoggedOutIf logout_audited logout_audited_tx live_session query_session required
    revoke_session append_event session_event lookup insert
logout_audited-LoggedOut_example = logout_audited-LoggedOut config env after.store "tok" context

logout-resolve_session_example :
    let later = (handle_all config [] (record after { store = logged_out }) requests).store in
    resolve_session config env later "tok" ≡ (later, err session_revoked)
unfolding LoggedOutIf logout_audited logout_audited_tx live_session query_session required
    revoke_session append_event session_event lookup insert
logout-resolve_session_example =
    logout-resolve_session config [] after logged_out context requests env env "tok" session
      (inr refl) refl refl

verify_and_consume_totp_once_example :
    let later = (handle_all config [] (record service { store = spent }) requests).store in
    (next : SecondFactor) × (lookup "ann" later.user_totp ≡ some next)
    × (verify_and_consume_totp config later "ann" next code now ≡ err totp_replay)
unfolding lookup insert Box.decrypt_identity Box.decrypt_envelope Box.unwrap_data_key
    Box.decrypt_payload Box.new_x Box.checked_key Box.opened read_envelope read_field u32_value
    finish verify_and_consume_totp totp_secret unmarshal_envelope decode_totp_secret consume_matched
    matching_totp_counter match_counters better_match totp_code totp_counters consume_totp_counter
verify_and_consume_totp_once_example =
    verify_and_consume_totp_once config [] service spent requests "ann" factor (65 ∷ []) code code
      now now 101 101 refl refl refl refl refl (omega arith)

handle_all-HasOwner_example :
    HasOwner
      (handle_all config [] after ((env, changes_role "tok" "ann" system_admin) ∷ [])).store.users
unfolding HasOwner lookup
handle_all-HasOwner_example =
    handle_all-HasOwner config [] after ((env, changes_role "tok" "ann" system_admin) ∷ [])
      ((refl, (refl, tt)), ("ann", ann, refl, refl))
