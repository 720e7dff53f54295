-- ===== src/Identity/Bootstrap.antt =====
-- internal/identity/service.go and repository.go: the initial owner.
use opswarden.Outcomes.{ok, err, required, unless, with_tx, ◌>>=◌}
use opswarden.Prelude.{
  ℕ, ◌&&◌, ◌||◌, Bool, true, false, not, String, List, [], ◌∷◌, Option, none, some, if◌then◌else◌,
  any, ltb, Dict, lookup, insert, str_eq, length, codes, utf8_length,
}
use opswarden.Authorization.{system_owner}
use opswarden.Cryptobox.Bytes.{Bytes}
use opswarden.Cryptobox.Codec.{marshal_envelope}
use opswarden.Cryptobox.Box as Box
use opswarden.Identity.Totp.{
  hash_name, fingerprint, normalize_totp_secret, decode_totp_secret, normalize_recovery_code,
}
use opswarden.Identity.Tables.{
  is_nil, owner_source_denied, owner_exists, invalid_owner_input, random_failed, secret_failed,
  storage_failed, Result, User, SecondFactor, RecoveryCode, Event, Store,
}
use opswarden.Identity.Passwords.{hash_password}
use opswarden.Identity.Sessions.{Config, Env, login_totp_purpose, append_event}
use opswarden.Identity.Login.{normalize_email}

-- netip.Addr, unmapped, and netip.Prefix by its Contains
pub record Address : Type 0 where
  pub is_valid : Bool
  pub is_loopback : Bool
  pub text : String

unfoldable pub initial_owner_source_allowed : List (Address → Bool) → Address → Bool
initial_owner_source_allowed internal_cidrs address =
    if not address.is_valid
    then false
    else if address.is_loopback
    then true
    else any (λ contains. contains address) internal_cidrs

pub record CreateOwnerInput : Type 0 where
  pub email : List ℕ
  pub password : Bytes
  pub totp_seed : Bytes
  pub source_ip : Address
  pub request_id : String
  pub user_agent : String

abbrev pub bad_seed : Option Bytes → Bool
bad_seed none = true
bad_seed (some seed) = is_nil seed

-- ValidateInitialOwnerInput(input) == nil
unfoldable pub owner_input_valid : Config → CreateOwnerInput → Bool
unfolding decode_totp_secret
owner_input_valid config input =
    not (
      is_nil (normalize_email config (config.prim.trim_space input.email))
      || (ltb 320 (utf8_length (config.prim.trim_space input.email))
          || (is_nil input.password
              || (ltb 1024 (length input.password) || ltb 256 (length input.totp_seed)))))
    && not (bad_seed (decode_totp_secret config.prim input.totp_seed))

-- What the random source gives: identifiers, the salt, the box's draws, and the recovery codes with
-- their identifiers.
pub record OwnerDraws : Type 0 where
  pub user_id : Option String
  pub salt : Option Bytes
  pub box : Box.Draws
  pub recovery_codes : List (Option (List ℕ) × Option String)
  pub audit_id : Option String

-- The envelope of the seed, encoded.
unfoldable pub encrypted_totp : Config → String → Bytes → Box.Draws → Result Bytes
encrypted_totp config user_id totp_seed draws =
    elim (Box.encrypt_identity config.prim.aead config.master_key
      (record { user_id = codes user_id; purpose = login_totp_purpose })
      (normalize_totp_secret config.prim totp_seed) draws) [
        | Box.err e ↦ err secret_failed
        | Box.ok envelope ↦ elim (marshal_envelope config.prim.aead.sizes envelope) [
          | none ↦ err secret_failed
          | some encoded ↦ ok encoded
        ]
      ]

-- The loop that draws the recovery codes: the rows of the table.
unfoldable pub recovery_rows :
    Config → String → List (Option (List ℕ) × Option String) → Result (List RecoveryCode)
recovery_rows config user_id [] = ok []
recovery_rows config user_id (draw ∷ rest) =
    let later = recovery_rows config user_id rest in
    elim draw.0 [
      | none ↦ err random_failed
      | some code ↦ elim draw.1 [
        | none ↦ err random_failed
        | some id ↦ elim later [
          | err e ↦ err e
          | ok rows ↦ ok (
              record {
                id = id;
                user_id = user_id;
                code_hash = hash_name config.prim (normalize_recovery_code config.prim code);
                used_at = none;
              }
              ∷ rows)
        ]
      ]
    ]

abbrev pub no_users : Dict User → Bool
no_users [] = true
no_users (entry ∷ rest) = false

-- INSERT INTO recovery_codes: identifiers are unique, and hashes of one user.
unfoldable pub insert_codes : List RecoveryCode → List RecoveryCode → Result (List RecoveryCode)
insert_codes [] table = ok table
insert_codes (row ∷ rows) table = do
  later ← insert_codes rows table
  unless
      (any
        (λ other.
          str_eq other.id row.id
          || (str_eq other.user_id row.user_id && str_eq other.code_hash row.code_hash))
        later)
      storage_failed (ok (row ∷ later))

-- INSERT INTO user_totp: a user has one second factor.
unfoldable pub insert_second_factor :
    String → SecondFactor → Dict SecondFactor → Result (Dict SecondFactor)
insert_second_factor user_id factor table = elim (lookup user_id table) [
  | none ↦ ok (insert user_id factor table)
  | some other ↦ err storage_failed
]

-- The closure `beforeCommit`, which appends an event if the service is audited.
unfoldable pub append_owner_event : Bool → Env → Store → Event → Result Store
unfolding append_event
append_owner_event true env store event = append_event env store event
append_owner_event false env store event = ok store

-- createInitialOwner
unfoldable pub create_initial_owner_tx :
    Config
    → Env
    → Store
    → String
    → User
    → Bytes
    → List RecoveryCode
    → Event
    → Result (Store × Unit {0})
unfolding append_owner_event insert_second_factor insert_codes
create_initial_owner_tx config env store user_id user encrypted rows event =
    unless (not (no_users store.users)) owner_exists (do
      factors ←
          insert_second_factor user_id
            (record { encrypted_secret = encrypted; last_used_counter = none }) store.user_totp
      recovery_codes ← insert_codes rows store.recovery_codes
      s ←
          append_owner_event config.is_audited env
            (record store {
              users = insert user_id user store.users;
              user_totp = factors;
              recovery_codes = recovery_codes;
            })
            event
      ok (s, tt))

abbrev pub owner_event : Config → Env → CreateOwnerInput → String → String → Event
owner_event config env input id user_id = record {
  id = id;
  request_id = input.request_id;
  created_at = env.now;
  actor_id = user_id;
  fingerprint = fingerprint config.prim (codes "opswarden/bootstrap/v1");
  action = "identity.initial_owner.create";
  resource_id = user_id;
  source_ip = input.source_ip.text;
  user_agent = input.user_agent;
  change_fields = "system_role" ∷ [];
}

-- CreateInitialOwner behind hasUsers.
unfoldable pub create_initial_owner_drawn :
    Config → Env → Store → CreateOwnerInput → OwnerDraws → Result (Store × Unit {0})
unfolding required hash_password encrypted_totp recovery_rows create_initial_owner_tx
create_initial_owner_drawn config env store input draws = do
  user_id ← required random_failed draws.user_id
  password_hash ← hash_password config.prim draws.salt input.password
  encrypted ← encrypted_totp config user_id input.totp_seed draws.box
  rows ← recovery_rows config user_id draws.recovery_codes
  audit_id ← required random_failed draws.audit_id
  create_initial_owner_tx config env store user_id
      (record {
        email = config.prim.trim_space input.email;
        normalized_email = normalize_email config (config.prim.trim_space input.email);
        password_hash = password_hash;
        system_role = system_owner;
        is_deleted = false;
      })
      encrypted rows (owner_event config env input audit_id user_id)

-- CreateInitialOwner behind its guards on the input. The first check of the users is a read of its
-- own, and the transaction repeats it.
unfoldable pub create_initial_owner_from :
    Config → Env → Store → CreateOwnerInput → OwnerDraws → Result (Store × Unit {0})
unfolding create_initial_owner_drawn
create_initial_owner_from config env store input draws =
    unless (not (no_users store.users)) owner_exists
      (create_initial_owner_drawn config env store input draws)

unfoldable pub create_initial_owner :
    Config
    → List (Address → Bool)
    → Env
    → Store
    → CreateOwnerInput
    → OwnerDraws
    → Store × Result (Unit {0})
unfolding initial_owner_source_allowed owner_input_valid create_initial_owner_from
create_initial_owner config internal_cidrs env store input draws =
    if not (initial_owner_source_allowed internal_cidrs input.source_ip)
    then (store, err owner_source_denied)
    else if not (owner_input_valid config input)
    then (store, err invalid_owner_input)
    else with_tx store (create_initial_owner_from config env store input draws)
