-- ===== src/Identity/Requests.antt =====
-- Any calls of the identity service, in any order; a call that changes the database is one
-- transaction on the writer's connection.
use opswarden.Prelude.{ℕ, ◌≡◌, sym, subst, arith, Bool, String, List, [], ◌∷◌, Option}
use opswarden.Authorization.{SystemRole}
use opswarden.Cryptobox.Bytes.{Bytes}
use opswarden.Identity.Sessions.{
  AuthenticationContext, Config, Env, resolve_session, verify_recent_totp,
  verify_recent_totp_audited, logout, logout_audited, revoke_all_sessions,
}
use opswarden.Identity.Login.{Service, begin_login, begin_login_of, put_challenge, complete_login}
use opswarden.Identity.Bootstrap.{Address, CreateOwnerInput, OwnerDraws, create_initial_owner}
use opswarden.Identity.Users.{change_system_role, reset_password}
use opswarden.Identity.Later.{HasOwner, Later, Later-refl, Later-trans}
use opswarden.Identity.Operations.{
  resolve_session-Later, verify_recent_totp-Later, verify_recent_totp_audited-Later, logout-Later,
  logout_audited-Later, revoke_all_sessions-Later,
}
use opswarden.Identity.Logins.{complete_login-Later}
use opswarden.Identity.Changes.{change_system_role-Later, reset_password-Later}
use opswarden.Identity.Initial.{create_initial_owner-Later}

-- A call, with what it reads from the random source.
pub data Request : Type 0 where
  creates_owner : CreateOwnerInput → OwnerDraws → Request
  begins : List ℕ → Bytes → Option Bytes → Option String → Request
  completes : String → List ℕ → Option String → Option String → Request
  resolves : String → Request
  reverifies : String → List ℕ → Request
  reverifies_audited : String → List ℕ → AuthenticationContext → Request
  logs_out : String → Request
  logs_out_audited : String → AuthenticationContext → Request
  revokes_all : String → Request
  changes_role : String → String → SystemRole → Request
  resets : String → Bytes → Option Bytes → Request

module _ (config : Config) (internal_cidrs : List (Address → Bool)) where
  unfoldable pub handle : Env → Service → Request → Service
  handle env service (creates_owner input draws) = record service {
    store = (create_initial_owner config internal_cidrs env service.store input draws).0;
  }
  handle env service (begins email password drawn_salt drawn_id) =
      (begin_login config service env.now email password drawn_salt drawn_id).0
  handle env service (completes challenge_id second_factor drawn_token drawn_id) =
      (complete_login config service challenge_id second_factor env.now drawn_token drawn_id).0
  handle env service (resolves raw_token) = record service {
    store = (resolve_session config env service.store raw_token).0;
  }
  handle env service (reverifies raw_token code) = record service {
    store = (verify_recent_totp config env service.store raw_token code).0;
  }
  handle env service (reverifies_audited raw_token code authentication) = record service {
    store = (verify_recent_totp_audited config env service.store raw_token code authentication).0;
  }
  handle env service (logs_out raw_token) = record service {
    store = (logout config env service.store raw_token).0;
  }
  handle env service (logs_out_audited raw_token authentication) = record service {
    store = (logout_audited config env service.store raw_token authentication).0;
  }
  handle env service (revokes_all user_id) = record service {
    store = (revoke_all_sessions env service.store user_id).0;
  }
  handle env service (changes_role raw_token user_id role) = record service {
    store = (change_system_role config env service.store raw_token user_id role).0;
  }
  handle env service (resets user_id password drawn_salt) =
      (reset_password config env service user_id password drawn_salt).0

  -- The calls with what each of them finds, the oldest first.
  unfoldable pub handle_all : Service → List (Env × Request) → Service
  handle_all service [] = service
  handle_all service ((env, request) ∷ rest) = handle_all (handle env service request) rest

  begin_login-store :
      (env : Env) (service : Service) (email : List ℕ) (password : Bytes)
      (drawn_salt : Option Bytes) (drawn_id : Option String)
      → (begin_login config service env.now email password drawn_salt drawn_id).0.store
        ≡ service.store
  unfolding begin_login begin_login_of put_challenge
  begin_login-store env service email password drawn_salt drawn_id = ground arith

  handle-Later :
      (env : Env) (service : Service) (request : Request)
      → Later service.store (handle env service request).store
  unfolding handle
  handle-Later env service (creates_owner input draws) =
      create_initial_owner-Later config env service.store internal_cidrs input draws
  handle-Later env service (begins email password drawn_salt drawn_id) =
      subst (Later service.store)
        (sym (begin_login-store env service email password drawn_salt drawn_id))
        (Later-refl service.store)
  handle-Later env service (completes challenge_id second_factor drawn_token drawn_id) =
      complete_login-Later config env service.store service.challenges challenge_id second_factor
        env.now drawn_token drawn_id
  handle-Later env service (resolves raw_token) =
      resolve_session-Later config env service.store raw_token
  handle-Later env service (reverifies raw_token code) =
      verify_recent_totp-Later config env service.store raw_token code
  handle-Later env service (reverifies_audited raw_token code authentication) =
      verify_recent_totp_audited-Later config env service.store raw_token code authentication
  handle-Later env service (logs_out raw_token) = logout-Later config env service.store raw_token
  handle-Later env service (logs_out_audited raw_token authentication) =
      logout_audited-Later config env service.store raw_token authentication
  handle-Later env service (revokes_all user_id) =
      revoke_all_sessions-Later config env service.store user_id
  handle-Later env service (changes_role raw_token user_id role) =
      change_system_role-Later config env service.store raw_token user_id role
  handle-Later env service (resets user_id password drawn_salt) =
      reset_password-Later config env service.store service.challenges user_id password drawn_salt

  pub handle_all-Later :
      (service : Service) (requests : List (Env × Request))
      → Later service.store (handle_all service requests).store
  unfolding handle_all
  handle_all-Later service [] = Later-refl service.store
  handle_all-Later service ((env, request) ∷ rest) =
      let next = handle env service request in
      Later-trans service.store next.store (handle_all next rest).store
        (handle-Later env service request) (handle_all-Later next rest)

  -- Whatever calls of the identity service come, in any order, and whatever fails in them, users
  -- that are kept once by their identifiers and have a System Owner who is not deleted keep both.
  pub handle_all-HasOwner :
      (service : Service) (requests : List (Env × Request))
      → HasOwner service.store.users
      → HasOwner (handle_all service requests).store.users
  handle_all-HasOwner service requests h = (handle_all-Later service requests).owner h
