-- ===== src/Identity.antt =====
-- internal/identity/model.go: the principal of a session.
pub mod Totp
pub mod Tables
pub mod Passwords
pub mod Sessions
pub mod Login
pub mod Users
pub mod Bootstrap
pub mod Later
pub mod Owners
pub mod Keeps
pub mod Operations
pub mod Changes
pub mod Logins
pub mod Initial
pub mod Requests
pub mod Lifetimes
pub mod Revocation
pub mod Factors
pub mod FactorUsed
pub mod LoggedIn
pub mod LoggedOut
mod Examples
use opswarden.Prelude.{
  Bool, false, ◌||◌, String, if◌then◌else◌, ltb, Time, Duration, is_zero, before, time_sub,
}

-- 5 * time.Minute
abbrev pub recent_totp_lifetime : Duration
recent_totp_lifetime = 300000000000

pub record SessionPrincipal : Type 0 where
  pub user_id : String
  pub session_id : String
  pub issued_at : Time
  pub recent_totp_at : Time

unfoldable pub has_recent_totp : SessionPrincipal → Time → Bool
has_recent_totp p now =
    if is_zero p.recent_totp_at || before now p.recent_totp_at
    then false
    else ltb (time_sub now p.recent_totp_at) recent_totp_lifetime
