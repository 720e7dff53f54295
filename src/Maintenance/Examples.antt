-- ===== src/Maintenance/Examples.antt =====
-- A session that ends half a second after the clean-up, which removes it.
use opswarden.Prelude.{◌≡◌, refl, ℕ, ◌*◌, ◌+◌, arith, [], ◌∷◌, none, lookup, second}
use opswarden.Cryptobox.Bytes.{Bytes}
use opswarden.Identity.Tables.{SessionRow}
use opswarden.Maintenance.{State, cleanup_expired_state}
use opswarden.Maintenance.Texts.{DateLawful, has_passed}
use opswarden.Maintenance.Cleanup.{lookup-cleanup_expired_state, is_over}

-- The seconds as one symbol.
abbrev date : ℕ → Bytes
date seconds = seconds ∷ []

date-DateLawful : DateLawful date
date-DateLawful = record {
  size = 1;
  length-date = λ seconds. refl;
  in_order = λ a b h. (ground arith, ground arith);
}

abbrev session : SessionRow
session = record {
  id = "s";
  user_id = "u";
  created_at = 0;
  expires_at = 10 * second + 500000000;
  idle_expires_at = 20 * second;
  revoked_at = none;
  recent_totp_at = none;
}

abbrev state : State
state = record {
  sessions = ("h", session) ∷ [];
  idempotency_records = [];
  human_agent_records = [];
}

lookup-cleanup_expired_state_example :
    lookup "h" (cleanup_expired_state date state (10 * second)).sessions ≡ none
unfolding lookup is_over has_passed
lookup-cleanup_expired_state_example =
    lookup-cleanup_expired_state date date-DateLawful state (10 * second) "h" session (refl, tt)
      refl
