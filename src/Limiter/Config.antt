-- ===== src/Limiter/Config.antt =====
-- The configuration of internal/agents/limiter.go. Refill rates are in 1/60 token a second, which are
-- units a nanosecond.
use opswarden.Prelude.{
  ℕ, ◌+◌, ◌-◌, ◌*◌, ◌/◌, String, List, [], ◌∷◌, Duration, max_duration, ltb, if◌then◌else◌, min,
  Dict, lookup, is_zero, minute, some, none,
}

-- One token, in units.
abbrev pub token : ℕ
token = 60000000000

-- math.Ceil(a / b)
abbrev pub ceil_div : ℕ → ℕ → ℕ
ceil_div a b = (a + (b - 1)) / b

pub record Defaults : Type 0 where
  pub operation : String
  pub capacity : ℕ
  pub refill : ℕ

abbrev row : String → ℕ → ℕ → Defaults
row operation capacity refill = record {
  operation = operation;
  capacity = capacity;
  refill = refill;
}

-- allOperations with defaultCapacity and defaultRefill.
abbrev pub defaults : List Defaults
defaults =
    row "auth_failure" 5 1
    ∷ row "bootstrap" 2 1
    ∷ row "login_source" 20 10
    ∷ row "reverify_source" 10 2
    ∷ row "reverify_principal" 5 1
    ∷ row "human_request_read_source" 200 600
    ∷ row "human_request_write_source" 200 600
    ∷ row "agent_request_read_source" 200 600
    ∷ row "agent_request_write_source" 200 600
    ∷ row "human_credential_list_source" 200 600
    ∷ row "human_credential_read_source" 200 600
    ∷ row "human_credential_write_source" 200 600
    ∷ row "agent_credential_list_source" 200 600
    ∷ row "agent_credential_read_source" 200 600
    ∷ row "agent_credential_write_source" 200 600
    ∷ row "human_request_read" 120 120
    ∷ row "human_request_write" 60 60
    ∷ row "agent_request_read" 120 120
    ∷ row "agent_request_write" 60 60
    ∷ row "human_credential_list" 60 60
    ∷ row "human_credential_read" 30 30
    ∷ row "human_credential_write" 20 20
    ∷ row "agent_credential_list" 60 60
    ∷ row "agent_credential_read" 30 30
    ∷ row "agent_credential_write" 20 20
    ∷ []

-- How long an empty bucket takes to fill.
unfoldable pub natural_recovery_duration : ℕ → ℕ → Duration
natural_recovery_duration capacity refill = min (ceil_div capacity refill) max_duration

-- LimiterConfig. What is not positive, or not there, is 0, and stands for the default.
pub record LimiterConfig : Type 0 where
  pub capacity : Dict ℕ
  pub refill : Dict ℕ
  pub max_subjects : ℕ
  pub generation_ttl : Duration

abbrev pub or_default : ℕ → ℕ → ℕ
or_default n default = if is_zero n then default else n

-- A Go map read: a key that is not there reads as 0.
abbrev pub setting : Dict ℕ → String → ℕ
setting settings operation = elim (lookup operation settings) [ none ↦ 0 | some n ↦ n ]

abbrev pub max_of : ℕ → ℕ → ℕ
max_of m n = if ltb m n then n else m

abbrev pub capacity_of : LimiterConfig → Defaults → ℕ
capacity_of config d = or_default (setting config.capacity d.operation) d.capacity * token

abbrev pub refill_of : LimiterConfig → Defaults → ℕ
refill_of config d = or_default (setting config.refill d.operation) d.refill

abbrev pub generation_ttl_of : LimiterConfig → Defaults → Duration
generation_ttl_of config d =
    max_of (or_default config.generation_ttl (15 * minute))
      (natural_recovery_duration (capacity_of config d) (refill_of config d))
