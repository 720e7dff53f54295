-- ===== src/FailureGate.antt =====
-- internal/httpapi/auth_failure_gate.go: how many authentication failures are written to the audit
-- log one by one, and how many are only counted. The receiver of a method is not nil; the mutex makes
-- each call one step.
pub mod Window
pub mod Operation
pub mod Accounting
pub mod Gate
mod Examples
use opswarden.Prelude.{
  ℕ, ◌+◌, ◌-◌, ◌%◌, ◌^◌, Bool, true, false, ◌||◌, String, List, [], ◌∷◌, Option, none, some, leb,
  ltb, if◌then◌else◌, Dict, lookup, insert, length, any, str_eq, Time, Duration, second, minute,
  is_zero, before, time_sub,
}

abbrev pub failure_window : Duration
failure_window = minute

abbrev pub per_key_limit : ℕ
per_key_limit = 5

abbrev pub durable_limit : ℕ
durable_limit = 32

abbrev pub max_keys : ℕ
max_keys = 4096

abbrev pub other_operation : String
other_operation = "auth.other"

-- `entries` holds bytes, `durable_rows` an int that stays small, `suppressed` a uint64.
pub record OperationState : Type 0 where
  pub window_start : Time
  pub entries : Dict ℕ
  pub durable_rows : ℕ
  pub suppressed : ℕ

pub record Observation : Type 0 where
  pub record_individual : Bool
  pub rate_limited : Bool
  pub retry_after : Duration
  pub aggregate_count : ℕ
  pub aggregate_start : Time
  pub work_units : ℕ

-- The zero value of an observation, with one unit of work.
abbrev pub blank : Observation
blank = record {
  record_individual = false;
  rate_limited = false;
  retry_after = 0;
  aggregate_count = 0;
  aggregate_start = 0;
  work_units = 1;
}

-- The gate's map of operations.
abbrev pub FailureGate : Type 0
FailureGate = Dict OperationState

pub failure_retry_after : Time → Time → Duration
failure_retry_after window_start now =
    let elapsed = time_sub now window_start in
    if leb failure_window elapsed then second else failure_window - elapsed

abbrev pub add_u64 : ℕ → ℕ → ℕ
add_u64 a b = (a + b) % 2 ^ 64

abbrev pub add_u8 : ℕ → ℕ → ℕ
add_u8 a b = (a + b) % 256

-- Whether the window is over, which replaces the state.
abbrev pub window_over : OperationState → Time → Bool
window_over state now = leb failure_window (time_sub now state.window_start)

unfoldable pub roll : OperationState → Time → OperationState
roll state now =
    if window_over state now
    then record {
      window_start = now;
      entries = [];
      durable_rows = if ltb 0 state.suppressed then 1 else 0;
      suppressed = 0;
    }
    else state

-- What the observation says of the window that is over.
unfoldable pub rolled_observation : OperationState → Time → Observation
rolled_observation state now =
    if window_over state now
    then record blank {
      aggregate_count = state.suppressed;
      aggregate_start = state.window_start;
      work_units = 2;
    }
    else blank

unfoldable pub suppress_in : OperationState → Time → Observation → OperationState × Observation
suppress_in state now observation = (
  record state { suppressed = add_u64 state.suppressed 1 },
  record observation {
    rate_limited = true;
    retry_after = failure_retry_after state.window_start now;
  },
)

-- The end of `observeMode`, with the number of records of the key in this window.
unfoldable pub count_key :
    OperationState → String → ℕ → Time → Observation → OperationState × Observation
unfolding suppress_in
count_key state key recorded now observation =
    if leb per_key_limit recorded || leb durable_limit state.durable_rows
    then suppress_in state now observation
    else (
      record state {
        entries = insert key (add_u8 recorded 1) state.entries;
        durable_rows = state.durable_rows + 1;
      },
      record observation { record_individual = true },
    )

unfoldable pub observe_key :
    OperationState → String → Time → Observation → OperationState × Observation
unfolding count_key suppress_in
observe_key state key now observation = elim (lookup key state.entries) [
  | some recorded ↦ count_key state key recorded now observation
  | none ↦
      if leb max_keys (length state.entries)
      then suppress_in state now observation
      else count_key (record state { entries = insert key 0 state.entries }) key 0 now observation
]

-- `observeMode` within one operation.
unfoldable pub observe_operation :
    OperationState → String → Time → Bool → OperationState × Observation
unfolding suppress_in
observe_operation state key now force_suppressed =
    if before now state.window_start
    then (
      state,
      record blank { rate_limited = true; retry_after = time_sub state.window_start now },
    )
    else if force_suppressed
    then suppress_in (roll state now) now (rolled_observation state now)
    else observe_key (roll state now) key now (rolled_observation state now)

abbrev pub known_operations : List String
known_operations =
    "auth.jwt" ∷ "auth.agent" ∷ "auth.password" ∷ "auth.totp" ∷ "auth.refresh" ∷ "auth.logout"
    ∷ "auth.totp.reverify" ∷ []

unfoldable pub bounded_operation : String → String
bounded_operation operation =
    if any (str_eq operation) known_operations then operation else other_operation

abbrev pub operation_state : FailureGate → String → Time → OperationState
operation_state gate operation now = elim (lookup operation gate) [
  | some state ↦ state
  | none ↦ record { window_start = now; entries = []; durable_rows = 0; suppressed = 0 }
]

unfoldable pub observe_mode :
    FailureGate → String → String → Time → Bool → FailureGate × Observation
observe_mode gate operation key now force_suppressed =
    if str_eq key "" || is_zero now
    then (gate, record blank { rate_limited = true })
    else let name = bounded_operation operation in
      let (state, observation) =
        observe_operation (operation_state gate name now) key now force_suppressed in
      (insert name state gate, observation)

pub observe : FailureGate → String → String → Time → FailureGate × Observation
observe gate operation key now = observe_mode gate operation key now false

pub suppress : FailureGate → String → String → Time → FailureGate × Observation
suppress gate operation key now = observe_mode gate operation key now true

pub entry_count : FailureGate → String → ℕ
entry_count gate operation = elim (lookup (bounded_operation operation) gate) [
  | none ↦ 0
  | some state ↦ length state.entries
]
