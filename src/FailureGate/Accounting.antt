-- ===== src/FailureGate/Accounting.antt =====
-- Runs of attempts on one operation, and the sums over their observations.
use opswarden.Prelude.{
  ℕ, ◌+◌, ◌≤◌, ◌<◌, ◌^◌, ◌≡◌, ◌∙◌, refl, Bool, ◌&&◌, String, arith, List, [], ◌∷◌, length, All,
  str_eq, if◌then◌else◌, Time, lookup,
}
use opswarden.FailureGate.{
  OperationState, Observation, failure_window, per_key_limit, durable_limit, observe_operation,
  roll, rolled_observation, suppress_in, observe_key, count_key,
}
use opswarden.FailureGate.Window.{recorded_of, IsBounded}
use opswarden.FailureGate.Operation.{
  observe_operation-IsBounded, observe_operation-Counts, observe_operation_window,
}

pub record Attempt : Type 0 where
  pub key : String
  pub now : Time
  pub forced : Bool

-- The calls of one operation in a row, and what each of them answered.
pub run : OperationState → List Attempt → OperationState × List (String × Observation)
run s [] = (s, [])
run s (a ∷ rest) =
    let (t, o) = observe_operation s a.key a.now a.forced in
    let (u, log) = run t rest in (u, (a.key, o) ∷ log)

-- How often the log records, in all and for one key, and what its aggregates add up to.
abbrev pub records : List (String × Observation) → ℕ
records [] = 0
records ((k, o) ∷ log) = (if o.record_individual then 1 else 0) + records log

abbrev pub records_of : String → List (String × Observation) → ℕ
records_of key [] = 0
records_of key ((k, o) ∷ log) =
    (if str_eq k key && o.record_individual then 1 else 0) + records_of key log

abbrev pub aggregated : List (String × Observation) → ℕ
aggregated [] = 0
aggregated ((k, o) ∷ log) = o.aggregate_count + aggregated log

abbrev pub WithinWindow : Time → Attempt → Type 0
WithinWindow start a = (start ≤ a.now) × (a.now < start + failure_window)

-- The attempts come in the order of their times, none before `t`.
abbrev pub InOrder : Time → List Attempt → Type 0
InOrder t [] = Unit
InOrder t (a ∷ rest) = (t ≤ a.now) × InOrder a.now rest

run_counts :
    (start : Time) (s : OperationState) (rest : List Attempt) (key : String)
    → s.window_start ≡ start
    → IsBounded s
    → All (WithinWindow start) rest
    → let (t, log) = run s rest in
      IsBounded t
      × (recorded_of t.entries key ≡ recorded_of s.entries key + records_of key log)
      × (t.durable_rows ≡ s.durable_rows + records log)
unfolding run
run_counts start s [] key e b w = (b, omega arith, omega arith)
run_counts start s (a ∷ rest) key e b (w, ws) =
    let c = observe_operation-Counts s a.key a.now a.forced b (omega arith) (omega arith) in
    let t = (observe_operation s a.key a.now a.forced).0 in
    let (b', n, r) =
      run_counts start t rest key (c.start ∙ e)
        (observe_operation-IsBounded s a.key a.now a.forced b) ws in
    (b', ground (arith, c.entries key, n), ground (arith, c.rows, r))

-- Within one window, whatever the attempts and their order, at most 5 failures of a key and at
-- most 32 in all are recorded, also counting those that were recorded before, from any bounded
-- state.
pub window_limits :
    (s : OperationState) (rest : List Attempt) (key : String)
    → IsBounded s
    → All (WithinWindow s.window_start) rest
    → let log = (run s rest).1 in
      (recorded_of s.entries key + records_of key log ≤ per_key_limit)
      × (s.durable_rows + records log ≤ durable_limit)
window_limits s rest key b w =
    let (b', n, r) = run_counts s.window_start s rest key refl b w in
    (omega (arith, n, b'.counts key), omega (arith, r, b'.rows))

observe_operation_accounts :
    (s : OperationState) (key : String) (now : Time) (forced : Bool)
    → s.window_start ≤ now
    → s.suppressed + 1 < 2 ^ 64
    → let (t, o) = observe_operation s key now forced in
      (if o.record_individual then 1 else 0) + o.aggregate_count + t.suppressed ≡ s.suppressed + 1
unfolding observe_operation roll rolled_observation suppress_in observe_key count_key lookup
observe_operation_accounts s key now forced lo h = ground arith

-- No failure is lost: over any attempts in order of time, from a window that began before them,
-- those recorded one by one, those reported in an aggregate and those still counted are together
-- the attempts and what was counted before, as long as the counter does not wrap.
pub run_accounts :
    (t : Time) (s : OperationState) (rest : List Attempt)
    → s.window_start ≤ t
    → InOrder t rest
    → s.suppressed + length rest < 2 ^ 64
    → let (u, log) = run s rest in
      records log + aggregated log + u.suppressed ≡ s.suppressed + length rest
unfolding run
run_accounts t s [] lo w h = omega arith
run_accounts t s (a ∷ rest) lo (w, ws) h =
    let one = observe_operation_accounts s a.key a.now a.forced (omega arith) (omega arith) in
    let window = observe_operation_window s a.key a.now a.forced (omega arith) in
    let s' = (observe_operation s a.key a.now a.forced).0 in
    let many = run_accounts a.now s' rest window.0 ws (omega (arith, one)) in
    ground (arith, one, many)
