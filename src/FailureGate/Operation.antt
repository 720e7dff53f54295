-- ===== src/FailureGate/Operation.antt =====
-- One call of `observeMode` within an operation: the limits, and when to try again.
use opswarden.Prelude.{
  ◌+◌, ◌≤◌, ◌<◌, ◌≡◌, refl, inl, inr, Bool, true, false, Bool-cases, String, arith, lookup,
  str_eq_iff, if◌then◌else◌, Time, before,
}
use opswarden.FailureGate.{
  OperationState, Observation, failure_window, window_over, roll, rolled_observation, suppress_in,
  observe_key, observe_operation, failure_retry_after, count_key, blank,
}
use opswarden.FailureGate.Window.{
  recorded_of, IsBounded, Counts, IsOpen, suppress_in-Counts, observe_key-Counts,
}

-- The end of a window keeps the limits: a new one begins empty, with at most the aggregate's row.
roll-IsBounded : (s : OperationState) (now : Time) → IsBounded s → IsBounded (roll s now)
unfolding roll lookup
roll-IsBounded s now b = record {
  keys = ground (arith, b);
  rows = ground (arith, b);
  counts = λ key. ground (arith, b.counts key);
}

rolled_observation-IsOpen : (s : OperationState) (now : Time) → IsOpen (rolled_observation s now)
unfolding rolled_observation
rolled_observation-IsOpen s now = ground arith

Counts-IsBounded :
    {s : OperationState} {key : String} {r : OperationState × Observation}
    → Counts s key (recorded_of s.entries key) r
    → IsBounded s
    → IsBounded r.0
Counts-IsBounded {s} {key} {r} c b = record {
  keys = c.keys;
  rows = ground (arith, c.rows, c.within, b.rows);
  counts = λ j. ground (arith, c.entries j, c.within, b.counts j, str_eq_iff key j);
}

-- Every observation, whatever its key and time, keeps at most 4096 keys, 32 rows and 5 records of
-- each key.
pub observe_operation-IsBounded :
    (s : OperationState) (key : String) (now : Time) (force_suppressed : Bool)
    → IsBounded s
    → IsBounded (observe_operation s key now force_suppressed).0
unfolding observe_operation
observe_operation-IsBounded s key now force_suppressed b =
    elim (Bool-cases (before now s.window_start)) [
      | inl early ↦ rw early b
      | inr late ↦ rw late (go force_suppressed)
    ]
  where
    t : OperationState
    t = roll s now

    o : Observation
    o = rolled_observation s now

    t-IsBounded : IsBounded t
    t-IsBounded = roll-IsBounded s now b

    go : (f : Bool) → IsBounded (if f then suppress_in t now o else observe_key t key now o).0
    go true =
        Counts-IsBounded {key = key}
          (suppress_in-Counts t key now o (rolled_observation-IsOpen s now) _ t-IsBounded.keys)
          t-IsBounded
    go false =
        Counts-IsBounded {key = key}
          (observe_key-Counts t key now o (rolled_observation-IsOpen s now) (t-IsBounded.counts key)
            t-IsBounded.keys)
          t-IsBounded

-- An observation of a bounded state within its window is recorded, within both limits, or counted
-- as suppressed, and touches the count of its own key alone.
pub observe_operation-Counts :
    (s : OperationState) (key : String) (now : Time) (force_suppressed : Bool)
    → IsBounded s
    → s.window_start ≤ now
    → now < s.window_start + failure_window
    → Counts s key (recorded_of s.entries key) (observe_operation s key now force_suppressed)
unfolding observe_operation roll rolled_observation
observe_operation-Counts s key now force_suppressed b lo hi =
    let late : before now s.window_start ≡ false = ground arith in
    let going : window_over s now ≡ false = ground arith in rw (late, going) (go force_suppressed)
  where
    go :
        (f : Bool)
        → Counts s key
            (recorded_of s.entries key)
            (if f then suppress_in s now blank else observe_key s key now blank)
    go true = suppress_in-Counts s key now blank (refl, refl) _ b.keys
    go false = observe_key-Counts s key now blank (refl, refl) (b.counts key) b.keys

-- The first attempt after the end of a window is recorded.
new_window-recorded :
    (s : OperationState) (key : String) (now : Time)
    → s.window_start + failure_window ≤ now
    → (observe_operation s key now false).1.record_individual ≡ true
unfolding observe_operation roll rolled_observation observe_key count_key lookup
new_window-recorded s key now h = ground arith

-- A suppressed attempt is told the rest of the window, which `t` begins.
abbrev TellsRest : Time → OperationState × Observation → Type 0
TellsRest now (t, o) =
    o.rate_limited ≡ true → o.retry_after ≡ failure_retry_after t.window_start now

observe_key-TellsRest :
    (s : OperationState) (key : String) (now : Time) (o : Observation)
    → o.rate_limited ≡ false
    → TellsRest now (observe_key s key now o)
unfolding observe_key count_key suppress_in
observe_key-TellsRest s key now o u h = ground arith

observe_operation-TellsRest :
    (s : OperationState) (key : String) (now : Time) (force_suppressed : Bool)
    → s.window_start ≤ now
    → TellsRest now (observe_operation s key now force_suppressed)
unfolding observe_operation suppress_in
observe_operation-TellsRest s key now force_suppressed lo h = ground (
  arith,
  rolled_observation-IsOpen s now,
  observe_key-TellsRest (roll s now) key now (rolled_observation s now),
)

roll_window :
    (s : OperationState) (now : Time)
    → s.window_start ≤ now
    → ((roll s now).window_start ≤ now) × (now < (roll s now).window_start + failure_window)
unfolding roll
roll_window s now lo = ground arith

start-observe_key :
    (s : OperationState) (key : String) (now : Time) (o : Observation)
    → (observe_key s key now o).0.window_start ≡ s.window_start
unfolding observe_key count_key suppress_in
start-observe_key s key now o = ground arith

-- The window of the state afterwards has begun and is not over.
pub observe_operation_window :
    (s : OperationState) (key : String) (now : Time) (force_suppressed : Bool)
    → s.window_start ≤ now
    → let t = (observe_operation s key now force_suppressed).0 in
      (t.window_start ≤ now) × (now < t.window_start + failure_window)
unfolding observe_operation suppress_in
observe_operation_window s key now force_suppressed lo =
    ground
      (arith, roll_window s now, start-observe_key (roll s now) key now (rolled_observation s now))

-- An attempt that is not before the window of a bounded state and is suppressed is told to wait,
-- at most a minute, and an unforced attempt with any key after that time is recorded.
pub retry_after-recorded :
    (s : OperationState) (key later_key : String) (now : Time) (force_suppressed : Bool)
    → IsBounded s
    → s.window_start ≤ now
    → (observe_operation s key now force_suppressed).1.rate_limited ≡ true
    → let (t, o) = observe_operation s key now force_suppressed in
      (0 < o.retry_after)
      × (o.retry_after ≤ failure_window)
      × ((observe_operation t later_key (now + o.retry_after) false).1.record_individual ≡ true)
unfolding failure_retry_after
retry_after-recorded s key later_key now force_suppressed b lo h =
    let (t, o) = observe_operation s key now force_suppressed in
    let (begun, going) = observe_operation_window s key now force_suppressed lo in
    let tells = observe_operation-TellsRest s key now force_suppressed lo h in
    (ground arith, ground arith, new_window-recorded t later_key _ (ground arith))
