-- ===== src/FailureGate/Examples.antt =====
-- A window with two keys, on which the properties of the gate are applied.
use opswarden.Prelude.{
  ℕ, ◌+◌, ◌≤◌, ◌<◌, ◌≡◌, refl, Bool, true, false, String, arith, List, [], ◌∷◌, length, lookup,
  texts_apart, insert,
}
use opswarden.FailureGate.{
  OperationState, durable_limit, per_key_limit, failure_window, max_keys, observe_operation,
  observe_mode, roll, rolled_observation, observe_key, count_key, bounded_operation, entry_count,
  observe, suppress, suppress_in,
}
use opswarden.FailureGate.Window.{IsBounded, recorded_of, Counts}
use opswarden.FailureGate.Operation.{
  observe_operation-IsBounded, observe_operation-Counts, retry_after-recorded,
}
use opswarden.FailureGate.Accounting.{
  Attempt, run, records, records_of, aggregated, window_limits, run_accounts,
}
use opswarden.FailureGate.Gate.{Call, after_calls, observe_mode_frame, gate_bounded}

abbrev second_one : ℕ
second_one = 1000000000

-- The start of a window at one second.
abbrev fresh : OperationState
fresh = record { window_start = second_one; entries = []; durable_rows = 0; suppressed = 0 }

fresh-IsBounded : IsBounded fresh
unfolding lookup
fresh-IsBounded = record { keys = omega arith; rows = omega arith; counts = λ key. omega arith }

abbrev attempt : String → ℕ → Bool → Attempt
attempt key now forced = record { key = key; now = now; forced = forced }

abbrev attempts : List Attempt
attempts =
    attempt "k" second_one false ∷ attempt "j" 2000000000 true ∷ attempt "k" 3000000000 false ∷ []

observe_operation-IsBounded_example : IsBounded (observe_operation fresh "k" second_one false).0
observe_operation-IsBounded_example =
    observe_operation-IsBounded fresh "k" second_one false fresh-IsBounded

observe_operation-Counts_example :
    Counts fresh "k" (recorded_of fresh.entries "k") (observe_operation fresh "k" second_one false)
observe_operation-Counts_example =
    observe_operation-Counts fresh "k" second_one false fresh-IsBounded (omega arith) (omega arith)

retry_after-recorded_example :
    let (t, o) = observe_operation fresh "k" second_one true in
    (0 < o.retry_after)
    × (o.retry_after ≤ failure_window)
    × ((observe_operation t "k" (second_one + o.retry_after) false).1.record_individual ≡ true)
unfolding observe_operation suppress_in
retry_after-recorded_example =
    retry_after-recorded fresh "k" "k" second_one true fresh-IsBounded (omega arith) refl

window_limits_example :
    let log = (run fresh attempts).1 in
    (recorded_of fresh.entries "k" + records_of "k" log ≤ per_key_limit)
    × (fresh.durable_rows + records log ≤ durable_limit)
window_limits_example =
    window_limits fresh attempts "k" fresh-IsBounded
      ((omega arith, omega arith), ((omega arith, omega arith), ((omega arith, omega arith), tt)))

run_accounts_example :
    let (u, log) = run fresh attempts in
    records log + aggregated log + u.suppressed ≡ fresh.suppressed + length attempts
run_accounts_example =
    run_accounts second_one fresh attempts (omega arith)
      (omega arith, (omega arith, (omega arith, tt))) (omega arith)

observe_mode_frame_example :
    lookup "auth.agent" (observe_mode [] "auth.jwt" "k" second_one false).0 ≡ lookup "auth.agent" []
unfolding bounded_operation
observe_mode_frame_example =
    observe_mode_frame [] "auth.jwt" "k" "auth.agent" second_one false
      (texts_apart "auth.jwt" "auth.agent" refl)

abbrev calls : List Call
calls =
    record { operation = "auth.jwt"; key = "k"; now = second_one; forced = false }
    ∷ record { operation = "unheard"; key = "j"; now = second_one; forced = true }
    ∷ []

gate_bounded_example :
    let gate = after_calls [] calls in (length gate ≤ 8) × (entry_count gate "auth.jwt" ≤ max_keys)
gate_bounded_example = gate_bounded calls "auth.jwt"

-- A call of either kind is a call with its flag.
observe_test : entry_count (observe [] "auth.jwt" "k" second_one).0 "auth.jwt" ≡ 1
unfolding entry_count observe observe_mode observe_operation observe_key count_key lookup roll
    rolled_observation bounded_operation insert
observe_test = refl

suppress_test : entry_count (suppress [] "auth.jwt" "k" second_one).0 "auth.jwt" ≡ 0
unfolding entry_count suppress observe_mode observe_operation suppress_in lookup roll
    rolled_observation bounded_operation insert
suppress_test = refl
