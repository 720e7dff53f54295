-- ===== src/Limiter/Examples.antt =====
-- An operation of a new limiter, on which the properties of the limiter are applied.
use opswarden.Prelude.{
  ◌+◌, ◌-◌, ◌*◌, ◌≤◌, ◌≡◌, refl, true, false, arith, String, List, [], ◌∷◌, lookup, second, length,
}
use opswarden.Limiter.Config.{token, Defaults, LimiterConfig, capacity_of, refill_of}
use opswarden.Limiter.{
  OperationState, Limiter, new_operation, new_operations, new_limiter, decide, decide_operation,
  decide_at, rotate_generation, subject_bucket, spend_subject, spend_new, spend, allow, check,
}
use opswarden.Limiter.State.{IsAged}
use opswarden.Limiter.Rotation.{Rotated, rotate_generation-Rotated}
use opswarden.Limiter.Promise.{new_operation-IsAged, window_budget}
use opswarden.Limiter.Preview.{check-allow}
use opswarden.Limiter.Runs.{Call, run_calls}

abbrev config : LimiterConfig
config = record { capacity = []; refill = []; max_subjects = 0; generation_ttl = 0 }

abbrev failures : Defaults
failures = record { operation = "auth_failure"; capacity = 5; refill = 1 }

abbrev started : OperationState
started = new_operation config failures

started-IsAged : IsAged started
unfolding lookup
started-IsAged = new_operation-IsAged config failures (omega arith) (omega arith) (omega arith)

abbrev call : String → Call
call subject = record { subject = subject; now = second; consume = true }

abbrev earlier : List Call
earlier = call "10.0.0.1" ∷ []

abbrev calls : List Call
calls = call "10.0.0.1" ∷ call "10.0.0.2" ∷ []

window_budget_example :
    let s = (run_calls 10000 "10.0.0.1" started earlier).0 in
    let (u, n) = run_calls 10000 "10.0.0.1" s calls in
    (s.last_now ≤ u.last_now)
    × (n * token
        ≤ 2 * (capacity_of config failures + (u.last_now - s.last_now) * refill_of config failures))
unfolding lookup
window_budget_example =
    window_budget config failures (omega arith) (omega arith) (omega arith) 10000 "10.0.0.1" earlier
      calls

rotate_generation-Rotated_example : Rotated started second (rotate_generation started second)
unfolding new_operation
rotate_generation-Rotated_example =
    rotate_generation-Rotated started second started-IsAged (omega arith)

check-allow_example :
    (decide_operation 10000 started "10.0.0.1" second false).1
    ≡ (decide_operation 10000 started "10.0.0.1" second true).1
unfolding new_operation lookup
check-allow_example = check-allow 10000 started "10.0.0.1" second (omega arith)

abbrev limiter : Limiter
limiter = new_limiter config

-- A new limiter knows its 25 operations and lets the first call of each through.
limiter_test : length limiter.operations ≡ 25
unfolding new_limiter new_operations
limiter_test = refl

allow_test : (allow limiter "10.0.0.1" "auth_failure" second).1.allowed ≡ true
unfolding allow new_limiter new_operations new_operation decide decide_operation decide_at
    rotate_generation subject_bucket spend_subject spend_new spend lookup
allow_test = refl

check_test : (check limiter "10.0.0.1" "unknown" second).1.allowed ≡ false
unfolding check new_limiter new_operations decide lookup
check_test = refl
