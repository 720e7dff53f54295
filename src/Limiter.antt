-- ===== src/Limiter.antt =====
-- internal/agents/limiter.go: token buckets by operation and subject, kept for two generations.
-- Tokens are counted in 1/60000000000 of a token, so that the refill rates of the program's
-- configuration, multiples of 1/60 token a second, are whole numbers of units a nanosecond, and
-- what the source computes in float64 is exact here. The maps that the source keys by operation are
-- one record for each operation. The limiter is not nil, and its mutex makes a call one step.
mod Config
pub mod State
pub mod Rotation
pub mod Spending
pub mod Overflow
pub mod Calls
pub mod Budget
pub mod Runs
pub mod Promise
pub mod Preview
mod Examples
unfoldable pub use Config.*
use opswarden.Prelude.{
  ℕ, ◌+◌, ◌-◌, ◌*◌, ◌/◌, ◌%◌, ◌^◌, Bool, true, false, not, ◌&&◌, ◌||◌, String, List, [], ◌∷◌,
  Option, none, some, ltb, leb, if◌then◌else◌, Dict, lookup, insert, delete, length, str_eq, Time,
  Duration, second, is_zero, before, time_sub, min,
}

pub record Decision : Type 0 where
  pub allowed : Bool
  pub retry_after : Duration

abbrev pub denied : Decision
denied = record { allowed = false; retry_after = 0 }

abbrev pub granted : Decision
granted = record { allowed = true; retry_after = 0 }

abbrev pub retry : Duration → Decision
retry d = record { allowed = false; retry_after = d }

-- concurrentClockSkew
abbrev pub clock_skew : Duration
clock_skew = second

pub record Bucket : Type 0 where
  pub tokens : ℕ
  pub last : Time
  pub last_seen : Time

-- What the limiter holds for one operation.
pub record OperationState : Type 0 where
  pub capacity : ℕ
  pub refill : ℕ
  pub buckets : Dict Bucket
  pub previous_buckets : Dict Bucket
  pub overflow : Option Bucket
  pub previous_overflow : Option Bucket
  pub last_now : Time
  pub work_units : ℕ
  pub generation_ttl : Duration
  pub generation_start : Time
  pub generation : ℕ

pub record Limiter : Type 0 where
  pub max_subjects : ℕ
  pub operations : Dict OperationState

-- NewLimiter, for one operation.
unfoldable pub new_operation : LimiterConfig → Defaults → OperationState
unfolding natural_recovery_duration
new_operation config d = record {
  capacity = capacity_of config d;
  refill = refill_of config d;
  buckets = [];
  previous_buckets = [];
  overflow = none;
  previous_overflow = none;
  last_now = 0;
  work_units = 0;
  generation_ttl = generation_ttl_of config d;
  generation_start = 0;
  generation = 0;
}

new_operations : LimiterConfig → List Defaults → Dict OperationState
new_operations config [] = []
new_operations config (d ∷ ds) = (d.operation, new_operation config d) ∷ new_operations config ds

pub new_limiter : LimiterConfig → Limiter
new_limiter config = record {
  max_subjects = or_default config.max_subjects 10000;
  operations = new_operations config defaults;
}

abbrev pub next_u64 : ℕ → ℕ
next_u64 n = (n + 1) % 2 ^ 64

-- One generation is over: the buckets of the last one get a grace generation.
abbrev pub next_generation : OperationState → Time → Duration → OperationState
next_generation s now elapsed = record s {
  previous_buckets = if leb 2 (elapsed / s.generation_ttl) then [] else s.buckets;
  previous_overflow = if leb 2 (elapsed / s.generation_ttl) then none else s.overflow;
  buckets = [];
  overflow = none;
  generation = next_u64 s.generation;
  generation_start = now - elapsed % s.generation_ttl;
  work_units = next_u64 s.work_units;
}

unfoldable pub rotate_generation : OperationState → Time → OperationState
rotate_generation s now =
    let elapsed = time_sub now s.generation_start in
    if is_zero s.generation_start
    then record s { generation_start = now }
    else if before now s.generation_start
    then s
    else if ltb elapsed s.generation_ttl
    then s
    else next_generation s now elapsed

-- The subject's bucket, which moves to the current generation if the previous one has it.
unfoldable pub subject_bucket : OperationState → String → OperationState × Option Bucket
subject_bucket s subject = elim (lookup subject s.buckets) [
  | some bucket ↦ (s, some bucket)
  | none ↦ elim (lookup subject s.previous_buckets) [
    | none ↦ (s, none)
    | some bucket ↦ (
      record s {
        previous_buckets = delete subject s.previous_buckets;
        buckets = insert subject bucket s.buckets;
      },
      some bucket,
    )
  ]
]

unfoldable pub overflow_bucket : OperationState → OperationState × Option Bucket
overflow_bucket s = elim s.overflow [
  | some bucket ↦ (s, some bucket)
  | none ↦ elim s.previous_overflow [
    | none ↦ (s, none)
    | some bucket ↦ (record s { previous_overflow = none; overflow = some bucket }, some bucket)
  ]
]

abbrev pub subject_count : OperationState → ℕ
subject_count s = length s.buckets + length s.previous_buckets

-- Where a bucket is kept, and the write through the source's pointer to it.
pub data Place : Type 0 where
  own : String → Place
  shared : Place

unfoldable pub put_bucket : OperationState → Place → Bucket → OperationState
put_bucket s (own subject) bucket = record s { buckets = insert subject bucket s.buckets }
put_bucket s shared bucket = record s { overflow = some bucket }

-- The tokens of a bucket at a time that is not before its last use.
abbrev pub refilled : OperationState → Bucket → Time → ℕ
refilled s bucket now = min s.capacity (bucket.tokens + time_sub now bucket.last * s.refill)

-- How long the missing units take to come, in nanoseconds rounded up.
abbrev pub wait_for : ℕ → ℕ → Duration
wait_for missing refill = ceil_div missing refill

-- The end of `decide`: the bucket's tokens are counted, and one is spent.
unfoldable pub spend : OperationState → Place → Bucket → Time → Bool → OperationState × Decision
unfolding put_bucket
spend s place bucket now consume =
    if before now bucket.last
    then (s, retry (time_sub bucket.last now))
    else let tokens = refilled s bucket now in
      let kept =
        λ (n : ℕ). put_bucket s place (record { tokens = n; last = now; last_seen = now }) in
      if ltb tokens token
      then (kept tokens, retry (wait_for (token - tokens) s.refill))
      else (kept (if consume then tokens - token else tokens), granted)

abbrev pub full_bucket : OperationState → Time → Bucket
full_bucket s now = record { tokens = s.capacity; last = now; last_seen = now }

unfoldable pub spend_shared :
    OperationState → Option Bucket → Time → Bool → OperationState × Decision
unfolding spend
spend_shared s (some bucket) now consume = spend s shared bucket now consume
spend_shared s none now true =
    spend (record s { overflow = some (full_bucket s now) }) shared (full_bucket s now) now true
spend_shared s none now false = (s, granted)

-- A subject without a bucket gets one of its own if there is room, and shares the overflow bucket
-- if not; `Check` makes no bucket.
unfoldable pub spend_new : ℕ → OperationState → String → Time → Bool → OperationState × Decision
unfolding spend spend_shared overflow_bucket
spend_new max_subjects s subject now consume =
    if ltb (subject_count s) max_subjects
    then (if consume
        then spend (record s { buckets = insert subject (full_bucket s now) s.buckets })
            (own subject) (full_bucket s now) now true
        else (s, granted))
    else (let (t, bucket) = overflow_bucket s in spend_shared t bucket now consume)

unfoldable pub spend_subject :
    ℕ → OperationState → String → Option Bucket → Time → Bool → OperationState × Decision
unfolding spend spend_new
spend_subject max_subjects s subject (some bucket) now consume =
    spend s (own subject) bucket now consume
spend_subject max_subjects s subject none now consume = spend_new max_subjects s subject now consume

-- `decide` at the time that counts, which is not before the last one.
unfoldable pub decide_at : ℕ → OperationState → String → Time → Bool → OperationState × Decision
unfolding rotate_generation subject_bucket spend_subject
decide_at max_subjects s subject now consume =
    let r = record (rotate_generation s now) { last_now = now } in
    let (t, bucket) = subject_bucket r subject in
    spend_subject max_subjects (record t { work_units = next_u64 t.work_units }) subject bucket now
      consume

-- `decide` within an operation. A call that comes a little late counts at the last time.
unfoldable pub decide_operation :
    ℕ → OperationState → String → Time → Bool → OperationState × Decision
unfolding decide_at
decide_operation max_subjects s subject now consume =
    if not (is_zero s.last_now) && before now s.last_now
    then (if leb clock_skew (time_sub s.last_now now)
        then (s, retry (time_sub s.last_now now))
        else decide_at max_subjects s subject s.last_now consume)
    else decide_at max_subjects s subject now consume

unfoldable pub decide : Limiter → String → String → Time → Bool → Limiter × Decision
unfolding decide_operation
decide limiter subject operation now consume =
    if str_eq subject "" || is_zero now
    then (limiter, denied)
    else elim (lookup operation limiter.operations) [
      | none ↦ (limiter, denied)
      | some s ↦
          let (t, decision) = decide_operation limiter.max_subjects s subject now consume in
          (record limiter { operations = insert operation t limiter.operations }, decision)
    ]

pub allow : Limiter → String → String → Time → Limiter × Decision
allow limiter subject operation now = decide limiter subject operation now true

pub check : Limiter → String → String → Time → Limiter × Decision
check limiter subject operation now = decide limiter subject operation now false
