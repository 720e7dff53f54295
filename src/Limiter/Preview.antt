-- ===== src/Limiter/Preview.antt =====
-- `Check` beside `Allow`.
use opswarden.Prelude.{
  ℕ, ◌≤◌, ◌≡◌, refl, sym, inl, inr, Bool-cases, true, false, not, ◌&&◌, String, arith, Option, none,
  some, Time, time_sub, before, is_zero, leb, ltb,
}
use opswarden.Limiter.Config.{token}
use opswarden.Limiter.{
  Bucket, OperationState, Place, own, shared, granted, full_bucket, spend, spend_shared, spend_new,
  spend_subject, rotate_generation, subject_bucket, overflow_bucket, subject_count, decide_at,
  decide_operation, clock_skew,
}
use opswarden.Limiter.State.{subject_bucket-Looked}

-- The two decisions for a bucket that is there.
spend-same :
    (s : OperationState) (place : Place) (b : Bucket) (now : Time)
    → (spend s place b now false).1 ≡ (spend s place b now true).1
unfolding spend
spend-same s place b now = ground arith

-- A new bucket pays.
spend-full :
    (s : OperationState) (place : Place) (b : Bucket) (now : Time)
    → b ≡ full_bucket s now
    → token ≤ s.capacity
    → (spend s place b now true).1 ≡ granted
unfolding spend
spend-full s place b now e h = ground arith

overflow_bucket-capacity : (s : OperationState) → (overflow_bucket s).0.capacity ≡ s.capacity
unfolding overflow_bucket
overflow_bucket-capacity s = ground arith

spend_shared-same :
    (s : OperationState) (b : Option Bucket) (now : Time)
    → token ≤ s.capacity
    → (spend_shared s b now false).1 ≡ (spend_shared s b now true).1
unfolding spend_shared
spend_shared-same s (some b) now h = spend-same s shared b now
spend_shared-same s none now h = sym (spend-full _ shared (full_bucket s now) now refl h)

spend_new-same :
    (max_subjects : ℕ) (s : OperationState) (subject : String) (now : Time)
    → token ≤ s.capacity
    → (spend_new max_subjects s subject now false).1 ≡ (spend_new max_subjects s subject now true).1
unfolding spend_new
spend_new-same max_subjects s subject now h =
    elim (Bool-cases (ltb (subject_count s) max_subjects)) [
      | inl room ↦ rw room (sym (spend-full _ (own subject) (full_bucket s now) now refl h))
      | inr full ↦ rw full (
          spend_shared-same (overflow_bucket s).0 (overflow_bucket s).1 now
            (omega (arith, overflow_bucket-capacity s)))
    ]

spend_subject-same :
    (max_subjects : ℕ) (s : OperationState) (subject : String) (b : Option Bucket) (now : Time)
    → token ≤ s.capacity
    → (spend_subject max_subjects s subject b now false).1
      ≡ (spend_subject max_subjects s subject b now true).1
unfolding spend_subject
spend_subject-same max_subjects s subject (some b) now h = spend-same s (own subject) b now
spend_subject-same max_subjects s subject none now h = spend_new-same max_subjects s subject now h

rotate_generation-capacity :
    (s : OperationState) (now : Time) → (rotate_generation s now).capacity ≡ s.capacity
unfolding rotate_generation
rotate_generation-capacity s now = ground arith

decide_at-same :
    (max_subjects : ℕ) (s : OperationState) (subject : String) (now : Time)
    → token ≤ s.capacity
    → (decide_at max_subjects s subject now false).1 ≡ (decide_at max_subjects s subject now true).1
unfolding decide_at
decide_at-same max_subjects s subject now h =
    let r = record (rotate_generation s now) { last_now = now } in
    let look = subject_bucket-Looked r subject in
    spend_subject-same max_subjects _ subject (subject_bucket r subject).1 now
      (omega (arith, look.frame.capacity, rotate_generation-capacity s now))

-- With a capacity of a token or more, a check and an allowed call decide the same on the same
-- state at the same time.
pub check-allow :
    (max_subjects : ℕ) (s : OperationState) (subject : String) (now : Time)
    → token ≤ s.capacity
    → (decide_operation max_subjects s subject now false).1
      ≡ (decide_operation max_subjects s subject now true).1
unfolding decide_operation
check-allow max_subjects s subject now h =
    elim (Bool-cases (not (is_zero s.last_now) && before now s.last_now)) [
      | inl late ↦ elim (Bool-cases (leb clock_skew (time_sub s.last_now now))) [
        | inl skewed ↦ rw (late, skewed) refl
        | inr near ↦ rw (late, near) (decide_at-same max_subjects s subject s.last_now h)
      ]
      | inr on_time ↦ rw on_time (decide_at-same max_subjects s subject now h)
    ]
