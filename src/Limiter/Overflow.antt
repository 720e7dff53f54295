-- ===== src/Limiter/Overflow.antt =====
-- The shared bucket of an operation, in either generation.
use opswarden.Prelude.{
  ◌≤◌, ◌≡◌, refl, sym, subst, inl, inr, arith, Option, none, some, Option-cases,
}
use opswarden.Limiter.{Bucket, OperationState, overflow_bucket}
use opswarden.Limiter.State.{find_shared}
use opswarden.Limiter.Spending.{IsReady}

-- Looking up the shared bucket moves it between the generations and changes nothing that is seen.
pub record LookedShared (s t : OperationState) (b : Option Bucket) : Type 0 where
  pub bucket : b ≡ find_shared t
  pub same_shared : find_shared t ≡ find_shared s
  pub same_buckets : t.buckets ≡ s.buckets
  pub same_previous : t.previous_buckets ≡ s.previous_buckets
  pub capacity : t.capacity ≡ s.capacity
  pub refill : t.refill ≡ s.refill
  pub last_now : t.last_now ≡ s.last_now
  pub ready : IsReady s → IsReady t
  pub old : IsReady s → (c : Bucket) → b ≡ some c → c.last ≤ s.last_now

shared_stays-Looked :
    (s : OperationState) (b : Option Bucket) → b ≡ find_shared s → LookedShared s s b
shared_stays-Looked s b e = record {
  bucket = e;
  same_shared = refl;
  same_buckets = refl;
  same_previous = refl;
  capacity = refl;
  refill = refl;
  last_now = refl;
  ready = λ r. r;
  old = λ r c h. ground (arith, e, r.aged.current_shared c, r.aged.previous_shared c);
}

abbrev shared_moved : OperationState → Bucket → OperationState
shared_moved s b = record s { previous_overflow = none; overflow = some b }

shared_moved-Looked :
    (s : OperationState) (b : Bucket)
    → s.overflow ≡ none
    → s.previous_overflow ≡ some b
    → LookedShared s (shared_moved s b) (some b)
shared_moved-Looked s b e e' = record {
  bucket = refl;
  same_shared = ground arith;
  same_buckets = refl;
  same_previous = refl;
  capacity = refl;
  refill = refl;
  last_now = refl;
  ready = λ r. record {
    aged = record {
      current = r.aged.current;
      previous = r.aged.previous;
      current_shared = λ c h. ground (arith, r.aged.previous_shared c, r.aged.ttl_positive);
      previous_shared = λ c h. absurd (cc);
      started = r.aged.started;
      ttl_positive = r.aged.ttl_positive;
      ttl_fits = r.aged.ttl_fits;
      recovers = r.aged.recovers;
    };
    going = r.going;
  };
  old = λ r c h. ground (arith, r.aged.previous_shared c);
}

pub overflow_bucket-Looked :
    (s : OperationState) → let (t, b) = overflow_bucket s in LookedShared s t b
unfolding overflow_bucket
overflow_bucket-Looked s = elim (Option-cases s.overflow) [
  | inr (b, e) ↦
      let done : overflow_bucket s ≡ (s, some b) = ground arith in
      subst (λ r. LookedShared s r.0 r.1) (sym done) (shared_stays-Looked s (some b) (ground arith))
  | inl e ↦ elim (Option-cases s.previous_overflow) [
    | inr (b, e') ↦
        let done : overflow_bucket s ≡ (shared_moved s b, some b) = ground arith in
        subst (λ r. LookedShared s r.0 r.1) (sym done) (shared_moved-Looked s b e e')
    | inl e' ↦
        let done : overflow_bucket s ≡ (s, none) = ground arith in
        subst (λ r. LookedShared s r.0 r.1) (sym done) (shared_stays-Looked s none (ground arith))
  ]
]
