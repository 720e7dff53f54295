-- ===== src/Limiter/Calls.antt =====
-- One call of `decide` within an operation.
use opswarden.Prelude.{
  ℕ, ◌+◌, ◌-◌, ◌*◌, ◌≤◌, ◌≡◌, refl, sym, ap, ◌∙◌, subst, inl, inr, Bool, Bool-cases, true, false,
  ◌&&◌, String, arith, Option, none, some, if◌then◌else◌, insert, insert-insert, Dict, time_sub,
  before, ltb, min,
}
use opswarden.Limiter.Config.{token}
use opswarden.Limiter.{
  Bucket, OperationState, Decision, Place, own, shared, put_bucket, refilled, spend, subject_count,
  full_bucket, spend_shared, spend_new, overflow_bucket, granted,
}
use opswarden.Limiter.State.{find, find_shared, available}
use opswarden.Limiter.Overflow.{overflow_bucket-Looked}
use opswarden.Limiter.Spending.{
  potential, charge, Spends, IsReady, used, own_put-Spends, shared_put-Spends,
}

-- What `spend` does with a bucket that was not used after this time.
pub record Pays (s : OperationState) (place : Place) (b : Bucket) (consume : Bool)
    (r : OperationState × Decision) : Type 0 where
  pub left : ℕ
  pub state : r.0 ≡ put_bucket s place (used left s.last_now)
  pub fits : left ≤ s.capacity
  pub paid : left + (if r.1.allowed && consume then token else 0) ≤ refilled s b s.last_now

pub spend-Pays :
    (s : OperationState) (place : Place) (b : Bucket) (consume : Bool)
    → b.last ≤ s.last_now
    → Pays s place b consume (spend s place b s.last_now consume)
unfolding spend
spend-Pays s place b consume h = elim (Bool-cases (before s.last_now b.last)) [
  | inl early ↦ absurd (ground arith)
  | inr on_time ↦ elim (Bool-cases (ltb (refilled s b s.last_now) token)) [
    | inl short ↦
        rw (on_time, short)
          record {
            left = refilled s b s.last_now;
            state = refl;
            fits = omega arith;
            paid = omega arith;
          }
    | inr enough ↦
        rw (on_time, enough)
          record {
            left = if consume then refilled s b s.last_now - token else refilled s b s.last_now;
            state = refl;
            fits = ground arith;
            paid = ground arith;
          }
  ]
]

module _ (s : OperationState) (ready : IsReady s) (k subject : String) (consume : Bool) where
  pub own-Pays-Spends :
      (b : Bucket) (r : OperationState × Decision)
      → Pays s (own subject) b consume r
      → refilled s b s.last_now ≤ available s (find s subject) s.last_now
      → Spends k subject consume s r
  own-Pays-Spends b r p h =
      subst (λ u. Spends k subject consume s (u, r.1)) (sym p.state)
        (own_put-Spends s ready k subject consume p.left r.1 p.fits (omega (arith, p.paid)))

  shared-Pays-Spends :
      (b : Bucket) (r : OperationState × Decision)
      → Pays s shared b consume r
      → refilled s b s.last_now ≤ available s (find_shared s) s.last_now
      → Spends k subject consume s r
  shared-Pays-Spends b r p h =
      subst (λ u. Spends k subject consume s (u, r.1)) (sym p.state)
        (shared_put-Spends s ready k subject consume p.left r.1 p.fits (omega (arith, p.paid)))

  -- A check that makes no bucket.
  checked-Spends : consume ≡ false → Spends k subject consume s (s, granted)
  checked-Spends e = record {
    aged = ready.aged;
    last_now = refl;
    capacity = refl;
    refill = refl;
    budget = ground arith;
  }

  -- A new bucket is full, and then pays at once.
  new_own-Pays :
      (r : OperationState × Decision)
      → Pays
          (record s { buckets = insert subject (full_bucket s s.last_now) s.buckets })
          (own subject)
          (full_bucket s s.last_now)
          consume
          r
      → Pays s (own subject) (full_bucket s s.last_now) consume r
  unfolding put_bucket
  new_own-Pays r p = record {
    left = p.left;
    state =
        p.state
        ∙ ap (λ (m : Dict Bucket). record s { buckets = m })
            (insert-insert subject (used p.left s.last_now) (full_bucket s s.last_now) s.buckets);
    fits = p.fits;
    paid = p.paid;
  }

  new_shared-Pays :
      (r : OperationState × Decision)
      → Pays
          (record s { overflow = some (full_bucket s s.last_now) })
          shared
          (full_bucket s s.last_now)
          consume
          r
      → Pays s shared (full_bucket s s.last_now) consume r
  unfolding put_bucket
  new_shared-Pays r p = record { left = p.left; state = p.state; fits = p.fits; paid = p.paid }

spend_shared-Spends :
    (s : OperationState) (ready : IsReady s) (k subject : String) (consume : Bool)
    (b : Option Bucket)
    → b ≡ find_shared s
    → ((c : Bucket) → b ≡ some c → c.last ≤ s.last_now)
    → Spends k subject consume s (spend_shared s b s.last_now consume)
unfolding spend_shared
spend_shared-Spends s ready k subject consume (some b) e old =
    shared-Pays-Spends s ready k subject consume b _ (spend-Pays s shared b consume (old b refl))
      (ground arith)
spend_shared-Spends s ready k subject true none e old =
    shared-Pays-Spends s ready k subject true (full_bucket s s.last_now) _
      (new_shared-Pays s ready k subject true _ (
        spend-Pays (record s { overflow = some (full_bucket s s.last_now) }) shared
          (full_bucket s s.last_now) true (omega arith)))
      (ground arith)
spend_shared-Spends s ready k subject false none e old = checked-Spends s ready k subject false refl

-- Two states that a subject cannot tell apart.
pub record SeenAs (k : String) (s t : OperationState) : Type 0 where
  pub capacity : t.capacity ≡ s.capacity
  pub refill : t.refill ≡ s.refill
  pub last_now : t.last_now ≡ s.last_now
  pub own_bucket : find t k ≡ find s k
  pub shared_bucket : find_shared t ≡ find_shared s

pub potential_seen :
    (k : String) (s t : OperationState)
    → SeenAs k s t
    → potential t k t.last_now ≡ potential s k s.last_now
potential_seen k s t v = go (find t k) (find_shared t) v.own_bucket v.shared_bucket
  where
    one : (b : Option Bucket) → available t b t.last_now ≡ available s b s.last_now
    one none = v.capacity
    one (some b) = λ i. min (v.capacity i) (b.tokens + time_sub (v.last_now i) b.last * v.refill i)

    go :
        (b c : Option Bucket)
        → b ≡ find s k
        → c ≡ find_shared s
        → available t b t.last_now + available t c t.last_now ≡ potential s k s.last_now
    go b c e f = rw (one b, one c, e, f)

pub seen-Spends :
    (k subject : String) (consume : Bool) (s t : OperationState) (r : OperationState × Decision)
    → SeenAs k s t
    → Spends k subject consume t r
    → Spends k subject consume s r
seen-Spends k subject consume s t r v p = record {
  aged = p.aged;
  last_now = p.last_now ∙ v.last_now;
  capacity = p.capacity ∙ v.capacity;
  refill = p.refill ∙ v.refill;
  budget =
      subst (λ now. potential r.0 k now + charge k subject consume r.1 ≤ potential s k s.last_now)
        v.last_now (omega (arith, p.budget, potential_seen k s t v));
}

-- A subject that has no bucket in either generation.
pub spend_new-Spends :
    (max_subjects : ℕ) (s : OperationState) (ready : IsReady s) (k subject : String)
    (consume : Bool)
    → find s subject ≡ none
    → Spends k subject consume s (spend_new max_subjects s subject s.last_now consume)
unfolding spend_new
spend_new-Spends max_subjects s ready k subject consume e =
    elim (Bool-cases (ltb (subject_count s) max_subjects)) [
      | inl room ↦ rw room (in_room consume)
      | inr full ↦
          let look = overflow_bucket-Looked s in
          let t = (overflow_bucket s).0 in
          let b = (overflow_bucket s).1 in
          let seen : SeenAs k s t = record {
            capacity = look.capacity;
            refill = look.refill;
            last_now = look.last_now;
            own_bucket = cc (look.same_buckets, look.same_previous);
            shared_bucket = look.same_shared;
          } in
          rw full (
            subst (λ now. Spends k subject consume s (spend_shared t b now consume)) look.last_now
              (seen-Spends k subject consume s t _ seen (
                spend_shared-Spends t (look.ready ready) k subject consume b look.bucket
                  (λ c h. subst (λ now. c.last ≤ now) (sym look.last_now) (look.old ready c h)))))
    ]
  where
    in_room :
        (c : Bool)
        → Spends k subject c s (
            if c
            then spend
                (record s { buckets = insert subject (full_bucket s s.last_now) s.buckets })
                (own subject)
                (full_bucket s s.last_now)
                s.last_now
                true
            else (s, granted))
    in_room true =
        own-Pays-Spends s ready k subject true (full_bucket s s.last_now) _
          (new_own-Pays s ready k subject true _ (
            spend-Pays (record s { buckets = insert subject (full_bucket s s.last_now) s.buckets })
              (own subject) (full_bucket s s.last_now) true (omega arith)))
          (ground arith)
    in_room false = checked-Spends s ready k subject false refl
