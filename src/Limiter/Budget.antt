-- ===== src/Limiter/Budget.antt =====
-- The budget of a subject over any calls: the limiter's promise.
use native.Mathlib.Nat.{mul-le-mul_right}
use opswarden.Prelude.{
  ℕ, ◌+◌, ◌-◌, ◌*◌, ◌≤◌, ◌≡◌, refl, sym, ◌∙◌, subst, Bool, String, arith, Option, none, some, Time,
  time_sub,
}
use opswarden.Limiter.{
  Bucket, OperationState, Decision, own, refilled, spend_subject, subject_bucket, rotate_generation,
  decide_at, next_u64,
}
use opswarden.Limiter.State.{find, find_shared, IsAged, available, Looked, subject_bucket-Looked}
use opswarden.Limiter.Rotation.{rotate_generation-Rotated}
use opswarden.Limiter.Spending.{potential, charge, Spends, IsReady}
use opswarden.Limiter.Calls.{spend-Pays, SeenAs, seen-Spends, own-Pays-Spends, spend_new-Spends}

spend_subject-Spends :
    (max_subjects : ℕ) (s : OperationState) (ready : IsReady s) (k subject : String)
    (consume : Bool) (b : Option Bucket)
    → b ≡ find s subject
    → ((c : Bucket) → b ≡ some c → c.last ≤ s.last_now)
    → Spends k subject consume s (spend_subject max_subjects s subject b s.last_now consume)
unfolding spend_subject
spend_subject-Spends max_subjects s ready k subject consume (some b) e old =
    own-Pays-Spends s ready k subject consume b _
      (spend-Pays s (own subject) b consume (old b refl)) (ground arith)
spend_subject-Spends max_subjects s ready k subject consume none e old =
    spend_new-Spends max_subjects s ready k subject consume (sym e)

-- The counter of work is no part of what is promised.
abbrev worked : OperationState → OperationState
worked s = record s { work_units = next_u64 s.work_units }

worked-IsAged : (s : OperationState) → IsAged s → IsAged (worked s)
worked-IsAged s a = record {
  current = a.current;
  previous = a.previous;
  current_shared = a.current_shared;
  previous_shared = a.previous_shared;
  started = a.started;
  ttl_positive = a.ttl_positive;
  ttl_fits = a.ttl_fits;
  recovers = a.recovers;
}

-- A call at the time of the state.
Looked-Spends :
    (max_subjects : ℕ) (s : OperationState) (ready : IsReady s) (k subject : String)
    (consume : Bool) (t : OperationState) (b : Option Bucket)
    → Looked s subject t b
    → Spends k subject consume s
        (spend_subject max_subjects (worked t) subject b s.last_now consume)
Looked-Spends max_subjects s ready k subject consume t b look =
    subst
      (λ now.
        Spends k subject consume s (spend_subject max_subjects (worked t) subject b now consume))
      look.frame.last_now
      (seen-Spends k subject consume s (worked t) _ seen (
        spend_subject-Spends max_subjects (worked t) ready' k subject consume b
          (look.bucket ∙ sym (look.others subject))
          (λ c h. ((look.aged ready.aged).current subject c (look.placed c h)).0)))
  where
    ready' : IsReady (worked t)
    ready' = record {
      aged = worked-IsAged t (look.aged ready.aged);
      going = omega (
        arith, ready.going, look.frame.last_now, look.frame.generation_start,
        look.frame.generation_ttl,
      );
    }

    seen : SeenAs k s (worked t)
    seen = record {
      capacity = look.frame.capacity;
      refill = look.frame.refill;
      last_now = look.frame.last_now;
      own_bucket = look.others k;
      shared_bucket = cc (look.overflow, look.previous_overflow);
    }

-- A bucket gains at most what is refilled in the time that passes.
refilled_later :
    (s : OperationState) (b : Bucket) (now later : Time)
    → now ≤ later
    → refilled s b later ≤ refilled s b now + (later - now) * s.refill
refilled_later s b now later h =
    let longer : time_sub later b.last ≤ time_sub now b.last + (later - now) = omega arith in
    omega (arith, mul-le-mul_right s.refill longer)

available_later :
    (s : OperationState) (b : Option Bucket) (now later : Time)
    → now ≤ later
    → available s b later ≤ available s b now + (later - now) * s.refill
available_later s none now later h = omega arith
available_later s (some b) now later h = refilled_later s b now later h

-- One call, whenever it comes: what is charged comes from what was there or was refilled since.
pub record Charges (k subject : String) (consume : Bool) (s : OperationState)
    (r : OperationState × Decision) : Type 0 where
  pub aged : IsAged r.0
  pub later : s.last_now ≤ r.0.last_now
  pub capacity : r.0.capacity ≡ s.capacity
  pub refill : r.0.refill ≡ s.refill
  pub budget :
      potential r.0 k r.0.last_now + charge k subject consume r.1
      ≤ potential s k s.last_now + 2 * ((r.0.last_now - s.last_now) * s.refill)

-- The potential of the subject, read at a time that is not before the state's.
potential_later :
    (s r : OperationState) (k : String) (now : Time)
    → s.last_now ≤ now
    → r.last_now ≡ now
    → available r (find r k) now ≡ available s (find s k) now
    → available r (find_shared r) now ≡ available s (find_shared s) now
    → potential r k r.last_now ≤ potential s k s.last_now + 2 * ((now - s.last_now) * s.refill)
potential_later s r k now h e own_le shared_le =
    subst (λ t. potential r k t ≤ potential s k s.last_now + 2 * ((now - s.last_now) * s.refill))
      (sym e)
      (omega (
        arith,
        own_le,
        shared_le,
        available_later s (find s k) s.last_now now h,
        available_later s (find_shared s) s.last_now now h,
      ))

budget_at :
    (s u : OperationState) (k : String) (now : Time) (c p : ℕ)
    → u.last_now ≡ now
    → p ≤ potential s k s.last_now + 2 * ((now - s.last_now) * s.refill)
    → potential u k now + c ≤ p
    → potential u k u.last_now + c
      ≤ potential s k s.last_now + 2 * ((u.last_now - s.last_now) * s.refill)
budget_at s u k now c p e h h' =
    subst (λ t. potential u k t + c ≤ potential s k s.last_now + 2 * ((t - s.last_now) * s.refill))
      (sym e) (omega (arith, h, h'))

spent-Charges :
    (s r : OperationState) (k subject : String) (now : Time) (consume : Bool)
    (q : OperationState × Decision)
    → s.last_now ≤ now
    → r.last_now ≡ now
    → r.capacity ≡ s.capacity
    → r.refill ≡ s.refill
    → potential r k r.last_now ≤ potential s k s.last_now + 2 * ((now - s.last_now) * s.refill)
    → Spends k subject consume r q
    → Charges k subject consume s q
spent-Charges s r k subject now consume q h e same_capacity same_refill gained p = record {
  aged = p.aged;
  later = omega (arith, p.last_now);
  capacity = p.capacity ∙ same_capacity;
  refill = p.refill ∙ same_refill;
  budget =
      budget_at s q.0 k now (charge k subject consume q.1) (potential r k r.last_now)
        (p.last_now ∙ e) gained
        (subst (λ t. potential q.0 k t + charge k subject consume q.1 ≤ potential r k r.last_now) e
          p.budget);
}

pub decide_at-Charges :
    (max_subjects : ℕ) (s : OperationState) (k subject : String) (now : Time) (consume : Bool)
    → IsAged s
    → s.last_now ≤ now
    → Charges k subject consume s (decide_at max_subjects s subject now consume)
unfolding decide_at
decide_at-Charges max_subjects s k subject now consume a h =
    let turned = rotate_generation-Rotated s now a h in
    let r = record (rotate_generation s now) { last_now = now } in
    let ready : IsReady r = record { aged = turned.aged; going = turned.going } in
    let (t, b) = subject_bucket r subject in
    spent-Charges s r k subject now consume _ h refl turned.capacity turned.refill
      (potential_later s r k now h refl (turned.own_available k) turned.shared_available)
      (Looked-Spends max_subjects r ready k subject consume t b (subject_bucket-Looked r subject))
