-- ===== src/Limiter/Runs.antt =====
-- Any calls for the operation, in any order and at any times.
use opswarden.Prelude.{
  ℕ, ◌+◌, ◌-◌, ◌*◌, ◌≤◌, ◌≡◌, refl, ◌∙◌, subst, inl, inr, Bool, Bool-cases, not, ◌&&◌, String,
  arith, List, [], ◌∷◌, if◌then◌else◌, str_eq, Time, time_sub, before, is_zero, leb,
}
use opswarden.Limiter.Config.{token}
use opswarden.Limiter.{OperationState, Decision, decide_operation, clock_skew, retry}
use opswarden.Limiter.State.{IsAged}
use opswarden.Limiter.Spending.{potential, charge}
use opswarden.Limiter.Budget.{Charges, decide_at-Charges}

module _ (max_subjects : ℕ) (s : OperationState) (k subject : String) (now : Time) (consume : Bool)
    (a : IsAged s) where
  refused-Charges : (d : ℕ) → Charges k subject consume s (s, retry d)
  refused-Charges d = record {
    aged = a;
    later = omega arith;
    capacity = refl;
    refill = refl;
    budget = omega arith;
  }

  pub decide_operation-Charges :
      Charges k subject consume s (decide_operation max_subjects s subject now consume)
  unfolding decide_operation
  decide_operation-Charges = elim (Bool-cases (not (is_zero s.last_now) && before now s.last_now)) [
    | inl late ↦ elim (Bool-cases (leb clock_skew (time_sub s.last_now now))) [
      | inl skewed ↦ rw (late, skewed) (refused-Charges _)
      | inr near ↦
          rw (late, near)
            (decide_at-Charges max_subjects s k subject s.last_now consume a (omega arith))
    ]
    | inr on_time ↦
        rw on_time (decide_at-Charges max_subjects s k subject now consume a (ground arith))
  ]

pub record Call : Type 0 where
  pub subject : String
  pub now : Time
  pub consume : Bool

-- The state after the calls, and how many of them were granted to `k` and took a token.
unfoldable pub run_calls : ℕ → String → OperationState → List Call → OperationState × ℕ
run_calls max_subjects k s [] = (s, 0)
run_calls max_subjects k s (c ∷ cs) =
    let (t, decision) = decide_operation max_subjects s c.subject c.now c.consume in
    let (u, count) = run_calls max_subjects k t cs in
    (u, (if decision.allowed && (c.consume && str_eq c.subject k) then 1 else 0) + count)

-- The arithmetic of one call before the others, with the products as they are.
budgets_add :
    (n c charged pu pt ps gained earlier : ℕ)
    → n * token + pu ≤ pt + gained
    → pt + charged ≤ ps + earlier
    → c * token ≤ charged
    → (c + n) * token + pu ≤ ps + (earlier + gained)
budgets_add n c charged pu pt ps gained earlier h h' h'' = omega (arith, h, h', h'')

elapsed_add :
    (first middle last refill : ℕ)
    → first ≤ middle
    → middle ≤ last
    → 2 * ((middle - first) * refill) + 2 * ((last - middle) * refill)
      ≡ 2 * ((last - first) * refill)
elapsed_add first middle last refill h h' =
    let whole : last - first ≡ (middle - first) + (last - middle) = omega arith in
    rw whole (grind arith)

-- What holds after the calls.
pub record Runs (k : String) (s : OperationState) (r : OperationState × ℕ) : Type 0 where
  pub aged : IsAged r.0
  pub later : s.last_now ≤ r.0.last_now
  pub capacity : r.0.capacity ≡ s.capacity
  pub refill : r.0.refill ≡ s.refill
  pub budget :
      r.1 * token + potential r.0 k r.0.last_now
      ≤ potential s k s.last_now + 2 * ((r.0.last_now - s.last_now) * s.refill)

charged_once :
    (k subject : String) (consume : Bool) (d : Decision)
    → (if d.allowed && (consume && str_eq subject k) then 1 else 0) * token
      ≤ charge k subject consume d
charged_once k subject consume d = ground arith

Runs-cons :
    (k : String) (c : Call) (s : OperationState) (q : OperationState × Decision)
    (r : OperationState × ℕ)
    → Charges k c.subject c.consume s q
    → Runs k q.0 r
    → Runs k s (r.0, (if q.1.allowed && (c.consume && str_eq c.subject k) then 1 else 0) + r.1)
Runs-cons k c s q r p rest = record {
  aged = rest.aged;
  later = omega (arith, p.later, rest.later);
  capacity = rest.capacity ∙ p.capacity;
  refill = rest.refill ∙ p.refill;
  budget =
      subst
        (λ gained.
          ((if q.1.allowed && (c.consume && str_eq c.subject k) then 1 else 0) + r.1) * token
            + potential r.0 k r.0.last_now
          ≤ potential s k s.last_now + gained)
        (elapsed_add s.last_now q.0.last_now r.0.last_now s.refill p.later rest.later)
        (budgets_add r.1 _ (charge k c.subject c.consume q.1) (potential r.0 k r.0.last_now)
          (potential q.0 k q.0.last_now) (potential s k s.last_now)
          (2 * ((r.0.last_now - q.0.last_now) * s.refill))
          (2 * ((q.0.last_now - s.last_now) * s.refill))
          (subst
            (λ rate.
              r.1 * token + potential r.0 k r.0.last_now
              ≤ potential q.0 k q.0.last_now + 2 * ((r.0.last_now - q.0.last_now) * rate))
            p.refill rest.budget)
          p.budget (charged_once k c.subject c.consume q.1));
}

pub run_calls-Runs :
    (max_subjects : ℕ) (k : String) (s : OperationState) (calls : List Call)
    → IsAged s
    → Runs k s (run_calls max_subjects k s calls)
unfolding run_calls
run_calls-Runs max_subjects k s [] a = record {
  aged = a;
  later = omega arith;
  capacity = refl;
  refill = refl;
  budget = omega arith;
}
run_calls-Runs max_subjects k s (c ∷ cs) a =
    let p = decide_operation-Charges max_subjects s k c.subject c.now c.consume a in
    Runs-cons k c s (decide_operation max_subjects s c.subject c.now c.consume) _ p (
      run_calls-Runs max_subjects k (decide_operation max_subjects s c.subject c.now c.consume).0 cs
        p.aged)
