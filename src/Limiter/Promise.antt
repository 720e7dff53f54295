-- ===== src/Limiter/Promise.antt =====
-- What the limiter promises to those that ask it.
use mathlib.Core.Path.{subst₂}
use native.Mathlib.Nat.{div-add-mod, mod-lt, mul-le-mul_right}
use opswarden.Prelude.{
  ℕ, ◌+◌, ◌-◌, ◌*◌, ◌/◌, ◌%◌, ◌≤◌, ◌<◌, ◌≡◌, inl, inr, String, arith, List, Option-cases, lookup,
  max_duration, minute,
}
use opswarden.Limiter.Config.{
  token, ceil_div, Defaults, LimiterConfig, natural_recovery_duration, capacity_of, refill_of,
  generation_ttl_of, max_of, or_default,
}
use opswarden.Limiter.{OperationState, new_operation}
use opswarden.Limiter.State.{find, find_shared, IsAged}
use opswarden.Limiter.Spending.{potential}
use opswarden.Limiter.Runs.{Call, run_calls, Runs, run_calls-Runs}

ceil_div-covers : (a b : ℕ) → 0 < b → a ≤ ceil_div a b * b
ceil_div-covers a b h =
    let n = a + (b - 1) in
    let whole : b * (n / b) + n % b ≡ n = div-add-mod n b in
    let part : n % b < b = mod-lt n h in omega (arith, whole, part)

recovers :
    (capacity refill ttl : ℕ)
    → 0 < refill
    → natural_recovery_duration capacity refill ≤ ttl
    → ceil_div capacity refill ≤ max_duration
    → capacity ≤ ttl * refill
unfolding natural_recovery_duration
recovers capacity refill ttl h h' fits =
    let long : ceil_div capacity refill ≤ ttl = omega arith in
    omega (arith, ceil_div-covers capacity refill h, mul-le-mul_right refill long)

max_of-bounds :
    (a b : ℕ)
    → 0 < a
    → a ≤ max_duration
    → b ≤ max_duration
    → (0 < max_of a b) × ((max_of a b ≤ max_duration) × (b ≤ max_of a b))
max_of-bounds a b h h' h'' = ground arith

or_default-bounds :
    (n d : ℕ)
    → 0 < d
    → d ≤ max_duration
    → n ≤ max_duration
    → (0 < or_default n d) × (or_default n d ≤ max_duration)
or_default-bounds n d h h' h'' = ground arith

pub new_operation-IsAged :
    (config : LimiterConfig) (d : Defaults)
    → 0 < refill_of config d
    → ceil_div (capacity_of config d) (refill_of config d) ≤ max_duration
    → config.generation_ttl ≤ max_duration
    → IsAged (new_operation config d)
unfolding new_operation natural_recovery_duration lookup
new_operation-IsAged config d h fits ttl_fits =
    let phase =
      or_default-bounds config.generation_ttl (15 * minute) (omega arith) (omega arith) ttl_fits in
    let bounds =
      max_of-bounds (or_default config.generation_ttl (15 * minute))
        (natural_recovery_duration (capacity_of config d) (refill_of config d)) phase.0 phase.1
        (omega arith) in
    record {
      current = λ k b e. ground arith;
      previous = λ k b e. ground arith;
      current_shared = λ b e. ground arith;
      previous_shared = λ b e. ground arith;
      started = omega arith;
      ttl_positive = bounds.0;
      ttl_fits = bounds.1.0;
      recovers =
          recovers (capacity_of config d) (refill_of config d) (generation_ttl_of config d) h
            bounds.1.1 fits;
    }

potential_small : (s : OperationState) (k : String) → potential s k s.last_now ≤ 2 * s.capacity
potential_small s k = elim (Option-cases (find s k)) [
  | inl e ↦ elim (Option-cases (find_shared s)) [
    | inl e' ↦ rw (e, e') (omega arith)
    | inr (c, e') ↦ rw (e, e') (omega arith)
  ]
  | inr (b, e) ↦ elim (Option-cases (find_shared s)) [
    | inl e' ↦ rw (e, e') (omega arith)
    | inr (c, e') ↦ rw (e, e') (omega arith)
  ]
]

budget_of :
    (n p first last capacity refill : ℕ)
    → p ≤ 2 * capacity
    → n * token ≤ p + 2 * ((last - first) * refill)
    → n * token ≤ 2 * (capacity + (last - first) * refill)
budget_of n p first last capacity refill h h' = omega (arith, h, h')

window_Runs :
    (k : String) (s : OperationState) (r : OperationState × ℕ)
    → Runs k s r
    → (s.last_now ≤ r.0.last_now)
      × (r.1 * token ≤ 2 * (s.capacity + (r.0.last_now - s.last_now) * s.refill))
window_Runs k s r p = (
  p.later,
  budget_of r.1 (potential s k s.last_now) s.last_now r.0.last_now s.capacity s.refill
      (potential_small s k) (omega (arith, p.budget)),
)

window_within :
    (k : String) (s : OperationState) (r : OperationState × ℕ) (capacity refill : ℕ)
    → s.capacity ≡ capacity
    → s.refill ≡ refill
    → Runs k s r
    → (s.last_now ≤ r.0.last_now)
      × (r.1 * token ≤ 2 * (capacity + (r.0.last_now - s.last_now) * refill))
window_within k s r capacity refill e e' p =
    subst₂
      (λ c f.
        (s.last_now ≤ r.0.last_now) × (r.1 * token ≤ 2 * (c + (r.0.last_now - s.last_now) * f)))
      e e' (window_Runs k s r p)

-- An operation of a new limiter whose refill rate is not 0, and whose recovery time and generation
-- fit a Duration, takes any calls; in any further calls, whatever their subjects, order and times,
-- the last time does not go back, and the calls of one subject that are allowed and take a token
-- are at most two capacities (its own bucket and the shared one) and twice what refills in the
-- time that has passed.
pub window_budget :
    (config : LimiterConfig) (d : Defaults)
    → 0 < refill_of config d
    → ceil_div (capacity_of config d) (refill_of config d) ≤ max_duration
    → config.generation_ttl ≤ max_duration
    → (max_subjects : ℕ) (k : String) (earlier calls : List Call)
    → let s = (run_calls max_subjects k (new_operation config d) earlier).0 in
      let (u, n) = run_calls max_subjects k s calls in
      (s.last_now ≤ u.last_now)
      × (n * token ≤ 2 * (capacity_of config d + (u.last_now - s.last_now) * refill_of config d))
unfolding new_operation
window_budget config d h fits ttl_fits max_subjects k earlier calls =
    let p =
      run_calls-Runs max_subjects k (new_operation config d) earlier
        (new_operation-IsAged config d h fits ttl_fits) in
    window_within k (run_calls max_subjects k (new_operation config d) earlier).0 _
      (capacity_of config d) (refill_of config d) p.capacity p.refill
      (run_calls-Runs max_subjects k _ calls p.aged)
