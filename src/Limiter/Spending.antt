-- ===== src/Limiter/Spending.antt =====
-- What one call spends: the tokens of a bucket, counted when they are used.
use native.Mathlib.Nat.{zero-mul}
use opswarden.Prelude.{
  ℕ, ◌+◌, ◌*◌, ◌≤◌, ◌<◌, ◌≡◌, refl, ap, ◌∙◌, subst, inl, inr, Bool, Bool-cases, false, ◌&&◌, String,
  arith, if◌then◌else◌, lookup-insert, str_eq, str_eq_iff, Time, min,
}
use opswarden.Limiter.Config.{token}
use opswarden.Limiter.{Bucket, OperationState, Decision, Place, own, shared, put_bucket, refilled}
use opswarden.Limiter.State.{find, find_shared, IsAged, available}

-- What a subject may spend: from its own bucket and from the shared one.
abbrev pub potential : OperationState → String → Time → ℕ
potential s k now = available s (find s k) now + available s (find_shared s) now

-- What is charged to the subject `k` by a call for `subject`.
abbrev pub charge : String → String → Bool → Decision → ℕ
charge k subject consume d = if d.allowed && (consume && str_eq subject k) then token else 0

-- A call at the time of the state: the ages stay right, and what is charged is no longer there.
pub record Spends (k subject : String) (consume : Bool) (s : OperationState)
    (r : OperationState × Decision) : Type 0 where
  pub aged : IsAged r.0
  pub last_now : r.0.last_now ≡ s.last_now
  pub capacity : r.0.capacity ≡ s.capacity
  pub refill : r.0.refill ≡ s.refill
  pub budget : potential r.0 k s.last_now + charge k subject consume r.1 ≤ potential s k s.last_now

-- The state at the time of a call: `now` counts, and lies in the generation.
pub record IsReady (s : OperationState) : Type 0 where
  pub aged : IsAged s
  pub going : s.last_now < s.generation_start + s.generation_ttl

abbrev pub used : ℕ → Time → Bucket
used n now = record { tokens = n; last = now; last_seen = now }

refilled-used :
    (s : OperationState) (n : ℕ) → refilled s (used n s.last_now) s.last_now ≡ min s.capacity n
refilled-used s n =
    ap (λ e. min s.capacity (n + e * s.refill)) {y = 0} (omega arith)
    ∙ ap (min s.capacity) (omega (arith, zero-mul s.refill))

module _ (s : OperationState) (ready : IsReady s) where
  put-IsAged : (place : Place) (n : ℕ) → IsAged (put_bucket s place (used n s.last_now))
  unfolding put_bucket
  put-IsAged (own k) n = record {
    current = λ j b e. ground (
      arith,
      lookup-insert k j (used n s.last_now) s.buckets,
      ready.aged.current j b,
      ready.going,
    );
    previous = ready.aged.previous;
    current_shared = ready.aged.current_shared;
    previous_shared = ready.aged.previous_shared;
    started = ready.aged.started;
    ttl_positive = ready.aged.ttl_positive;
    ttl_fits = ready.aged.ttl_fits;
    recovers = ready.aged.recovers;
  }
  put-IsAged shared n = record {
    current = ready.aged.current;
    previous = ready.aged.previous;
    current_shared = λ b e. ground (arith, ready.going);
    previous_shared = ready.aged.previous_shared;
    started = ready.aged.started;
    ttl_positive = ready.aged.ttl_positive;
    ttl_fits = ready.aged.ttl_fits;
    recovers = ready.aged.recovers;
  }

  -- What is left when a bucket has n tokens at this time, and how it was before.
  own_left :
      (k : String) (n : ℕ)
      → n ≤ s.capacity
      → let u = put_bucket s (own k) (used n s.last_now) in
        (available u (find u k) s.last_now ≡ n)
        × ((j : String)
            → str_eq k j ≡ false
            → available u (find u j) s.last_now ≡ available s (find s j) s.last_now)
        × (available u (find_shared u) s.last_now ≡ available s (find_shared s) s.last_now)
  unfolding put_bucket
  own_left k n h = (
    ground
        (arith, lookup-insert k k (used n s.last_now) s.buckets, str_eq_iff k k, refilled-used s n),
    λ j apart. ground (arith, lookup-insert k j (used n s.last_now) s.buckets),
    refl,
  )

  shared_left :
      (n : ℕ)
      → n ≤ s.capacity
      → let u = put_bucket s shared (used n s.last_now) in
        (available u (find_shared u) s.last_now ≡ n)
        × ((j : String) → available u (find u j) s.last_now ≡ available s (find s j) s.last_now)
  unfolding put_bucket
  shared_left n h = (ground (arith, refilled-used s n), λ j. refl)

  -- A bucket is left with n tokens, no more than it had but for those that are charged.
  pub own_put-Spends :
      (k subject : String) (consume : Bool) (n : ℕ) (d : Decision)
      → n ≤ s.capacity
      → n + (if d.allowed && consume then token else 0) ≤ available s (find s subject) s.last_now
      → Spends k subject consume s (put_bucket s (own subject) (used n s.last_now), d)
  own_put-Spends k subject consume n d fits paid =
      let (left, apart, same) = own_left subject n fits in
      record {
        aged = put-IsAged (own subject) n;
        last_now = unfold put_bucket in refl;
        capacity = unfold put_bucket in refl;
        refill = unfold put_bucket in refl;
        budget = elim (Bool-cases (str_eq subject k)) [
          | inl e ↦
              subst
                (λ j.
                  potential (put_bucket s (own subject) (used n s.last_now)) j s.last_now
                    + charge j subject consume d
                  ≤ potential s j s.last_now)
                ((str_eq_iff subject k).0 e) (ground (arith, left, same, paid))
          | inr e ↦ ground (arith, apart k e, same)
        ];
      }

  pub shared_put-Spends :
      (k subject : String) (consume : Bool) (n : ℕ) (d : Decision)
      → n ≤ s.capacity
      → n + (if d.allowed && consume then token else 0) ≤ available s (find_shared s) s.last_now
      → Spends k subject consume s (put_bucket s shared (used n s.last_now), d)
  shared_put-Spends k subject consume n d fits paid =
      let (left, same) = shared_left n fits in
      record {
        aged = put-IsAged shared n;
        last_now = unfold put_bucket in refl;
        capacity = unfold put_bucket in refl;
        refill = unfold put_bucket in refl;
        budget = ground (arith, left, same k, paid);
      }
