-- ===== src/Limiter/Rotation.antt =====
-- The change of generations.
use native.Mathlib.Nat.{mul-le-mul_right, mul-le-mul_left, div-add-mod, mod-lt}
use opswarden.Prelude.{
  ℕ, zero, suc, ◌+◌, ◌-◌, ◌*◌, ◌/◌, ◌%◌, ◌≤◌, ◌<◌, ◌≡◌, refl, sym, inl, inr, Bool-cases, true,
  false, String, arith, Option, none, some, lookup, Time, time_sub, before, is_zero, leb, ltb,
}
use opswarden.Limiter.{
  Bucket, OperationState, rotate_generation, next_generation, subject_count, refilled,
}
use opswarden.Limiter.State.{find, find_shared, IsAged, available}

-- A bucket that was not used for a whole generation is full.
refilled_full :
    (s : OperationState) (b : Bucket) (now : Time)
    → IsAged s
    → b.last + s.generation_ttl ≤ now
    → refilled s b now ≡ s.capacity
refilled_full s b now a h =
    let long : s.generation_ttl ≤ time_sub now b.last = omega (arith, a.ttl_fits) in
    omega (arith, a.recovers, mul-le-mul_right s.refill long)

remainder_room : (t q r : ℕ) → r < t → t ≤ t * q + r → r + t ≤ t * q + r
remainder_room t zero r h k = absurd (omega arith)
remainder_room t (suc q) r h k = grind arith

mod_room : (e t : ℕ) → 0 < t → t ≤ e → e % t + t ≤ e
mod_room e t p h =
    let whole = div-add-mod e t in
    omega (arith, remainder_room t (e / t) (e % t) (mod-lt e p) (omega (arith, whole)), whole)

two_generations : (e t : ℕ) → 2 ≤ e / t → t + t ≤ e
two_generations e t h =
    let twice : t * 2 ≤ t * (e / t) = mul-le-mul_left t h in omega (arith, twice, div-add-mod e t)

-- What a change of generations keeps: the ages, and what each subject may spend.
pub record Rotated (s : OperationState) (now : Time) (r : OperationState) : Type 0 where
  pub aged : IsAged (record r { last_now = now })
  pub capacity : r.capacity ≡ s.capacity
  pub refill : r.refill ≡ s.refill
  pub going : now < r.generation_start + r.generation_ttl
  pub own_available :
      (subject : String) → available r (find r subject) now ≡ available s (find s subject) now
  pub shared_available : available r (find_shared r) now ≡ available s (find_shared s) now
  pub count : subject_count r ≤ subject_count s

module _ (s : OperationState) (now : Time) (a : IsAged s) (later : s.last_now ≤ now)
    (over : s.generation_ttl ≤ time_sub now s.generation_start) where
  new_start :
      let elapsed = time_sub now s.generation_start in
      (s.generation_start + s.generation_ttl ≤ now - elapsed % s.generation_ttl)
      × (now - elapsed % s.generation_ttl ≤ now)
  new_start =
      let elapsed = time_sub now s.generation_start in
      let room = mod_room elapsed s.generation_ttl a.ttl_positive over in
      (omega (arith, a.ttl_positive), omega arith)

  still_going : now < now - time_sub now s.generation_start % s.generation_ttl + s.generation_ttl
  still_going = omega (arith, mod-lt (time_sub now s.generation_start) a.ttl_positive)

  -- The previous generation is forgotten: its buckets are full.
  previous_full :
      (b : Option Bucket)
      → ((c : Bucket) → b ≡ some c → (c.last ≤ s.last_now) × (c.last ≤ s.generation_start))
      → available s b now ≡ s.capacity
  previous_full none h = refl
  previous_full (some b) h = let old = h b refl in refilled_full s b now a (omega arith)

  current_full :
      s.generation_ttl + s.generation_ttl ≤ time_sub now s.generation_start
      → (b : Option Bucket)
      → ((c : Bucket)
          → b ≡ some c
          → (c.last ≤ s.last_now) × (c.last < s.generation_start + s.generation_ttl))
      → available s b now ≡ s.capacity
  current_full two none h = refl
  current_full two (some b) h = let old = h b refl in refilled_full s b now a (omega arith)

  abbrev either : Option Bucket → Option Bucket → Option Bucket
  either current previous = elim current [ some b ↦ some b | none ↦ previous ]

  forget_previous :
      (b c : Option Bucket)
      → ((d : Bucket) → c ≡ some d → (d.last ≤ s.last_now) × (d.last ≤ s.generation_start))
      → available s b now ≡ available s (either b c) now
  forget_previous none c h = sym (previous_full c h)
  forget_previous (some b) c h = refl

  forget_both :
      s.generation_ttl + s.generation_ttl ≤ time_sub now s.generation_start
      → (b c : Option Bucket)
      → ((d : Bucket)
          → b ≡ some d
          → (d.last ≤ s.last_now) × (d.last < s.generation_start + s.generation_ttl))
      → ((d : Bucket) → c ≡ some d → (d.last ≤ s.last_now) × (d.last ≤ s.generation_start))
      → s.capacity ≡ available s (either b c) now
  forget_both two none c g h = sym (previous_full c h)
  forget_both two (some b) c g h = sym (current_full two (some b) g)

  one_generation :
      leb 2 (time_sub now s.generation_start / s.generation_ttl) ≡ false
      → Rotated s now (next_generation s now (time_sub now s.generation_start))
  unfolding lookup
  one_generation one = rw one record {
    aged = record {
      current = λ k b e. absurd (cc);
      previous = λ k b e. let old = a.current k b e in (omega arith, omega (arith, new_start));
      current_shared = λ b e. absurd (cc);
      previous_shared =
          λ b e. let old = a.current_shared b e in (omega arith, omega (arith, new_start));
      started = new_start.1;
      ttl_positive = a.ttl_positive;
      ttl_fits = a.ttl_fits;
      recovers = a.recovers;
    };
    capacity = refl;
    refill = refl;
    going = still_going;
    own_available =
        λ k. forget_previous (lookup k s.buckets) (lookup k s.previous_buckets) (a.previous k);
    shared_available = forget_previous s.overflow s.previous_overflow a.previous_shared;
    count = omega arith;
  }

  more_generations :
      leb 2 (time_sub now s.generation_start / s.generation_ttl) ≡ true
      → Rotated s now (next_generation s now (time_sub now s.generation_start))
  unfolding lookup
  more_generations more =
      let two = two_generations (time_sub now s.generation_start) s.generation_ttl (ground arith) in
      rw more record {
        aged = record {
          current = λ k b e. absurd (cc);
          previous = λ k b e. absurd (cc);
          current_shared = λ b e. absurd (cc);
          previous_shared = λ b e. absurd (cc);
          started = new_start.1;
          ttl_positive = a.ttl_positive;
          ttl_fits = a.ttl_fits;
          recovers = a.recovers;
        };
        capacity = refl;
        refill = refl;
        going = still_going;
        own_available = λ k.
            forget_both two (lookup k s.buckets) (lookup k s.previous_buckets) (a.current k)
              (a.previous k);
        shared_available =
            forget_both two s.overflow s.previous_overflow a.current_shared a.previous_shared;
        count = omega arith;
      }

  turned-Rotated : Rotated s now (next_generation s now (time_sub now s.generation_start))
  turned-Rotated = elim (Bool-cases (leb 2 (time_sub now s.generation_start / s.generation_ttl))) [
    | inl more ↦ more_generations more
    | inr one ↦ one_generation one
  ]

module _ (s : OperationState) (now : Time) (a : IsAged s) (later : s.last_now ≤ now) where
  -- The first call begins the first generation.
  begun-Rotated : Rotated s now (record s { generation_start = now })
  begun-Rotated = record {
    aged = record {
      current = λ k b e. let old = a.current k b e in (omega arith, omega (arith, a.ttl_positive));
      previous = λ k b e. let old = a.previous k b e in (omega arith, omega arith);
      current_shared =
          λ b e. let old = a.current_shared b e in (omega arith, omega (arith, a.ttl_positive));
      previous_shared = λ b e. let old = a.previous_shared b e in (omega arith, omega arith);
      started = omega arith;
      ttl_positive = a.ttl_positive;
      ttl_fits = a.ttl_fits;
      recovers = a.recovers;
    };
    capacity = refl;
    refill = refl;
    going = omega (arith, a.ttl_positive);
    own_available = λ k. refl;
    shared_available = refl;
    count = omega arith;
  }

  kept-Rotated : now < s.generation_start + s.generation_ttl → Rotated s now s
  kept-Rotated within = record {
    aged = record {
      current = λ k b e. let old = a.current k b e in (omega arith, old.1);
      previous = λ k b e. let old = a.previous k b e in (omega arith, old.1);
      current_shared = λ b e. let old = a.current_shared b e in (omega arith, old.1);
      previous_shared = λ b e. let old = a.previous_shared b e in (omega arith, old.1);
      started = omega (arith, a.started);
      ttl_positive = a.ttl_positive;
      ttl_fits = a.ttl_fits;
      recovers = a.recovers;
    };
    capacity = refl;
    refill = refl;
    going = within;
    own_available = λ k. refl;
    shared_available = refl;
    count = omega arith;
  }

-- A change of generations, at a time that is not before the last one, from a state with right
-- ages, takes nothing from and gives nothing to any subject: what it may spend from its own bucket
-- and from the shared one at that time is as before; the ages stay right, capacity and rate too,
-- and there are no more subjects.
pub rotate_generation-Rotated :
    (s : OperationState) (now : Time)
    → IsAged s
    → s.last_now ≤ now
    → Rotated s now (rotate_generation s now)
unfolding rotate_generation
rotate_generation-Rotated s now a later = elim (Bool-cases (is_zero s.generation_start)) [
  | inl first ↦ rw first (begun-Rotated s now a later)
  | inr going ↦ elim (Bool-cases (before now s.generation_start)) [
    | inl early ↦
        rw (going, early) (kept-Rotated s now a later (ground (arith, a.ttl_fits, a.ttl_positive)))
    | inr on_time ↦ elim (Bool-cases (ltb (time_sub now s.generation_start) s.generation_ttl)) [
      | inl within ↦
          rw (going, on_time, within)
            (kept-Rotated s now a later (ground (arith, a.ttl_fits, a.ttl_positive)))
      | inr over ↦ rw (going, on_time, over) (turned-Rotated s now a later (ground arith))
    ]
  ]
]
