-- ===== src/Limiter/State.antt =====
-- The buckets of an operation as a client sees them: one for each subject, and the shared one.
use opswarden.Prelude.{
  ℕ, ◌+◌, ◌*◌, ◌≤◌, ◌<◌, ◌≡◌, refl, inl, inr, String, arith, Option, none, some, Option-cases,
  lookup, insert, delete, lookup-insert, lookup-delete, length-insert-le, length-delete-lt,
  str_eq_iff, Time, max_duration,
}
use opswarden.Limiter.{Bucket, OperationState, subject_bucket, subject_count, refilled}

-- The subject's bucket in either generation.
abbrev pub find : OperationState → String → Option Bucket
find s subject = elim (lookup subject s.buckets) [
  | some bucket ↦ some bucket
  | none ↦ lookup subject s.previous_buckets
]

abbrev pub find_shared : OperationState → Option Bucket
find_shared s = elim s.overflow [ some bucket ↦ some bucket | none ↦ s.previous_overflow ]

-- When the buckets were last used, and that a generation is long enough to fill one.
pub record IsAged (s : OperationState) : Type 0 where
  pub current :
      (subject : String) (b : Bucket)
      → lookup subject s.buckets ≡ some b
      → (b.last ≤ s.last_now) × (b.last < s.generation_start + s.generation_ttl)
  pub previous :
      (subject : String) (b : Bucket)
      → lookup subject s.previous_buckets ≡ some b
      → (b.last ≤ s.last_now) × (b.last ≤ s.generation_start)
  pub current_shared :
      (b : Bucket)
      → s.overflow ≡ some b
      → (b.last ≤ s.last_now) × (b.last < s.generation_start + s.generation_ttl)
  pub previous_shared :
      (b : Bucket)
      → s.previous_overflow ≡ some b
      → (b.last ≤ s.last_now) × (b.last ≤ s.generation_start)
  pub started : s.generation_start ≤ s.last_now
  pub ttl_positive : 0 < s.generation_ttl
  pub ttl_fits : s.generation_ttl ≤ max_duration
  pub recovers : s.capacity ≤ s.generation_ttl * s.refill

-- What is the same in two states: all but the buckets and the counters.
pub record SameFrame (s t : OperationState) : Type 0 where
  pub capacity : t.capacity ≡ s.capacity
  pub refill : t.refill ≡ s.refill
  pub last_now : t.last_now ≡ s.last_now
  pub generation_ttl : t.generation_ttl ≡ s.generation_ttl
  pub generation_start : t.generation_start ≡ s.generation_start

module _ (s : OperationState) (subject : String) where
  -- Looking up a subject's bucket moves it between the generations and changes nothing that a client
  -- sees.
  pub record Looked (t : OperationState) (b : Option Bucket) : Type 0 where
    pub bucket : b ≡ find s subject
    pub others : (other : String) → find t other ≡ find s other
    pub frame : SameFrame s t
    pub overflow : t.overflow ≡ s.overflow
    pub previous_overflow : t.previous_overflow ≡ s.previous_overflow
    pub aged : IsAged s → IsAged t
    pub count : subject_count t ≤ subject_count s
    pub placed : (c : Bucket) → b ≡ some c → lookup subject t.buckets ≡ some c
    pub new : b ≡ none → lookup subject t.buckets ≡ none

  moved : (b : Bucket) → OperationState
  moved b = record s {
    previous_buckets = delete subject s.previous_buckets;
    buckets = insert subject b s.buckets;
  }

  moved-IsAged :
      (b : Bucket) → lookup subject s.previous_buckets ≡ some b → IsAged s → IsAged (moved b)
  unfolding moved
  moved-IsAged b e a = record {
    current = λ k c h. ground (
      arith,
      lookup-insert subject k b s.buckets,
      a.current k c,
      a.previous subject b e,
      a.ttl_positive,
    );
    previous = λ k c h. ground (arith, lookup-delete subject k s.previous_buckets, a.previous k c);
    current_shared = a.current_shared;
    previous_shared = a.previous_shared;
    started = a.started;
    ttl_positive = a.ttl_positive;
    ttl_fits = a.ttl_fits;
    recovers = a.recovers;
  }

  frame_refl : SameFrame s s
  frame_refl = record {
    capacity = refl;
    refill = refl;
    last_now = refl;
    generation_ttl = refl;
    generation_start = refl;
  }

  stays-Looked :
      (b : Option Bucket)
      → b ≡ find s subject
      → ((c : Bucket) → b ≡ some c → lookup subject s.buckets ≡ some c)
      → (b ≡ none → lookup subject s.buckets ≡ none)
      → Looked s b
  stays-Looked b e p n = record {
    bucket = e;
    others = λ other. refl;
    frame = frame_refl;
    overflow = refl;
    previous_overflow = refl;
    aged = λ a. a;
    count = omega arith;
    placed = p;
    new = n;
  }

  moved-Looked :
      (b : Bucket)
      → lookup subject s.buckets ≡ none
      → lookup subject s.previous_buckets ≡ some b
      → Looked (moved b) (some b)
  unfolding moved
  moved-Looked b e e' = record {
    bucket = ground arith;
    others = λ other. ground (
      arith,
      lookup-insert subject other b s.buckets,
      lookup-delete subject other s.previous_buckets,
      str_eq_iff subject other,
    );
    frame = record {
      capacity = refl;
      refill = refl;
      last_now = refl;
      generation_ttl = refl;
      generation_start = refl;
    };
    overflow = refl;
    previous_overflow = refl;
    aged = moved-IsAged b e';
    count = omega (
      arith,
      length-insert-le subject b s.buckets,
      length-delete-lt subject b s.previous_buckets e',
    );
    placed = λ c h.
        ground (arith, lookup-insert subject subject b s.buckets, str_eq_iff subject subject);
    new = λ h. absurd (cc);
  }

  pub subject_bucket-Looked : let (t, b) = subject_bucket s subject in Looked t b
  unfolding subject_bucket moved
  subject_bucket-Looked = elim (Option-cases (lookup subject s.buckets)) [
    | inr (b, e) ↦
        rw (e, subject_bucket)
          (stays-Looked (some b) (ground arith) (λ c h. ground arith) (λ h. cc))
    | inl e ↦ elim (Option-cases (lookup subject s.previous_buckets)) [
      | inr (b, e') ↦ rw (e, e', subject_bucket) (moved-Looked b e e')
      | inl e' ↦ rw (e, e', subject_bucket) (stays-Looked none (ground arith) (λ c h. cc) (λ h. e))
    ]
  ]

-- The tokens that a bucket has at a time; without a bucket it is as if one were full.
abbrev pub available : OperationState → Option Bucket → Time → ℕ
available s bucket now = elim bucket [ none ↦ s.capacity | some b ↦ refilled s b now ]
