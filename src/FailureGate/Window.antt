-- ===== src/FailureGate/Window.antt =====
-- The limits of one window.
use opswarden.Prelude.{
  ℕ, ◌+◌, ◌%◌, not, ◌&&◌, leb, Bool-cases, ◌≤◌, ◌<◌, ◌≡◌, refl, inl, inr, true, false, String,
  arith, none, some, Option-cases, length, Dict, lookup, insert, lookup-insert, str_eq, str_eq_iff,
  length-insert_new, length-insert_old, if◌then◌else◌, Time,
}
use opswarden.FailureGate.{
  add_u64, OperationState, Observation, per_key_limit, durable_limit, max_keys, suppress_in,
  count_key, observe_key,
}

-- How often the key was recorded in this window.
abbrev pub recorded_of : Dict ℕ → String → ℕ
recorded_of entries key = elim (lookup key entries) [ none ↦ 0 | some n ↦ n ]

-- The state keeps within its limits.
pub record IsBounded (s : OperationState) : Type 0 where
  pub keys : length s.entries ≤ max_keys
  pub rows : s.durable_rows ≤ durable_limit
  pub counts : (key : String) → recorded_of s.entries key ≤ per_key_limit

-- What an observation within the window does: it is recorded, within both limits, or counted as
-- suppressed, and `n` is the number of records of its key before it.
pub record Counts (s : OperationState) (key : String) (n : ℕ) (r : OperationState × Observation)
    : Type 0 where
  pub entries :
      (j : String)
      → recorded_of r.0.entries j
        ≡ recorded_of s.entries j + (if str_eq key j && r.1.record_individual then 1 else 0)
  pub rows : r.0.durable_rows ≡ s.durable_rows + (if r.1.record_individual then 1 else 0)
  pub suppressed :
      r.0.suppressed ≡ (if r.1.record_individual then s.suppressed else add_u64 s.suppressed 1)
  pub limited : r.1.rate_limited ≡ not r.1.record_individual
  pub within : r.1.record_individual ≡ true → (n < per_key_limit) × (s.durable_rows < durable_limit)
  pub keys : length r.0.entries ≤ max_keys
  pub start : r.0.window_start ≡ s.window_start

-- An observation that says nothing yet.
abbrev pub IsOpen : Observation → Type 0
IsOpen o = (o.record_individual ≡ false) × (o.rate_limited ≡ false)

module _ (s : OperationState) (key : String) (now : Time) (o : Observation)
    (open_o : IsOpen o) where
  pub suppress_in-Counts :
      (n : ℕ) → length s.entries ≤ max_keys → Counts s key n (suppress_in s now o)
  unfolding suppress_in
  suppress_in-Counts n h = record {
    entries = λ j. ground arith;
    rows = ground arith;
    suppressed = ground arith;
    limited = ground arith;
    within = ground arith;
    keys = h;
    start = refl;
  }

  count_key-Counts :
      (n : ℕ)
      → lookup key s.entries ≡ some n
      → n ≤ per_key_limit
      → length s.entries ≤ max_keys
      → Counts s key n (count_key s key n now o)
  unfolding count_key
  count_key-Counts n e c h = record {
    entries = λ j. ground (arith, lookup-insert key j ((n + 1) % 256) s.entries, str_eq_iff key j);
    rows = ground arith;
    suppressed = ground arith;
    limited = ground arith;
    within = ground arith;
    keys = ground (arith, length-insert_old key ((n + 1) % 256) n s.entries);
    start = ground arith;
  }

  -- A key that is not there yet is entered with no records, also if it is then suppressed.
  count_new-Counts :
      lookup key s.entries ≡ none
      → length s.entries < max_keys
      → Counts s key 0 (count_key (record s { entries = insert key 0 s.entries }) key 0 now o)
  unfolding count_key
  count_new-Counts e h = record {
    entries = λ j. ground (
      arith,
      lookup-insert key j 1 (insert key 0 s.entries),
      lookup-insert key j 0 s.entries,
      str_eq_iff key j,
    );
    rows = ground arith;
    suppressed = ground arith;
    limited = ground arith;
    within = ground arith;
    keys = ground (
      arith,
      length-insert_old key 1 0 (insert key 0 s.entries),
      lookup-insert key key 0 s.entries,
      str_eq_iff key key,
      length-insert_new key 0 s.entries,
    );
    start = ground arith;
  }

  observe_known-Counts :
      (n : ℕ)
      → recorded_of s.entries key ≡ n
      → n ≤ per_key_limit
      → length s.entries ≤ max_keys
      → Counts s key n (observe_key s key now o)
  unfolding observe_key
  observe_known-Counts n z c h = elim (Option-cases (lookup key s.entries)) [
    | inr (m, e) ↦
        let found : lookup key s.entries ≡ some n = ground arith in
        rw (found, observe_key) (count_key-Counts n found c h)
    | inl e ↦ elim (Bool-cases (leb max_keys (length s.entries))) [
      | inl full ↦ rw (e, full, observe_key) (suppress_in-Counts n h)
      | inr room ↦
          let none_yet : n ≡ 0 = ground arith in
          rw (e, room, none_yet, observe_key) (count_new-Counts e (ground arith))
    ]
  ]

  pub observe_key-Counts :
      recorded_of s.entries key ≤ per_key_limit
      → length s.entries ≤ max_keys
      → Counts s key (recorded_of s.entries key) (observe_key s key now o)
  observe_key-Counts c h = observe_known-Counts (recorded_of s.entries key) refl c h
