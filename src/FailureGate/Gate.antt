-- ===== src/FailureGate/Gate.antt =====
-- The gate as a whole: each call touches one operation, out of a fixed set.
use opswarden.Prelude.{
  ℕ, ◌+◌, ◌≤◌, ◌≡◌, ◌≢◌, refl, sym, subst, ◌⊎◌, inl, inr, Bool, true, Bool-cases, String, arith,
  List, [], ◌∷◌, none, some, Option-cases, length, lookup, insert, lookup-insert, str_eq,
  str_eq_iff, Time, any, ◌||◌, is_zero, length-insert_new, length-insert_old,
}
use opswarden.FailureGate.{
  OperationState, FailureGate, max_keys, known_operations, other_operation, bounded_operation,
  observe_operation, observe_mode, operation_state, entry_count,
}
use opswarden.FailureGate.Window.{IsBounded}
use opswarden.FailureGate.Operation.{observe_operation-IsBounded}

-- Every operation's state keeps within its limits.
abbrev pub GateIsBounded : FailureGate → Type 0
GateIsBounded gate =
    (operation : String) (s : OperationState) → lookup operation gate ≡ some s → IsBounded s

operation_state-IsBounded :
    (gate : FailureGate) (operation : String) (now : Time)
    → GateIsBounded gate
    → IsBounded (operation_state gate operation now)
unfolding lookup
operation_state-IsBounded gate operation now b = elim (Option-cases (lookup operation gate)) [
  | inl e ↦
      rw (e, operation_state)
        (record { keys = omega arith; rows = omega arith; counts = λ key. omega arith })
  | inr (s, e) ↦ rw (e, operation_state) (b operation s e)
]

observe_mode_source :
    (gate : FailureGate) (operation key name : String) (now : Time) (forced : Bool)
    (s : OperationState)
    → lookup name (observe_mode gate operation key now forced).0 ≡ some s
    → let state = operation_state gate (bounded_operation operation) now in
      (s ≡ (observe_operation state key now forced).0) ⊎ (lookup name gate ≡ some s)
unfolding observe_mode
observe_mode_source gate operation key name now forced s e = ground (
  arith,
  lookup-insert (bounded_operation operation) name
      (observe_operation (operation_state gate (bounded_operation operation) now) key now forced).0
      gate,
)

-- No call, with whatever operation, key and time, makes the gate pass its limits.
observe_mode-GateIsBounded :
    (gate : FailureGate) (operation key : String) (now : Time) (forced : Bool)
    → GateIsBounded gate
    → GateIsBounded (observe_mode gate operation key now forced).0
observe_mode-GateIsBounded gate operation key now forced b name s e =
    elim (observe_mode_source gate operation key name now forced s e) [
      | inl new ↦ subst IsBounded (sym new) (
          observe_operation-IsBounded _ key now forced
            (operation_state-IsBounded gate (bounded_operation operation) now b))
      | inr old ↦ b name s old
    ]

-- A call leaves every operation alone but the one that its own name stands for.
pub observe_mode_frame :
    (gate : FailureGate) (operation key other : String) (now : Time) (forced : Bool)
    → bounded_operation operation ≢ other
    → lookup other (observe_mode gate operation key now forced).0 ≡ lookup other gate
unfolding observe_mode
observe_mode_frame gate operation key other now forced n = ground (
  arith,
  lookup-insert (bounded_operation operation) other
      (observe_operation (operation_state gate (bounded_operation operation) now) key now forced).0
      gate,
  str_eq_iff (bounded_operation operation) other,
)

-- How many of the names have no state yet.
abbrev missing : List String → FailureGate → ℕ
missing [] gate = 0
missing (name ∷ names) gate =
    (elim (lookup name gate) [ none ↦ 1 | some s ↦ 0 ]) + missing names gate

missing-insert-le :
    (names : List String) (gate : FailureGate) (k : String) (s : OperationState)
    → missing names (insert k s gate) ≤ missing names gate
missing-insert-le [] gate k s = omega arith
missing-insert-le (n ∷ names) gate k s =
    ground (arith, missing-insert-le names gate k s, lookup-insert k n s gate)

missing-insert-lt :
    (names : List String) (gate : FailureGate) (k : String) (s : OperationState)
    → any (str_eq k) names ≡ true
    → lookup k gate ≡ none
    → missing names (insert k s gate) + 1 ≤ missing names gate
missing-insert-lt [] gate k s h e = cc
missing-insert-lt (n ∷ names) gate k s h e = ground (
  arith,
  missing-insert-le names gate k s,
  missing-insert-lt names gate k s,
  lookup-insert k n s gate,
  str_eq_iff k n,
)

abbrev all_operations : List String
all_operations = other_operation ∷ known_operations

-- The gate has room for the operations that it does not hold yet, and for no other.
abbrev pub IsSmall : FailureGate → Type 0
IsSmall gate = length gate + missing all_operations gate ≤ 8

bounded_operation_known :
    (operation : String) → any (str_eq (bounded_operation operation)) all_operations ≡ true
unfolding bounded_operation
bounded_operation_known operation = elim (Bool-cases (any (str_eq operation) known_operations)) [
  | inl known ↦ rw known (ground arith)
  | inr unknown ↦ rw unknown refl
]

insert-IsSmall :
    (gate : FailureGate) (k : String) (s : OperationState)
    → any (str_eq k) all_operations ≡ true
    → IsSmall gate
    → IsSmall (insert k s gate)
insert-IsSmall gate k s h b = elim (Option-cases (lookup k gate)) [
  | inl e ↦
      omega (arith, length-insert_new k s gate e, missing-insert-lt all_operations gate k s h e)
  | inr (t, e) ↦
      omega (arith, length-insert_old k s t gate e, missing-insert-le all_operations gate k s)
]

observe_mode-IsSmall :
    (gate : FailureGate) (operation key : String) (now : Time) (forced : Bool)
    → IsSmall gate
    → IsSmall (observe_mode gate operation key now forced).0
unfolding observe_mode
observe_mode-IsSmall gate operation key now forced b =
    elim (Bool-cases (str_eq key "" || is_zero now)) [
      | inl refused ↦ rw refused b
      | inr accepted ↦ rw accepted (insert-IsSmall gate _ _ (bounded_operation_known operation) b)
    ]

pub record Call : Type 0 where
  pub operation : String
  pub key : String
  pub now : Time
  pub forced : Bool

-- The gate after the calls, the oldest first.
pub after_calls : FailureGate → List Call → FailureGate
after_calls gate [] = gate
after_calls gate (c ∷ calls) =
    after_calls (observe_mode gate c.operation c.key c.now c.forced).0 calls

after_calls_bounded :
    (gate : FailureGate) (calls : List Call)
    → GateIsBounded gate
    → IsSmall gate
    → GateIsBounded (after_calls gate calls) × IsSmall (after_calls gate calls)
unfolding after_calls
after_calls_bounded gate [] b s = (b, s)
after_calls_bounded gate (c ∷ calls) b s =
    after_calls_bounded (observe_mode gate c.operation c.key c.now c.forced).0 calls
      (observe_mode-GateIsBounded gate c.operation c.key c.now c.forced b)
      (observe_mode-IsSmall gate c.operation c.key c.now c.forced s)

entry_count-le :
    (gate : FailureGate) (operation : String)
    → GateIsBounded gate
    → entry_count gate operation ≤ max_keys
unfolding entry_count
entry_count-le gate operation b = elim (Option-cases (lookup (bounded_operation operation) gate)) [
  | inl e ↦ rw (e, entry_count) (omega arith)
  | inr (s, e) ↦ rw (e, entry_count) (b (bounded_operation operation) s e).keys
]

-- Requests cannot fill the gate, whatever names, keys and times they send: from the empty gate no
-- calls lead to more than eight operations, or to more than 4096 keys of one.
pub gate_bounded :
    (calls : List Call) (operation : String)
    → let gate = after_calls [] calls in (length gate ≤ 8) × (entry_count gate operation ≤ max_keys)
unfolding lookup
gate_bounded calls operation =
    let (b, s) = after_calls_bounded [] calls (λ name s e. absurd (cc)) (omega arith) in
    (omega arith, entry_count-le _ operation b)
