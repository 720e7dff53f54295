-- ===== src/Outcomes.antt =====
-- Errors as values, and transactions: internal/storage/db.go's WithTx, and what holds after one. The
-- state and the error type are those of the component that uses them.
use opswarden.Prelude.{◌≡◌, refl, Bool, true, false, Option, none, some, if◌then◌else◌}

pub data Outcome {ℓ} (E : Type 0) (A : Type ℓ) : Type ℓ where
  ok : A → Outcome E A
  err : E → Outcome E A

infixl 5 ◌>>=◌
abbrev pub ◌>>=◌ {ℓ κ} :
    {E : Type 0} {A : Type ℓ} {B : Type κ} → Outcome E A → (A → Outcome E B) → Outcome E B
ok a >>= next = next a
err e >>= next = err e

-- A check before the rest: it fails with the error or goes on.
abbrev pub unless {ℓ} : {E : Type 0} {A : Type ℓ} → Bool → E → Outcome E A → Outcome E A
unless bad e rest = if bad then err e else rest

-- A check that says which error it found; `none` is nil.
abbrev pub checked {ℓ} : {E : Type 0} {A : Type ℓ} → Option E → Outcome E A → Outcome E A
checked none rest = rest
checked (some e) rest = err e

-- A read that must find something; sql.ErrNoRows, or a read of the random source that fails.
unfoldable pub required {ℓ} : {E : Type 0} {A : Type ℓ} → E → Option A → Outcome E A
required e none = err e
required e (some a) = ok a

-- storage.WithTx: a failed transaction leaves the store as it was.
abbrev pub with_tx {ℓ} :
    {S : Type 0} {E : Type 0} {A : Type ℓ} → S → Outcome E (S × A) → S × Outcome E A
with_tx store (ok (s, a)) = (s, ok a)
with_tx store (err e) = (store, err e)

-- What holds of the store if there is one.
abbrev pub Holds {ℓ} :
    {S : Type 0} {E : Type 0} {A : Type ℓ} → (S → Type 0) → Outcome E (S × A) → Type 0
Holds P (ok (s, a)) = P s
Holds P (err e) = Unit

module _ {ℓ} {S : Type 0} {E : Type 0} {A : Type ℓ} (P : S → Type 0) where
  pub unless-Holds :
      (bad : Bool) (e : E) (rest : Outcome E (S × A))
      → (bad ≡ false → Holds P rest)
      → Holds P (unless bad e rest)
  unless-Holds true e rest h = tt
  unless-Holds false e rest h = h refl

  pub bind-Holds {κ} :
      {B : Type κ} (m : Outcome E B) (next : B → Outcome E (S × A))
      → ((b : B) → m ≡ ok b → Holds P (next b))
      → Holds P (m >>= next)
  bind-Holds (ok b) next h = h b refl
  bind-Holds (err e) next h = tt

  pub checked-Holds :
      (o : Option E) (rest : Outcome E (S × A))
      → (o ≡ none → Holds P rest)
      → Holds P (checked o rest)
  checked-Holds none rest h = h refl
  checked-Holds (some e) rest h = tt

  pub with_tx-Holds :
      (store : S) (r : Outcome E (S × A)) → P store → Holds P r → P (with_tx store r).0
  with_tx-Holds store (ok (s, a)) p h = h
  with_tx-Holds store (err e) p h = p

  -- A guard in front of an operation answers with the store as it was.
  pub guarded-Holds :
      (store : S) (bad : Bool) (e : E) (rest : S × Outcome E A)
      → P store
      → P rest.0
      → P (if bad then (store, err e) else rest).0
  guarded-Holds store true e rest p h = p
  guarded-Holds store false e rest p h = h

-- A read of the random source in front of an operation.
pub drawn-Holds {ℓ κ} :
    {S : Type 0} {E : Type 0} {A : Type ℓ} {B : Type κ} (P : S → Type 0) (store : S) (o : Option B)
    (e : E) (rest : B → S × Outcome E A)
    → P store
    → ((b : B) → P (rest b).0)
    → P (elim o as (λ x. S × Outcome E A) [ none ↦ (store, err e) | some b ↦ rest b ]).0
drawn-Holds P store none e rest p h = p
drawn-Holds P store (some b) e rest p h = h b

-- What succeeded went through every step.
module _ {ℓ κ} {E : Type 0} {A : Type ℓ} {B : Type κ} where
  pub bind_ok :
      (m : Outcome E A) (next : A → Outcome E B) (b : B)
      → m >>= next ≡ ok b
      → (a : A) × (m ≡ ok a) × (next a ≡ ok b)
  bind_ok (ok a) next b h = (a, refl, h)
  bind_ok (err e) next b h = absurd (cc)

pub unless_ok {ℓ} :
    {E : Type 0} {A : Type ℓ} (bad : Bool) (e : E) (rest : Outcome E A) (a : A)
    → unless bad e rest ≡ ok a
    → (bad ≡ false) × (rest ≡ ok a)
unless_ok true e rest a h = absurd (cc)
unless_ok false e rest a h = (refl, h)

pub ok_injective {ℓ} :
    {E : Type 0} {A : Type ℓ} {a b : A} → Path (Outcome E A) (ok a) (ok b) → a ≡ b
ok_injective h = cc

pub required_ok {ℓ} :
    {E : Type 0} {A : Type ℓ} (e : E) (o : Option A) (a : A) → required e o ≡ ok a → o ≡ some a
unfolding required
required_ok e none a h = absurd (cc)
required_ok e (some b) a h = cc

pub with_tx_ok {ℓ} :
    {S : Type 0} {E : Type 0} {A : Type ℓ} (store s : S) (r : Outcome E (S × A)) (a : A)
    → (with_tx store r).1 ≡ ok a
    → (with_tx store r).0 ≡ s
    → r ≡ ok (s, a)
with_tx_ok store s (ok (t, b)) a h e = cc
with_tx_ok store s (err x) a h e = absurd (cc)
