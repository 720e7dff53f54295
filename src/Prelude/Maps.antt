-- ===== src/Prelude/Maps.antt =====
-- A Go map with string keys, as an association list: `m[k]`, `m[k] = v`, `delete(m, k)`, `len(m)`.
-- The list holds each key once if it was built from the empty map by these operations.
use Prim.Native.Nat.{◌+◌, ◌≤◌, ◌<◌}
use Prim.Native.String.{String}
use mathlib.Core.Path.{◌≡◌, refl, subst}
use mathlib.Core.Logic.{inl, inr}
use mathlib.Core.Option.{Option, none, some}
use mathlib.Core.List.{List, [], ◌∷◌}
use native.Mathlib.Omega.{arith}
use text.Mathlib.Text.{◌==◌ as str_eq}
use text.Mathlib.TextEquality.{eq_iff}
use opswarden.Prelude.Tests.{if◌then◌else◌, Bool-cases}
use opswarden.Prelude.Lists.{length}

abbrev pub Dict {ℓ} : Type ℓ → Type ℓ
Dict V = List (String × V)

module _ {ℓ} {V : Type ℓ} where
  unfoldable pub lookup : String → Dict V → Option V
  lookup wanted [] = none
  lookup wanted (entry ∷ rest) = if str_eq entry.0 wanted then some entry.1 else lookup wanted rest

  unfoldable pub insert : String → V → Dict V → Dict V
  insert key value [] = (key, value) ∷ []
  insert key value (entry ∷ rest) =
      if str_eq entry.0 key then (key, value) ∷ rest else entry ∷ insert key value rest

  unfoldable pub delete : String → Dict V → Dict V
  delete key [] = []
  delete key (entry ∷ rest) =
      let kept = delete key rest in if str_eq entry.0 key then kept else entry ∷ kept

  -- A read after a write.
  pub lookup-insert :
      (key wanted : String) (value : V) (dict : Dict V)
      → lookup wanted (insert key value dict)
        ≡ (if str_eq key wanted then some value else lookup wanted dict)
  unfolding insert lookup
  lookup-insert key wanted value [] = refl
  lookup-insert key wanted value (entry ∷ rest) = ground (
    arith,
    lookup-insert key wanted value rest,
    eq_iff entry.0 wanted,
    eq_iff entry.0 key,
    eq_iff key wanted,
  )

  pub lookup-delete :
      (k j : String) (m : Dict V)
      → lookup j (delete k m) ≡ (if str_eq k j then none else lookup j m)
  unfolding lookup delete
  lookup-delete k j [] = ground arith
  lookup-delete k j ((i, v) ∷ m) =
      ground (arith, lookup-delete k j m, eq_iff i k, eq_iff i j, eq_iff k j)

  pub length-insert_new :
      (k : String) (v : V) (m : Dict V) → lookup k m ≡ none → length (insert k v m) ≡ length m + 1
  unfolding lookup insert
  length-insert_new k v [] h = omega arith
  length-insert_new k v ((j, w) ∷ m) h = ground (arith, length-insert_new k v m)

  pub length-insert_old :
      (k : String) (v w : V) (m : Dict V) → lookup k m ≡ some w → length (insert k v m) ≡ length m
  unfolding lookup insert
  length-insert_old k v w [] h = cc
  length-insert_old k v w ((j, x) ∷ m) h = ground (arith, length-insert_old k v w m)

  pub length-insert-le : (k : String) (v : V) (m : Dict V) → length (insert k v m) ≤ length m + 1
  unfolding insert
  length-insert-le k v [] = omega arith
  length-insert-le k v ((j, w) ∷ m) = ground (arith, length-insert-le k v m)

  pub length-delete-le : (k : String) (m : Dict V) → length (delete k m) ≤ length m
  unfolding delete
  length-delete-le k [] = omega arith
  length-delete-le k ((j, w) ∷ m) = ground (arith, length-delete-le k m)

  pub length-delete-lt :
      (k : String) (v : V) (m : Dict V) → lookup k m ≡ some v → length (delete k m) < length m
  unfolding lookup delete
  length-delete-lt k v [] h = cc
  length-delete-lt k v ((j, w) ∷ m) h = ground (arith, length-delete-le k m, length-delete-lt k v m)

pub ruleset dict_laws = (lookup-insert, lookup-delete)

pub insert-insert {ℓ} :
    {V : Type ℓ} (k : String) (v w : V) (m : Dict V) → insert k v (insert k w m) ≡ insert k v m
unfolding insert
insert-insert k v w [] = ground (arith, eq_iff k k)
insert-insert k v w ((j, x) ∷ m) = ground (arith, eq_iff j k, eq_iff k k, insert-insert k v w m)

-- Each key once, as the primary key of a table says.
abbrev pub Unique {ℓ} : {V : Type ℓ} → Dict V → Type ℓ
Unique [] = Unit
Unique (entry ∷ rest) = (lookup entry.0 rest ≡ none) × Unique rest

module _ {ℓ} {V : Type ℓ} where
  pub Unique-insert : (k : String) (v : V) (m : Dict V) → Unique m → Unique (insert k v m)
  unfolding insert lookup
  Unique-insert k v [] u = (refl, tt)
  Unique-insert k v (e ∷ m) u = elim (Bool-cases (str_eq e.0 k)) [
    | inl same ↦
        let here : e.0 ≡ k = (eq_iff e.0 k).0 same in
        rw same (subst (λ x. lookup x m ≡ none) here u.0, u.1)
    | inr apart ↦ rw apart (
      ground (arith, lookup-insert k e.0 v m, eq_iff k e.0, eq_iff e.0 k, u.0),
      Unique-insert k v m u.1,
    )
  ]

  pub Unique-delete : (k : String) (m : Dict V) → Unique m → Unique (delete k m)
  unfolding delete
  Unique-delete k [] u = tt
  Unique-delete k (e ∷ m) u = elim (Bool-cases (str_eq e.0 k)) [
    | inl same ↦ rw same (Unique-delete k m u.1)
    | inr apart ↦ rw apart (ground (arith, lookup-delete k e.0 m, u.0), Unique-delete k m u.1)
  ]
