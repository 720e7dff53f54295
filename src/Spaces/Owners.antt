-- ===== src/Spaces/Owners.antt =====
-- The owners of a space, and what a change of one member does to their number.
use opswarden.Prelude.{
  ℕ, ◌+◌, ◌≤◌, ◌<◌, ◌≡◌, ◌≢◌, refl, sym, ◌∙◌, subst, inl, inr, Bool, Bool-cases, true, false, not,
  ◌&&◌, String, arith, [], ◌∷◌, none, some, Option-cases, if◌then◌else◌, Dict, lookup,
  lookup-insert, Unique, Unique-insert, Unique-delete, insert, delete, str_eq, str_eq_iff,
}
use opswarden.Spaces.{Membership, is_owner, other_owners, Store, members_of, put_members}

-- How many owners there are.
abbrev pub owners : Dict Membership → ℕ
owners [] = 0
owners (entry ∷ rest) = (if is_owner entry.1.role then 1 else 0) + owners rest

pub other_owners-delete-le :
    (k : String) (m : Dict Membership) → other_owners k m ≤ owners (delete k m)
unfolding other_owners delete
other_owners-delete-le k [] = omega arith
other_owners-delete-le k (e ∷ m) = ground (arith, other_owners-delete-le k m)

other_owners-le : (k : String) (m : Dict Membership) → other_owners k m ≤ owners m
unfolding other_owners
other_owners-le k [] = omega arith
other_owners-le k (e ∷ m) = ground (arith, other_owners-le k m)

pub other_owners-insert-le :
    (k : String) (v : Membership) (m : Dict Membership) → other_owners k m ≤ owners (insert k v m)
unfolding other_owners insert
other_owners-insert-le k v [] = ground arith
other_owners-insert-le k v (e ∷ m) =
    ground (arith, other_owners-insert-le k v m, other_owners-le k m)

-- Another role for someone who is no owner, or an owner's for anyone, takes no owner away.
pub owners-insert-le :
    (k : String) (v : Membership) (m : Dict Membership)
    → ((w : Membership) → lookup k m ≡ some w → is_owner w.role ≡ true → is_owner v.role ≡ true)
    → owners m ≤ owners (insert k v m)
unfolding insert lookup
owners-insert-le k v [] h = ground arith
owners-insert-le k v (e ∷ m) h = elim (Bool-cases (str_eq e.0 k)) [
  | inl here ↦ rw here (ground (arith, h e.1 (ground arith)))
  | inr there ↦
      let rest = owners-insert-le k v m (λ w f. h w (ground arith)) in
      rw there (omega (arith, rest))
]

owners-delete-none :
    (k : String) (m : Dict Membership) → lookup k m ≡ none → owners m ≤ owners (delete k m)
unfolding delete lookup
owners-delete-none k [] h = omega arith
owners-delete-none k (e ∷ m) h = ground (arith, owners-delete-none k m)

-- Who is no owner leaves, and the owners stay.
owners-delete-le :
    (k : String) (w : Membership) (m : Dict Membership)
    → Unique m
    → lookup k m ≡ some w
    → is_owner w.role ≡ false
    → owners m ≤ owners (delete k m)
unfolding delete lookup
owners-delete-le k w [] u h n = cc
owners-delete-le k w (e ∷ m) u h n = elim (Bool-cases (str_eq e.0 k)) [
  | inl same ↦
      let here : e.0 ≡ k = (str_eq_iff e.0 k).0 same in
      let rest = owners-delete-none k m (subst (λ x. lookup x m ≡ none) here u.0) in ground arith
  | inr apart ↦ let rest = owners-delete-le k w m u.1 (ground arith) n in ground arith
]

-- Each user once, and an owner.
abbrev pub HasOwner : Dict Membership → Type 0
HasOwner m = Unique m × (0 < owners m)

pub add_owner :
    (k : String) (v : Membership) (m : Dict Membership)
    → ((w : Membership)
        → lookup k m ≡ some w
        → (is_owner w.role && not (is_owner v.role)) ≡ true
        → other_owners k m ≢ 0)
    → HasOwner m
    → HasOwner (insert k v m)
add_owner k v m h (u, o) = (
  Unique-insert k v m u,
  elim (Option-cases (lookup k m)) [
    | inl e ↦ omega (arith, owners-insert-le k v m (λ w f g. cc))
    | inr (w, e) ↦ elim (Bool-cases (is_owner w.role && not (is_owner v.role))) [
      | inl gives_up ↦ omega (arith, h w e gives_up, other_owners-insert-le k v m)
      | inr keeps ↦ omega (arith, owners-insert-le k v m (λ x f g. ground arith))
    ]
  ],
)

pub delete_owner :
    (k : String) (m : Dict Membership)
    → (w : Membership) → lookup k m ≡ some w
    → (is_owner w.role ≡ true → other_owners k m ≢ 0)
    → HasOwner m
    → HasOwner (delete k m)
delete_owner k m w e h (u, o) = (
  Unique-delete k m u,
  elim (Bool-cases (is_owner w.role)) [
    | inl is ↦ omega (arith, h is, other_owners-delete-le k m)
    | inr not_owner ↦ omega (arith, owners-delete-le k w m u e not_owner)
  ],
)

-- Every space with an owner in the one store has one in the other.
abbrev pub KeepsOwners : Store → Store → Type 0
KeepsOwners store s =
    (space_id : String) → HasOwner (members_of store space_id) → HasOwner (members_of s space_id)

members_of-put_members :
    (store : Store) (space_id other : String) (m : Dict Membership)
    → members_of (put_members store space_id m) other
      ≡ (if str_eq space_id other then m else members_of store other)
members_of-put_members store space_id other m =
    ground (arith, lookup-insert space_id other m store.memberships)

ite_true : {b : Bool} (x y : Dict Membership) → b ≡ true → (if b then x else y) ≡ x
ite_true x y e = rw e refl

ite_false : {b : Bool} (x y : Dict Membership) → b ≡ false → (if b then x else y) ≡ y
ite_false x y e = rw e refl

pub put_members-KeepsOwners :
    (store : Store) (space_id : String) (m : Dict Membership)
    → (HasOwner (members_of store space_id) → HasOwner m)
    → KeepsOwners store (put_members store space_id m)
put_members-KeepsOwners store space_id m h other g = elim (Bool-cases (str_eq space_id other)) [
  | inl e ↦
      let same : space_id ≡ other = (str_eq_iff space_id other).0 e in
      subst (λ d. HasOwner d) (sym (members_of-put_members store space_id other m ∙ ite_true _ _ e))
        (h (subst (λ x. HasOwner (members_of store x)) (sym same) g))
  | inr e ↦
      subst (λ d. HasOwner d)
        (sym (members_of-put_members store space_id other m ∙ ite_false _ _ e)) g
]
