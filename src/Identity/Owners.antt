-- ===== src/Identity/Owners.antt =====
-- A System Owner who is not deleted stays among the users.
use opswarden.Prelude.{
  ◌≡◌, ◌≢◌, refl, ◌∙◌, ◌⊎◌, inl, inr, Bool-cases, true, false, not, ◌&&◌, String, arith, some, [],
  ◌∷◌, Dict, lookup, insert, Unique, Unique-insert, lookup-insert, str_eq, str_eq_iff,
}
use opswarden.Identity.Tables.{User, is_active_owner, remaining_system_owners}
use opswarden.Identity.Later.{HasOwner}

-- Another one, if the count says so.
other_owner :
    (user_id : String) (users : Dict User)
    → Unique users
    → remaining_system_owners user_id users ≢ 0
    → (id : String) × (user : User) × (lookup id users ≡ some user)
      × (is_active_owner user ≡ true)
      × (str_eq user_id id ≡ false)
unfolding remaining_system_owners lookup
other_owner user_id [] u h = absurd (h refl)
other_owner user_id (entry ∷ rest) u h =
    elim (Bool-cases (is_active_owner entry.1 && not (str_eq entry.0 user_id))) [
      | inl counts ↦ (
        entry.0,
        entry.1,
        ground (arith, str_eq_iff entry.0 entry.0),
        ground arith,
        ground (arith, str_eq_iff entry.0 user_id, str_eq_iff user_id entry.0),
      )
      | inr passes ↦
          let (id, user, found, owns, apart) = other_owner user_id rest u.1 (ground arith) in
          (id, user, ground (arith, u.0, found, str_eq_iff entry.0 id), owns, apart)
    ]

pub insert-HasOwner :
    (user_id : String) (new : User) (users : Dict User)
    → ((old : User)
        → lookup user_id users ≡ some old
        → is_active_owner old ≡ true
        → (is_active_owner new ≡ true) ⊎ (remaining_system_owners user_id users ≢ 0))
    → HasOwner users
    → HasOwner (insert user_id new users)
unfolding HasOwner
insert-HasOwner user_id new users h (u, (id, user, found, owns)) = (
  Unique-insert user_id new users u,
  elim (Bool-cases (str_eq user_id id)) [
    | inr apart ↦ (id, user, lookup-insert user_id id new users ∙ rw apart found, owns)
    | inl same ↦
        let here : user_id ≡ id = (str_eq_iff user_id id).0 same in
        elim (h user (rw here found) owns) [
          | inl stays ↦ (id, new, lookup-insert user_id id new users ∙ rw same refl, stays)
          | inr others ↦
              let (other, other_user, other_found, other_owns, apart) =
                other_owner user_id users u others in
              (
                other,
                other_user,
                lookup-insert user_id other new users ∙ rw apart other_found,
                other_owns,
              )
        ]
  ],
)
