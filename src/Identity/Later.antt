-- ===== src/Identity/Later.antt =====
-- What no operation of internal/identity undoes: revocations, used counters, and the System Owner.
use opswarden.Prelude.{
  ℕ, ◌≤◌, ◌≡◌, refl, subst, ◌∙◌, arith, inl, inr, Bool, Bool-cases, true, false, String, none, some,
  [], ◌∷◌, if◌then◌else◌, Time, Dict, lookup, insert, Unique, lookup-insert, str_eq, str_eq_iff,
}
use opswarden.Identity.Tables.{
  User, SecondFactor, SessionRow, Store, is_active_owner, update_sessions,
}

-- The same session, of which a revocation stays.
pub record Continues (row later : SessionRow) : Type 0 where
  pub id : later.id ≡ row.id
  pub user_id : later.user_id ≡ row.user_id
  pub created_at : later.created_at ≡ row.created_at
  pub expires_at : later.expires_at ≡ row.expires_at
  pub revoked_at : (at : Time) → row.revoked_at ≡ some at → later.revoked_at ≡ some at

-- The same secret, and the last used counter does not go back.
pub record Advances (factor later : SecondFactor) : Type 0 where
  pub encrypted_secret : later.encrypted_secret ≡ factor.encrypted_secret
  pub last_used_counter :
      (last : ℕ)
      → factor.last_used_counter ≡ some last
      → (newer : ℕ) × (later.last_used_counter ≡ some newer) × (last ≤ newer)

-- A user who is not deleted is System Owner; users are kept by their identifiers.
unfoldable pub HasOwner : Dict User → Type 0
HasOwner users =
    Unique users
    × ((user_id : String) × (user : User) × (lookup user_id users ≡ some user)
        × (is_active_owner user ≡ true))

unfoldable pub SessionsContinue : Dict SessionRow → Dict SessionRow → Type 0
SessionsContinue sessions later =
    (hash : String) (row : SessionRow)
    → lookup hash sessions ≡ some row
    → (next : SessionRow) × (lookup hash later ≡ some next) × Continues row next

unfoldable pub FactorsAdvance : Dict SecondFactor → Dict SecondFactor → Type 0
FactorsAdvance factors later =
    (user_id : String) (factor : SecondFactor)
    → lookup user_id factors ≡ some factor
    → (next : SecondFactor) × (lookup user_id later ≡ some next) × Advances factor next

pub record Later (store later : Store) : Type 0 where
  pub sessions : SessionsContinue store.sessions later.sessions
  pub factors : FactorsAdvance store.user_totp later.user_totp
  pub owner : HasOwner store.users → HasOwner later.users

Continues-refl : (row : SessionRow) → Continues row row
Continues-refl row = record {
  id = refl;
  user_id = refl;
  created_at = refl;
  expires_at = refl;
  revoked_at = λ at h. h;
}

Continues-trans : (a b c : SessionRow) → Continues a b → Continues b c → Continues a c
Continues-trans a b c f g = record {
  id = g.id ∙ f.id;
  user_id = g.user_id ∙ f.user_id;
  created_at = g.created_at ∙ f.created_at;
  expires_at = g.expires_at ∙ f.expires_at;
  revoked_at = λ at h. g.revoked_at at (f.revoked_at at h);
}

Advances-refl : (factor : SecondFactor) → Advances factor factor
Advances-refl factor = record {
  encrypted_secret = refl;
  last_used_counter = λ last h. (last, h, omega arith);
}

Advances-trans : (a b c : SecondFactor) → Advances a b → Advances b c → Advances a c
Advances-trans a b c f g = record {
  encrypted_secret = g.encrypted_secret ∙ f.encrypted_secret;
  last_used_counter = λ last h.
      let (m, hm, le) = f.last_used_counter last h in
      let (n, hn, le') = g.last_used_counter m hm in (n, hn, omega arith);
}

pub SessionsContinue-refl : (sessions : Dict SessionRow) → SessionsContinue sessions sessions
unfolding SessionsContinue
SessionsContinue-refl sessions hash row h = (row, h, Continues-refl row)

pub FactorsAdvance-refl : (factors : Dict SecondFactor) → FactorsAdvance factors factors
unfolding FactorsAdvance
FactorsAdvance-refl factors user_id factor h = (factor, h, Advances-refl factor)

pub Later-refl : (store : Store) → Later store store
Later-refl store = record {
  sessions = SessionsContinue-refl store.sessions;
  factors = FactorsAdvance-refl store.user_totp;
  owner = λ h. h;
}

pub Later-trans : (a b c : Store) → Later a b → Later b c → Later a c
unfolding SessionsContinue FactorsAdvance
Later-trans a b c f g = record {
  sessions = λ hash row h.
      let (next, e, t) = f.sessions hash row h in
      let (last, e', t') = g.sessions hash next e in (last, e', Continues-trans row next last t t');
  factors = λ user_id factor h.
      let (next, e, t) = f.factors user_id factor h in
      let (last, e', t') = g.factors user_id next e in
      (last, e', Advances-trans factor next last t t');
  owner = λ h. g.owner (f.owner h);
}

-- An update that may or may not change the row.
chosen-Continues :
    (chosen : Bool) (change : SessionRow → SessionRow) (row : SessionRow)
    → Continues row (change row)
    → Continues row (if chosen then change row else row)
chosen-Continues true change row h = h
chosen-Continues false change row h = Continues-refl row

pub update_sessions-Continues :
    (chosen : SessionRow → Bool) (change : SessionRow → SessionRow)
    (unrevoking : (row : SessionRow) → Continues row (change row)) (sessions : Dict SessionRow)
    → SessionsContinue sessions (update_sessions chosen change sessions)
unfolding SessionsContinue lookup update_sessions
update_sessions-Continues chosen change unrevoking [] hash row h = absurd (cc)
update_sessions-Continues chosen change unrevoking (entry ∷ rest) hash row h =
    elim (Bool-cases (str_eq entry.0 hash)) [
      | inr apart ↦
          rw apart
            (update_sessions-Continues chosen change unrevoking rest hash row (rw apart at h))
      | inl same ↦
          let found : entry.1 ≡ row = cc (rw same at h) in
          rw same (
            if chosen entry.1 then change entry.1 else entry.1,
            refl,
            subst (λ r. Continues r (if chosen entry.1 then change entry.1 else entry.1)) found
                (chosen-Continues (chosen entry.1) change entry.1 (unrevoking entry.1)),
          )
    ]

pub insert-Continues :
    (hash : String) (old new : SessionRow) (sessions : Dict SessionRow)
    → lookup hash sessions ≡ some old
    → Continues old new
    → SessionsContinue sessions (insert hash new sessions)
unfolding SessionsContinue
insert-Continues hash old new sessions e t other row h = elim (Bool-cases (str_eq hash other)) [
  | inr apart ↦ (row, lookup-insert hash other new sessions ∙ rw apart h, Continues-refl row)
  | inl same ↦
      let here : hash ≡ other = (str_eq_iff hash other).0 same in
      let found : old ≡ row = cc (here, e, h) in
      (
        new,
        lookup-insert hash other new sessions ∙ rw same refl,
        subst (λ r. Continues r new) found t,
      )
]

-- A new key in a table takes nothing from what it held.
pub insert_new-Continues :
    (hash : String) (new : SessionRow) (sessions : Dict SessionRow)
    → lookup hash sessions ≡ none
    → SessionsContinue sessions (insert hash new sessions)
unfolding SessionsContinue
insert_new-Continues hash new sessions e other row h = elim (Bool-cases (str_eq hash other)) [
  | inr apart ↦ (row, lookup-insert hash other new sessions ∙ rw apart h, Continues-refl row)
  | inl same ↦ let here : hash ≡ other = (str_eq_iff hash other).0 same in absurd (cc (here, e, h))
]

pub insert-Advances :
    (user_id : String) (old new : SecondFactor) (factors : Dict SecondFactor)
    → lookup user_id factors ≡ some old
    → Advances old new
    → FactorsAdvance factors (insert user_id new factors)
unfolding FactorsAdvance
insert-Advances user_id old new factors e t other factor h =
    elim (Bool-cases (str_eq user_id other)) [
      | inr apart ↦
          (factor, lookup-insert user_id other new factors ∙ rw apart h, Advances-refl factor)
      | inl same ↦
          let here : user_id ≡ other = (str_eq_iff user_id other).0 same in
          let found : old ≡ factor = cc (here, e, h) in
          (
            new,
            lookup-insert user_id other new factors ∙ rw same refl,
            subst (λ r. Advances r new) found t,
          )
    ]

pub insert_new-Advances :
    (user_id : String) (new : SecondFactor) (factors : Dict SecondFactor)
    → lookup user_id factors ≡ none
    → FactorsAdvance factors (insert user_id new factors)
unfolding FactorsAdvance
insert_new-Advances user_id new factors e other factor h =
    elim (Bool-cases (str_eq user_id other)) [
      | inr apart ↦
          (factor, lookup-insert user_id other new factors ∙ rw apart h, Advances-refl factor)
      | inl same ↦
          let here : user_id ≡ other = (str_eq_iff user_id other).0 same in absurd (cc (here, e, h))
    ]
