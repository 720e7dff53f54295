-- ===== src/Identity/Keeps.antt =====
-- The statements on the tables lead to later stores.
use opswarden.Outcomes.{ok}
use opswarden.Prelude.{
  ℕ, ◌≡◌, ◌≢◌, refl, subst, ◌⊎◌, inl, inr, Bool-cases, true, false, ◌||◌, any, String, arith, List,
  Option-cases, none, some, [], ◌∷◌, Time, Dict, lookup, insert, str_eq, ◌==◌,
}
use opswarden.Cryptobox.Bytes.{Bytes}
use opswarden.Identity.Tables.{
  User, SecondFactor, SessionRow, Event, Store, active_user, is_active_owner, revoked_by,
  revoke_user_sessions, consume_totp_counter, unused_count, use_codes, consume_recovery_code,
  RecoveryCode, is_fresh, remaining_system_owners,
}
use opswarden.Identity.Sessions.{
  Env, refresh_idle, record_recent_totp, revoke_session, append_event, next_idle,
}
use opswarden.Identity.Login.{upgrade_password, insert_session}
use opswarden.Identity.Users.{update_active_user}
use opswarden.Identity.Later.{
  Continues, Advances, HasOwner, Later, FactorsAdvance, SessionsContinue, SessionsContinue-refl,
  FactorsAdvance-refl, Later-refl, update_sessions-Continues, insert-Continues,
  insert_new-Continues, insert-Advances,
}
use opswarden.Identity.Owners.{insert-HasOwner}

sessions-Later :
    (store : Store) (sessions : Dict SessionRow)
    → SessionsContinue store.sessions sessions
    → Later store (record store { sessions = sessions })
sessions-Later store sessions h = record {
  sessions = h;
  factors = FactorsAdvance-refl store.user_totp;
  owner = λ o. o;
}

users-Later :
    (store : Store) (users : Dict User)
    → (HasOwner store.users → HasOwner users)
    → Later store (record store { users = users })
users-Later store users h = record {
  sessions = SessionsContinue-refl store.sessions;
  factors = FactorsAdvance-refl store.user_totp;
  owner = h;
}

factors-Later :
    (store : Store) (factors : Dict SecondFactor)
    → FactorsAdvance store.user_totp factors
    → Later store (record store { user_totp = factors })
factors-Later store factors h = record {
  sessions = SessionsContinue-refl store.sessions;
  factors = h;
  owner = λ o. o;
}

others-Later :
    (store : Store) (recovery_codes : List RecoveryCode) (audit : List Event)
    → Later store (record store { recovery_codes = recovery_codes; audit = audit })
others-Later store recovery_codes audit = record {
  sessions = SessionsContinue-refl store.sessions;
  factors = FactorsAdvance-refl store.user_totp;
  owner = λ o. o;
}

revoked_by-Continues : (now : Time) (row : SessionRow) → Continues row (revoked_by now row)
revoked_by-Continues now row = record {
  id = refl;
  user_id = refl;
  created_at = refl;
  expires_at = refl;
  revoked_at = λ at h. rw h refl;
}

pub revoke_user_sessions-Later :
    (store : Store) (user_id : String) (now : Time)
    → Later store (revoke_user_sessions store user_id now)
unfolding revoke_user_sessions
revoke_user_sessions-Later store user_id now =
    sessions-Later store _
      (update_sessions-Continues _ (revoked_by now) (revoked_by-Continues now) store.sessions)

pub refresh_idle-Later :
    (store : Store) (session : SessionRow) (now : Time)
    → Later store (refresh_idle store session now)
unfolding refresh_idle
refresh_idle-Later store session now = sessions-Later store _ (
    update_sessions-Continues _ (λ row. record row { idle_expires_at = next_idle now session })
      (λ row. record {
        id = refl;
        user_id = refl;
        created_at = refl;
        expires_at = refl;
        revoked_at = λ at h. h;
      })
      store.sessions)

pub record_recent_totp-Later :
    (store : Store) (session : SessionRow) (now : Time)
    → Later store (record_recent_totp store session now)
unfolding record_recent_totp
record_recent_totp-Later store session now = sessions-Later store _ (
    update_sessions-Continues _
      (λ row. record row { recent_totp_at = some now; idle_expires_at = next_idle now session })
      (λ row. record {
        id = refl;
        user_id = refl;
        created_at = refl;
        expires_at = refl;
        revoked_at = λ at h. h;
      })
      store.sessions)

pub revoke_session-Later :
    (store : Store) (hash : String) (now : Time) → Later store (revoke_session store hash now)
unfolding revoke_session
revoke_session-Later store hash now = elim (Option-cases (lookup hash store.sessions)) [
  | inl e ↦ rw e (Later-refl store)
  | inr (row, e) ↦ rw e (
      sessions-Later store _ (
        insert-Continues hash row (revoked_by now row) store.sessions e
          (revoked_by-Continues now row)))
]

pub append_event-Later :
    (env : Env) (store s : Store) (event : Event)
    → append_event env store event ≡ ok s
    → Later store s
unfolding append_event
append_event-Later env store s event h = elim (Bool-cases env.appends) [
  | inr fails ↦ absurd (ground arith)
  | inl appends ↦
      let done : record store { audit = event ∷ store.audit } ≡ s = ground arith in
      subst (Later store) done (others-Later store store.recovery_codes (event ∷ store.audit))
]

pub upgrade_password-Later :
    (store : Store) (user_id : String) (hash : Bytes)
    → Later store (upgrade_password store user_id hash)
unfolding upgrade_password
upgrade_password-Later store user_id [] = Later-refl store
upgrade_password-Later store user_id (byte ∷ rest) =
    elim (Option-cases (lookup user_id store.users)) [
      | inl e ↦ rw (upgrade_password, e) (Later-refl store)
      | inr (user, e) ↦
          rw (upgrade_password, e)
            (users-Later store _ (
              insert-HasOwner user_id (record user { password_hash = byte ∷ rest }) store.users
                (λ old f owns.
                  inl (subst (λ u. is_active_owner u ≡ true) {x = old} {y = user} (cc) owns))))
    ]

fresh-Advances :
    (factor : SecondFactor) (counter : ℕ)
    → is_fresh factor.last_used_counter counter ≡ true
    → Advances factor (record factor { last_used_counter = some counter })
fresh-Advances factor counter h = record {
  encrypted_secret = refl;
  last_used_counter = λ last e. (counter, refl, ground (arith, e));
}

pub consume_totp_counter-Later :
    (store s : Store) (user_id : String) (counter : ℕ)
    → consume_totp_counter store user_id counter ≡ ok s
    → Later store s
unfolding consume_totp_counter
consume_totp_counter-Later store s user_id counter h =
    elim (Option-cases (lookup user_id store.user_totp)) [
      | inl e ↦ absurd (ground arith)
      | inr (factor, e) ↦ elim (Bool-cases (is_fresh factor.last_used_counter counter)) [
        | inr used ↦ absurd (ground arith)
        | inl fresh ↦
            let next = record factor { last_used_counter = some counter } in
            let done : record store { user_totp = insert user_id next store.user_totp } ≡ s =
              ground arith in
            subst (Later store) done (
              factors-Later store _ (
                insert-Advances user_id factor next store.user_totp e
                  (fresh-Advances factor counter fresh)))
      ]
    ]

-- A recovery code that is used up leaves the other tables as they are.
pub consume_recovery_code-Later :
    (store s : Store) (user_id hash : String) (now : Time)
    → consume_recovery_code store user_id hash now ≡ ok s
    → Later store s
unfolding consume_recovery_code
consume_recovery_code-Later store s user_id hash now h =
    elim (Bool-cases (unused_count user_id hash store.recovery_codes == 1)) [
      | inr none_left ↦ absurd (ground arith)
      | inl there ↦
          let used = use_codes user_id hash now store.recovery_codes in
          let done : record store { recovery_codes = used } ≡ s = ground arith in
          subst (Later store) done (others-Later store used store.audit)
    ]

not_taken :
    (hash : String) (id : String) (sessions : Dict SessionRow)
    → any (λ entry. str_eq entry.0 hash || str_eq entry.1.id id) sessions ≡ false
    → lookup hash sessions ≡ none
unfolding lookup
not_taken hash id [] h = refl
not_taken hash id (entry ∷ rest) h = ground (arith, not_taken hash id rest)

pub insert_session-Later :
    (store s : Store) (hash : String) (session : SessionRow)
    → insert_session store hash session ≡ ok s
    → Later store s
unfolding insert_session
insert_session-Later store s hash session h =
    elim (Bool-cases
      (any (λ entry. str_eq entry.0 hash || str_eq entry.1.id session.id) store.sessions)) [
        | inl taken ↦ absurd (ground arith)
        | inr free ↦
            let done : record store { sessions = insert hash session store.sessions } ≡ s =
              ground arith in
            subst (Later store) done (
              sessions-Later store _ (
                insert_new-Continues hash session store.sessions
                  (not_taken hash session.id store.sessions free)))
      ]

-- The user that is found is the one in the table.
active_user_found :
    (users : Dict User) (user_id : String) (other old : User)
    → lookup user_id users ≡ some other
    → active_user users user_id ≡ some old
    → other ≡ old
unfolding active_user
active_user_found users user_id other old f e = elim (Bool-cases other.is_deleted) [
  | inl gone ↦ absurd (ground arith)
  | inr there ↦ ground arith
]

pub update_active_user-Later :
    (store s : Store) (user_id : String) (change : User → User)
    → update_active_user store user_id change ≡ ok s
    → ((old : User)
        → active_user store.users user_id ≡ some old
        → is_active_owner old ≡ true
        → (is_active_owner (change old) ≡ true) ⊎ (remaining_system_owners user_id store.users ≢ 0))
    → Later store s
unfolding update_active_user
update_active_user-Later store s user_id change h keeps =
    elim (Option-cases (active_user store.users user_id)) [
      | inl e ↦ absurd (ground arith)
      | inr (old, e) ↦
          let done : record store { users = insert user_id (change old) store.users } ≡ s =
            ground arith in
          subst (Later store) done (
            users-Later store _ (
              insert-HasOwner user_id (change old) store.users (λ other f owns. keeps old e (
                subst (λ u. is_active_owner u ≡ true)
                  (active_user_found store.users user_id other old f e) owns))))
    ]
