-- ===== src/Identity/Initial.antt =====
-- The initial owner is created in an empty table of users.
use opswarden.Outcomes.{Holds, ok, unless-Holds, bind-Holds, with_tx-Holds, required}
use opswarden.Prelude.{
  ◌≡◌, subst, inl, inr, Bool, Bool-cases, true, false, not, String, List, arith, [], ◌∷◌,
  Option-cases, none, Dict, lookup, insert,
}
use opswarden.Cryptobox.Bytes.{Bytes}
use opswarden.Identity.Tables.{
  User, Store, SecondFactor, RecoveryCode, Event, owner_exists, random_failed,
}
use opswarden.Identity.Sessions.{Config, Env}
use opswarden.Identity.Passwords.{hash_password}
use opswarden.Identity.Bootstrap.{
  Address, CreateOwnerInput, OwnerDraws, create_initial_owner, no_users, insert_second_factor,
  insert_codes, append_owner_event, create_initial_owner_tx, create_initial_owner_drawn,
  create_initial_owner_from, recovery_rows, encrypted_totp, initial_owner_source_allowed,
  owner_input_valid, owner_event,
}
use opswarden.Identity.Later.{
  HasOwner, Later, Later-refl, Later-trans, SessionsContinue-refl, FactorsAdvance,
  insert_new-Advances,
}
use opswarden.Identity.Keeps.{append_event-Later}

module _ (config : Config) (env : Env) (store : Store) where
  append_owner_event-Later :
      (audited : Bool) (s t : Store) (event : Event)
      → append_owner_event audited env s event ≡ ok t
      → Later s t
  unfolding append_owner_event
  append_owner_event-Later true s t event h = append_event-Later env s t event h
  append_owner_event-Later false s t event h = subst (Later s) {x = s} {y = t} (cc) (Later-refl s)

  insert_second_factor-Advances :
      (user_id : String) (factor : SecondFactor) (factors : Dict SecondFactor)
      → insert_second_factor user_id factor store.user_totp ≡ ok factors
      → FactorsAdvance store.user_totp factors
  unfolding insert_second_factor
  insert_second_factor-Advances user_id factor factors h =
      elim (Option-cases (lookup user_id store.user_totp)) [
        | inr (other, e) ↦ absurd (ground arith)
        | inl e ↦
            let done : insert user_id factor store.user_totp ≡ factors = ground arith in
            subst (FactorsAdvance store.user_totp) done
              (insert_new-Advances user_id factor store.user_totp e)
      ]

  -- No user is an owner of an empty table.
  no_users-HasOwner :
      (users later : Dict User) → no_users users ≡ true → HasOwner users → HasOwner later
  unfolding HasOwner lookup
  no_users-HasOwner [] later e (u, (id, user, found, owns)) = absurd (cc)
  no_users-HasOwner (entry ∷ rest) later e h = absurd (cc)

  create_initial_owner_tx-Later :
      (user_id : String) (user : User) (encrypted : Bytes) (rows : List RecoveryCode)
      (event : Event)
      → Holds
          (Later store)
          (create_initial_owner_tx config env store user_id user encrypted rows event)
  unfolding create_initial_owner_tx
  create_initial_owner_tx-Later user_id user encrypted rows event =
      unless-Holds (Later store) (not (no_users store.users)) owner_exists _ (λ empty.
        let factor : SecondFactor = record {
          encrypted_secret = encrypted;
          last_used_counter = none;
        } in
        bind-Holds (Later store) (insert_second_factor user_id factor store.user_totp) _
          (λ factors e.
            bind-Holds (Later store) (insert_codes rows store.recovery_codes) _ (λ codes f.
              let created : Store = record store {
                users = insert user_id user store.users;
                user_totp = factors;
                recovery_codes = codes;
              } in
              bind-Holds (Later store) (append_owner_event config.is_audited env created event) _
                (λ s g.
                  Later-trans store created s
                    (record {
                      sessions = SessionsContinue-refl store.sessions;
                      factors = insert_second_factor-Advances user_id factor factors e;
                      owner =
                          no_users-HasOwner store.users (insert user_id user store.users)
                            (ground arith);
                    })
                    (append_owner_event-Later config.is_audited created s event g)))))

  create_initial_owner_from-Later :
      (input : CreateOwnerInput) (draws : OwnerDraws)
      → Holds (Later store) (create_initial_owner_from config env store input draws)
  unfolding create_initial_owner_from create_initial_owner_drawn
  create_initial_owner_from-Later input draws =
      unless-Holds (Later store) (not (no_users store.users)) owner_exists _ (λ empty.
        bind-Holds (Later store) (required random_failed draws.user_id) _ (λ user_id a.
          bind-Holds (Later store) (hash_password config.prim draws.salt input.password) _
            (λ hash b.
              bind-Holds (Later store) (encrypted_totp config user_id input.totp_seed draws.box) _
                (λ encrypted c.
                  bind-Holds (Later store) (recovery_rows config user_id draws.recovery_codes) _
                    (λ rows d.
                      bind-Holds (Later store) (required random_failed draws.audit_id) _ (λ id e.
                        create_initial_owner_tx-Later user_id _ encrypted rows
                          (owner_event config env input id user_id)))))))

  pub create_initial_owner-Later :
      (internal_cidrs : List (Address → Bool)) (input : CreateOwnerInput) (draws : OwnerDraws)
      → Later store (create_initial_owner config internal_cidrs env store input draws).0
  unfolding create_initial_owner
  create_initial_owner-Later internal_cidrs input draws =
      elim (Bool-cases (initial_owner_source_allowed internal_cidrs input.source_ip)) [
        | inr e ↦ rw e (Later-refl store)
        | inl e ↦ rw e (elim (Bool-cases (owner_input_valid config input)) [
          | inr f ↦ rw f (Later-refl store)
          | inl f ↦ rw f (
              with_tx-Holds (Later store) store
                (create_initial_owner_from config env store input draws) (Later-refl store)
                (create_initial_owner_from-Later input draws))
        ])
      ]
