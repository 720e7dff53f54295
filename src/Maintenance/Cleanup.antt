-- ===== src/Maintenance/Cleanup.antt =====
-- What the clean-up leaves of the sessions.
use opswarden.Prelude.{
  ◌≡◌, refl, ◌∙◌, subst, inl, inr, Bool, Bool-cases, false, ◌||◌, String, str_eq, str_eq_iff, [],
  ◌∷◌, Option, none, some, if◌then◌else◌, arith, ℕ, Dict, lookup, Unique, Time,
}
use opswarden.Cryptobox.Bytes.{Bytes}
use opswarden.Identity.Tables.{SessionRow}
use opswarden.Maintenance.{
  State, format_time, revoked_until, is_expired_session, delete_sessions, cleanup_expired_state,
}
use opswarden.Maintenance.Texts.{DateLawful, has_passed, has_passed_lem}

abbrev kept : (SessionRow → Bool) → Option SessionRow → Option SessionRow
kept chosen none = none
kept chosen (some session) = if chosen session then none else some session

lookup-delete_sessions :
    (chosen : SessionRow → Bool) (hash : String) (sessions : Dict SessionRow)
    → Unique sessions
    → lookup hash (delete_sessions chosen sessions) ≡ kept chosen (lookup hash sessions)
unfolding lookup delete_sessions
lookup-delete_sessions chosen hash [] u = refl
lookup-delete_sessions chosen hash (entry ∷ rest) u =
    let earlier = lookup-delete_sessions chosen hash rest u.1 in
    elim (Bool-cases (str_eq entry.0 hash)) [
      | inl same ↦
          let gone : lookup hash rest ≡ none =
            subst (λ x. lookup x rest ≡ none) ((str_eq_iff entry.0 hash).0 same) u.0 in
          elim (Bool-cases (chosen entry.1)) [
            | inl out ↦ rw (out, same, out) (earlier ∙ rw gone refl)
            | inr stays ↦ ground (arith, stays, same)
          ]
      | inr apart ↦ elim (Bool-cases (chosen entry.1)) [
        | inl out ↦ rw (out, apart) earlier
        | inr stays ↦ rw (stays, apart) earlier
      ]
    ]

abbrev has_passed_if : Option Time → Time → Bool
has_passed_if none now = false
has_passed_if (some at) now = has_passed at now

-- Whether one of the times of a session has passed, as the clean-up tells.
unfoldable pub is_over : SessionRow → Time → Bool
is_over session now =
    has_passed session.expires_at now
    || (has_passed session.idle_expires_at now || has_passed_if session.revoked_at now)

revoked_until_lem :
    (date : ℕ → Bytes) (lawful : DateLawful date) (revoked_at : Option Time) (now : Time)
    → revoked_until date (format_time date now) revoked_at ≡ has_passed_if revoked_at now
revoked_until_lem date lawful none now = refl
revoked_until_lem date lawful (some at) now = has_passed_lem date lawful at now

is_expired_session_lem :
    (date : ℕ → Bytes) (lawful : DateLawful date) (session : SessionRow) (now : Time)
    → is_expired_session date (format_time date now) session ≡ is_over session now
unfolding is_over
is_expired_session_lem date lawful session now =
    rw
      (
        has_passed_lem date lawful session.expires_at now,
        has_passed_lem date lawful session.idle_expires_at now,
        revoked_until_lem date lawful session.revoked_at now,
      )
      refl

-- Where each session is kept once and the texts of the seconds have one length and the order of
-- the times, the clean-up removes a session exactly if one of its two expiries or the time it was
-- revoked lies in an earlier second than the clean-up, or in the same second with a fraction that
-- is not after the clean-up's as texts, where a whole second comes after its fractions; another
-- session is left as it is.
pub lookup-cleanup_expired_state :
    (date : ℕ → Bytes) (lawful : DateLawful date) (state : State) (now : Time) (hash : String)
    (session : SessionRow)
    → Unique state.sessions
    → lookup hash state.sessions ≡ some session
    → lookup hash (cleanup_expired_state date state now).sessions
      ≡ (if is_over session now then none else some session)
unfolding cleanup_expired_state
lookup-cleanup_expired_state date lawful state now hash session u found =
    lookup-delete_sessions (is_expired_session date (format_time date now)) hash state.sessions u
    ∙ rw (found, is_expired_session_lem date lawful session now) refl
