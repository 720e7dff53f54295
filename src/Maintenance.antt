-- ===== src/Maintenance.antt =====
-- internal/maintenance/scheduler.go: the clean-up of expired state. The tables are those of
-- internal/identity and internal/credentials and the records of human requests to agents.
pub mod Texts
pub mod Cleanup
mod Examples
use opswarden.Prelude.{
  ℕ, zero, suc, ◌+◌, ◌/◌, ◌%◌, ◌||◌, ◌&&◌, ◌==◌, Bool, true, false, String, List, [], ◌∷◌, ◌++◌,
  Option, none, some, if◌then◌else◌, ltb, Dict, Time, second,
}
use opswarden.Cryptobox.Bytes.{Bytes}
use opswarden.Identity.Tables.{SessionRow}
use opswarden.Credentials.Tables.{IdempotencyRow}

-- The comparison of two texts in SQLite, byte by byte: whether the first is not after the second.
abbrev pub text_leb : Bytes → Bytes → Bool
text_leb [] bs = true
text_leb (a ∷ as') [] = false
text_leb (a ∷ as') (b ∷ bs) = ltb a b || (a == b && text_leb as' bs)

-- '.' and 'Z'
abbrev pub dot : ℕ
dot = 46

abbrev pub zulu : ℕ
zulu = 90

abbrev zero_first : ℕ → Bytes → Bytes
zero_first digit [] = if digit == 48 then [] else digit ∷ []
zero_first digit (next ∷ rest) = digit ∷ next ∷ rest

-- Digits without the zeros at their end.
abbrev trim_zeros : Bytes → Bytes
trim_zeros [] = []
trim_zeros (digit ∷ rest) = let kept = trim_zeros rest in zero_first digit kept

-- The nine digits of a number of nanoseconds, the first one last.
abbrev digits_of : ℕ → ℕ → Bytes → Bytes
digits_of zero value rest = rest
digits_of (suc places) value rest = digits_of places (value / 10) ((48 + value % 10) ∷ rest)

-- What RFC3339Nano writes behind the seconds: the fraction without the zeros at its end, or none.
unfoldable pub fraction_text : ℕ → Bytes
fraction_text nanoseconds =
    if nanoseconds == 0
    then zulu ∷ []
    else dot ∷ trim_zeros (digits_of 9 nanoseconds []) ++ zulu ∷ []

-- `t.UTC().Format(time.RFC3339Nano)`, by the text of its seconds.
unfoldable pub format_time : (ℕ → Bytes) → Time → Bytes
unfolding fraction_text
format_time date t = date (t / second) ++ fraction_text (t % second)

pub record State : Type 0 where
  pub sessions : Dict SessionRow
  pub idempotency_records : List IdempotencyRow
  pub human_agent_records : List Time

abbrev revoked_until : (ℕ → Bytes) → Bytes → Option Time → Bool
revoked_until date formatted none = false
revoked_until date formatted (some at) = text_leb (format_time date at) formatted

-- DELETE FROM sessions WHERE expires_at <= ? OR idle_expires_at <= ? OR ...
abbrev pub is_expired_session : (ℕ → Bytes) → Bytes → SessionRow → Bool
is_expired_session date formatted session =
    text_leb (format_time date session.expires_at) formatted
    || (text_leb (format_time date session.idle_expires_at) formatted
        || revoked_until date formatted session.revoked_at)

unfoldable pub delete_sessions : (SessionRow → Bool) → Dict SessionRow → Dict SessionRow
delete_sessions chosen [] = []
delete_sessions chosen (entry ∷ rest) =
    let kept = delete_sessions chosen rest in if chosen entry.1 then kept else entry ∷ kept

unfoldable pub delete_expired {ℓ} : {A : Type ℓ} → (A → Bool) → List A → List A
delete_expired chosen [] = []
delete_expired chosen (row ∷ rest) =
    let kept = delete_expired chosen rest in if chosen row then kept else row ∷ kept

unfoldable pub cleanup_expired_state : (ℕ → Bytes) → State → Time → State
unfolding format_time delete_sessions delete_expired
cleanup_expired_state date state now =
    let formatted = format_time date now in
    record {
      sessions = delete_sessions (is_expired_session date formatted) state.sessions;
      idempotency_records =
          delete_expired (λ row. text_leb (format_time date row.expires_at) formatted)
            state.idempotency_records;
      human_agent_records =
          delete_expired (λ expires_at. text_leb (format_time date expires_at) formatted)
            state.human_agent_records;
    }
