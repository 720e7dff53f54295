-- ===== src/Lib.antt =====
-- opswarden: the core of a vault for operations teams, and what is proved of it.
--
-- The program keeps credentials and assets in spaces. People and agents ask for actions over HTTP
-- and MCP; the policy decides, the limiter and the failure gate bound what a caller may cost, and
-- credentials and second factors are stored as sealed envelopes.
--
-- The parts, and the files that model them:
--
-- Prelude: the libraries' names, Boolean tests on the native numbers, lists, maps as association
-- lists with a Go map's insert and delete, and time. A time is a number of nanoseconds, 0 is Go's
-- zero time, and the difference of two times is capped at the longest Duration.
--
-- Outcomes: errors as values, checks in front of an operation, and storage.WithTx of
-- internal/storage/db.go, with what holds of the store after each. Spaces and Identity use it.
--
-- Identity: internal/identity. Identity.antt is the principal of a session and whether its second
-- factor is recent; Totp is matchingTOTPCounter, totpCode and isTOTPCode; Tables has the tables and
-- the statements of repository.go; Passwords the stored form of a password hash; Sessions, Login,
-- Users and Bootstrap the operations of service.go, each cut where its transaction begins. HMAC,
-- SHA-256, hexadecimal, base32, base64, Argon2 and the tables of Unicode are fields of the record Primitives.
-- Later says what no operation undoes; Owners, Keeps, Operations, Logins, Changes and Initial show it
-- of the statements and of each operation, Requests of any calls. Factors, Lifetimes, Revocation,
-- FactorUsed, LoggedIn and LoggedOut are about second factors and sessions. A call reads the clock once, where
-- BeginLogin reads it twice.
--
-- Authorization: internal/authorization/policy.go. Tables has the actions, roles, scopes and the
-- tables that classify them (knownAction, spaceScopedAction, systemAdminAllows, roleAllows,
-- scopeForAction); Authorization has DecisionForHuman and DecisionForAgent. Human and Agent have
-- the properties of the two decisions. A set of scopes is a list.
--
-- FailureGate: internal/httpapi/auth_failure_gate.go, anonymousFailureGate.observeMode cut into the
-- operation's state (observe_operation), the new window (roll, rolled_observation) and the key
-- (observe_key, count_key). Window, Operation, Accounting and Gate have the properties of one
-- window, one observation, a run of observations and the whole gate.
--
-- Cryptobox: internal/cryptobox. Codec is envelope_binary.go, Context the additional data of
-- envelope.go, Box its sealing, opening and rewrapping. The cipher of golang.org/x/crypto is a
-- parameter with the law that what was sealed opens again, and the random source is an argument
-- that may fail. Loading the master key from a file is not modelled.
--
-- Limiter: internal/agents/limiter.go, decide cut into the operation's call (decide_operation,
-- decide_at), the lookup of the bucket and the spending. Config has NewLimiter's settings, State
-- the buckets as a client sees them, Rotation the generations, Spending, Overflow, Calls, Budget
-- and Runs what calls cost, Promise and Preview what the limiter promises. The maps that the
-- source keys by operation are one record for each operation, so that operations are apart by the
-- form of the model; tokens are whole units of 1/60000000000 of a token, so the refill of a
-- configured rate, a multiple of 1/60 token a second, is whole in each nanosecond, where the
-- source uses float64. Reserve and Refund are not modelled.
--
-- Spaces: internal/spaces, the operations of service.go on members over the queries of repository.go.
-- Tables has the tables as maps by their primary keys, Service the checks (Guards) and the
-- operations (Operations); a call's Env says
-- what it finds of the clock, the random source, the audit log and the revocation of sessions, and
-- with_tx is storage.WithTx, which forgets a failed transaction. Owners, Outcomes, Invariant, Keeps
-- and Requests are about the owners of a space, Removal about an audited removal. The
-- database itself does not fail; Create, the lists of spaces and members, and time.Now's drift
-- between two reads in one call are not modelled.
--
-- Credentials: internal/credentials, what happens to a credential that is there. Tables has the
-- tables, over the users and sessions of Identity; Guards authorize, validateMutationContext and
-- appendCredentialFailure; Idempotency checkIdempotency and saveIdempotency with their statements;
-- Lifecycle DeleteAt, Restore and Purge, cut where the transaction begins (delete_tx, restore_tx,
-- purge_tx) behind guarded_change, which is what the three begin and end with; Attempts
-- RecordInvalidAttempt and RecordConcealedAttempt. Failures, Guarded, Purging, Records and Replays are
-- about them. The fingerprint of a request is a parameter. Create, Update, Get, List and the purges
-- of expired credentials are not modelled.
--
-- Maintenance: internal/maintenance/scheduler.go, cleanupExpiredState over the sessions of Identity,
-- the idempotency records of Credentials and the expiries of the records of human requests. Texts is
-- about the order of times as RFC3339Nano texts, Cleanup about what is left. The text of the date and
-- the seconds is a parameter; the number of deleted rows, which the caller drops, and the rest of the
-- scheduler are not modelled.
--
-- The recursions are structural; no fuel is used. The mutexes of the limiter and the gate make each
-- of their calls one step. Not modelled: the services' SQL, the HTTP and MCP layers, backups and
-- migrations, whose work is input and output, and the web interface.
pub mod Prelude
pub mod Outcomes
pub mod Identity
pub mod Authorization
pub mod FailureGate
pub mod Cryptobox
pub mod Limiter
pub mod Spaces
pub mod Credentials
pub mod Maintenance
