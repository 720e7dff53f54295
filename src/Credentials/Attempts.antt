-- ===== src/Credentials/Attempts.antt =====
-- internal/credentials/service.go: attempts that end before they enter an operation.
use opswarden.Prelude.{Bool, true, false, not, String, none, if◌then◌else◌}
use opswarden.Outcomes.{err}
use opswarden.Credentials.Tables.{invalid_input, not_found, Result, Principal, Store}
use opswarden.Credentials.Guards.{Env, append_credential_failure}

-- credentials.Operation
data Operation : Type 0 where
  operation_list operation_read operation_create operation_update : Operation
  operation_delete operation_restore operation_purge : Operation
  other_operation : String → Operation

abbrev operation_text : Operation → String
operation_text operation_list = "credential.list"
operation_text operation_read = "credential.read"
operation_text operation_create = "credential.create"
operation_text operation_update = "credential.update"
operation_text operation_delete = "credential.delete"
operation_text operation_restore = "credential.restore"
operation_text operation_purge = "credential.purge"
operation_text (other_operation text) = text

abbrev known_operation : Operation → Bool
known_operation (other_operation text) = false
known_operation operation = true

abbrev concealed_operation : Operation → Bool
concealed_operation operation_restore = true
concealed_operation operation_purge = true
concealed_operation operation = false

unfoldable record_invalid_attempt : Env → Store → Principal → Operation → Result Store
unfolding append_credential_failure
record_invalid_attempt env store principal operation =
    if not (known_operation operation)
    then err invalid_input
    else append_credential_failure env store principal (operation_text operation) none invalid_input
        env.now

unfoldable record_concealed_attempt : Env → Store → Principal → Operation → Result Store
unfolding append_credential_failure
record_concealed_attempt env store principal operation =
    if not (concealed_operation operation)
    then err invalid_input
    else append_credential_failure env store principal (operation_text operation) none not_found
        env.now
