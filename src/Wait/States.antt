-- ===== src/Wait/States.antt =====
-- constants.go: the names of states.
use terraform_provider_confl.Base.{String}

-- constants.go, the states.
abbrev pub state_altering : String
state_altering = "ALTERING"

abbrev pub state_applied : String
state_applied = "APPLIED"

abbrev pub state_completed : String
state_completed = "COMPLETED"

abbrev pub state_created : String
state_created = "CREATED"

abbrev pub state_creating : String
state_creating = "CREATING"

abbrev pub state_degraded : String
state_degraded = "DEGRADED"

abbrev pub state_disconnected : String
state_disconnected = "DISCONNECTED"

abbrev pub state_done : String
state_done = "DONE"

abbrev pub state_error : String
state_error = "ERROR"

abbrev pub state_expired : String
state_expired = "EXPIRED"

abbrev pub state_failed : String
state_failed = "FAILED"

abbrev pub state_failing : String
state_failing = "FAILING"

abbrev pub state_in_progress : String
state_in_progress = "IN_PROGRESS"

abbrev pub state_pending : String
state_pending = "PENDING"

abbrev pub state_pending_accept : String
state_pending_accept = "PENDING_ACCEPT"

abbrev pub state_pending_stopped : String
state_pending_stopped = "PENDING_STOPPED"

abbrev pub state_provisioned : String
state_provisioned = "PROVISIONED"

abbrev pub state_provisioning : String
state_provisioning = "PROVISIONING"

abbrev pub state_ready : String
state_ready = "READY"

abbrev pub state_running : String
state_running = "RUNNING"

abbrev pub state_stopped : String
state_stopped = "STOPPED"

abbrev pub state_stopping : String
state_stopping = "STOPPING"

abbrev pub state_unexpected : String
state_unexpected = "UNEXPECTED"

abbrev pub state_unknown : String
state_unknown = "UNKNOWN"

abbrev pub state_up : String
state_up = "UP"

abbrev pub state_waiting_for_connections : String
state_waiting_for_connections = "WAITING_FOR_CONNECTIONS"
