-- ===== src/Retry/Model.antt =====
-- The authorization of a retry and the files of `ProviderRetryAuthorizationStore`
-- (common/provider_retry.py).
use prdcp.Shared.{
  String, Bool, true, false, not, Option, none, some, List, [], ◌∷◌, ◌==◌, text_eq, if◌then◌else◌,
  Outcome, ok, raise, Guard, ◌raises◌, check, ◌>>◌, value_error, is_provider_id, ends_with,
  drop_suffix, FilePath,
}
use prdcp.Revision.Layers.{DateTime}

abbrev pub operator_retry_suffix : String
operator_retry_suffix = "_operator_retry_1"

abbrev pub operator_retryable_error_classes : List String
operator_retryable_error_classes =
    "RetryableAgentError" ∷ "ProviderResponseContractError" ∷ "PayloadValidationError"
    ∷ "ProviderRequestSchemaError" ∷ []

pub data ProviderRetryStatus : Type 0 where
  pending consumed : ProviderRetryStatus

-- status == PENDING
abbrev pub is_pending : ProviderRetryStatus → Bool
is_pending pending = true
is_pending consumed = false

pub record ProviderRetryAuthorization : Type 0 where
  pub authorization_id : String
  pub workflow_id : String
  pub provider_id : String
  pub agent_id : String
  pub original_task_id : String
  pub retry_task_id : String
  pub source_error_message_id : String
  pub source_error_class : String
  pub authorized_by : String
  pub status : ProviderRetryStatus
  pub authorized_at : DateTime
  pub consumed_at : Option DateTime
  pub reservation_path : Option FilePath

-- The constraints of the fields, as pydantic checks them.
abbrev pub field_guards : ProviderRetryAuthorization → List Guard
field_guards a =
    ((a.authorization_id == "") raises value_error "authorization_id")
    ∷ ((a.workflow_id == "") raises value_error "workflow_id")
    ∷ (not (is_provider_id a.provider_id) raises value_error "provider_id")
    ∷ ((a.agent_id == "") raises value_error "agent_id")
    ∷ ((a.original_task_id == "") raises value_error "original_task_id")
    ∷ ((a.retry_task_id == "") raises value_error "retry_task_id")
    ∷ ((a.source_error_message_id == "") raises value_error "source_error_message_id")
    ∷ ((a.source_error_class == "") raises value_error "source_error_class")
    ∷ ((a.authorized_by == "") raises value_error "authorized_by")
    ∷ []

-- What the reservation of a provider call says, where it says it.
pub record Reservation : Type 0 where
  pub workflow_id : Option String
  pub task_id : Option String
  pub agent_id : Option String

pub data RetryFile : Type 0 where
  reserved : Reservation → RetryFile
  authorized : ProviderRetryAuthorization → RetryFile

-- `payload.get(...)` on the object of a file.
abbrev pub reservation_of : RetryFile → Reservation
reservation_of (reserved r) = r
reservation_of (authorized a) = record {
  workflow_id = some a.workflow_id;
  task_id = none;
  agent_id = some a.agent_id;
}

abbrev pub Files : Type 0
Files = List (FilePath × RetryFile)

-- value == text
abbrev pub says : Option String → String → Bool
says none t = false
says (some s) t = s == t

-- The arguments of `authorize_once`.
pub record RetryTask : Type 0 where
  pub workflow_id : String
  pub provider_id : String
  pub agent_id : String
  pub original_task_id : String
  pub source_error_message_id : String
  pub source_error_class : String
  pub authorized_by : String

-- `ProviderRetryAuthorization.model_validate` of the object of a file.
unfoldable pub parse : RetryFile → Outcome ProviderRetryAuthorization
unfolding check
parse (reserved r) = raise (value_error "ProviderRetryAuthorization")
parse (authorized a) = check (field_guards a) >> ok a

-- `_original_task_id`
unfoldable pub original_task_id : String → Outcome String
unfolding ends_with drop_suffix
original_task_id retry_task_id =
    if not (ends_with retry_task_id operator_retry_suffix)
    then raise (value_error "Task is not an operator retry task")
    else ok (drop_suffix retry_task_id operator_retry_suffix)
