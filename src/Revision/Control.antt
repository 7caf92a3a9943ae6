-- ===== src/Revision/Control.antt =====
-- `RevisionControlState`, `RevisionBudgetPolicy`, `RevisionBudgetConsumption`,
-- `RevisionExecutionAuthorization` and `RevisionAuditEvent` of common/models/revision.py.
pub mod Spec
use prdcp.Shared.{
  ℕ, String, Bool, true, false, ◌&&◌, ◌||◌, not, Option, none, some, List, [], ◌∷◌, ltb, nat_beq,
  ◌==◌, text_eq, nat_eq, is_empty, length, disjoint, Outcome, ok, Guard, ◌raises◌, check, ◌>>=◌,
  ◌>>◌, value_error,
}
use prdcp.Revision.Layers.{
  LayerId, RevisionRoute, internal, upstream, RevisionControlPhase, RevisionAuthorizationStatus,
  pending, consumed, DateTime,
}
use prdcp.Revision.Request.{min_length_1, require_unique, is_none}

pub record RevisionControlState : Type 0 where
  pub phase : RevisionControlPhase
  pub revision_epoch : ℕ
  pub active_request_id : Option String
  pub active_request_message_id : Option String
  pub active_result_id : Option String
  pub root_revision_request_id : Option String
  pub parent_revision_request_id : Option String
  pub pending_request_ids : List String
  pub consumed_request_ids : List String
  pub consumed_result_ids : List String
  pub audit_event_ids : List String

abbrev pub is_idle : RevisionControlPhase → Bool
is_idle RevisionControlPhase.idle = true
is_idle _ = false

-- `validate_control_state`, which also runs on every assignment to a field.
unfoldable pub control_guards : RevisionControlState → List Guard
control_guards c =
    require_unique c.pending_request_ids "pending_request_ids"
    ∷ require_unique c.consumed_request_ids "consumed_request_ids"
    ∷ require_unique c.consumed_result_ids "consumed_result_ids"
    ∷ require_unique c.audit_event_ids "audit_event_ids"
    ∷ not (disjoint c.pending_request_ids c.consumed_request_ids)
      raises value_error "A request cannot be both pending and consumed"
    ∷ (c.revision_epoch == 0 && not (is_idle c.phase))
      raises value_error "non-idle revision control requires revision_epoch >= 1"
    ∷ []

unfoldable pub validate_control : RevisionControlState → Outcome RevisionControlState
unfolding control_guards check
validate_control c = check (control_guards c) >> ok c

pub record RevisionBudgetPolicy : Type 0 where
  pub internal_limit : ℕ
  pub upstream_limit : ℕ

abbrev pub limit_for : RevisionBudgetPolicy → RevisionRoute → ℕ
limit_for p internal = p.internal_limit
limit_for p upstream = p.upstream_limit

pub record RevisionBudgetConsumption : Type 0 where
  pub workflow_id : String
  pub layer : LayerId
  pub route : RevisionRoute
  pub revision_request_id : String
  pub iteration : ℕ
  pub consumed_at : DateTime

-- `actor_source: Literal["CLI", "DISCORD", "API", "SYSTEM"]`
pub data ActorSource : Type 0 where
  cli discord api system : ActorSource

pub record RevisionExecutionAuthorization : Type 0 where
  pub authorization_id : String
  pub workflow_id : String
  pub revision_request_id : String
  pub executing_layer : LayerId
  pub actor_id : String
  pub actor_source : ActorSource
  pub reason : String
  pub max_provider_calls : ℕ
  pub max_retrieval_calls : ℕ
  pub status : RevisionAuthorizationStatus
  pub created_at : DateTime
  pub consumed_at : Option DateTime
  pub provider_reservation_ids : List String
  pub retrieval_reservation_ids : List String

abbrev pub is_pending : RevisionAuthorizationStatus → Bool
is_pending pending = true
is_pending consumed = false

-- The field constraints, then `validate_authorization`.
unfoldable pub authorization_guards : RevisionExecutionAuthorization → List Guard
authorization_guards a =
    min_length_1 "authorization_id" a.authorization_id
    ∷ min_length_1 "revision_request_id" a.revision_request_id
    ∷ min_length_1 "actor_id" a.actor_id
    ∷ min_length_1 "reason" a.reason
    ∷ require_unique a.provider_reservation_ids "provider_reservation_ids"
    ∷ require_unique a.retrieval_reservation_ids "retrieval_reservation_ids"
    ∷ ltb a.max_provider_calls (length a.provider_reservation_ids)
      raises value_error "provider reservations exceed authorization"
    ∷ ltb a.max_retrieval_calls (length a.retrieval_reservation_ids)
      raises value_error "retrieval reservations exceed authorization"
    ∷ (is_pending a.status && not (is_none a.consumed_at))
      raises value_error "pending authorization cannot have consumed_at"
    ∷ (is_pending a.status
        && not (is_empty a.provider_reservation_ids && is_empty a.retrieval_reservation_ids))
      raises value_error "pending authorization cannot claim reservations"
    ∷ (not (is_pending a.status) && is_none a.consumed_at)
      raises value_error "consumed authorization requires consumed_at"
    ∷ (not (is_pending a.status)
        && (not (a.max_provider_calls == 0) && is_empty a.provider_reservation_ids))
      raises value_error "consumed Provider authorization requires a reservation"
    ∷ (not (is_pending a.status)
        && (not (a.max_retrieval_calls == 0) && is_empty a.retrieval_reservation_ids))
      raises value_error "consumed Retrieval authorization requires a reservation"
    ∷ []

unfoldable pub validate_authorization :
    RevisionExecutionAuthorization → Outcome RevisionExecutionAuthorization
unfolding authorization_guards check
validate_authorization a = check (authorization_guards a) >> ok a

pub data RevisionAuditEventType : Type 0 where
  request_written request_consumed authorization_created : RevisionAuditEventType
  authorization_consumed budget_consumed provider_reserved : RevisionAuditEventType
  retrieval_reserved result_written result_consumed blocked : RevisionAuditEventType

pub record RevisionAuditEvent : Type 0 where
  pub audit_event_id : String
  pub workflow_id : String
  pub revision_request_id : String
  pub layer : LayerId
  pub event_type : RevisionAuditEventType
  pub actor_id : String
  pub message_id : Option String
  pub artifact_ids : List String
  pub reservation_ids : List String
  pub reason : String
  pub created_at : DateTime

-- The field constraints, then `validate_event`.
unfoldable pub event_guards : RevisionAuditEvent → List Guard
event_guards e =
    min_length_1 "audit_event_id" e.audit_event_id
    ∷ min_length_1 "revision_request_id" e.revision_request_id
    ∷ min_length_1 "actor_id" e.actor_id
    ∷ require_unique e.artifact_ids "artifact_ids"
    ∷ require_unique e.reservation_ids "reservation_ids"
    ∷ []

unfoldable pub validate_event : RevisionAuditEvent → Outcome RevisionAuditEvent
unfolding event_guards check
validate_event e = check (event_guards e) >> ok e
