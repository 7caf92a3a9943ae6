-- ===== src/Producer/Revision.antt =====
-- The identities, the request message and the audit of a revision in `ProducerManager`
-- (producer/manager.py).
pub mod Planned
pub mod Plan
pub mod Result
use Prim.Native.String.{String as NativeString}
use Prim.Native.Char.{code}
use prdcp.Shared.{
  ℕ, zero, suc, String, Bool, true, false, ◌&&◌, ◌||◌, not, Option, none, some, List, [], ◌∷◌, ◌++◌,
  map, ◌==◌, text_eq, nat_eq, nat_beq, Eq, discrete_eq, String_discrete, ℕ_discrete, leb, length,
  find_first, contains, if◌then◌else◌, Outcome, ok, raise, Error, Guard, ◌raises◌, value_error,
  file_not_found, index_error, append, decimal, codes, Json, Fields, get, truth,
}
use prdcp.Revision.Layers.{LayerId, producer, DateTime, RevisionControlPhase}
use prdcp.Revision.Request.{RevisionRequest, truthy}
use prdcp.Revision.Control.{
  RevisionControlState, RevisionAuditEvent, RevisionAuditEventType, validate_event,
}
use prdcp.Pmp.{PmpMessage, validate_message}
use prdcp.Correlation.{validate_request_message, request_payload}
use prdcp.Retrieval.Model.{RetrievalStrategy, Digests}
use prdcp.Retrieval.{retrieval_identity}
use prdcp.Exchange.Exec.{Exec, pure, throw, lift, guards, ◌>>=◌, ◌>>◌}
use prdcp.Exchange.Store.{Repository}
use prdcp.Exchange.Messages.{load_request, load_internal_request}
use prdcp.Exchange.Authorizations.{create_audit_event_once}
use prdcp.Producer.Model.{ProducerWorkflowState, agent_order, general_opinion_analyst, index, drop}
use prdcp.Producer.Setting.{Manager, World, Step}
use prdcp.Producer.Drafts.{Draft, of_draft}
use prdcp.Producer.Ledgers.{Entry, read_ledger, draw_entry, put_control, exchanged, or_missing}

-- values[0]
abbrev pub first : List String → Outcome String
first [] = raise index_error
first (x ∷ xs) = ok x

-- str(plan.get("research_plan_id") or "")
abbrev pub plan_id : (Json → String) → Fields → String
plan_id show plan = elim (get plan "research_plan_id") [
  | none ↦ ""
  | some v ↦ if truth v then show v else ""
]

-- text.rsplit("_", 1)[-1]
abbrev pub after_underscore : String → String
after_underscore NativeString.[] = ""
after_underscore (NativeString.◌∷◌ c s) =
    let rest = after_underscore s in
    if contains (codes s) b'_' then rest else if code c == b'_' then s else NativeString.◌∷◌ c s

-- text[:n]
abbrev pub first_chars : ℕ → String → String
first_chars zero s = ""
first_chars (suc n) NativeString.[] = ""
first_chars (suc n) (NativeString.◌∷◌ c s) = NativeString.◌∷◌ c (first_chars n s)

abbrev pub task_suffix : RevisionRequest → String
task_suffix r = first_chars 12 (after_underscore r.revision_request_id)

-- f"{agent}.revision.{epoch}.{suffix}"
unfoldable pub provider_task : RevisionRequest → String → String × String
unfolding decimal contains
provider_task r agent = (
  agent,
  append (append (append (append agent ".revision.") (decimal r.revision_epoch)) ".")
      (task_suffix r),
)

-- What a revision runs: the provider tasks, the retrieval tasks and the retrievals.
pub record Identities : Type 0 where
  pub provider_tasks : List (String × String)
  pub retrieval_tasks : List (String × String)
  pub retrieval_ids : List String

abbrev pub task_ids : List (String × String) → List String
task_ids = map (λ (a, t). t)

-- f"general_opinion_revision_{epoch}_{suffix}"
abbrev retrieval_task : RevisionRequest → String
retrieval_task r =
    append (append (append "general_opinion_revision_" (decimal r.revision_epoch)) "_")
      (task_suffix r)

abbrev no_identity : Error
no_identity = value_error "Producer Revision control has no active request identity"

abbrev truthy_text : Option String → Outcome String
truthy_text none = raise no_identity
truthy_text (some t) = if t == "" then raise no_identity else ok t

module _ (m : Manager) where
  abbrev retrieval_of : ProducerWorkflowState → RevisionRequest → Digests → String
  retrieval_of s r d = retrieval_identity d (record {
    workflow_id = s.workflow_id;
    task_id = retrieval_task r;
    research_question_id = none;
    agent_id = general_opinion_analyst;
    strategy = RetrievalStrategy.general_opinion;
    queries = [];
    max_results = 0;
    timeout_seconds = 0;
  })

  -- From the agent with index i on.
  unfoldable pub identities_from : ProducerWorkflowState → RevisionRequest → ℕ → Outcome Identities
  unfolding provider_task decimal retrieval_identity contains
  identities_from s r i =
      let tasks = map (provider_task r) (drop i agent_order) in
      if leb i 2
      then elim m.coordinator [
        | none ↦
            raise (
              value_error
                "Producer Revision requiring General Opinion has no Retrieval coordinator")
        | some d ↦ ok (record {
          provider_tasks = tasks;
          retrieval_tasks = (general_opinion_analyst, retrieval_task r) ∷ [];
          retrieval_ids = retrieval_of s r d ∷ [];
        })
      ]
      else ok (record { provider_tasks = tasks; retrieval_tasks = []; retrieval_ids = [] })

  -- `_revision_execution_identities`
  unfoldable pub revision_execution_identities :
      ProducerWorkflowState → RevisionRequest → Outcome Identities
  unfolding identities_from
  revision_execution_identities s r = elim (first r.target_agent_ids) [
    | raise e ↦ raise e
    | ok target ↦ elim (index agent_order target) [
      | raise e ↦ raise e
      | ok i ↦ identities_from s r i
    ]
  ]

  -- The saved request of an identifier.
  abbrev find_message : ProducerWorkflowState → String → String → Entry PmpMessage
  find_message s message_id request_id l =
      elim (find_first (λ item. item.message_id == message_id) l.history) [
        | some message ↦ (ok message, l)
        | none ↦
            or_missing (exchanged (load_internal_request m.x producer s.workflow_id request_id))
              (exchanged (load_request m.x producer s.workflow_id request_id)) l
      ]

  -- `_active_revision_request_message`
  unfoldable pub active_revision_request_message : ProducerWorkflowState → Entry PmpMessage
  unfolding load_internal_request load_request validate_request_message
  active_revision_request_message s = do
    l ← read_ledger
    message_id ← lift (truthy_text l.control.active_request_message_id)
    request_id ← lift (truthy_text l.control.active_request_id)
    message ← find_message s message_id request_id
    r ← lift (validate_request_message m.x message)
    guards (
        (not (r.revision_request_id == request_id)
          raises value_error "Producer active Revision Request identity is inconsistent")
        ∷ [])
    pure message

  -- `_record_revision_audit`, with the constructor of the event.
  unfoldable pub record_revision_audit : RevisionAuditEvent → Entry (Unit {0})
  unfolding validate_event create_audit_event_once contains
  record_revision_audit e = do
    lift (validate_event e)
    exchanged (create_audit_event_once m.x e)
    l ← read_ledger
    put_control (
        if contains l.control.audit_event_ids e.audit_event_id
        then l.control
        else record l.control {
          audit_event_ids = l.control.audit_event_ids ++ e.audit_event_id ∷ [];
        })

  -- A message of a revision: `PMPMessage.create` at the time of the review, then the validation of
  -- the same message with its own identifier.
  unfoldable pub revision_message :
      ProducerWorkflowState → Draft → String → DateTime → Entry PmpMessage
  unfolding validate_message
  revision_message s d id time = do
    n ← draw_entry
    lift (validate_message m.x.is_uuid (of_draft d s.workflow_id (m.uuid n) time time))
    lift (validate_message m.x.is_uuid (of_draft d s.workflow_id id time time))

  -- An audit event of the producer.
  abbrev pub audit_event :
      ProducerWorkflowState
      → RevisionRequest
      → String
      → RevisionAuditEventType
      → String
      → Option String
      → List String
      → List String
      → String
      → DateTime
      → RevisionAuditEvent
  audit_event s r name type actor message artifacts reservations reason time = record {
    audit_event_id = append (append name "_") (decimal r.revision_epoch);
    workflow_id = s.workflow_id;
    revision_request_id = r.revision_request_id;
    layer = producer;
    event_type = type;
    actor_id = actor;
    message_id = message;
    artifact_ids = artifacts;
    reservation_ids = reservations;
    reason = reason;
    created_at = time;
  }
