-- ===== src/Lib.antt =====
-- PRDCP: the revision protocol between the layers of a multi-agent pipeline, and the stores that
-- make calls of paid providers happen once.
--
-- The program runs five layers (producer, researcher, deliberation, conclusion, playwright) that
-- exchange PMP messages through JSON files. A layer that finds fault with the work of the layer
-- before it writes a Revision Request into the outbox, an operator authorizes the execution, and
-- the answer is a Revision Result. Around every paid call stand a reservation file and one-shot
-- authorizations, so that a process that stops can be started again.
--
-- Which file models which part:
--   Revision, Revision/*   common/models/revision.py: the enumerations (Layers), path components
--       (Identity), RevisionRequestV1 (Request), RevisionResultV1 and its dispositions (Result),
--       and control state, budget policy, authorizations and audit events (Control). A pydantic
--       model is a record; its field constraints and its validator are the lists of guards
--       `*_field_guards` and `*_guards`, in the order of the code, and `validate_*` runs them.
--       Spec and Fields say in words of their own what the guards ask for.
--   Pmp, Pmp/Registry      common/models/pmp.py and common/validation/pmp_validator.py.
--   Correlation/*          common/validation/revision_validator.py: a message against its payload
--       an answer against its question, and a request against the current artifacts.
--   Budget, Budget/*       RevisionBudgetStore of storage/revision_exchange_repository.py. A budget
--       directory is the list of its slot files; `consume` tries slots in ascending order.
--       Race has processes that call it at the same time, as a step relation: looking for the slot
--       of a request is one step, and so is trying one slot, where a file appears with its record.
--   Exchange, Exchange/*   RevisionExchangeRepository of the same file: the state is the JSON files
--       by path and the budget directories (Store), a method is an action (Exec) that returns or
--       raises and leaves the files that it wrote in both cases. Paths, Messages and Authorizations
--       have the methods; Once, Requests, Spent and Consumption say what they promise.
--   Retry, Retry/*         ProviderRetryAuthorizationStore of common/provider_retry.py.
--   Retrieval, Retrieval/* RetrievalCoordinator of retrieval/coordinator.py, with the data of
--       retrieval/models.py.
--   Producer, Producer/*   ProducerManager of producer/manager.py with producer/state.py,
--       producer/workflow.py, producer/schemas/review.py and research_plan.py, and `save`
--       and `load` of storage/workflow_repository.py. A method is a step on a World: the
--       state object, the versions of it that were saved, the outbox, the revision
--       exchange, and how much was drawn. Checkpoint, Payload, Drafts, Messages and Agents
--       have the loop of `_run_from`; Review reads the payload of a review; Revision,
--       Revision/*, Accounting and Execution have the methods of a revision, on the part of
--       the world that they change (Ledgers); the file itself has `_handle_review` and
--       `_run_from`. The other files say what the parts promise: Recovery, Progress and
--       Invalidation of one state, Steps, Asking, LoopEnd and Loop of the agents, Handoff,
--       Settled, Counted, Revising and Run of the review, Ending, Safe and Restart of a
--       whole run. Recover is `recover`, which reads the files of the retries
--       (Retry/Model); Recover/Recoverable and Recover/Starting say how it ends.
--   Discord, Discord/*     split_message of discord_app/message_formatter.py.
--   Shared/*               lists, JSON values, text and regular expressions, outcomes with
--       guards, and files.
--   Examples/*             tests on sample values, and each theorem with hypotheses at an input.
--
-- Methods of a class become functions of the same name whose last argument is the state. An
-- exception is `raise` of an `Error`; the text of a message is kept where it tells cases apart.
-- The clock, uuid4 and the arguments of a constructor are arguments.
--
-- Parameters: hashlib's digests, canonical JSON, the UUID parser and the agent registry of
-- config/agents.json (Revision/External), and the retrieval provider with its state and the
-- recovery callback (Retrieval/Model). For the producer (Producer/Setting) also the answers of its
-- agents, uuid5, Python's text of a JSON value, and which provider an agent has and whether it can
-- resume a call (Producer/Recover). A theorem that needs a property of one names it.
--
-- Fuel: only the decimal digits of a slot number count down on fuel, n + 1 for the number n, which
-- has fewer digits than that. All other recursion is structural; the loop of `consume` runs over
-- the slots that are left below the limit. `run_from` of the producer counts down the rounds that
-- revisions begin, and returns the round that is left where the fuel runs out; in Demo Safe Mode
-- one round is enough, otherwise the budget of revisions bounds them. `chunks` of Discord/Split
-- counts down the length of the text, which is enough, and `split_message` the fences around it.
--
-- Not modelled: the text of JSON and of URLs, failures of the disk other than files that exist
-- already or are missing, the repair stores of common/provider_*_repair.py, the operator
-- commands of the producer, the managers of the other layers, the providers' HTTP calls, prompts
-- and role documents, the command line, and the rest of the Discord interface.
mod Shared
pub mod Revision
pub mod Pmp
pub mod Correlation
pub mod Budget
pub mod Exchange
pub mod Retry
pub mod Retrieval
pub mod Producer
pub mod Discord
mod Examples
