-- ===== src/Retrieval.antt =====
-- `RetrievalCoordinator` of retrieval/coordinator.py: one paid search for each identity of a
-- retrieval, behind a reservation that is created before the first call of the provider. The loop
-- is that of `prepare`; failures of the disk are not modelled.
pub mod Model
pub mod Sources
pub mod Reuse
pub mod Interruption
pub mod Selection
use prdcp.Shared.{
  ℕ, String, Bool, true, false, ◌||◌, not, Option, none, some, List, [], ◌∷◌, ◌++◌, map, leb,
  if◌then◌else◌, is_empty, length, Outcome, ok, raise, append, Error, non_retryable_agent_error,
  FilePath, dir, json, read, write,
}
use prdcp.Revision.Layers.{DateTime, aware}
use prdcp.Revision.Identity.{safe_path_component}
use prdcp.Exchange.Exec.{Exec, pure, throw, lift, resume, ◌>>=◌, ◌>>◌}
use prdcp.Retrieval.Model.{
  RetrievalStrategy, strategy_value, SearchResult, RetrievedSource, RetrievedContext,
  validate_context, Digests, Reservation, State, Provider, Retrieval, canonical_task_id, collect,
}

-- queries[0] if queries else ""
abbrev pub first_query : List String → String
first_query [] = ""
first_query (q ∷ qs) = q

abbrev pub ambiguous : Error
ambiguous =
    non_retryable_agent_error
      "RETRIEVAL_AMBIGUOUS_STATE: reservation exists without persisted context"

module _ (d : Digests) where
  -- `_retrieval_id`
  abbrev pub retrieval_id : String → String → String → String → String
  retrieval_id workflow task agent strategy =
      append "retrieval_" (d.retrieval workflow task agent strategy)

  -- `retrieval_identity`
  unfoldable pub retrieval_identity : Retrieval → String
  unfolding canonical_task_id
  retrieval_identity r =
      retrieval_id r.workflow_id (canonical_task_id r.task_id) r.agent_id
        (strategy_value r.strategy)

  -- `_context_path`
  abbrev pub context_path : String → String → FilePath
  context_path workflow id =
      dir "retrieval_contexts" ∷ dir (safe_path_component d.sha256 workflow) ∷ json id ∷ []

  -- `_invocation_discriminator`
  abbrev pub invocation_discriminator : Retrieval → String → String
  invocation_discriminator r query =
      append "retrieval-" (d.invocation (strategy_value r.strategy) r.max_results query)

  module _ {P : Type 0} (p : Provider P) where
    -- `_reservation_path`
    abbrev pub reservation_path : String → String → FilePath
    reservation_path workflow id =
        p.reservation_root
        ++ dir p.provider_id ∷ dir (safe_path_component d.sha256 workflow) ∷ json id ∷ []

    -- can_resume(...), where the provider has it
    abbrev pub resumes :
        Option (FilePath → String → State P → Bool) → FilePath → String → State P → Bool
    resumes none path discriminator s = false
    resumes (some can_resume) path discriminator s = can_resume path discriminator s

    -- The reservation is created, or adopted: by the callback of a recovery, or by a provider that
    -- can resume.
    unfoldable pub reserve :
        Option (FilePath → String → Exec (State P) (Unit {0}))
        → Retrieval
        → ℕ
        → Exec (State P) (Unit {0})
    unfolding read write retrieval_identity
    reserve before r now s =
        let id = retrieval_identity r in
        let path = reservation_path r.workflow_id id in
        elim (read s.reservations path) [
          | none ↦
              let t = record s {
                reservations = write s.reservations path (record {
                  retrieval_id = id;
                  workflow_id = r.workflow_id;
                  task_id = canonical_task_id r.task_id;
                  agent_id = r.agent_id;
                  strategy = strategy_value r.strategy;
                  provider_id = p.provider_id;
                  reserved_at = aware now;
                });
              } in
              elim before [ none ↦ (ok tt, t) | some callback ↦ callback path id t ]
          | some there ↦ elim before [
            | none ↦
                if resumes p.can_resume path (invocation_discriminator r (first_query r.queries)) s
                then (ok tt, s)
                else (raise ambiguous, s)
            | some callback ↦ callback path id s
          ]
        ]

    -- The searches, until there are enough results.
    unfoldable pub search_all :
        Retrieval
        → List String
        → List (String × SearchResult)
        → Exec (State P) (List (String × SearchResult))
    unfolding retrieval_identity
    search_all r [] found = pure found
    search_all r (query ∷ queries) found = do
      results ←
          p.search query r.strategy r.max_results r.timeout_seconds
            (reservation_path r.workflow_id (retrieval_identity r))
            (invocation_discriminator r query)
      (if leb r.max_results (length (found ++ map (λ result. (query, result)) results))
          then pure (found ++ map (λ result. (query, result)) results)
          else search_all r queries (found ++ map (λ result. (query, result)) results))

    abbrev pub limitations : List RetrievedSource → List String
    limitations [] = "RETRIEVAL_NO_RESULTS" ∷ []
    limitations (s ∷ ss) = []

    abbrev pub new_context : Retrieval → String → ℕ → List RetrievedSource → RetrievedContext
    new_context r id now sources = record {
      retrieval_id = id;
      workflow_id = r.workflow_id;
      task_id = canonical_task_id r.task_id;
      research_question_id = r.research_question_id;
      agent_id = r.agent_id;
      retrieval_strategy = strategy_value r.strategy;
      queries = r.queries;
      sources = sources;
      limitations = limitations sources;
      retrieved_at = aware now;
    }

    -- The context is created, and returned.
    unfoldable pub save : FilePath → RetrievedContext → Exec (State P) RetrievedContext
    unfolding read write
    save path c s = elim (read s.contexts path) [
      | none ↦ (ok c, record s { contexts = write s.contexts path c })
      | some there ↦ (raise (non_retryable_agent_error "RETRIEVAL_PERSISTENCE_ERROR"), s)
    ]

    -- What `prepare` does where there is no context: `now` is the time of the reservation, and
    -- `later` that of the context.
    unfoldable pub retrieve :
        Option (FilePath → String → Exec (State P) (Unit {0}))
        → Retrieval
        → ℕ
        → ℕ
        → Exec (State P) RetrievedContext
    unfolding reserve search_all collect validate_context save retrieval_identity
    retrieve before r now later = do
      reserve before r now
      found ← search_all r r.queries []
      sources ←
          lift (collect d (retrieval_identity r) p.provider_id later r.max_results found [] [])
      c ← lift (validate_context (new_context r (retrieval_identity r) later sources))
      save (context_path r.workflow_id (retrieval_identity r)) c

    -- `prepare`
    unfoldable pub prepare :
        Option (FilePath → String → Exec (State P) (Unit {0}))
        → Retrieval
        → ℕ
        → ℕ
        → Exec (State P) RetrievedContext
    unfolding read validate_context retrieve retrieval_identity
    prepare before r now later s =
        elim (read s.contexts (context_path r.workflow_id (retrieval_identity r))) [
          | some c ↦ (validate_context c, s)
          | none ↦ retrieve before r now later s
        ]
