-- ===== src/Retrieval/Model.antt =====
-- The data of retrieval/models.py and what retrieval/coordinator.py takes from elsewhere: the
-- provider of searches, hashlib's digests, and the recovery callback of the caller.
use prdcp.Shared.{
  ℕ, ◌+◌, String, Bool, not, Option, List, [], ◌∷◌, ◌++◌, ◌==◌, text_eq, leb, if◌then◌else◌,
  is_empty, contains, length, Outcome, ok, Guard, ◌raises◌, check, ◌>>◌, value_error, FilePath,
  ends_with, drop_suffix, append, is_source_id, is_retrieval_id,
}
use prdcp.Revision.Layers.{DateTime, aware, is_naive}
use prdcp.Exchange.Exec.{Exec}

pub data RetrievalStrategy : Type 0 where
  general_opinion expert academic government : RetrievalStrategy
  news public_opinion politician industry : RetrievalStrategy

-- `strategy.value`
abbrev pub strategy_value : RetrievalStrategy → String
strategy_value general_opinion = "GENERAL_OPINION"
strategy_value expert = "EXPERT"
strategy_value academic = "ACADEMIC"
strategy_value government = "GOVERNMENT"
strategy_value news = "NEWS"
strategy_value public_opinion = "PUBLIC_OPINION"
strategy_value politician = "POLITICIAN"
strategy_value industry = "INDUSTRY"

abbrev strategy_values : List String
strategy_values =
    "GENERAL_OPINION" ∷ "EXPERT" ∷ "ACADEMIC" ∷ "GOVERNMENT" ∷ "NEWS" ∷ "PUBLIC_OPINION"
    ∷ "POLITICIAN" ∷ "INDUSTRY" ∷ []

-- `url` is the text of a `HttpUrl`.
pub record SearchResult : Type 0 where
  pub url : String
  pub title : String
  pub content : String

pub record RetrievedSource : Type 0 where
  pub source_id : String
  pub url : String
  pub title : String
  pub content : String
  pub rank : ℕ
  pub query : String
  pub provider_id : String
  pub retrieved_at : DateTime

-- The constraints of the fields.
abbrev pub source_guards : RetrievedSource → List Guard
source_guards s =
    (not (is_source_id s.source_id) raises value_error "source_id")
    ∷ ((s.title == "") raises value_error "title")
    ∷ ((s.content == "") raises value_error "content")
    ∷ (not (leb 1 s.rank) raises value_error "rank")
    ∷ ((s.query == "") raises value_error "query")
    ∷ ((s.provider_id == "") raises value_error "provider_id")
    ∷ (is_naive s.retrieved_at raises value_error "retrieved_at must include a timezone")
    ∷ []

pub record RetrievedContext : Type 0 where
  pub retrieval_id : String
  pub workflow_id : String
  pub task_id : String
  pub research_question_id : Option String
  pub agent_id : String
  pub retrieval_strategy : String
  pub queries : List String
  pub sources : List RetrievedSource
  pub limitations : List String
  pub retrieved_at : DateTime

abbrev pub context_guards : RetrievedContext → List Guard
context_guards c =
    (not (is_retrieval_id c.retrieval_id) raises value_error "retrieval_id")
    ∷ ((c.workflow_id == "") raises value_error "workflow_id")
    ∷ ((c.task_id == "") raises value_error "task_id")
    ∷ ((c.agent_id == "") raises value_error "agent_id")
    ∷ (not (contains strategy_values c.retrieval_strategy) raises value_error "retrieval_strategy")
    ∷ (is_empty c.queries raises value_error "queries")
    ∷ (is_naive c.retrieved_at raises value_error "retrieved_at must include a timezone")
    ∷ []

unfoldable pub validate_sources : List RetrievedSource → Outcome (Unit {0})
unfolding check is_source_id
validate_sources [] = ok tt
validate_sources (s ∷ ss) = check (source_guards s) >> validate_sources ss

-- `RetrievedContext.model_validate`
unfoldable pub validate_context : RetrievedContext → Outcome RetrievedContext
unfolding check validate_sources is_retrieval_id contains
validate_context c = check (context_guards c) >> (validate_sources c.sources >> ok c)

-- Digests of hashlib, 24 digits of each but the first: of a value, of the identity of a retrieval
-- (its workflow, task, agent and strategy), of a source (the retrieval and the URL), and of an
-- invocation (the strategy, the number of results and the query).
pub record Digests : Type 0 where
  pub sha256 : String → String
  pub retrieval : String → String → String → String → String
  pub source : String → String → String
  pub invocation : String → ℕ → String → String

pub record Reservation : Type 0 where
  pub retrieval_id : String
  pub workflow_id : String
  pub task_id : String
  pub agent_id : String
  pub strategy : String
  pub provider_id : String
  pub reserved_at : DateTime

-- The files that the coordinator writes, and the state of the provider.
pub record State (P : Type 0) : Type 0 where
  pub contexts : List (FilePath × RetrievedContext)
  pub reservations : List (FilePath × Reservation)
  pub provider : P

-- `RetrievalProvider`. `reservation_root` is the root where the reservations are, the provider's or
-- else the default below the data directory. `can_resume` is there for some providers only.
pub record Provider (P : Type 0) : Type 0 where
  pub provider_id : String
  pub reservation_root : FilePath
  pub search :
      String → RetrievalStrategy → ℕ → ℕ → FilePath → String → Exec (State P) (List SearchResult)
  pub can_resume : Option (FilePath → String → State P → Bool)

-- The arguments of `prepare`, but for the callback.
pub record Retrieval : Type 0 where
  pub workflow_id : String
  pub task_id : String
  pub research_question_id : Option String
  pub agent_id : String
  pub strategy : RetrievalStrategy
  pub queries : List String
  pub max_results : ℕ
  pub timeout_seconds : ℕ

-- `_canonical_task_id`
abbrev pub task_suffixes : List String
task_suffixes =
    "_provider_capability_repair_1" ∷ "_provider_contract_repair_1" ∷ "_provider_output_repair_1"
    ∷ "_runtime_model_repair_1" ∷ "_operator_retry_1" ∷ []

unfoldable pub without_suffix : List String → String → String
unfolding ends_with drop_suffix
without_suffix [] task = task
without_suffix (suffix ∷ rest) task =
    if ends_with task suffix then drop_suffix task suffix else without_suffix rest task

unfoldable pub canonical_task_id : String → String
unfolding without_suffix
canonical_task_id task = without_suffix task_suffixes task

-- The loop over the results: `seen` holds the URLs of the sources so far.
module _ (d : Digests) (retrieval_id provider_id : String) (now : ℕ) (max_results : ℕ) where
  abbrev pub new_source : List RetrievedSource → String → SearchResult → RetrievedSource
  new_source sources query r = record {
    source_id = append "source_" (d.source retrieval_id r.url);
    url = r.url;
    title = r.title;
    content = r.content;
    rank = length sources + 1;
    query = query;
    provider_id = provider_id;
    retrieved_at = aware now;
  }

  unfoldable pub collect :
      List (String × SearchResult)
      → List String
      → List RetrievedSource
      → Outcome (List RetrievedSource)
  unfolding contains check is_source_id
  collect [] seen sources = ok sources
  collect ((query, r) ∷ rest) seen sources =
      if contains seen r.url then collect rest seen sources else (do
        check (source_guards (new_source sources query r))
        (if leb max_results (length (sources ++ new_source sources query r ∷ []))
            then ok (sources ++ new_source sources query r ∷ [])
            else collect rest (r.url ∷ seen) (sources ++ new_source sources query r ∷ [])))
