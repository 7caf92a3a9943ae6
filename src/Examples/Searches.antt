-- ===== src/Examples/Searches.antt =====
-- Retrieval on a provider that counts its searches.
use prdcp.Shared.{
  ℕ, suc, String, ◌≡◌, refl, none, List, [], ◌∷◌, arith, append, non_retryable_agent_error, ok,
  raise, ◌==◌, text_eq, if◌then◌else◌, read, FilePath, dir,
}
use prdcp.Revision.Layers.{aware}
use prdcp.Exchange.Exec.{Exec}
use prdcp.Retrieval.{prepare, retrieval_identity}
use prdcp.Retrieval.Model.{
  RetrievalStrategy, SearchResult, RetrievedSource, RetrievedContext, Digests, State, Provider,
  Retrieval, general_opinion,
}
use prdcp.Retrieval.Sources.{IsSelection}
use prdcp.Retrieval.Reuse.{context_of, prepare_again}
use prdcp.Retrieval.Selection.{prepare-IsSelection}
use prdcp.Examples.Samples.{the_model, sha256}

abbrev digests : Digests
digests = record {
  sha256 = sha256;
  retrieval = λ workflow task agent strategy. "0123456789abcdef01234567";
  source = λ retrieval url.
      if url == "https://a.example/"
      then "aaaaaaaaaaaaaaaaaaaaaaaa"
      else "bbbbbbbbbbbbbbbbbbbbbbbb";
  invocation = λ strategy results query. "89abcdef0123456789abcdef";
}

-- Each search finds the same two pages.
abbrev counting_search :
    String → RetrievalStrategy → ℕ → ℕ → FilePath → String → Exec (State ℕ) (List SearchResult)
counting_search query strategy results timeout path discriminator s = (
  ok (
      (record { url = "https://a.example/"; title = "A"; content = "a" })
      ∷ (record { url = "https://b.example/"; title = "B"; content = "b" })
      ∷ []),
  record s { provider = suc s.provider },
)

abbrev provider : Provider ℕ
provider = record {
  provider_id = "mock";
  reservation_root = dir "retrieval_call_reservations" ∷ [];
  search = counting_search;
  can_resume = none;
}

abbrev retrieval : String → Retrieval
retrieval name = record {
  workflow_id = "workflow_1";
  task_id = name;
  research_question_id = none;
  agent_id = "researcher.expert";
  strategy = general_opinion;
  queries = "first" ∷ "second" ∷ [];
  max_results = 3;
  timeout_seconds = 30;
}

abbrev fresh : State ℕ
fresh = record { contexts = []; reservations = []; provider = 0 }

abbrev page : String → String → String → ℕ → RetrievedSource
page address name text rank = record {
  source_id = append "source_" (digests.source "" address);
  url = address;
  title = name;
  content = text;
  rank = rank;
  query = "first";
  provider_id = "mock";
  retrieved_at = aware 2;
}

-- The second search repeats the two pages of the first.
abbrev context : RetrievedContext
context = record {
  retrieval_id = "retrieval_0123456789abcdef01234567";
  workflow_id = "workflow_1";
  task_id = "task_1";
  research_question_id = none;
  agent_id = "researcher.expert";
  retrieval_strategy = "GENERAL_OPINION";
  queries = "first" ∷ "second" ∷ [];
  sources = page "https://a.example/" "A" "a" 1 ∷ page "https://b.example/" "B" "b" 2 ∷ [];
  limitations = [];
  retrieved_at = aware 2;
}

prepared : (prepare digests provider none (retrieval "task_1") 1 2 fresh).0 ≡ ok context
unfolding the_model
prepared = refl

two_searches : (prepare digests provider none (retrieval "task_1") 1 2 fresh).1.provider ≡ 2
unfolding the_model
two_searches = refl

no_context : read fresh.contexts (context_of digests provider (retrieval "task_1")) ≡ none
unfolding the_model
no_context = refl

same_identity :
    retrieval_identity digests (retrieval "task_1_operator_retry_1")
    ≡ retrieval_identity digests (retrieval "task_1")
unfolding the_model
same_identity = refl

prepare-IsSelection_example : IsSelection 3 context.sources
prepare-IsSelection_example =
    prepare-IsSelection digests provider none (retrieval "task_1") 1 2 fresh context (omega arith)
      no_context prepared

prepare_again_example :
    prepare digests provider none
      (retrieval "task_1_operator_retry_1")
      8
      9
      (prepare digests provider none (retrieval "task_1") 1 2 fresh).1
    ≡ (ok context, (prepare digests provider none (retrieval "task_1") 1 2 fresh).1)
prepare_again_example =
    prepare_again digests provider none none (retrieval "task_1")
      (retrieval "task_1_operator_retry_1") 1 2 8 9 fresh context prepared (refl, same_identity)

-- A provider whose searches are paid for and fail.
abbrev failing : Provider ℕ
failing = record provider {
  search = λ query strategy results timeout path discriminator s. (
    raise (non_retryable_agent_error "RETRIEVAL_PROVIDER_ERROR"),
    record s { provider = suc s.provider },
  );
}

abbrev attempted : State ℕ
attempted = (prepare digests failing none (retrieval "task_1") 1 2 fresh).1

one_search : attempted.provider ≡ 1
unfolding the_model
one_search = refl
