-- ===== src/Retrieval/Selection.antt =====
-- What `prepare` saves: the sources that the loops over the queries and the results select.
use mathlib.Core.Path.{subst}
use prdcp.Shared.{ℕ, ◌≤◌, String, ◌≡◌, Option, none, [], arith, FilePath, read, Outcome, ok}
use prdcp.Exchange.Exec.{Exec, resume-holds}
use prdcp.Retrieval.Model.{
  RetrievedContext, validate_context, Digests, State, Provider, Retrieval, collect,
}
use prdcp.Retrieval.{retrieval_identity, reserve, search_all, new_context, retrieve, prepare}
use prdcp.Retrieval.Sources.{IsSelection, collect-IsSelection}
use prdcp.Retrieval.Reuse.{context_of, save-same, validate_context-same}

module _ (d : Digests) {P : Type 0} (p : Provider P) where
  retrieve-IsSelection :
      (before : Option (FilePath → String → Exec (State P) (Unit {0}))) (r : Retrieval)
      (now later : ℕ) (s : State P) (c : RetrievedContext)
      → 1 ≤ r.max_results
      → (retrieve d p before r now later s).0 ≡ ok c
      → IsSelection r.max_results c.sources
  unfolding retrieve
  retrieve-IsSelection before r now later s c some_asked h =
      let Q = λ (u : Outcome RetrievedContext × State P). IsSelection r.max_results c.sources in
      let id = retrieval_identity d r in
      resume-holds Q (reserve d p before r now s).0 _ _ c
        (λ u e0. resume-holds Q (search_all d p r r.queries [] _).0 _ _ c (λ found e1.
          resume-holds Q (collect d id p.provider_id later r.max_results found [] []) _ _ c
            (λ sources e2.
              resume-holds Q (validate_context (new_context d p r id later sources)) _ _ c
                (λ e v e3.
                  let same = validate_context-same (new_context d p r id later sources) e v in
                  let saved = save-same d p (context_of d p r) e c _ e3 in
                  subst (λ y. IsSelection r.max_results y.sources) saved
                    (subst (λ y. IsSelection r.max_results y.sources)
                      {x = new_context d p r id later sources} same
                      (collect-IsSelection d id p.provider_id later r.max_results found [] []
                        sources (tt, tt, omega arith) (λ u m. m) (omega arith) e2))))))
        h

  -- Where no context was saved before and at least one result is asked for, the context that
  -- `prepare` returns has no URL twice, its sources are ranked from 1 on, and there are at most as
  -- many as were asked for, whatever the provider finds.
  pub prepare-IsSelection :
      (before : Option (FilePath → String → Exec (State P) (Unit {0}))) (r : Retrieval)
      (now later : ℕ) (s : State P) (c : RetrievedContext)
      → 1 ≤ r.max_results
      → read s.contexts (context_of d p r) ≡ none
      → (prepare d p before r now later s).0 ≡ ok c
      → IsSelection r.max_results c.sources
  unfolding prepare
  prepare-IsSelection before r now later s c some_asked new h =
      retrieve-IsSelection before r now later s c some_asked (rw (new, prepare) at h)
