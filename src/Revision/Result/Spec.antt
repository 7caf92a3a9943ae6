-- ===== src/Revision/Result/Spec.antt =====
-- What the validator of `RevisionResultV1` ensures, stated without the code's tests.
use prdcp.Shared.{
  ◌≡◌, ◌≢◌, refl, ◌↔◌, ◌⊎◌, ◌≤◌, true, false, ◌&&◌, not, some, List, [], ◌∷◌, map, arith, ◌==◌,
  text_eq, length, is_empty, any, All, NoRepeat, Passes, unique-Passes, ltb-Passes,
}
use prdcp.Revision.Layers.{
  LayerId, producer, researcher, deliberation, conclusion, playwright, upstream_layer, layer_eq,
  RevisionExecutionStatus, RevisionFindingOutcome, HumanSelectionImpact, not_applicable,
}
use prdcp.Revision.Request.{artifact_key, is_upstream_of}
use prdcp.Revision.Result.{
  RevisionFindingDisposition, RevisionResult, is_completed, is_open, is_playwright,
  is_not_applicable, result_guards,
}

-- A finding that needs no further work.
abbrev pub IsClosed : RevisionFindingDisposition → Type 0
IsClosed d =
    (d.outcome ≢ RevisionFindingOutcome.unresolved)
    × (d.outcome ≢ RevisionFindingOutcome.routed_upstream)

pub record IsSound (r : RevisionResult) : Type 0 where
  pub base : NoRepeat (map artifact_key r.base_artifacts)
  pub results : NoRepeat (map artifact_key r.result_artifacts)
  pub findings : NoRepeat (map (λ d. d.finding_id) r.finding_dispositions)
  pub provider_ids : NoRepeat r.provider_reservation_ids
  pub retrieval_ids : NoRepeat r.retrieval_reservation_ids
  pub provider_calls : r.provider_call_count ≤ length r.provider_reservation_ids
  pub retrieval_calls : r.retrieval_call_count ≤ length r.retrieval_reservation_ids
  pub closed : r.status ≡ RevisionExecutionStatus.completed → All IsClosed r.finding_dispositions
  pub produced : r.status ≡ RevisionExecutionStatus.completed → r.result_artifacts ≢ []
  pub adjacent :
      (upstream_layer r.requester_layer ≡ some r.producer_layer)
      ⊎ (r.requester_layer ≡ r.producer_layer)
  pub no_impact : r.requester_layer ≢ playwright → r.human_selection_impact ≡ not_applicable
  pub impact :
      r.requester_layer ≡ playwright
      → r.producer_layer ≡ conclusion
      → r.human_selection_impact ≢ not_applicable

any-is_open : (ds : List RevisionFindingDisposition) → (any is_open ds ≡ false) ↔ All IsClosed ds
any-is_open [] = (λ h. tt, λ h. refl)
any-is_open (d ∷ ds) = ground (arith, any-is_open ds)

pub IsClosed-Passes :
    (s : RevisionExecutionStatus) (ds : List RevisionFindingDisposition)
    → ((is_completed s && any is_open ds) ≡ false)
      ↔ (s ≡ RevisionExecutionStatus.completed → All IsClosed ds)
IsClosed-Passes RevisionExecutionStatus.completed ds = ground (arith, any-is_open ds)
IsClosed-Passes s ds = (λ h e. cc, λ h. refl)

produced-Passes {ℓ} :
    {A : Type ℓ} (s : RevisionExecutionStatus) (xs : List A)
    → ((is_completed s && is_empty xs) ≡ false) ↔ (s ≡ RevisionExecutionStatus.completed → xs ≢ [])
produced-Passes RevisionExecutionStatus.completed [] = (λ h. cc, λ h. absurd (h refl refl))
produced-Passes RevisionExecutionStatus.completed (x ∷ xs) = (λ h e p. cc, λ h. refl)
produced-Passes s xs = (λ h e. cc, λ h. refl)

upstream-Passes : (s t : LayerId) → (is_upstream_of s t ≡ true) ↔ (upstream_layer s ≡ some t)
unfolding is_upstream_of
upstream-Passes producer t = ground arith
upstream-Passes researcher t = ground (arith, layer_eq.same_iff producer t)
upstream-Passes deliberation t = ground (arith, layer_eq.same_iff researcher t)
upstream-Passes conclusion t = ground (arith, layer_eq.same_iff deliberation t)
upstream-Passes playwright t = ground (arith, layer_eq.same_iff conclusion t)

adjacent-Passes :
    (s t : LayerId)
    → ((not (is_upstream_of s t) && not (s == t)) ≡ false) ↔ ((upstream_layer s ≡ some t) ⊎ (s ≡ t))
adjacent-Passes s t = ground (arith, upstream-Passes s t, layer_eq.same_iff s t)

no_impact-Passes :
    (l : LayerId) (i : HumanSelectionImpact)
    → ((not (is_playwright l) && not (is_not_applicable i)) ≡ false)
      ↔ (l ≢ playwright → i ≡ not_applicable)
no_impact-Passes l i = ground arith

impact-Passes :
    (l p : LayerId) (i : HumanSelectionImpact)
    → ((is_playwright l && (p == conclusion && is_not_applicable i)) ≡ false)
      ↔ (l ≡ playwright → p ≡ conclusion → i ≢ not_applicable)
impact-Passes playwright p i = ground (arith, layer_eq.same_iff p conclusion)
impact-Passes l p i = (λ h e. cc, λ h. refl)

pub result_guards_iff : (r : RevisionResult) → All Passes (result_guards r) ↔ IsSound r
unfolding result_guards
result_guards_iff r = (
  λ (g0, (g1, (g2, (g3, (g4, (g5, (g6, (g7, (g8, (g9, (g10, (g11, _)))))))))))). record {
    base = (unique-Passes (map artifact_key r.base_artifacts)).0 g0;
    results = (unique-Passes (map artifact_key r.result_artifacts)).0 g1;
    findings = (unique-Passes (map (λ d. d.finding_id) r.finding_dispositions)).0 g2;
    provider_ids = (unique-Passes r.provider_reservation_ids).0 g3;
    retrieval_ids = (unique-Passes r.retrieval_reservation_ids).0 g4;
    provider_calls = (ltb-Passes (length r.provider_reservation_ids) r.provider_call_count).0 g5;
    retrieval_calls = (ltb-Passes (length r.retrieval_reservation_ids) r.retrieval_call_count).0 g6;
    closed = (IsClosed-Passes r.status r.finding_dispositions).0 g7;
    produced = (produced-Passes r.status r.result_artifacts).0 g8;
    adjacent = (adjacent-Passes r.requester_layer r.producer_layer).0 g9;
    no_impact = (no_impact-Passes r.requester_layer r.human_selection_impact).0 g10;
    impact = (impact-Passes r.requester_layer r.producer_layer r.human_selection_impact).0 g11;
  },
  λ v. (
    (unique-Passes (map artifact_key r.base_artifacts)).1 v.base,
    (
      (unique-Passes (map artifact_key r.result_artifacts)).1 v.results,
      (
        (unique-Passes (map (λ d. d.finding_id) r.finding_dispositions)).1 v.findings,
        (
          (unique-Passes r.provider_reservation_ids).1 v.provider_ids,
          (
            (unique-Passes r.retrieval_reservation_ids).1 v.retrieval_ids,
            (
              (ltb-Passes (length r.provider_reservation_ids) r.provider_call_count).1
                  v.provider_calls,
              (
                (ltb-Passes (length r.retrieval_reservation_ids) r.retrieval_call_count).1
                    v.retrieval_calls,
                (
                  (IsClosed-Passes r.status r.finding_dispositions).1 v.closed,
                  (
                    (produced-Passes r.status r.result_artifacts).1 v.produced,
                    (
                      (adjacent-Passes r.requester_layer r.producer_layer).1 v.adjacent,
                      (
                        (no_impact-Passes r.requester_layer r.human_selection_impact).1 v.no_impact,
                        (
                          (impact-Passes r.requester_layer r.producer_layer
                                r.human_selection_impact).1
                              v.impact,
                          tt,
                        ),
                      ),
                    ),
                  ),
                ),
              ),
            ),
          ),
        ),
      ),
    ),
  ),
)
