-- ===== src/Revision/Request/Spec.antt =====
-- What a revision request has to be, stated without the code's tests, and that exactly those
-- requests are accepted.
use prdcp.Shared.{
  String, ◌≡◌, ◌≢◌, refl, ◌↔◌, ◌⊎◌, Bool, true, false, ◌&&◌, ◌||◌, not, Option, none, some, map,
  arith, ◌==◌, text_eq, eq_iff, All, NoRepeat, Passes, unique-Passes, all-not-Passes,
}
use prdcp.Revision.Layers.{
  LayerId, producer, researcher, deliberation, conclusion, playwright, upstream_layer, layer_eq,
  RevisionRoute, internal, upstream,
}
use prdcp.Revision.Request.{
  RevisionRequest, is_internal, is_some_of, is_none, truthy, artifact_key, in_layer, is_upstream_of,
  route_guards,
}

-- Where a revision may go: it stays in its layer, or goes to the layer just above.
abbrev pub IsRouted : RevisionRequest → Type 0
IsRouted r =
    (r.route ≡ internal) × (r.source_layer ≡ r.target_layer)
    ⊎ (r.route ≡ upstream) × (upstream_layer r.source_layer ≡ some r.target_layer)

pub record IsConsistent (r : RevisionRequest) : Type 0 where
  pub findings : NoRepeat r.source_finding_ids
  pub agents : NoRepeat r.target_agent_ids
  pub actions : NoRepeat r.required_actions
  pub conditions : NoRepeat r.acceptance_conditions
  pub artifacts : NoRepeat (map artifact_key r.base_artifacts)
  pub routed : IsRouted r
  pub agents_in_layer : All (λ a. in_layer r.target_layer a ≡ true) r.target_agent_ids
  pub expansion : r.retrieval_allowed ≡ true → r.evidence_expansion_allowed ≡ true
  pub retrieval_layer :
      r.retrieval_allowed ≡ true → (r.target_layer ≡ producer) ⊎ (r.target_layer ≡ researcher)
  pub not_own_parent : r.parent_revision_request_id ≢ some r.revision_request_id
  pub root_is_self :
      r.parent_revision_request_id ≡ none → r.root_revision_request_id ≡ r.revision_request_id
  pub child_has_root :
      (p : String)
      → r.parent_revision_request_id ≡ some p
      → p ≢ ""
      → r.root_revision_request_id ≢ ""

route-IsRouted :
    (route : RevisionRoute) (s t : LayerId)
    → (((is_internal route && not (s == t)) ≡ false)
        × ((not (is_internal route) && s == producer) ≡ false)
        × ((not (is_internal route) && not (is_upstream_of s t)) ≡ false))
      ↔ ((route ≡ internal) × (s ≡ t) ⊎ (route ≡ upstream) × (upstream_layer s ≡ some t))
unfolding is_upstream_of
route-IsRouted internal s t = ground (arith, layer_eq.same_iff s t)
route-IsRouted upstream producer t = ground arith
route-IsRouted upstream researcher t = ground (arith, layer_eq.same_iff producer t)
route-IsRouted upstream deliberation t = ground (arith, layer_eq.same_iff researcher t)
route-IsRouted upstream conclusion t = ground (arith, layer_eq.same_iff deliberation t)
route-IsRouted upstream playwright t = ground (arith, layer_eq.same_iff conclusion t)

expansion-Passes :
    (retrieval evidence : Bool)
    → ((retrieval && not evidence) ≡ false) ↔ (retrieval ≡ true → evidence ≡ true)
expansion-Passes true evidence = ground arith
expansion-Passes false evidence = (λ h e. cc, λ h. refl)

layer-Passes :
    (retrieval : Bool) (t : LayerId)
    → ((retrieval && not (t == producer || t == researcher)) ≡ false)
      ↔ (retrieval ≡ true → (t ≡ producer) ⊎ (t ≡ researcher))
layer-Passes true t = ground (arith, layer_eq.same_iff t producer, layer_eq.same_iff t researcher)
layer-Passes false t = (λ h e. cc, λ h. refl)

parent-Passes :
    (parent : Option String) (self : String)
    → (is_some_of parent self ≡ false) ↔ (parent ≢ some self)
parent-Passes none self = (λ h e. cc, λ h. refl)
parent-Passes (some p) self = ground (arith, eq_iff p self)

root-Passes :
    (parent : Option String) (root self : String)
    → ((is_none parent && not (root == self)) ≡ false) ↔ (parent ≡ none → root ≡ self)
root-Passes none root self = ground (arith, eq_iff root self)
root-Passes (some p) root self = (λ h e. cc, λ h. refl)

child-Passes :
    (parent : Option String) (root : String)
    → ((truthy parent && root == "") ≡ false)
      ↔ ((p : String) → parent ≡ some p → p ≢ "" → root ≢ "")
child-Passes none root = (λ h p e. cc, λ h. refl)
child-Passes (some p) root = (
  λ h q e ne. ground (arith, eq_iff p "", eq_iff root ""),
  λ h. ground (arith, eq_iff p "", eq_iff root "", h p refl),
)

pub route_guards_iff : (r : RevisionRequest) → All Passes (route_guards r) ↔ IsConsistent r
unfolding route_guards
route_guards_iff r = (
  λ (g0, (g1, (g2, (g3, (g4, (g5, (g6, (g7, (g8, (g9, (g10, (g11, (g12, (g13, _)))))))))))))).
      record {
        findings = (unique-Passes r.source_finding_ids).0 g0;
        agents = (unique-Passes r.target_agent_ids).0 g1;
        actions = (unique-Passes r.required_actions).0 g2;
        conditions = (unique-Passes r.acceptance_conditions).0 g3;
        artifacts = (unique-Passes (map artifact_key r.base_artifacts)).0 g4;
        routed = (route-IsRouted r.route r.source_layer r.target_layer).0 (g5, g6, g7);
        agents_in_layer = (all-not-Passes (in_layer r.target_layer) r.target_agent_ids).0 g8;
        expansion = (expansion-Passes r.retrieval_allowed r.evidence_expansion_allowed).0 g9;
        retrieval_layer = (layer-Passes r.retrieval_allowed r.target_layer).0 g10;
        not_own_parent = (parent-Passes r.parent_revision_request_id r.revision_request_id).0 g11;
        root_is_self =
            (root-Passes r.parent_revision_request_id r.root_revision_request_id
                r.revision_request_id).0
              g12;
        child_has_root =
            (child-Passes r.parent_revision_request_id r.root_revision_request_id).0 g13;
      },
  λ v.
      let (g5, g6, g7) = (route-IsRouted r.route r.source_layer r.target_layer).1 v.routed in
      (
        (unique-Passes r.source_finding_ids).1 v.findings,
        (
          (unique-Passes r.target_agent_ids).1 v.agents,
          (
            (unique-Passes r.required_actions).1 v.actions,
            (
              (unique-Passes r.acceptance_conditions).1 v.conditions,
              (
                (unique-Passes (map artifact_key r.base_artifacts)).1 v.artifacts,
                (
                  g5,
                  (
                    g6,
                    (
                      g7,
                      (
                        (all-not-Passes (in_layer r.target_layer) r.target_agent_ids).1
                            v.agents_in_layer,
                        (
                          (expansion-Passes r.retrieval_allowed r.evidence_expansion_allowed).1
                              v.expansion,
                          (
                            (layer-Passes r.retrieval_allowed r.target_layer).1 v.retrieval_layer,
                            (
                              (parent-Passes r.parent_revision_request_id r.revision_request_id).1
                                  v.not_own_parent,
                              (
                                (root-Passes r.parent_revision_request_id r.root_revision_request_id
                                      r.revision_request_id).1
                                    v.root_is_self,
                                (
                                  (child-Passes r.parent_revision_request_id
                                        r.root_revision_request_id).1
                                      v.child_has_root,
                                  tt,
                                ),
                              ),
                            ),
                          ),
                        ),
                      ),
                    ),
                  ),
                ),
              ),
            ),
          ),
        ),
      ),
)
