-- ===== src/Revision/Layers.antt =====
-- The enumerations of common/models/revision.py and the order of the layers.
use prdcp.Shared.{ℕ, String, Bool, Option, none, some, Eq, discrete_eq}

pub data LayerId : Type 0 where
  producer researcher deliberation conclusion playwright : LayerId

-- `layer.value`
abbrev pub layer_value : LayerId → String
layer_value producer = "producer"
layer_value researcher = "researcher"
layer_value deliberation = "deliberation"
layer_value conclusion = "conclusion"
layer_value playwright = "playwright"

-- `UPSTREAM_LAYER.get(layer)`
unfoldable pub upstream_layer : LayerId → Option LayerId
upstream_layer producer = none
upstream_layer researcher = some producer
upstream_layer deliberation = some researcher
upstream_layer conclusion = some deliberation
upstream_layer playwright = some conclusion

pub data RevisionRoute : Type 0 where
  internal upstream : RevisionRoute

abbrev pub route_value : RevisionRoute → String
route_value internal = "internal"
route_value upstream = "upstream"

pub data RevisionExecutionStatus : Type 0 where
  completed partial blocked rejected failed : RevisionExecutionStatus

pub data RevisionFindingOutcome : Type 0 where
  resolved rejected unresolved routed_upstream : RevisionFindingOutcome

pub data HumanSelectionImpact : Type 0 where
  not_applicable unchanged reselection_required : HumanSelectionImpact

pub data RevisionControlPhase : Type 0 where
  idle planned authorization_required requested waiting_upstream_result : RevisionControlPhase
  consuming_request executing result_ready completed blocked : RevisionControlPhase

pub data RevisionAuthorizationStatus : Type 0 where
  pending consumed : RevisionAuthorizationStatus

-- A `datetime`: without a timezone, or the instant that it names (in microseconds), which
-- `astimezone` keeps.
pub data DateTime : Type 0 where
  naive aware : ℕ → DateTime

unfoldable pub LayerId-discrete : Discrete LayerId
LayerId-discrete = hlevel

unfoldable pub RevisionRoute-discrete : Discrete RevisionRoute
RevisionRoute-discrete = hlevel

unfoldable pub HumanSelectionImpact-discrete : Discrete HumanSelectionImpact
HumanSelectionImpact-discrete = hlevel

instance abbrev pub layer_eq : Eq LayerId
layer_eq = discrete_eq LayerId-discrete

instance abbrev pub route_eq : Eq RevisionRoute
route_eq = discrete_eq RevisionRoute-discrete

instance abbrev pub impact_eq : Eq HumanSelectionImpact
impact_eq = discrete_eq HumanSelectionImpact-discrete

abbrev pub is_naive : DateTime → Bool
is_naive (naive t) = Bool.true
is_naive (aware t) = Bool.false
