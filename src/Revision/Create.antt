-- ===== src/Revision/Create.antt =====
-- The `create` methods of `RevisionRequestV1` and `RevisionResultV1` and
-- `deterministic_revision_request_id` of common/models/revision.py.
use text.Mathlib.Text.{is_lt}
use Prim.Native.String.{compare}
use prdcp.Shared.{
  ℕ, String, Bool, not, List, [], ◌∷◌, if◌then◌else◌, Outcome, ok, check, ◌>>=◌, ◌>>◌, ◌raises◌,
  value_error, append, decimal,
}
use prdcp.Revision.Layers.{LayerId, layer_value, DateTime}
use prdcp.Revision.Request.{RequestContent, RevisionRequest, validate_request}
use prdcp.Revision.Result.{ResultContent, RevisionResult, validate_result}
use prdcp.Revision.External.{External}

-- "0" * 64
abbrev zeros : String
zeros = "0000000000000000000000000000000000000000000000000000000000000000"

module _ (x : External) where
  -- `RevisionRequestV1.create`
  unfoldable pub create_request : RequestContent → DateTime → Outcome RevisionRequest
  unfolding validate_request
  create_request c now = do
    initial ←
        validate_request x.is_uuid
          (record { content = c; idempotency_key = zeros; created_at = now })
    ok (record initial { idempotency_key = x.request_key initial.content })

  -- `RevisionResultV1.create`
  unfoldable pub create_result : ResultContent → DateTime → Outcome RevisionResult
  unfolding validate_result
  create_result c now = do
    initial ←
        validate_result x.is_uuid
          (record { content = c; idempotency_key = zeros; completed_at = now })
    ok (record initial { idempotency_key = x.result_key initial.content })

-- sorted(texts), by code points
insert_text : String → List String → List String
insert_text t [] = t ∷ []
insert_text t (u ∷ us) =
    let rest = insert_text t us in if is_lt (compare u t) then u ∷ rest else t ∷ u ∷ us

sort_texts : List String → List String
unfolding insert_text
sort_texts [] = []
sort_texts (t ∷ ts) = insert_text t (sort_texts ts)

-- separator.join(texts)
abbrev pub join : String → List String → String
join separator [] = ""
join separator (t ∷ []) = t
join separator (t ∷ u ∷ us) = append t (append separator (join separator (u ∷ us)))

-- `deterministic_revision_request_id`, given the hex text of the UUID that uuid5 makes of a name.
unfoldable pub deterministic_revision_request_id :
    (String → Bool)
    → (String → String)
    → String
    → LayerId
    → LayerId
    → ℕ
    → String
    → List String
    → Outcome String
unfolding sort_texts decimal
deterministic_revision_request_id is_uuid uuid5_hex workflow source target epoch review findings =
    do
      check
          ((not (is_uuid workflow) raises value_error "badly formed hexadecimal UUID string") ∷ [])
      let identity = join "|" (
          workflow
          ∷ layer_value source
          ∷ layer_value target
          ∷ decimal epoch
          ∷ review
          ∷ join "," (sort_texts findings)
          ∷ [])
      ok (append "revision_request_" (uuid5_hex identity))
