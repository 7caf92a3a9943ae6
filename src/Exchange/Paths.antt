-- ===== src/Exchange/Paths.antt =====
-- The paths of the repository, below the data directory.
use prdcp.Shared.{String, [], ◌∷◌, append, FilePath, dir, json}
use prdcp.Revision.Layers.{LayerId, layer_value}
use prdcp.Revision.Identity.{safe_path_component}

module _ (sha256 : String → String) where
  -- layer / safe workflow / f"{safe request}.json"
  abbrev pub leaf : LayerId → String → String → FilePath
  leaf layer workflow request =
      dir (layer_value layer)
      ∷ dir (safe_path_component sha256 workflow)
      ∷ json (safe_path_component sha256 request)
      ∷ []

  -- `_request_path`
  abbrev pub request_path : LayerId → String → String → FilePath
  request_path layer workflow request =
      dir "outbox" ∷ dir "revision_requests" ∷ leaf layer workflow request

  -- `_result_path`
  abbrev pub result_path : LayerId → String → String → FilePath
  result_path layer workflow request =
      dir "outbox" ∷ dir "revision_results" ∷ leaf layer workflow request

  abbrev pub internal_request_path : LayerId → String → String → FilePath
  internal_request_path layer workflow request =
      dir "artifacts" ∷ dir "revision_requests" ∷ dir "internal" ∷ leaf layer workflow request

  abbrev pub internal_result_path : LayerId → String → String → FilePath
  internal_result_path layer workflow request =
      dir "artifacts" ∷ dir "revision_results" ∷ dir "internal" ∷ leaf layer workflow request

  -- `_authorization_path_values`
  abbrev pub authorization_path : LayerId → String → String → FilePath
  authorization_path layer workflow request =
      dir "revision_authorizations" ∷ leaf layer workflow request

  -- path.with_suffix(".consume.json")
  abbrev pub claim_path : LayerId → String → String → FilePath
  claim_path layer workflow request =
      dir "revision_authorizations"
      ∷ dir (layer_value layer)
      ∷ dir (safe_path_component sha256 workflow)
      ∷ json (append (safe_path_component sha256 request) ".consume")
      ∷ []

  abbrev pub audit_path : String → String → String → FilePath
  audit_path workflow request event =
      dir "artifacts"
      ∷ dir "revision_audit"
      ∷ dir (safe_path_component sha256 workflow)
      ∷ dir (safe_path_component sha256 request)
      ∷ json (safe_path_component sha256 event)
      ∷ []
