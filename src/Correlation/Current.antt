-- ===== src/Correlation/Current.antt =====
-- `validate_current_base_artifacts` of common/validation/revision_validator.py: whether the
-- artifacts that a request is based on are still the current ones. The mapping from the type and id
-- of an artifact to its current digest is a function.
use prdcp.Shared.{
  String, ◌≡◌, ◌↔◌, refl, sym, ap, ◌∙◌, true, false, not, Option, none, some, List, [], ◌∷◌, arith,
  eq_iff, ◌==◌, text_eq, if◌then◌else◌, is_empty, All, append, Outcome, ok, Guard, ◌raises◌, check,
  check_iff, value_error, Option-cases, Bool-cases, inl, inr,
}
use prdcp.Revision.Request.{RevisionArtifactRef, RevisionRequest}

abbrev pub label : RevisionArtifactRef → String
label a = append a.artifact_type (append ":" a.artifact_id)

-- ", ".join(...)
abbrev pub joined : List String → String
joined [] = ""
joined (s ∷ []) = s
joined (s ∷ t ∷ rest) = append s (append ", " (joined (t ∷ rest)))

module _ (current_hashes : String × String → Option String) where
  -- The labels of the missing artifacts and those of the stale ones.
  unfoldable pub outdated : List RevisionArtifactRef → List String × List String
  outdated [] = ([], [])
  outdated (a ∷ rest) =
      let (missing, stale) = outdated rest in
      elim (current_hashes (a.artifact_type, a.artifact_id)) [
        | none ↦ (label a ∷ missing, stale)
        | some current ↦
            if not (current == a.sha256) then (missing, label a ∷ stale) else (missing, stale)
      ]

  abbrev pub outdated_guards : List String × List String → List Guard
  outdated_guards (missing, stale) =
      (not (is_empty missing)
        raises value_error (append "Revision base artifact is missing: " (joined missing)))
      ∷ (not (is_empty stale)
          raises value_error (append "Revision request is stale for: " (joined stale)))
      ∷ []

  unfoldable pub validate_current_base_artifacts : RevisionRequest → Outcome (Unit {0})
  unfolding outdated check
  validate_current_base_artifacts r = check (outdated_guards (outdated r.base_artifacts))

  -- The current digest of the artifact is the one that the request names.
  abbrev pub IsCurrent : RevisionArtifactRef → Type 0
  IsCurrent a = current_hashes (a.artifact_type, a.artifact_id) ≡ some a.sha256

  outdated-none_iff :
      (refs : List RevisionArtifactRef)
      → ((is_empty (outdated refs).0 ≡ true) × (is_empty (outdated refs).1 ≡ true))
        ↔ All IsCurrent refs
  unfolding outdated
  outdated-none_iff [] = (λ h. tt, λ h. (refl, refl))
  outdated-none_iff (a ∷ refs) =
      elim (Option-cases (current_hashes (a.artifact_type, a.artifact_id))) [
        | inl e ↦ rw (e, outdated) (λ (m, s). cc, λ h. let never = h.0 in cc)
        | inr (c, e) ↦ elim (Bool-cases (c == a.sha256)) [
          | inl y ↦
              let ih = outdated-none_iff refs in
              let same : c ≡ a.sha256 = (eq_iff c a.sha256).0 y in
              rw (e, outdated) (rw y (λ h. (ap some same, ih.0 h), λ h. ih.1 h.1))
          | inr n ↦
              rw (e, outdated)
                (rw n (
                  λ (m, s). cc,
                  λ h.
                      let found = h.0 in
                      let same : c ≡ a.sha256 = cc in
                      let y : (c == a.sha256) ≡ true = (eq_iff c a.sha256).1 same in
                      absurd (let z : true ≡ false = sym y ∙ n in cc),
                ))
        ]
      ]

  -- A request is current exactly when the current digest of each of its base artifacts is the one
  -- that it names: a missing artifact and another digest both raise.
  pub validate_current_base_artifacts_iff :
      (r : RevisionRequest)
      → (validate_current_base_artifacts r ≡ ok tt) ↔ All IsCurrent r.base_artifacts
  unfolding validate_current_base_artifacts
  validate_current_base_artifacts_iff r =
      let guards = check_iff (outdated_guards (outdated r.base_artifacts)) in
      let spec = outdated-none_iff r.base_artifacts in
      (
        λ h. let (m, s) = guards.0 h in spec.0 (ground arith, ground arith),
        λ h. let (m, s) = spec.1 h in guards.1 (ground arith, (ground arith, tt)),
      )
