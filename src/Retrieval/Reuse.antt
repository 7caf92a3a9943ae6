-- ===== src/Retrieval/Reuse.antt =====
-- A context that `RetrievalCoordinator.prepare` (retrieval/coordinator.py) saved is used again.
use mathlib.Core.Path.{subst}
use prdcp.Shared.{
  ℕ, String, ◌≡◌, refl, sym, ◌∙◌, ap, Option, some, [], FilePath, read, write, read-write_self,
  Outcome, ok, check, Option-cases, inl, inr, >>=-eq-ok,
}
use prdcp.Exchange.Exec.{Exec, resume-holds}
use prdcp.Retrieval.Model.{
  RetrievedContext, validate_context, validate_sources, context_guards, Digests, State, Provider,
  Retrieval, collect,
}
use prdcp.Retrieval.{
  retrieval_identity, context_path, reserve, search_all, new_context, save, retrieve, prepare,
}

pub validate_context-same : (c e : RetrievedContext) → validate_context c ≡ ok e → c ≡ e
unfolding validate_context
validate_context-same c e h =
    let (u, p, k) = >>=-eq-ok (check (context_guards c)) _ h in
    let (v, q, l) = >>=-eq-ok (validate_sources c.sources) _ k in cc

validate_context-stays :
    (c e : RetrievedContext) → validate_context c ≡ ok e → validate_context e ≡ ok e
validate_context-stays c e h =
    subst (λ y. validate_context y ≡ ok e) {x = c} (validate_context-same c e h) h

module _ (d : Digests) {P : Type 0} (p : Provider P) where
  -- The context at a path is valid, and this one.
  abbrev pub Saved : FilePath → RetrievedContext → State P → Type 0
  Saved path c s = (read s.contexts path ≡ some c) × (validate_context c ≡ ok c)

  pub save-same :
      (path : FilePath) (c e : RetrievedContext) (s : State P)
      → (save d p path c s).0 ≡ ok e
      → c ≡ e
  unfolding save
  save-same path c e s h = elim (Option-cases (read s.contexts path)) [
    | inl n ↦ let h' = rw (n, save) at h in cc
    | inr (b, y) ↦ let h' = rw (y, save) at h in cc
  ]

  save-Saved :
      (path : FilePath) (c e : RetrievedContext) (s : State P)
      → validate_context c ≡ ok c
      → (save d p path c s).0 ≡ ok e
      → Saved path e (save d p path c s).1
  unfolding save
  save-Saved path c e s v h = elim (Option-cases (read s.contexts path)) [
    | inl n ↦
        let done : save d p path c s ≡ (ok c, record s { contexts = write s.contexts path c }) =
          rw (n, save) refl in
        let same = save-same path c e s h in
        subst (λ y. Saved path y (save d p path c s).1) same
          (rw done (read-write_self s.contexts path c, v))
    | inr (b, y) ↦ let h' = rw (y, save) at h in cc
  ]

  -- The file of the context of a retrieval.
  abbrev pub context_of : Retrieval → FilePath
  context_of r = context_path d r.workflow_id (retrieval_identity d r)

  retrieve-Saved :
      (before : Option (FilePath → String → Exec (State P) (Unit {0}))) (r : Retrieval)
      (now later : ℕ) (s : State P) (c : RetrievedContext)
      → (retrieve d p before r now later s).0 ≡ ok c
      → Saved (context_of r) c (retrieve d p before r now later s).1
  unfolding retrieve
  retrieve-Saved before r now later s c h =
      let Q = λ (u : Outcome RetrievedContext × State P). Saved (context_of r) c u.1 in
      resume-holds Q (reserve d p before r now s).0 _ _ c
        (λ u e0. resume-holds Q (search_all d p r r.queries [] _).0 _ _ c (λ found e1.
          resume-holds Q
            (collect d (retrieval_identity d r) p.provider_id later r.max_results found [] []) _ _ c
            (λ sources e2.
              resume-holds Q
                (validate_context (new_context d p r (retrieval_identity d r) later sources)) _ _ c
                (λ e v. save-Saved (context_of r) e c _ (
                  validate_context-stays (new_context d p r (retrieval_identity d r) later sources)
                    e v)))))
        h

  prepare-Saved :
      (before : Option (FilePath → String → Exec (State P) (Unit {0}))) (r : Retrieval)
      (now later : ℕ) (s : State P) (c : RetrievedContext)
      → (prepare d p before r now later s).0 ≡ ok c
      → Saved (context_of r) c (prepare d p before r now later s).1
  unfolding prepare
  prepare-Saved before r now later s c h = elim (Option-cases (read s.contexts (context_of r))) [
    | inl n ↦
        let done : prepare d p before r now later s ≡ retrieve d p before r now later s =
          rw (n, prepare) refl in
        rw done (retrieve-Saved before r now later s c (rw done at h))
    | inr (e, y) ↦
        let done : prepare d p before r now later s ≡ (validate_context e, s) =
          rw (y, prepare) refl in
        let v : validate_context e ≡ ok c = rw done at h in
        let same = validate_context-same e c v in
        rw done (
          subst (λ a. Saved (context_of r) a s) same
            (y, subst (λ a. validate_context e ≡ ok a) (sym same) v))
  ]

  prepare-there :
      (before : Option (FilePath → String → Exec (State P) (Unit {0}))) (r : Retrieval)
      (now later : ℕ) (s : State P) (c : RetrievedContext)
      → Saved (context_of r) c s
      → prepare d p before r now later s ≡ (ok c, s)
  unfolding prepare
  prepare-there before r now later s c (there, valid) = rw (there, prepare) (rw valid refl)

  -- The arguments name the same retrieval.
  abbrev pub IsSameRetrieval : Retrieval → Retrieval → Type 0
  IsSameRetrieval r q =
      (q.workflow_id ≡ r.workflow_id) × (retrieval_identity d q ≡ retrieval_identity d r)

  -- Once `prepare` has returned a context, preparing a retrieval of the same workflow and identity
  -- returns it again, with whatever callback, queries and limits, without a step of the provider
  -- and without a write.
  pub prepare_again :
      (before after : Option (FilePath → String → Exec (State P) (Unit {0}))) (r q : Retrieval)
      (now later now' later' : ℕ) (s : State P) (c : RetrievedContext)
      → (prepare d p before r now later s).0 ≡ ok c
      → IsSameRetrieval r q
      → prepare d p after q now' later' (prepare d p before r now later s).1
        ≡ (ok c, (prepare d p before r now later s).1)
  prepare_again before after r q now later now' later' s c h (w, i) =
      let t = (prepare d p before r now later s).1 in
      let (there, valid) = prepare-Saved before r now later s c h in
      let path : context_of q ≡ context_of r =
        ap (λ n. context_path d n (retrieval_identity d q)) w
        ∙ ap (context_path d r.workflow_id) i in
      prepare-there after q now' later' t c (rw path there, valid)
