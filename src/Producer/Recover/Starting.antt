-- ===== src/Producer/Recover/Starting.antt =====
-- When `ProducerManager.recover` (producer/manager.py) begins a run, and with which agent.
use prdcp.Shared.{
  ℕ, String, ◌≡◌, refl, sym, ◌∙◌, ap, ◌↔◌, ◌⊎◌, inl, inr, Bool, true, false, Option, none, some,
  List, [], ◌∷◌, Outcome, ok, if◌then◌else◌, raise, Error, FilePath, read, Bool-cases, Option-cases,
  Outcome-either,
}
use prdcp.Exchange.Exec.{resume}
use prdcp.Retry.{for_original_task, reservation_path, exists}
use prdcp.Retry.Model.{ProviderRetryAuthorization, Files, is_pending}
use prdcp.Producer.Model.{ProducerWorkflowState, agent_order}
use prdcp.Producer.Checkpoint.{recovery_start_index}
use prdcp.Producer.Recovery.{IsReady, recovery_start_index_iff}
use prdcp.Producer.Setting.{Manager, World}
use prdcp.Producer.Drafts.{nth}
use prdcp.Producer.Accounting.{Round}
use prdcp.Producer.{is_executing}
use prdcp.Producer.Recover.{
  Provider, is_completed, resumes, without_retry, choose, active_revision_task_overrides,
  recovery_tasks, recover_at, prepare_recovery,
}

-- Whether a retry is pending.
abbrev pub may_retry : Option ProviderRetryAuthorization → Bool
may_retry none = false
may_retry (some a) = is_pending a.status

-- A call that may be made: a retry of it is pending, or it was not reserved, or its provider can
-- resume it.
pub data MayCall (p : Provider) (files : Files) (reservation : FilePath)
    (o : Option ProviderRetryAuthorization) : Type 0 where
  by_retry : may_retry o ≡ true → MayCall p files reservation o
  unreserved : exists (read files reservation) ≡ false → MayCall p files reservation o
  resumable : resumes p.can_resume reservation ≡ true → MayCall p files reservation o

module _ (p : Provider) (agent : String) (reservation : FilePath) (files : Files) where
  abbrev chosen : Option ProviderRetryAuthorization → Outcome (List (String × String))
  chosen o = choose o agent [] (without_retry p agent reservation files [])

  chosen-retry :
      (o : Option ProviderRetryAuthorization)
      → may_retry o ≡ true
      → (ts : List (String × String)) × (chosen o ≡ ok ts)
  chosen-retry none h = cc
  chosen-retry (some a) h = rw h (_, refl)

  chosen-otherwise :
      (o : Option ProviderRetryAuthorization)
      → may_retry o ≡ false
      → chosen o ≡ without_retry p agent reservation files []
  chosen-otherwise none h = refl
  chosen-otherwise (some a) h = rw h refl

  chosen-MayCall :
      (o : Option ProviderRetryAuthorization) (ts : List (String × String))
      → chosen o ≡ ok ts
      → MayCall p files reservation o
  chosen-MayCall o ts h = elim (Bool-cases (may_retry o)) [
    | inl y ↦ by_retry y
    | inr n ↦ elim (Bool-cases (exists (read files reservation))) [
      | inr free ↦ unreserved free
      | inl held ↦ elim (Bool-cases (resumes p.can_resume reservation)) [
        | inl y ↦ resumable y
        | inr stuck ↦
            let h2 = sym (chosen-otherwise o n) ∙ h in let bad = rw (held, stuck) at h2 in cc
      ]
    ]
  ]

  free :
      (o : Option ProviderRetryAuthorization)
      → may_retry o ≡ false
      → MayCall p files reservation o
      → without_retry p agent reservation files [] ≡ ok []
  free o n (by_retry y) = cc
  free o n (unreserved e) = rw e refl
  free o n (resumable e) = elim (Bool-cases (exists (read files reservation))) [
    | inl y ↦ rw (y, e) refl
    | inr k ↦ rw k refl
  ]

  MayCall-chosen :
      (o : Option ProviderRetryAuthorization)
      → MayCall p files reservation o
      → (ts : List (String × String)) × (chosen o ≡ ok ts)
  MayCall-chosen o c = elim (Bool-cases (may_retry o)) [
    | inl y ↦ chosen-retry o y
    | inr n ↦ ([], chosen-otherwise o n ∙ free o n c)
  ]

module _ (m : Manager) (provider : String → Provider) (files : Files) where
  -- The call of the provider for an agent may be made: it has no identifier for calls, or the store
  -- of the retries has a readable answer and lets it.
  abbrev pub IsPermitted : ProducerWorkflowState → String → Type 0
  IsPermitted s agent =
      ((provider agent).provider_id ≡ none)
      ⊎ ((p : String) × ((provider agent).provider_id ≡ some p)
          × (o : Option ProviderRetryAuthorization) × ((for_original_task m.x.sha256 s.workflow_id p
                agent files).0
              ≡ ok o)
          × MayCall (provider agent) files (reservation_path m.x.sha256 p s.workflow_id agent) o)

  recovery_tasks-IsPermitted :
      (s : ProducerWorkflowState) (agent : String) (ts : List (String × String))
      → recovery_tasks m provider files s agent [] ≡ ok ts
      → IsPermitted s agent
  unfolding recovery_tasks
  recovery_tasks-IsPermitted s agent ts h = elim (Option-cases (provider agent).provider_id) [
    | inl e ↦ inl e
    | inr (p, e) ↦
        let h2 = rw (e, recovery_tasks) at h in
        elim (Outcome-either (for_original_task m.x.sha256 s.workflow_id p agent files).0) [
          | inl (o, found) ↦
              inr (
                p,
                e,
                o,
                found,
                chosen-MayCall (provider agent) agent _ files o ts (rw found at h2),
              )
          | inr (x, bad) ↦ let h3 = rw bad at h2 in cc
        ]
  ]

  IsPermitted-recovery_tasks :
      (s : ProducerWorkflowState) (agent : String)
      → IsPermitted s agent
      → (ts : List (String × String)) × (recovery_tasks m provider files s agent [] ≡ ok ts)
  unfolding recovery_tasks
  IsPermitted-recovery_tasks s agent (inl e) = ([], rw (e, recovery_tasks) refl)
  IsPermitted-recovery_tasks s agent (inr (p, e, o, found, call)) =
      let (ts, done) =
        MayCall-chosen (provider agent) agent (reservation_path m.x.sha256 p s.workflow_id agent)
          files o call in
      (ts, rw (e, recovery_tasks) (rw found done))

  -- From an index on, where no revision is at work.
  recover_at-fails :
      (stop : Bool) (i : ℕ) (w : World) (e : Error)
      → is_executing w.state.revision_control.phase ≡ false
      → recovery_tasks m provider files w.state (nth agent_order i "") [] ≡ raise e
      → recover_at m provider files w.state stop i w ≡ (raise e, w)
  unfolding recover_at active_revision_task_overrides
  recover_at-fails stop i w e idle h = rw idle (rw h refl)

  recover_at-starts :
      (stop : Bool) (i : ℕ) (w : World) (ts : List (String × String))
      → is_executing w.state.revision_control.phase ≡ false
      → recovery_tasks m provider files w.state (nth agent_order i "") [] ≡ ok ts
      → (r : Round) × ((recover_at m provider files w.state stop i w).0 ≡ ok (some r))
        × (r.start ≡ i)
  unfolding recover_at active_revision_task_overrides
  recover_at-starts stop i w ts idle h =
      let r : Round = record {
        start = i;
        overrides = record {
          provider_tasks = ts;
          retrieval_tasks = [];
          stop_after = if stop then some i else none;
        };
      } in
      (r, rw idle (rw h refl), refl)

  -- A run starts at the index.
  abbrev pub StartsAt : ℕ → Outcome (Option Round) → Type 0
  StartsAt n o = (r : Round) × (o ≡ ok (some r)) × (r.start ≡ n)

  -- A run starts exactly under the condition, and where none starts, nothing is saved.
  abbrev pub Starts : ℕ → World → Outcome (Option Round) × World → Type 0 → Type 0
  Starts n w x P =
      (StartsAt n x.0 ↔ P) × (((r : Round) × (x.0 ≡ ok (some r))) ⊎ (x.1.saved ≡ w.saved))

  abbrev pub IsStartable : ProducerWorkflowState → ℕ → Type 0
  IsStartable s n = IsReady s n × IsPermitted s (nth agent_order n "")

  recover_at-Starts :
      (stop : Bool) (n i : ℕ) (w : World)
      → is_executing w.state.revision_control.phase ≡ false
      → recovery_start_index w.state ≡ ok i
      → Starts n w (recover_at m provider files w.state stop i w) (IsStartable w.state n)
  recover_at-Starts stop n i w idle h =
      let agent = nth agent_order i "" in
      elim (Outcome-either (recovery_tasks m provider files w.state agent [])) [
        | inl (ts, e) ↦
            let (r, done, start) = recover_at-starts stop i w ts idle e in
            (
              (
                λ (q, d, k).
                    let same : r ≡ q = cc in
                    let at_n : i ≡ n = sym start ∙ ap (λ (a : Round). a.start) same ∙ k in
                    rw (← at_n) (
                      (recovery_start_index_iff w.state i).0 h,
                      recovery_tasks-IsPermitted w.state agent ts e,
                    ),
                λ (ready, c).
                    let k : ok i ≡ ok n = sym h ∙ (recovery_start_index_iff w.state n).1 ready in
                    (r, done, cc),
              ),
              inl (r, done),
            )
        | inr (x, e) ↦
            let done = recover_at-fails stop i w x idle e in
            (
              (
                λ (q, d, k). let d2 = rw done at d in cc,
                λ (ready, c).
                    let k : ok i ≡ ok n = sym h ∙ (recovery_start_index_iff w.state n).1 ready in
                    let at_n : n ≡ i = cc in
                    let (ts, e2) = IsPermitted-recovery_tasks w.state agent (rw at_n at c) in cc,
              ),
              inr (rw done refl),
            )
      ]

  prepare_recovery-completed :
      (stop : Bool) (w : World) (s : ProducerWorkflowState) (older : List ProducerWorkflowState)
      → w.saved ≡ s ∷ older
      → is_completed s.status ≡ true
      → prepare_recovery m provider files stop w ≡ (ok none, record w { state = s })
  unfolding prepare_recovery
  prepare_recovery-completed stop w s older e y = rw e (rw y refl)

  prepare_recovery-unfinished :
      (stop : Bool) (w : World) (s : ProducerWorkflowState) (older : List ProducerWorkflowState)
      → w.saved ≡ s ∷ older
      → is_completed s.status ≡ false
      → prepare_recovery m provider files stop w
        ≡ resume
            (recovery_start_index s)
            (recover_at m provider files s stop)
            (record w { state = s })
  unfolding prepare_recovery
  prepare_recovery-unfinished stop w s older e y = rw e (rw y refl)

  -- Recovering a workflow, whose last saved version runs no revision, begins a run at index n
  -- exactly when that version is not completed, its completed agents, without repeats, are the
  -- first n and not all, with their artifacts, and the call for the next agent may be made: its
  -- provider has no identifier, or the retry store can be read and a retry of the call is pending,
  -- or it was not reserved before, or the provider can resume it. Where it begins none, it has saved
  -- nothing.
  pub prepare_recovery-Starts :
      (stop : Bool) (w : World) (s : ProducerWorkflowState) (older : List ProducerWorkflowState)
      (n : ℕ)
      → w.saved ≡ s ∷ older
      → is_executing s.revision_control.phase ≡ false
      → Starts n w
          (prepare_recovery m provider files stop w)
          ((is_completed s.status ≡ false) × IsStartable s n)
  prepare_recovery-Starts stop w s older n e idle = elim (Bool-cases (is_completed s.status)) [
    | inl y ↦
        let done = prepare_recovery-completed stop w s older e y in
        ((λ (r, d, k). let d2 = rw done at d in cc, λ (u, c). cc), inr (rw done refl))
    | inr u ↦
        rw (prepare_recovery-unfinished stop w s older e u)
          (elim (Outcome-either (recovery_start_index s)) [
            | inl (i, h) ↦
                let (begins, clean) = recover_at-Starts stop n i (record w { state = s }) idle h in
                rw h ((λ b. (u, begins.0 b), λ (v, c). begins.1 c), clean)
            | inr (x, h) ↦ rw h (
              (
                λ (r, d, k). cc,
                λ (v, (ready, c)). let k = (recovery_start_index_iff s n).1 ready in cc,
              ),
              inr refl,
            )
          ])
  ]
