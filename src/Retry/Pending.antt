-- ===== src/Retry/Pending.antt =====
-- An authorized retry is pending: what `authorize_once` returns, `require_pending_retry` finds.
use mathlib.Core.Path.{subst}
use prdcp.Shared.{
  String, ◌≡◌, refl, ◌∙◌, ap, true, none, some, arith, append, eq_iff, FilePath, read, write,
  read-write_self, ok, check, check_iff, Outcome-cases, Option-cases, inl, inr, text_eq,
}
use prdcp.Revision.Layers.{DateTime}
use prdcp.Exchange.Exec.{resume-last}
use prdcp.Retry.{
  authorize_at, authorize_once, require_pending_retry, entry_guards, existing_guards,
  pending_guards, reservation_guards, required, new_authorization, write_exclusive, is_same_retry,
}
use prdcp.Retry.Model.{
  operator_retry_suffix, ProviderRetryAuthorization, is_pending, RetryTask, parse, Files,
  authorized, reserved, reservation_of, field_guards,
}
use prdcp.Retry.OneShot.{original_task_id-append, parse-cases, path_for, for_original_task-there}

-- Every authorization is for the retry of its original task.
abbrev pub IsStore : Files → Type 0
IsStore s =
    (p : FilePath) (a : ProviderRetryAuthorization)
    → read s p ≡ some (authorized a)
    → a.retry_task_id ≡ append a.original_task_id operator_retry_suffix

-- The file at a path holds a valid, pending authorization for the task.
abbrev pub IsGranted : RetryTask → ProviderRetryAuthorization → FilePath → Files → Type 0
IsGranted q a path s =
    (read s path ≡ some (authorized a))
    × (parse (authorized a) ≡ ok a)
    × (is_same_retry a q ≡ true)
    × (is_pending a.status ≡ true)
    × (a.retry_task_id ≡ append q.original_task_id operator_retry_suffix)

existing-granted :
    (q : RetryTask) (a : ProviderRetryAuthorization)
    → check (existing_guards q a) ≡ ok tt
    → (is_same_retry a q ≡ true) × (is_pending a.status ≡ true)
existing-granted q a h =
    let (u, v) = (check_iff (existing_guards q a)).0 h in (ground arith, ground arith)

same-original :
    (q : RetryTask) (a : ProviderRetryAuthorization)
    → is_same_retry a q ≡ true
    → a.original_task_id ≡ q.original_task_id
same-original q a h = ground (arith, eq_iff a.original_task_id q.original_task_id)

new-same :
    (id : String) (now : DateTime) (q : RetryTask)
    → is_same_retry (new_authorization id now q) q ≡ true
new-same id now q = ground (
  arith,
  eq_iff q.workflow_id q.workflow_id,
  eq_iff q.provider_id q.provider_id,
  eq_iff q.agent_id q.agent_id,
  eq_iff q.original_task_id q.original_task_id,
  eq_iff q.source_error_message_id q.source_error_message_id,
)

parse-fields :
    (a : ProviderRetryAuthorization) → check (field_guards a) ≡ ok tt → parse (authorized a) ≡ ok a
unfolding parse
parse-fields a h = rw (h, parse) refl

module _ (path : FilePath) (id : String) (now : DateTime) (q : RetryTask) (s : Files) where
  created : ProviderRetryAuthorization
  created = new_authorization id now q

  at-existing :
      (a b : ProviderRetryAuthorization)
      → IsStore s
      → read s path ≡ some (authorized a)
      → (authorize_at path id now q s).0 ≡ ok b
      → (authorize_at path id now q s ≡ (ok b, s)) × IsGranted q b path s
  unfolding authorize_at
  at-existing a b store e h = elim (parse-cases a) [
    | inl y ↦ elim (Outcome-cases (check (existing_guards q a))) [
      | inl g ↦
          let done : authorize_at path id now q s ≡ (ok a, s) =
            rw (e, authorize_at) (rw y (rw g refl)) in
          let same : a ≡ b = let h' = rw done at h in cc in
          let (identity, status) = existing-granted q a g in
          let retry =
            store path a e
            ∙ ap (λ t. append t operator_retry_suffix) (same-original q a identity) in
          subst (λ c. (authorize_at path id now q s ≡ (ok c, s)) × IsGranted q c path s) same
            (done, (e, y, identity, status, retry))
      | inr (r, g) ↦
          let h' = rw (e, authorize_at) at h in let h2 = rw y at h' in let h3 = rw g at h2 in cc
    ]
    | inr (r, n) ↦ let h' = rw (e, authorize_at) at h in let h2 = rw n at h' in cc
  ]

  at-new :
      (b : ProviderRetryAuthorization)
      → read s path ≡ none
      → (authorize_at path id now q s).0 ≡ ok b
      → (authorize_at path id now q s ≡ (ok b, write s path (authorized b)))
        × IsGranted q b path (write s path (authorized b))
  unfolding authorize_at write_exclusive created
  at-new b e h = elim (Outcome-cases (check (field_guards created))) [
    | inl g ↦
        let done : authorize_at path id now q s ≡ (ok created, write s path (authorized created)) =
          rw (e, authorize_at) (rw (g, check) (rw (e, write_exclusive) refl)) in
        let same : created ≡ b = let h' = rw done at h in cc in
        let there = read-write_self s path (authorized created) in
        subst
          (λ c.
            (authorize_at path id now q s ≡ (ok c, write s path (authorized c)))
            × IsGranted q c path (write s path (authorized c)))
          same (done, (there, parse-fields created g, new-same id now q, refl, refl))
    | inr (r, g) ↦ let h' = rw (e, authorize_at) at h in let h2 = rw g at h' in cc
  ]

  at-IsGranted :
      (b : ProviderRetryAuthorization)
      → IsStore s
      → (authorize_at path id now q s).0 ≡ ok b
      → IsGranted q b path (authorize_at path id now q s).1
  unfolding authorize_at parse
  at-IsGranted b store h = elim (Option-cases (read s path)) [
    | inl e ↦ let (done, granted) = at-new b e h in rw done granted
    | inr (authorized a, e) ↦ let (done, granted) = at-existing a b store e h in rw done granted
    | inr (reserved r, e) ↦ let h' = rw (e, authorize_at) at h in cc
  ]

granted-passes :
    (q : RetryTask) (a : ProviderRetryAuthorization) (path : FilePath) (s : Files)
    → IsGranted q a path s
    → check (pending_guards q.agent_id (append q.original_task_id operator_retry_suffix) a) ≡ ok tt
granted-passes q a path s (e, p, same, status, retry) =
    (check_iff (pending_guards q.agent_id (append q.original_task_id operator_retry_suffix) a)).1 (
      ground (
        arith,
        eq_iff a.retry_task_id (append q.original_task_id operator_retry_suffix),
        eq_iff a.agent_id q.agent_id,
      ),
      tt,
    )

module _ (sha256 : String → String) where
  authorize_once-at :
      (id : String) (now : DateTime) (q : RetryTask) (s : Files) (b : ProviderRetryAuthorization)
      → (authorize_once sha256 id now q s).0 ≡ ok b
      → authorize_once sha256 id now q s ≡ authorize_at (path_for sha256 q) id now q s
  unfolding authorize_once
  authorize_once-at id now q s b h =
      resume-last (check (entry_guards q)) _ s b _
        (λ u g h2.
          resume-last (required (read s _)) _ s b _
            (λ f r h3.
              resume-last (check (reservation_guards q (reservation_of f))) _ s b _
                (λ v g2 h4. refl) h3)
            h2)
        h

  granted-required :
      (q : RetryTask) (b : ProviderRetryAuthorization) (s : Files)
      → IsGranted q b (path_for sha256 q) s
      → require_pending_retry sha256 q.workflow_id q.provider_id q.agent_id
          (append q.original_task_id operator_retry_suffix)
          s
        ≡ (ok b, s)
  unfolding require_pending_retry
  granted-required q b s granted =
      rw (original_task_id-append q.original_task_id, require_pending_retry)
        (rw
          (for_original_task-there sha256 q.workflow_id q.provider_id q.original_task_id b s
            granted.0 granted.1)
          (rw (granted-passes q b (path_for sha256 q) s granted) refl))

  -- When a retry is authorized, over a store whose authorizations are for the retries of their
  -- original tasks, the file of the task holds the authorization that is returned, it is for this
  -- task and pending, and asking for the pending retry of the task returns it, without changing
  -- a file.
  pub authorize_once-is_pending :
      (id : String) (now : DateTime) (q : RetryTask) (s : Files) (b : ProviderRetryAuthorization)
      → IsStore s
      → (authorize_once sha256 id now q s).0 ≡ ok b
      → IsGranted q b (path_for sha256 q) (authorize_once sha256 id now q s).1
        × (require_pending_retry sha256 q.workflow_id q.provider_id q.agent_id b.retry_task_id
              (authorize_once sha256 id now q s).1
            ≡ (ok b, (authorize_once sha256 id now q s).1))
  authorize_once-is_pending id now q s b store h =
      let at = authorize_once-at id now q s b h in
      let granted : IsGranted q b (path_for sha256 q) (authorize_once sha256 id now q s).1 =
        rw at (at-IsGranted (path_for sha256 q) id now q s b store (rw at at h)) in
      let t = (authorize_once sha256 id now q s).1 in
      (
        granted,
        ap (λ task. require_pending_retry sha256 q.workflow_id q.provider_id q.agent_id task t)
              granted.4
            ∙ granted-required q b t granted,
      )
