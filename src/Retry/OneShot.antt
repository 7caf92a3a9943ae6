-- ===== src/Retry/OneShot.antt =====
-- A retry is granted once: what a consumed authorization forbids.
use prdcp.Shared.{
  String, ◌≡◌, refl, sym, ◌∙◌, ap, some, arith, append, ends_with-append, drop_suffix-append,
  FilePath, read, read-write_self, ok, raise, Error, check, check_iff, Outcome-cases, ◌⊎◌, inl, inr,
}
use prdcp.Revision.Layers.{DateTime}
use prdcp.Exchange.Exec.{Refuses, resume-Refuses, guards-ok}
use prdcp.Retry.{
  authorize_at, authorize_once, for_original_task, require_pending_retry, consume, consume_guards,
  consumed_with, authorization_path, entry_guards, existing_guards, pending_guards,
  reservation_guards, required, write_atomic,
}
use prdcp.Retry.Model.{
  operator_retry_suffix, ProviderRetryAuthorization, consumed, RetryTask, parse, Files, authorized,
  original_task_id, reservation_of, field_guards,
}

pub original_task_id-append :
    (t : String) → original_task_id (append t operator_retry_suffix) ≡ ok t
unfolding original_task_id
original_task_id-append t =
    rw (ends_with-append t operator_retry_suffix)
      (ap ok (drop_suffix-append t operator_retry_suffix))

pub parse-cases :
    (a : ProviderRetryAuthorization)
    → (parse (authorized a) ≡ ok a) ⊎ ((e : Error) × (parse (authorized a) ≡ raise e))
unfolding parse
parse-cases a = elim (Outcome-cases (check (field_guards a))) [
  | inl y ↦ inl (rw (y, parse) refl)
  | inr (e, n) ↦ inr (e, rw (n, parse) refl)
]

-- What is read from a file is what was written there.
pub parse-ok : (a b : ProviderRetryAuthorization) → parse (authorized a) ≡ ok b → a ≡ b
parse-ok a b h = elim (parse-cases a) [ inl y ↦ cc | inr (e, n) ↦ cc ]

consumed-existing :
    (q : RetryTask) (a : ProviderRetryAuthorization)
    → a.status ≡ consumed
    → ¬ (check (existing_guards q a) ≡ ok tt)
consumed-existing q a c h =
    let (u, v) = (check_iff (existing_guards q a)).0 h in let v' = rw c at v.0 in ground arith

consumed-pending :
    (agent retry : String) (a : ProviderRetryAuthorization)
    → a.status ≡ consumed
    → ¬ (check (pending_guards agent retry a) ≡ ok tt)
consumed-pending agent retry a c h =
    let (u, v) = (check_iff (pending_guards agent retry a)).0 h in
    let u' = rw c at u in ground arith

module _ (sha256 : String → String) where
  -- The path of the authorization for the identity of a task.
  abbrev pub path_for : RetryTask → FilePath
  path_for q = authorization_path sha256 q.provider_id q.workflow_id q.original_task_id

  pub read-consume :
      (a b : ProviderRetryAuthorization) (reservation : FilePath) (now : DateTime) (s : Files)
      → (consume sha256 a reservation now s).0 ≡ ok b
      → read
          (consume sha256 a reservation now s).1
          (authorization_path sha256 a.provider_id a.workflow_id a.original_task_id)
        ≡ some (authorized (consumed_with a now reservation))
  unfolding consume write_atomic
  read-consume a b reservation now s h =
      let (g, r) = guards-ok (consume_guards a reservation s) _ s b h in
      rw (g, consume) (read-write_self s _ _)

  authorize_at-consumed :
      (q : RetryTask) (a : ProviderRetryAuthorization) (id : String) (now : DateTime) (s : Files)
      (path : FilePath)
      → read s path ≡ some (authorized a)
      → a.status ≡ consumed
      → Refuses (authorize_at path id now q s) s
  unfolding authorize_at
  authorize_at-consumed q a id now s path e c =
      rw (e, authorize_at)
        (resume-Refuses (parse (authorized a)) _ s (λ b p.
          resume-Refuses (check (existing_guards q b)) _ s (λ u g.
            absurd (consumed-existing q b (sym (ap (λ r. r.status) (parse-ok a b p)) ∙ c) g))))

  -- An authorization that is consumed lets nobody authorize the retry again.
  pub authorize_once-consumed :
      (q : RetryTask) (a : ProviderRetryAuthorization) (id : String) (now : DateTime) (s : Files)
      → read s (path_for q) ≡ some (authorized a)
      → a.status ≡ consumed
      → Refuses (authorize_once sha256 id now q s) s
  unfolding authorize_once
  authorize_once-consumed q a id now s e c = resume-Refuses (check (entry_guards q)) _ s (λ u g.
      resume-Refuses (required (read s _)) _ s (λ f r.
        resume-Refuses (check (reservation_guards q (reservation_of f))) _ s
          (λ v h. authorize_at-consumed q a id now s (path_for q) e c)))

  pub for_original_task-there :
      (workflow provider original : String) (a : ProviderRetryAuthorization) (s : Files)
      → read s (authorization_path sha256 provider workflow original) ≡ some (authorized a)
      → parse (authorized a) ≡ ok a
      → for_original_task sha256 workflow provider original s ≡ (ok (some a), s)
  unfolding for_original_task
  for_original_task-there workflow provider original a s e p = rw (e, for_original_task) (rw p refl)

  for_original_task-broken :
      (workflow provider original : String) (a : ProviderRetryAuthorization) (s : Files) (r : Error)
      → read s (authorization_path sha256 provider workflow original) ≡ some (authorized a)
      → parse (authorized a) ≡ raise r
      → for_original_task sha256 workflow provider original s ≡ (raise r, s)
  unfolding for_original_task
  for_original_task-broken workflow provider original a s r e p =
      rw (e, for_original_task) (rw p refl)

  pub require_pending_retry-consumed :
      (workflow provider original agent : String) (a : ProviderRetryAuthorization) (s : Files)
      → read s (authorization_path sha256 provider workflow original) ≡ some (authorized a)
      → a.status ≡ consumed
      → Refuses
          (require_pending_retry sha256 workflow provider agent
            (append original operator_retry_suffix)
            s)
          s
  unfolding require_pending_retry
  require_pending_retry-consumed workflow provider original agent a s e c =
      rw (original_task_id-append original, require_pending_retry)
        (elim (parse-cases a) [
          | inl y ↦ rw (for_original_task-there workflow provider original a s e y) (
              resume-Refuses
                (check (pending_guards agent (append original operator_retry_suffix) a)) _ s
                (λ u g. absurd (consumed-pending agent _ a c g)))
          | inr (r, n) ↦
              rw (for_original_task-broken workflow provider original a s r e n) (r, refl)
        ])

  -- Once an authorization has been consumed, authorizing its original task again, in the same
  -- workflow and for the same provider, by whomever and for whatever error, raises, and so does
  -- asking for its pending retry, for any agent; both leave the files as they are.
  pub consume-is_final :
      (a b : ProviderRetryAuthorization) (reservation : FilePath) (now later : DateTime)
      (id agent : String) (q : RetryTask) (s : Files)
      → (consume sha256 a reservation now s).0 ≡ ok b
      → q.workflow_id ≡ a.workflow_id
      → q.provider_id ≡ a.provider_id
      → q.original_task_id ≡ a.original_task_id
      → Refuses
          (authorize_once sha256 id later q (consume sha256 a reservation now s).1)
          (consume sha256 a reservation now s).1
        × Refuses
            (require_pending_retry sha256 a.workflow_id a.provider_id agent
              (append a.original_task_id operator_retry_suffix)
              (consume sha256 a reservation now s).1)
            (consume sha256 a reservation now s).1
  consume-is_final a b reservation now later id agent q s h w p o =
      let t = (consume sha256 a reservation now s).1 in
      let there = read-consume a b reservation now s h in
      let spent = consumed_with a now reservation in
      (
        authorize_once-consumed q spent id later t (rw (w, p, o) there) refl,
        require_pending_retry-consumed a.workflow_id a.provider_id a.original_task_id agent spent t
            there refl,
      )
