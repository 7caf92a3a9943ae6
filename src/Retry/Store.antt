-- ===== src/Retry/Store.antt =====
-- The operations keep the store one whose authorizations are for the retries of their original
-- tasks.
use prdcp.Shared.{
  String, ◌≡◌, refl, sym, ◌∙◌, ap, append, FilePath, path_eq, ◌==◌, read, write, read-write,
  Outcome, ok, raise, check, Bool-cases, Option-cases, inl, inr,
}
use prdcp.Revision.Layers.{DateTime}
use prdcp.Exchange.Exec.{Exec, resume}
use prdcp.Retry.{
  authorize_at, authorize_once, consume, consume_guards, consumed_with, authorization_path,
  entry_guards, existing_guards, new_authorization, required, reservation_guards, write_atomic,
  write_exclusive,
}
use prdcp.Retry.Model.{
  operator_retry_suffix, ProviderRetryAuthorization, RetryTask, parse, Files, authorized,
  reservation_of, field_guards,
}
use prdcp.Retry.OneShot.{path_for}
use prdcp.Retry.Pending.{IsStore}

write-IsStore :
    (s : Files) (p : FilePath) (a : ProviderRetryAuthorization)
    → IsStore s
    → a.retry_task_id ≡ append a.original_task_id operator_retry_suffix
    → IsStore (write s p (authorized a))
write-IsStore s p a store r q b h = elim (Bool-cases (p == q)) [
  | inl y ↦
      let h' = sym (read-write s p q (authorized a)) ∙ h in
      let h2 = rw y at h' in
      let same : a ≡ b = cc in
      ap (λ c. c.retry_task_id) (sym same)
      ∙ r
      ∙ ap (λ c. append c.original_task_id operator_retry_suffix) same
  | inr n ↦ let h' = sym (read-write s p q (authorized a)) ∙ h in store q b (rw n at h')
]

resume-IsStore :
    {A B : Type 0} (r : Outcome A) (f : A → Exec Files B) (s : Files)
    → IsStore s
    → ((a : A) → IsStore (f a s).1)
    → IsStore (resume r f s).1
resume-IsStore (ok a) f s store h = h a
resume-IsStore (raise e) f s store h = store

module _ (sha256 : String → String) where
  authorize_at-IsStore :
      (path : FilePath) (id : String) (now : DateTime) (q : RetryTask) (s : Files)
      → IsStore s
      → IsStore (authorize_at path id now q s).1
  unfolding authorize_at write_exclusive
  authorize_at-IsStore path id now q s store = elim (Option-cases (read s path)) [
    | inl e ↦
        rw (e, authorize_at)
          (resume-IsStore (check (field_guards (new_authorization id now q))) _ s store (λ u.
            rw (e, write_exclusive) (write-IsStore s path (new_authorization id now q) store refl)))
    | inr (f, e) ↦
        rw (e, authorize_at)
          (resume-IsStore (parse f) _ s store
            (λ a. resume-IsStore (check (existing_guards q a)) _ s store (λ u. store)))
  ]

  -- Authorizing a retry, whether it succeeds or raises, and consuming the authorization of a retry
  -- keep the store one whose authorizations are for the retries of their original tasks.
  pub retry-IsStore :
      (id : String) (now : DateTime) (q : RetryTask) (a : ProviderRetryAuthorization)
      (reservation : FilePath) (s : Files)
      → IsStore s
      → a.retry_task_id ≡ append a.original_task_id operator_retry_suffix
      → IsStore (authorize_once sha256 id now q s).1
        × IsStore (consume sha256 a reservation now s).1
  unfolding authorize_once consume write_atomic
  retry-IsStore id now q a reservation s store retry = (
    resume-IsStore (check (entry_guards q)) _ s store (λ u.
        resume-IsStore (required (read s _)) _ s store (λ f.
          resume-IsStore (check (reservation_guards q (reservation_of f))) _ s store
            (λ v. authorize_at-IsStore (path_for sha256 q) id now q s store))),
    resume-IsStore (check (consume_guards a reservation s)) _ s store (λ u.
        write-IsStore s (authorization_path sha256 a.provider_id a.workflow_id a.original_task_id)
          (consumed_with a now reservation) store retry),
  )
