-- ===== src/Exchange/Once.antt =====
-- Creating a file once: what each outcome means, and that nothing else changes.
use prdcp.Shared.{
  ◌≡◌, ◌≢◌, refl, ◌∙◌, ap, inl, inr, none, some, arith, ◌==◌, Bool-cases, Option-cases, FilePath,
  path_eq, read, write, read-write_self, read-write_ne, ok, raise, Error,
}
use prdcp.Exchange.Store.{Content, content_eq, Repository, write_once_or_exact}

-- Every file of the first state is there, unchanged, in the second.
abbrev pub Keeps : Repository → Repository → Type 0
Keeps s t = (p : FilePath) (c : Content) → read s.files p ≡ some c → read t.files p ≡ some c

module _ (path : FilePath) (payload : Content) (conflict : Error) (s : Repository) where
  pub once-new :
      read s.files path ≡ none
      → write_once_or_exact path payload conflict s
        ≡ (ok tt, record s { files = write s.files path payload })
  unfolding write_once_or_exact
  once-new e = rw (e, write_once_or_exact)

  pub once-same :
      read s.files path ≡ some payload → write_once_or_exact path payload conflict s ≡ (ok tt, s)
  unfolding write_once_or_exact
  once-same e = rw (e, write_once_or_exact) (rw ((content_eq.same_iff payload payload).1 refl))

  pub once-other :
      (d : Content)
      → read s.files path ≡ some d
      → d ≢ payload
      → write_once_or_exact path payload conflict s ≡ (raise conflict, s)
  unfolding write_once_or_exact
  once-other d e ne = rw (e, write_once_or_exact) (ground (arith, content_eq.same_iff d payload))

  pub once-written :
      (write_once_or_exact path payload conflict s).0 ≡ ok tt
      → read (write_once_or_exact path payload conflict s).1.files path ≡ some payload
  once-written done = elim (Option-cases (read s.files path)) [
    | inl e ↦ rw (once-new e) (read-write_self s.files path payload)
    | inr (d, e) ↦ elim (Bool-cases (d == payload)) [
      | inl y ↦
          let same : d ≡ payload = (content_eq.same_iff d payload).0 y in
          let there : read s.files path ≡ some payload = e ∙ ap some same in
          rw (once-same there) there
      | inr n ↦
          let ne : d ≢ payload = ground (arith, content_eq.same_iff d payload) in
          let bad = rw (once-other d e ne) at done in cc
    ]
  ]

  pub once-Keeps : Keeps s (write_once_or_exact path payload conflict s).1
  once-Keeps p c h = elim (Option-cases (read s.files path)) [
    | inl e ↦ rw (once-new e) (read-write_ne s.files path p payload (λ q. cc) ∙ h)
    | inr (d, e) ↦ elim (Bool-cases (d == payload)) [
      | inl y ↦
          let same : d ≡ payload = (content_eq.same_iff d payload).0 y in
          rw (once-same (e ∙ ap some same)) h
      | inr n ↦
          let ne : d ≢ payload = ground (arith, content_eq.same_iff d payload) in
          rw (once-other d e ne) h
    ]
  ]

  -- The budget is another part of the store.
  pub budget-once : (write_once_or_exact path payload conflict s).1.budget ≡ s.budget
  unfolding write_once_or_exact
  budget-once = ground arith
