-- ===== src/Exchange/Requests.antt =====
-- A request in the outbox: written once, read back as it was, and never replaced.
use prdcp.Shared.{
  Bool, String, ◌≡◌, ◌≢◌, refl, ◌∙◌, ap, Option, none, some, FilePath, read, Outcome, ok, raise,
  value_error, Error,
}
use prdcp.Revision.Layers.{DateTime}
use prdcp.Revision.Request.{RevisionRequest}
use prdcp.Revision.Control.{RevisionBudgetPolicy}
use prdcp.Revision.External.{External}
use prdcp.Pmp.{PmpMessage, validate_message}
use prdcp.Correlation.{validate_request_message}
use prdcp.Exchange.Exec.{Exec, resume}
use prdcp.Exchange.Store.{Content, message, Repository, write_once_or_exact}
use prdcp.Exchange.Paths.{request_path}
use prdcp.Budget.{slots_of}
use prdcp.Budget.Growth.{Grows, Grows-refl, consume-Grows}
use prdcp.Exchange.Messages.{
  claim_of, read_message, consume_budget, create_request_once, load_request,
}
use prdcp.Exchange.Once.{once-written, once-other, once-Keeps, budget-once, Keeps}

-- The file of a request.
abbrev pub file_of : External → RevisionRequest → FilePath
file_of x r = request_path x.sha256 r.target_layer r.workflow_id r.revision_request_id

read_message-there :
    (is_uuid : String → Bool) (path : FilePath) (missing : String) (s : Repository) (m : PmpMessage)
    → read s.files path ≡ some (message m)
    → read_message is_uuid path missing s ≡ (validate_message is_uuid m, s)
unfolding read_message
read_message-there is_uuid path missing s m e = rw (e, read_message)

files-consume_budget :
    (x : External) (policy : Option RevisionBudgetPolicy) (r : RevisionRequest) (now : DateTime)
    (s : Repository)
    → (consume_budget x policy r now s).1.files ≡ s.files
unfolding consume_budget
files-consume_budget x none r now s = refl
files-consume_budget x (some policy) r now s = refl

-- No file is changed or lost, and no slot of any budget directory, to which at most one is added.
pub record KeepsAll (s t : Repository) : Type 0 where
  pub files : Keeps s t
  pub slots : (d : FilePath) → Grows (slots_of s.budget d) (slots_of t.budget d)

slots-consume_budget :
    (x : External) (policy : Option RevisionBudgetPolicy) (r : RevisionRequest) (now : DateTime)
    (s : Repository) (d : FilePath)
    → Grows (slots_of s.budget d) (slots_of (consume_budget x policy r now s).1.budget d)
unfolding consume_budget
slots-consume_budget x none r now s d = Grows-refl (slots_of s.budget d)
slots-consume_budget x (some policy) r now s d =
    consume-Grows x.sha256 policy (claim_of r now) s.budget d

-- The write behind the budget, whatever the budget answered.
module _ (path : FilePath) (payload : Content) (conflict : Error) where
  after_budget : Outcome (Unit {0}) → Exec Repository (Unit {0})
  after_budget o = resume o (λ _. write_once_or_exact path payload conflict)

  after_budget-written :
      (o : Outcome (Unit {0})) (t : Repository)
      → (after_budget o t).0 ≡ ok tt
      → read (after_budget o t).1.files path ≡ some payload
  unfolding after_budget
  after_budget-written (ok u) t done = once-written path payload conflict t done
  after_budget-written (raise e) t done = cc

  budget-after_budget :
      (o : Outcome (Unit {0})) (t : Repository) → (after_budget o t).1.budget ≡ t.budget
  unfolding after_budget
  budget-after_budget (ok u) t = budget-once path payload conflict t
  budget-after_budget (raise e) t = refl

  after_budget-Keeps : (o : Outcome (Unit {0})) (t : Repository) → Keeps t (after_budget o t).1
  unfolding after_budget
  after_budget-Keeps (ok u) t = once-Keeps path payload conflict t
  after_budget-Keeps (raise e) t = λ p c h. h

  after_budget-other :
      (o : Outcome (Unit {0})) (t : Repository) (d : Content)
      → read t.files path ≡ some d
      → d ≢ payload
      → (e : Error) × ((after_budget o t).0 ≡ raise e) × ((after_budget o t).1.files ≡ t.files)
  unfolding after_budget
  after_budget-other (ok u) t d there ne =
      let done = once-other path payload conflict t d there ne in
      (
        conflict,
        ap (λ (a : Outcome (Unit {0}) × Repository). a.0) done,
        ap (λ (a : Outcome (Unit {0}) × Repository). a.1.files) done,
      )
  after_budget-other (raise e) t d there ne = (e, refl, refl)

module _ (x : External) (m : PmpMessage) (policy : Option RevisionBudgetPolicy) (now : DateTime)
    (s : Repository) (r : RevisionRequest) (valid : validate_request_message x m ≡ ok r) where
  parts :
      create_request_once x m policy now s
      ≡ after_budget
          (file_of x r)
          (message m)
          (value_error "Revision Request identity conflict")
          (consume_budget x policy r now s).0
          (consume_budget x policy r now s).1
  unfolding create_request_once after_budget
  parts = rw (valid, create_request_once)

  files-budget : (consume_budget x policy r now s).1.files ≡ s.files
  files-budget = files-consume_budget x policy r now s

  create_request_once-slots :
      (d : FilePath)
      → Grows (slots_of s.budget d) (slots_of (create_request_once x m policy now s).1.budget d)
  create_request_once-slots d = rw parts (
      rw
        (budget-after_budget (file_of x r) (message m)
          (value_error "Revision Request identity conflict") (consume_budget x policy r now s).0
          (consume_budget x policy r now s).1)
        (slots-consume_budget x policy r now s d))

  create_request_once-written :
      (create_request_once x m policy now s).0 ≡ ok tt
      → read (create_request_once x m policy now s).1.files (file_of x r) ≡ some (message m)
  create_request_once-written = rw parts (after_budget-written (file_of x r) (message m) _ _ _)

  -- A well-formed message that is accepted as a request and has been stored is loaded as the same
  -- message, and loading changes no file.
  pub load_request-create_request_once :
      validate_message x.is_uuid m ≡ ok m
      → (create_request_once x m policy now s).0 ≡ ok tt
      → load_request x r.target_layer r.workflow_id r.revision_request_id
          (create_request_once x m policy now s).1
        ≡ (ok m, (create_request_once x m policy now s).1)
  unfolding load_request
  load_request-create_request_once well_formed done =
      let t = (create_request_once x m policy now s).1 in
      let there =
        read_message-there x.is_uuid (file_of x r) "Revision Request not found" t m
          (create_request_once-written done) in
      rw (there, load_request) (rw (well_formed, valid))

  -- Whatever storing a message that is accepted as a request does, no file that is there is changed
  -- or lost, and every budget directory keeps its slots in their order, with at most one more.
  pub create_request_once-KeepsAll : KeepsAll s (create_request_once x m policy now s).1
  create_request_once-KeepsAll = record {
    files = λ p c h. rw parts (
        after_budget-Keeps (file_of x r) (message m) _ (consume_budget x policy r now s).0
          (consume_budget x policy r now s).1 p c (rw files-budget h));
    slots = create_request_once-slots;
  }

  -- While the file of a request holds another message, storing a message that is accepted as the
  -- request raises and changes no message or authorization file; every budget directory keeps its
  -- slots, with at most one more.
  pub create_request_once-conflict :
      (other : PmpMessage)
      → other ≢ m
      → read s.files (file_of x r) ≡ some (message other)
      → (e : Error) × ((create_request_once x m policy now s).0 ≡ raise e)
        × ((create_request_once x m policy now s).1.files ≡ s.files)
        × ((d : FilePath)
            → Grows
                (slots_of s.budget d)
                (slots_of (create_request_once x m policy now s).1.budget d))
  create_request_once-conflict other ne there =
      let (e, raised, same) =
        after_budget-other (file_of x r) (message m)
          (value_error "Revision Request identity conflict") (consume_budget x policy r now s).0
          (consume_budget x policy r now s).1 (message other) (rw files-budget there)
          (λ q. ne (message-inj q)) in
      (e, rw parts raised, rw parts (same ∙ files-budget), create_request_once-slots)
    where
      message-inj : {a b : PmpMessage} → message a ≡ message b → a ≡ b
      message-inj q = cc
