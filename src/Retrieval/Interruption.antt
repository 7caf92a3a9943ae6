-- ===== src/Retrieval/Interruption.antt =====
-- A retrieval of `RetrievalCoordinator.prepare` (retrieval/coordinator.py) that fails behind its
-- reservation is not searched for again.
use prdcp.Shared.{ℕ, String, ◌≡◌, none, some, FilePath, read, Outcome, raise, Error}
use prdcp.Exchange.Exec.{Exec}
use prdcp.Retrieval.Model.{RetrievalStrategy, Digests, Reservation, State, Provider, Retrieval}
use prdcp.Retrieval.{retrieval_identity, reservation_path}
use prdcp.Retrieval.Reuse.{context_of}

-- The searches of a provider write no context, and a reservation that is there stays there.
pub record IsQuiet {P : Type 0} (p : Provider P) : Type 0 where
  pub contexts :
      (query : String) (strategy : RetrievalStrategy) (results timeout : ℕ) (path : FilePath)
      (discriminator : String) (s : State P)
      → (p.search query strategy results timeout path discriminator s).1.contexts ≡ s.contexts
  pub reservations :
      (query : String) (strategy : RetrievalStrategy) (results timeout : ℕ) (path : FilePath)
      (discriminator : String) (s : State P) (q : FilePath) (b : Reservation)
      → read s.reservations q ≡ some b
      → (c : Reservation) × (read
            (p.search query strategy results timeout path discriminator s).1.reservations
            q
          ≡ some c)

module _ (d : Digests) {P : Type 0} (p : Provider P) (quiet : IsQuiet p) (r : Retrieval) where
  abbrev reservation_of : FilePath
  reservation_of = reservation_path d p r.workflow_id (retrieval_identity d r)

  -- The retrieval is reserved and has no context.
  abbrev IsHeld : State P → Type 0
  IsHeld s =
      (read s.contexts (context_of d p r) ≡ none)
      × (b : Reservation) × (read s.reservations reservation_of ≡ some b)

  -- Where the computation raises, it leaves the retrieval reserved.
  abbrev HoldsOn : {A : Type 0} → Outcome A × State P → Type 0
  HoldsOn {A} u = (e : Error) → u.0 ≡ raise e → IsHeld u.1
