-- ===== src/Exchange/Exec.antt =====
-- Methods that write files and may raise: what was written before an exception stays written.
use prdcp.Shared.{◌≡◌, refl, ap, List, Outcome, ok, raise, Error, Guard, check}

abbrev pub Exec : Type 0 → Type 0 → Type 0
Exec S A = S → Outcome A × S

module _ {S A : Type 0} where
  abbrev pub pure : A → Exec S A
  pure a s = (ok a, s)

  abbrev pub throw : Error → Exec S A
  throw e s = (raise e, s)

  -- A computation that reads no file.
  abbrev pub lift : Outcome A → Exec S A
  lift r s = (r, s)

module _ {S A B : Type 0} where
  abbrev pub resume : Outcome A → (A → Exec S B) → Exec S B
  resume (ok a) f s = f a s
  resume (raise e) f s = (raise e, s)

  infixl 5 ◌>>=◌ ◌>>◌
  abbrev pub ◌>>=◌ : Exec S A → (A → Exec S B) → Exec S B
  ◌>>=◌ m f s = let (r, s') = m s in resume r f s'

  abbrev pub ◌>>◌ : Exec S A → Exec S B → Exec S B
  m >> n = m >>= λ _. n

abbrev pub guards : {S : Type 0} → List Guard → Exec S (Unit {0})
guards gs s = (check gs, s)

module _ {S A B : Type 0} where
  -- A step that succeeded, before the rest.
  pub resume-ok :
      (r : Outcome A) (f : A → Exec S B) (s : S) (b : B)
      → (resume r f s).0 ≡ ok b
      → (a : A) × (r ≡ ok a) × ((f a s).0 ≡ ok b)
  resume-ok (ok a) f s b h = (a, refl, h)
  resume-ok (raise e) f s b h = cc

-- The step raises and changes no file.
abbrev pub Refuses : {S A : Type 0} → Outcome A × S → S → Type 0
Refuses r s = (e : Error) × (r ≡ (raise e, s))

pub resume-Refuses :
    {S A B : Type 0} (r : Outcome A) (f : A → Exec S B) (s : S)
    → ((a : A) → r ≡ ok a → Refuses (f a s) s)
    → Refuses (resume r f s) s
resume-Refuses (ok a) f s h = h a refl
resume-Refuses (raise e) f s h = (e, refl)

-- A result behind a block of guards.
pub guards-ok :
    {S A : Type 0} (gs : List Guard) (f : Unit {0} → Exec S A) (s : S) (b : A)
    → (resume (check gs) f s).0 ≡ ok b
    → (check gs ≡ ok tt) × ((f tt s).0 ≡ ok b)
guards-ok gs f s b h = let (u, e, g) = resume-ok (check gs) f s b h in (e, g)

-- A computation that succeeded is what its last part was, where that does not depend on the steps
-- before it.
pub resume-last :
    {S A B : Type 0} (r : Outcome A) (f : A → Exec S B) (s : S) (b : B) (u : Outcome B × S)
    → ((a : A) → r ≡ ok a → (f a s).0 ≡ ok b → f a s ≡ u)
    → (resume r f s).0 ≡ ok b
    → resume r f s ≡ u
resume-last (ok a) f s b u h done = h a refl done
resume-last (raise e) f s b u h done = cc

-- What holds of the last part holds of a computation that succeeded.
pub resume-holds :
    {S A B : Type 0} (Q : Outcome B × S → Type 0) (r : Outcome A) (f : A → Exec S B) (s : S) (b : B)
    → ((a : A) → r ≡ ok a → (f a s).0 ≡ ok b → Q (f a s))
    → (resume r f s).0 ≡ ok b
    → Q (resume r f s)
resume-holds Q (ok a) f s b h done = h a refl done
resume-holds Q (raise e) f s b h done = cc

-- The same for a step whose state is another name of the first one.
pub resume-Refuses_at :
    {S A B : Type 0} (r : Outcome A) (f : A → Exec S B) (s t : S)
    → t ≡ s
    → ((a : A) → r ≡ ok a → Refuses (f a t) s)
    → Refuses (resume r f t) s
resume-Refuses_at (ok a) f s t e h = h a refl
resume-Refuses_at (raise error) f s t e h = (error, ap (λ u. (raise error, u)) e)
