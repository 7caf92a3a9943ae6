-- ===== src/Shared/Errors.antt =====
-- A function that may raise returns an `Outcome`; a method that also writes files is an action of
-- `Exec`, whose state comes back beside the exception too.
use Prim.Native.String.{String}
use mathlib.Core.Path.{◌≡◌, refl}
use mathlib.Core.Logic.{◌↔◌, ◌⊎◌, inl, inr}
use mathlib.Core.Bool.{Bool, false}
use mathlib.Core.List.{List, [], ◌∷◌}
use native.Mathlib.Omega.{arith}
use prdcp.Shared.Tests.{if◌then◌else◌}
use prdcp.Shared.Lists.{All}

-- The exception classes that the modelled code raises, with their messages.
pub data Error : Type 0 where
  value_error pmp_validation_error file_not_found : String → Error
  revision_budget_exhausted non_retryable_agent_error : String → Error
  key_error : String → Error
  file_exists_error os_error type_error attribute_error index_error : Error

pub data Outcome {ℓ} (A : Type ℓ) : Type ℓ where
  raise : Error → Outcome A
  ok : A → Outcome A

infixl 5 ◌>>=◌ ◌>>◌
abbrev pub ◌>>=◌ {ℓ κ} : {A : Type ℓ} {B : Type κ} → Outcome A → (A → Outcome B) → Outcome B
raise error >>= rest = raise error
ok value >>= rest = rest value

abbrev pub ◌>>◌ {ℓ} : {B : Type ℓ} → Outcome (Unit {0}) → Outcome B → Outcome B
first >> second = first >>= λ done. second

-- `if test: raise error`
pub record Guard : Type 0 where
  pub test : Bool
  pub error : Error

infix 68 ◌raises◌
abbrev pub ◌raises◌ : Bool → Error → Guard
b raises e = record { test = b; error = e }

-- Consecutive guards: the first whose test holds raises.
unfoldable pub check : List Guard → Outcome (Unit {0})
check [] = ok tt
check (g ∷ gs) = if g.test then raise g.error else check gs

abbrev pub Passes : Guard → Type 0
Passes g = g.test ≡ false

pub check_iff : (gs : List Guard) → (check gs ≡ ok tt) ↔ All Passes gs
unfolding check
check_iff [] = (λ h. tt, λ h. refl)
check_iff (g ∷ gs) = ground (arith, check_iff gs)

-- A value that is returned behind guards.
pub check-ok_iff {ℓ} :
    {A : Type ℓ} (gs : List Guard) (a b : A)
    → ((check gs >> ok a) ≡ ok b) ↔ (All Passes gs × (a ≡ b))
unfolding check
check-ok_iff [] a b = ground arith
check-ok_iff (g ∷ gs) a b = ground (arith, check-ok_iff gs a b)

-- A result means that each step had one.
pub >>=-eq-ok {κ ℓ} :
    {B : Type κ} {A : Type ℓ} (first : Outcome A) (rest : A → Outcome B) {result : B}
    → (first >>= rest) ≡ ok result
    → (value : A) × (first ≡ ok value) × (rest value ≡ ok result)
>>=-eq-ok (raise error) rest e = cc
>>=-eq-ok (ok value) rest e = (value, refl, e)

-- Two blocks of guards, the field constraints and a model validator, before a value.
pub check-check-ok_iff {ℓ} :
    {A : Type ℓ} (gs hs : List Guard) (a b : A)
    → ((check gs >> (check hs >> ok a)) ≡ ok b) ↔ (All Passes gs × All Passes hs × (a ≡ b))
unfolding check
check-check-ok_iff [] hs a b = ground (arith, check-ok_iff hs a b)
check-check-ok_iff (g ∷ gs) hs a b = ground (arith, check-check-ok_iff gs hs a b)

-- Guards before any computation.
pub check-bind_iff {ℓ} :
    {A : Type ℓ} (gs : List Guard) (k : Outcome A) (b : A)
    → ((check gs >> k) ≡ ok b) ↔ (All Passes gs × (k ≡ ok b))
unfolding check
check-bind_iff [] k b = ground arith
check-bind_iff (g ∷ gs) k b = ground (arith, check-bind_iff gs k b)

pub Outcome-cases : (m : Outcome (Unit {0})) → (m ≡ ok tt) ⊎ ((e : Error) × (m ≡ raise e))
Outcome-cases (ok u) = inl refl
Outcome-cases (raise e) = inr (e, refl)

pub Outcome-either {ℓ} :
    {A : Type ℓ} (m : Outcome A) → ((a : A) × (m ≡ ok a)) ⊎ ((e : Error) × (m ≡ raise e))
Outcome-either (ok a) = inl (a, refl)
Outcome-either (raise e) = inr (e, refl)
