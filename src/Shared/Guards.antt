-- ===== src/Shared/Guards.antt =====
-- The guards that the models share: what it means that each passes.
use Prim.Native.Nat.{ℕ, ◌≤◌}
use Prim.Native.String.{String}
use mathlib.Core.Path.{◌≡◌, refl}
use mathlib.Core.Logic.{◌≢◌, ◌↔◌}
use mathlib.Core.Bool.{Bool, true, false, not}
use mathlib.Core.List.{List, [], ◌∷◌}
use native.Mathlib.Omega.{arith}
use text.Mathlib.TextEquality.{eq_iff}
use prdcp.Shared.Tests.{◌==◌, text_eq, ltb}
use prdcp.Shared.Lists.{is_empty, all, All, all_iff, NoRepeat, unique, unique_iff}

pub unique-Passes : (xs : List String) → (not (unique xs) ≡ false) ↔ NoRepeat xs
unique-Passes xs = ground (arith, unique_iff xs)

pub eq-Passes : (s t : String) → (not (s == t) ≡ false) ↔ (s ≡ t)
eq-Passes s t = ground (arith, eq_iff s t)

pub text-Passes : (s : String) → ((s == "") ≡ false) ↔ (s ≢ "")
text-Passes s = ground (arith, eq_iff s "")

pub list-Passes {ℓ} : {A : Type ℓ} (xs : List A) → (is_empty xs ≡ false) ↔ (xs ≢ [])
list-Passes [] = (λ h e. cc, λ h. absurd (h refl))
list-Passes (x ∷ xs) = (λ h e. cc, λ h. refl)

pub not-Passes : (b : Bool) → (not b ≡ false) ↔ (b ≡ true)
not-Passes b = ground arith

pub all-not-Passes {ℓ} :
    {A : Type ℓ} (p : A → Bool) (xs : List A) → (not (all p xs) ≡ false) ↔ All (λ x. p x ≡ true) xs
all-not-Passes p xs = ground (arith, all_iff p xs)

pub ltb-Passes : (a b : ℕ) → (ltb a b ≡ false) ↔ (b ≤ a)
ltb-Passes a b = ground arith
