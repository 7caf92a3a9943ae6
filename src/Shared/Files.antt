-- ===== src/Shared/Files.antt =====
-- The files below the data directory, as the repositories use them: exclusive creation (mode "x"),
-- reading, and atomic replacement. A path is its components; a component that the program builds
-- from a number or with an extension keeps that form.
use prdcp.Shared.Tests.{Eq, ◌==◌, discrete_eq, String_discrete, Bool-cases, if◌then◌else◌}
use Prim.Native.Nat.{ℕ}
use Prim.Native.String.{String}
use mathlib.Core.Path.{◌≡◌, refl, ap}
use mathlib.Core.Logic.{◌≢◌, inl, inr}
use mathlib.Core.Option.{Option, none, some}
use mathlib.Core.List.{List, [], ◌∷◌}
use native.Mathlib.Omega.{arith}
use native.Mathlib.Decide.{ℕ_discrete}

-- `dir s` is the component s, `json s` is "{s}.json", and `slot n` is "slot_{n}.json".
pub data Component : Type 0 where
  dir json : String → Component
  slot : ℕ → Component

abbrev pub FilePath : Type 0
FilePath = List Component

unfoldable pub FilePath-discrete : Discrete FilePath
unfolding String_discrete ℕ_discrete
FilePath-discrete = hlevel (String_discrete, ℕ_discrete)

instance abbrev pub path_eq : Eq FilePath
path_eq = discrete_eq FilePath-discrete

module _ {C : Type 0} where
  -- `json.load` of the file at a path; `none` where there is no such file.
  unfoldable pub read : List (FilePath × C) → FilePath → Option C
  read [] p = none
  read ((q, c) ∷ fs) p = if q == p then some c else read fs p

  -- Atomic replacement, or creation: the entry of the path is new.
  unfoldable pub write : List (FilePath × C) → FilePath → C → List (FilePath × C)
  write [] p c = (p, c) ∷ []
  write ((q, d) ∷ fs) p c = if q == p then (q, c) ∷ fs else (q, d) ∷ write fs p c

  pub read-write :
      (fs : List (FilePath × C)) (p q : FilePath) (c : C)
      → read (write fs p c) q ≡ (if p == q then some c else read fs q)
  unfolding read write
  read-write [] p q c = refl
  read-write ((o, d) ∷ fs) p q c =
      ground (
        arith,
        read-write fs p q c,
        path_eq.same_iff o p,
        path_eq.same_iff o q,
        path_eq.same_iff p q,
      )

  pub read-write_self :
      (fs : List (FilePath × C)) (p : FilePath) (c : C) → read (write fs p c) p ≡ some c
  read-write_self fs p c = ground (arith, read-write fs p p c, path_eq.same_iff p p)

  pub read-write_ne :
      (fs : List (FilePath × C)) (p q : FilePath) (c : C)
      → p ≢ q
      → read (write fs p c) q ≡ read fs q
  read-write_ne fs p q c h = ground (arith, read-write fs p q c, path_eq.same_iff p q)

  -- Writing what a file holds already changes nothing.
  pub write-read :
      (fs : List (FilePath × C)) (p : FilePath) (c : C) → read fs p ≡ some c → write fs p c ≡ fs
  unfolding read write
  write-read [] p c h = cc
  write-read ((q, d) ∷ fs) p c h = elim (Bool-cases (q == p)) [
    | inl y ↦
        let same : some d ≡ some c = rw y at h in
        let e : c ≡ d = cc in rw y (ap (λ u. (q, u) ∷ fs) e)
    | inr n ↦ rw n (ap (λ l. (q, d) ∷ l) (write-read fs p c (rw n at h)))
  ]
