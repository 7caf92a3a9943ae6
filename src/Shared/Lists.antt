-- ===== src/Shared/Lists.antt =====
-- Lists as the program uses them: length, membership, Python's `set` of a list, and the checks
-- over every item.
use Prim.Native.Nat.{ℕ, zero, suc, ◌+◌, ◌≤◌}
use mathlib.Core.Path.{◌≡◌, refl, sym, ◌∙◌, ap, subst}
use mathlib.Core.Logic.{◌↔◌, ◌⊎◌, inl, inr}
use mathlib.Core.Bool.{Bool, true, false, ◌&&◌, ◌||◌, not}
use mathlib.Core.Option.{Option, none, some}
use mathlib.Core.List.{List, [], ◌∷◌, ◌++◌, map}
use native.Mathlib.Omega.{arith}
use prdcp.Shared.Tests.{Eq, nat_beq, ◌==◌, Bool-cases, if◌then◌else◌}

module _ {ℓ} {A : Type ℓ} where
  abbrev pub length : List A → ℕ
  length [] = 0
  length (x ∷ xs) = suc (length xs)

  abbrev pub is_empty : List A → Bool
  is_empty [] = true
  is_empty (x ∷ xs) = false

  abbrev pub all : (A → Bool) → List A → Bool
  all p [] = true
  all p (x ∷ xs) = p x && all p xs

  abbrev pub any : (A → Bool) → List A → Bool
  any p [] = false
  any p (x ∷ xs) = p x || any p xs

  -- The first item that passes, Python's `next((x for x in xs if p(x)), None)`.
  abbrev pub find_first : (A → Bool) → List A → Option A
  find_first p [] = none
  find_first p (x ∷ xs) = if p x then some x else find_first p xs

  abbrev pub All {κ} : (A → Type κ) → List A → Type κ
  All P [] = Unit
  All P (x ∷ xs) = P x × All P xs

  pub length-append : (xs ys : List A) → length (xs ++ ys) ≡ length xs + length ys
  length-append [] ys = omega arith
  length-append (x ∷ xs) ys = omega (arith, length-append xs ys)

  pub all_iff : (p : A → Bool) (xs : List A) → (all p xs ≡ true) ↔ All (λ x. p x ≡ true) xs
  all_iff p [] = (λ h. tt, λ h. refl)
  all_iff p (x ∷ xs) = ground (arith, all_iff p xs)

module _ {A : Type 0} where
  abbrev pub Member : A → List A → Type 0
  Member a [] = ⊥
  Member a (x ∷ xs) = (x ≡ a) ⊎ Member a xs

  -- No item occurs twice.
  abbrev pub NoRepeat : List A → Type 0
  NoRepeat [] = Unit
  NoRepeat (x ∷ xs) = (¬ Member x xs) × NoRepeat xs

  pub Member-append_left : (a : A) (xs ys : List A) → Member a xs → Member a (xs ++ ys)
  Member-append_left a [] ys m = elim m [ ]
  Member-append_left a (x ∷ xs) ys (inl e) = inl e
  Member-append_left a (x ∷ xs) ys (inr m) = inr (Member-append_left a xs ys m)

  pub Member-append_right : (a : A) (xs ys : List A) → Member a ys → Member a (xs ++ ys)
  Member-append_right a [] ys m = m
  Member-append_right a (x ∷ xs) ys m = inr (Member-append_right a xs ys m)

  pub Member-append : (a : A) (xs ys : List A) → Member a (xs ++ ys) → Member a xs ⊎ Member a ys
  Member-append a [] ys m = inr m
  Member-append a (x ∷ xs) ys (inl e) = inl (inl e)
  Member-append a (x ∷ xs) ys (inr m) = elim (Member-append a xs ys m) [
    | inl l ↦ inl (inr l)
    | inr r ↦ inr r
  ]

  pub All-Member {κ} : (P : A → Type κ) (xs : List A) (a : A) → All P xs → Member a xs → P a
  All-Member P [] a h m = elim m [ ]
  All-Member P (x ∷ xs) a h (inl e) = rw (← e) h.0
  All-Member P (x ∷ xs) a h (inr m) = All-Member P xs a h.1 m

  pub NoRepeat-snoc : (xs : List A) (a : A) → NoRepeat xs → ¬ Member a xs → NoRepeat (xs ++ a ∷ [])
  NoRepeat-snoc [] a n h = (λ m. m, tt)
  NoRepeat-snoc (x ∷ xs) a n h = (
    λ m. elim (Member-append x xs (a ∷ []) m) [
      | inl old ↦ n.0 old
      | inr (inl new) ↦ h (inl (sym new))
      | inr (inr bad) ↦ bad
    ],
    NoRepeat-snoc xs a n.1 (λ m. h (inr m)),
  )

and_left : (a b : Bool) → (a && b) ≡ true → a ≡ true
and_left a b h = ground arith

and_right : (a b : Bool) → (a && b) ≡ true → b ≡ true
and_right a b h = ground arith

and_intro : (a b : Bool) → a ≡ true → b ≡ true → (a && b) ≡ true
and_intro a b p q = ground arith

-- Membership and sets, for a type with Python's `==`.
module _ {A : Type 0} ⦃e : Eq A⦄ where
  -- `a in xs`
  unfoldable pub contains : List A → A → Bool
  contains [] a = false
  contains (x ∷ xs) a = x == a || contains xs a

  -- `set(xs)`, as the list of its members.
  unfoldable pub set_of : List A → List A
  unfolding contains
  set_of [] = []
  set_of (x ∷ xs) = let rest = set_of xs in if contains rest x then rest else x ∷ rest

  pub contains_iff : (xs : List A) (a : A) → (contains xs a ≡ true) ↔ Member a xs
  unfolding contains
  contains_iff [] a = (λ h. cc, λ h. elim h [ ])
  contains_iff (x ∷ xs) a = ground (arith, contains_iff xs a, e.same_iff x a)

  pub not-contains : (xs : List A) (a : A) → ¬ Member a xs → contains xs a ≡ false
  not-contains xs a h = elim (Bool-cases (contains xs a)) [
    | inl y ↦ absurd (h ((contains_iff xs a).0 y))
    | inr n ↦ n
  ]

  pub not-Member : (xs : List A) (a : A) → contains xs a ≡ false → ¬ Member a xs
  not-Member xs a n m = ground (arith, (contains_iff xs a).1 m)

  contains-set_of : (xs : List A) (a : A) → contains (set_of xs) a ≡ contains xs a
  unfolding set_of
  contains-set_of [] a = refl
  contains-set_of (x ∷ xs) a = elim (Bool-cases (contains (set_of xs) x)) [
    | inl old ↦ rw old (ground (arith, contains-set_of xs a, contains-set_of xs x, e.same_iff x a))
    | inr new ↦ rw new (ground (arith, contains-set_of xs a))
  ]

  length-set_of-le : (xs : List A) → length (set_of xs) ≤ length xs
  unfolding set_of
  length-set_of-le [] = omega arith
  length-set_of-le (x ∷ xs) = ground (arith, length-set_of-le xs)

  -- A list has as many items as its set exactly when no item occurs twice.
  pub length-set_of_iff : (xs : List A) → (length (set_of xs) ≡ length xs) ↔ NoRepeat xs
  unfolding set_of
  length-set_of_iff [] = (λ h. tt, λ h. refl)
  length-set_of_iff (x ∷ xs) = elim (Bool-cases (contains (set_of xs) x)) [
    | inl old ↦ (
      λ h. absurd (omega (arith, length-set_of-le xs, rw old at h)),
      λ n. absurd (n.0 ((contains_iff xs x).0 (sym (contains-set_of xs x) ∙ old))),
    )
    | inr new ↦ rw new (
      λ h. (
        not-Member xs x (sym (contains-set_of xs x) ∙ new),
        (length-set_of_iff xs).0 (omega arith),
      ),
      λ n. ap suc ((length-set_of_iff xs).1 n.1),
    )
  ]

  -- `len(xs) == len(set(xs))`
  unfoldable pub unique : List A → Bool
  unfolding set_of
  unique xs = nat_beq (length (set_of xs)) (length xs)

  pub unique_iff : (xs : List A) → (unique xs ≡ true) ↔ NoRepeat xs
  unfolding unique
  unique_iff xs = ground (arith, length-set_of_iff xs)

  -- `set(xs) & set(ys)` is empty.
  unfoldable pub disjoint : List A → List A → Bool
  unfolding contains
  disjoint xs ys = all (λ x. not (contains ys x)) xs

  -- `set(xs) <= set(ys)`, and `set(xs) == set(ys)`.
  unfoldable pub subset : List A → List A → Bool
  unfolding contains
  subset xs ys = all (contains ys) xs

  unfoldable pub same_set : List A → List A → Bool
  unfolding subset
  same_set xs ys = subset xs ys && subset ys xs

  pub disjoint_iff : (xs ys : List A) → (disjoint xs ys ≡ true) ↔ All (λ x. ¬ Member x ys) xs
  unfolding disjoint
  disjoint_iff [] ys = (λ h. tt, λ h. refl)
  disjoint_iff (x ∷ xs) ys = elim (Bool-cases (contains ys x)) [
    | inl old ↦ rw old (λ h. cc, λ h. absurd (h.0 ((contains_iff ys x).0 old)))
    | inr new ↦
        rw new
          (λ h. (not-Member ys x new, (disjoint_iff xs ys).0 h), λ h. (disjoint_iff xs ys).1 h.1)
  ]

  pub subset_iff : (xs ys : List A) → (subset xs ys ≡ true) ↔ All (λ x. Member x ys) xs
  unfolding subset
  subset_iff [] ys = (λ h. tt, λ h. refl)
  subset_iff (x ∷ xs) ys = ground (arith, subset_iff xs ys, contains_iff ys x)

  pub same_set_iff :
      (xs ys : List A)
      → (same_set xs ys ≡ true) ↔ (All (λ x. Member x ys) xs × All (λ y. Member y xs) ys)
  unfolding same_set
  same_set_iff xs ys =
      let p = subset_iff xs ys in
      let q = subset_iff ys xs in
      (
        λ h. (
          p.0 (and_left (subset xs ys) (subset ys xs) h),
          q.0 (and_right (subset xs ys) (subset ys xs) h),
        ),
        λ (f, g). and_intro (subset xs ys) (subset ys xs) (p.1 f) (q.1 g),
      )

module _ {A : Type 0} where
  pub find_first-some :
      (p : A → Bool) (xs : List A) (a : A) → find_first p xs ≡ some a → Member a xs × (p a ≡ true)
  find_first-some p [] a h = cc
  find_first-some p (x ∷ xs) a h = elim (Bool-cases (p x)) [
    | inl y ↦ let same : some x ≡ some a = rw y at h in let e : x ≡ a = cc in (inl e, rw (← e) y)
    | inr n ↦ let (m, t) = find_first-some p xs a (rw n at h) in (inr m, t)
  ]

  pub find_first-none :
      (p : A → Bool) (xs : List A) → find_first p xs ≡ none → All (λ x. p x ≡ false) xs
  find_first-none p [] h = tt
  find_first-none p (x ∷ xs) h = elim (Bool-cases (p x)) [
    | inl y ↦ let bad : some x ≡ none = rw y at h in cc
    | inr n ↦ (n, find_first-none p xs (rw n at h))
  ]

  pub Member-map :
      {B : Type 0} (f : A → B) (xs : List A) (a : A) → Member a xs → Member (f a) (map f xs)
  Member-map f [] a m = elim m [ ]
  Member-map f (x ∷ xs) a (inl e) = inl (ap f e)
  Member-map f (x ∷ xs) a (inr m) = inr (Member-map f xs a m)

  pub Member-map_inv :
      {B : Type 0} (f : A → B) (xs : List A) (b : B)
      → Member b (map f xs)
      → (a : A) × Member a xs × (f a ≡ b)
  Member-map_inv f [] b m = elim m [ ]
  Member-map_inv f (x ∷ xs) b (inl e) = (x, inl refl, e)
  Member-map_inv f (x ∷ xs) b (inr m) = let (a, n, e) = Member-map_inv f xs b m in (a, inr n, e)

  pub All-intro {κ} : (P : A → Type κ) (xs : List A) → ((a : A) → Member a xs → P a) → All P xs
  All-intro P [] h = tt
  All-intro P (x ∷ xs) h = (h x (inl refl), All-intro P xs (λ a m. h a (inr m)))

  -- Where a function of the items takes no value twice, it tells members apart.
  pub NoRepeat-map_inj :
      {B : Type 0} (f : A → B) (xs : List A) (a b : A)
      → NoRepeat (map f xs)
      → Member a xs
      → Member b xs
      → f a ≡ f b
      → a ≡ b
  NoRepeat-map_inj f [] a b n m k e = elim m [ ]
  NoRepeat-map_inj f (x ∷ xs) a b n (inl p) (inl q) e = sym p ∙ q
  NoRepeat-map_inj f (x ∷ xs) a b n (inl p) (inr k) e =
      absurd (n.0 (subst (λ v. Member v (map f xs)) (sym e ∙ sym (ap f p)) (Member-map f xs b k)))
  NoRepeat-map_inj f (x ∷ xs) a b n (inr m) (inl q) e =
      absurd (n.0 (subst (λ v. Member v (map f xs)) (e ∙ sym (ap f q)) (Member-map f xs a m)))
  NoRepeat-map_inj f (x ∷ xs) a b n (inr m) (inr k) e = NoRepeat-map_inj f xs a b n.1 m k e

-- xs[:n]
abbrev pub take {ℓ} : {A : Type ℓ} → ℕ → List A → List A
take zero xs = []
take (suc n) [] = []
take (suc n) (x ∷ xs) = x ∷ take n xs

-- xs[n:]
abbrev pub drop {ℓ} : {A : Type ℓ} → ℕ → List A → List A
drop zero xs = xs
drop (suc n) [] = []
drop (suc n) (x ∷ xs) = drop n xs
