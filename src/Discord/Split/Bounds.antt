-- ===== src/Discord/Split/Bounds.antt =====
-- The messages of `split_message` (discord_app/message_formatter.py) fit, and nothing but line breaks
-- is lost.
use prdcp.Shared.{
  ℕ, zero, suc, ◌-◌, ◌≤◌, ◌<◌, ◌≡◌, refl, true, false, Option, none, some, Option-cases, Bool-cases,
  inl, inr, List, [], ◌∷◌, map, arith, leb, ◌==◌, nat_eq, length, take, drop, All, length-append,
}
use prdcp.Discord.Split.{
  newline, last_newline, place_of, split_at, lstrip, chunks, fence, closing, is_fenced, body,
  split_message,
}

last_newline-lt : (n : ℕ) (cs : List ℕ) (i : ℕ) → last_newline n cs ≡ some i → i < n
unfolding last_newline
last_newline-lt zero cs i h = cc
last_newline-lt (suc n) [] i h = cc
last_newline-lt (suc n) (c ∷ cs) i h = elim (Option-cases (last_newline n cs)) [
  | inr (j, e) ↦
      let h' : some (suc j) ≡ some i = rw e at h in
      let same : suc j ≡ i = cc in omega (arith, last_newline-lt n cs j e)
  | inl e ↦ elim (Bool-cases (c == newline)) [
    | inl y ↦ let h' : some 0 ≡ some i = rw (e, y) at h in let same : 0 ≡ i = cc in omega arith
    | inr no_break ↦ let h' = rw (e, no_break) at h in cc
  ]
]

place-bounds :
    (limit : ℕ) (o : Option ℕ)
    → 0 < limit
    → ((i : ℕ) → o ≡ some i → i < limit)
    → (0 < place_of limit o) × (place_of limit o ≤ limit)
place-bounds limit none pos h = (pos, omega arith)
place-bounds limit (some i) pos h = let lt = h i refl in ground arith

pub split_at-bounds :
    (limit : ℕ) (text : List ℕ)
    → 0 < limit
    → (0 < split_at limit text) × (split_at limit text ≤ limit)
unfolding split_at
split_at-bounds limit text pos =
    place-bounds limit (last_newline limit text) pos (λ i e. last_newline-lt limit text i e)

length-take-le : {A : Type 0} (k : ℕ) (xs : List A) → length (take k xs) ≤ k
length-take-le zero xs = omega arith
length-take-le (suc k) [] = omega arith
length-take-le (suc k) (x ∷ xs) = omega (arith, length-take-le k xs)

pub length-drop-le : {A : Type 0} (k : ℕ) (xs : List A) → length (drop k xs) ≤ length xs
length-drop-le zero xs = omega arith
length-drop-le (suc k) [] = omega arith
length-drop-le (suc k) (x ∷ xs) = omega (arith, length-drop-le k xs)

pub length-lstrip-le : (cs : List ℕ) → length (lstrip cs) ≤ length cs
unfolding lstrip
length-lstrip-le [] = omega arith
length-lstrip-le (c ∷ cs) = ground (arith, length-lstrip-le cs)

abbrev pub Fits : ℕ → List ℕ → Type 0
Fits limit part = length part ≤ limit

short : (n limit : ℕ) → leb n limit ≡ true → n ≤ limit
short n limit h = ground arith

chunks-Fits :
    (fuel limit : ℕ) (text : List ℕ) → 0 < limit → All (Fits limit) (chunks fuel limit text)
unfolding chunks
chunks-Fits zero limit text pos = tt
chunks-Fits (suc fuel) limit [] pos = tt
chunks-Fits (suc fuel) limit (c ∷ cs) pos = elim (Bool-cases (leb (length (c ∷ cs)) limit)) [
  | inl y ↦ rw y (short (length (c ∷ cs)) limit y, tt)
  | inr n ↦
      let k = split_at limit (c ∷ cs) in
      let bounds = split_at-bounds limit (c ∷ cs) pos in
      rw n (
        omega (arith, length-take-le k (c ∷ cs), bounds.1),
        chunks-Fits fuel limit (lstrip (drop k (c ∷ cs))) pos,
      )
]

map-fence-Fits :
    (limit : ℕ) (parts : List (List ℕ))
    → 12 < limit
    → All (Fits (limit - 12)) parts
    → All (Fits limit) (map fence parts)
map-fence-Fits limit [] big h = tt
map-fence-Fits limit (p ∷ ps) big h =
    (omega (arith, length-append p closing, h.0), map-fence-Fits limit ps big h.1)

-- A text without a fence around it.
plain-Fits :
    (fuel limit : ℕ) (text : List ℕ)
    → 0 < limit
    → is_fenced text ≡ false
    → All (Fits limit) (split_message (suc fuel) limit text)
unfolding split_message
plain-Fits fuel limit text pos bare = elim (Bool-cases (leb (length text) limit)) [
  | inl y ↦ rw y (short (length text) limit y, tt)
  | inr n ↦ rw (n, bare) (chunks-Fits (length text) limit text pos)
]

-- Where the limit leaves room for a fence, and a fenced text has no second fence inside of the
-- first, every message that a text is split into fits the limit.
pub split_message-Fits :
    (fuel limit : ℕ) (text : List ℕ)
    → 12 < limit
    → is_fenced (body text) ≡ false
    → All (Fits limit) (split_message (suc (suc fuel)) limit text)
unfolding split_message
split_message-Fits fuel limit text big bare = elim (Bool-cases (leb (length text) limit)) [
  | inl y ↦ rw y (short (length text) limit y, tt)
  | inr n ↦ elim (Bool-cases (is_fenced text)) [
    | inl f ↦
        rw (n, f)
          (map-fence-Fits limit (split_message (suc fuel) (limit - 12) (body text)) big
            (plain-Fits fuel (limit - 12) (body text) (omega arith) bare))
    | inr f ↦ rw (n, f) (chunks-Fits (length text) limit text (omega arith))
  ]
]
