-- ===== src/Revision/Identity.antt =====
-- `safe_path_component` of common/models/revision.py (the path components of the retry, retrieval
-- and runtime stores are the same function). The digest is hashlib's: a parameter.
use text.Mathlib.TextLemmas.{append_cancel_left}
use prdcp.Shared.{
  ℕ, String, ◌≡◌, ◌↔◌, refl, sym, ap, true, false, List, [], ◌∷◌, arith, codes, append,
  codes-append, is_hex, is_sha256, is_safe_component, is_component_char, all, if◌then◌else◌,
  Bool-cases, inl, inr,
}

unfoldable pub safe_path_component : (String → String) → String → String
safe_path_component sha256 value =
    if is_safe_component value then value else append "id-" (sha256 value)

hex-is_component_char : (c : ℕ) → is_hex c ≡ true → is_component_char c ≡ true
hex-is_component_char c h = ground arith

all-hex-component : (cs : List ℕ) → all is_hex cs ≡ true → all is_component_char cs ≡ true
all-hex-component [] h = refl
all-hex-component (c ∷ cs) h = ground (arith, hex-is_component_char c, all-hex-component cs)

is_sha256-id : (d : String) → is_sha256 d ≡ true → is_safe_component (append "id-" d) ≡ true
unfolding is_sha256 is_safe_component
is_sha256-id d h = rw (codes-append "id-" d) (ground (arith, all-hex-component (codes d)))

-- Where digests are 64 hexadecimal digits: whatever the value, the component that stands for it in a
-- path has only the allowed characters and at most 128 of them, and taking the component of a
-- component changes nothing.
pub safe_path_component-is_safe :
    (sha256 : String → String)
    → ((s : String) → is_sha256 (sha256 s) ≡ true)
    → (value : String)
    → (is_safe_component (safe_path_component sha256 value) ≡ true)
      × (safe_path_component sha256 (safe_path_component sha256 value)
          ≡ safe_path_component sha256 value)
unfolding safe_path_component
safe_path_component-is_safe sha256 digest value = elim (Bool-cases (is_safe_component value)) [
  | inl y ↦ rw y (y, rw y)
  | inr n ↦ let safe = is_sha256-id (sha256 value) (digest value) in rw n (safe, rw safe)
]

-- How two values come to the same component: they are equal, or both are unsafe and have the same
-- digest, or one is unsafe and the other is the text of "id-" and its digest.
pub data SharesComponent (sha256 : String → String) (a b : String) : Type 0 where
  same_value : a ≡ b → SharesComponent sha256 a b
  same_digest :
      is_safe_component a ≡ false
      → is_safe_component b ≡ false
      → sha256 a ≡ sha256 b
      → SharesComponent sha256 a b
  names_second :
      is_safe_component b ≡ false → a ≡ append "id-" (sha256 b) → SharesComponent sha256 a b
  names_first :
      is_safe_component a ≡ false → b ≡ append "id-" (sha256 a) → SharesComponent sha256 a b

-- Where digests are 64 hexadecimal digits, two values have the same path component exactly when
-- they are equal, or both are unsafe and have the same digest, or one is unsafe and the other is
-- the text of "id-" and its digest.
pub safe_path_component_iff :
    (sha256 : String → String)
    → ((s : String) → is_sha256 (sha256 s) ≡ true)
    → (a b : String)
    → (safe_path_component sha256 a ≡ safe_path_component sha256 b) ↔ SharesComponent sha256 a b
unfolding safe_path_component
safe_path_component_iff sha256 digest a b = (there, back)
  where
    there : safe_path_component sha256 a ≡ safe_path_component sha256 b → SharesComponent sha256 a b
    there h = elim (Bool-cases (is_safe_component a)) [
      | inl y ↦ elim (Bool-cases (is_safe_component b)) [
        | inl z ↦ same_value (rw (y, z) at h)
        | inr n ↦ names_second n (rw (y, n) at h)
      ]
      | inr n ↦ elim (Bool-cases (is_safe_component b)) [
        | inl z ↦ names_first n (sym (rw (n, z) at h))
        | inr k ↦ same_digest n k (append_cancel_left "id-" (sha256 a) (sha256 b) (rw (n, k) at h))
      ]
    ]

    back : SharesComponent sha256 a b → safe_path_component sha256 a ≡ safe_path_component sha256 b
    back (same_value e) = ap (safe_path_component sha256) e
    back (same_digest n k e) = rw (n, k) (ap (append "id-") e)
    back (names_second n e) = rw (n, e) (rw (is_sha256-id (sha256 b) (digest b)) refl)
    back (names_first n e) = rw (n, e) (rw (is_sha256-id (sha256 a) (digest a)) refl)
