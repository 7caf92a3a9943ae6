-- ===== src/Shared/Text.antt =====
-- Text: Python's `startswith`, `endswith`, slices off the end, and the regular expressions of the
-- program, as tests on code points.
use Prim.Native.Nat.{ℕ}
use Prim.Native.Char.{Char, code}
use Prim.Native.String.{String, ◌++◌ as ◌+++◌}
use mathlib.Core.Path.{◌≡◌, refl, sym, ◌∙◌, ap}
use mathlib.Core.Logic.{inl, inr}
use mathlib.Core.Bool.{Bool, true, false, ◌&&◌, ◌||◌}
use mathlib.Core.List.{List, [], ◌∷◌, ◌++◌}
use native.Mathlib.Omega.{arith}
use text.Mathlib.Text.{◌==◌ as text_beq}
use text.Mathlib.TextEquality.{eq_iff}
use text.Mathlib.TextLemmas.{append_cancel_right, cons≢nil, nil-append, cons-append}
use prdcp.Shared.Tests.{leb, nat_beq, Bool-cases, if◌then◌else◌}
use prdcp.Shared.Lists.{length, all}

abbrev pub codes : String → List ℕ
codes String.[] = []
codes (String.◌∷◌ c s) = code c ∷ codes s

abbrev pub is_digit : ℕ → Bool
is_digit c = leb b'0' c && leb c b'9'

abbrev pub is_lower : ℕ → Bool
is_lower c = leb b'a' c && leb c b'z'

abbrev pub is_upper : ℕ → Bool
is_upper c = leb b'A' c && leb c b'Z'

-- [0-9a-f]
abbrev pub is_hex : ℕ → Bool
is_hex c = is_digit c || leb b'a' c && leb c b'f'

-- ^[0-9a-f]{64}$
unfoldable pub is_sha256 : String → Bool
is_sha256 s = nat_beq (length (codes s)) 64 && all is_hex (codes s)

-- A first character, then any number of others.
abbrev pub first_rest : (ℕ → Bool) → (ℕ → Bool) → List ℕ → Bool
first_rest first rest [] = false
first_rest first rest (c ∷ cs) = first c && all rest cs

-- [a-z][a-z0-9_.-]*
unfoldable pub is_artifact_type : String → Bool
is_artifact_type s =
    first_rest is_lower
      (λ c. is_lower c || is_digit c || nat_beq c b'_' || nat_beq c b'.' || nat_beq c b'-')
      (codes s)

-- A prefix, then what the test accepts.
abbrev pub behind : List ℕ → (List ℕ → Bool) → List ℕ → Bool
behind [] rest cs = rest cs
behind (p ∷ ps) rest [] = false
behind (p ∷ ps) rest (c ∷ cs) = nat_beq c p && behind ps rest cs

-- ^retrieval_[a-f0-9]{24}$
unfoldable pub is_retrieval_id : String → Bool
is_retrieval_id s =
    behind (codes "retrieval_") (λ cs. nat_beq (length cs) 24 && all is_hex cs) (codes s)

-- [A-Za-z0-9][A-Za-z0-9._-]{0,127}
abbrev pub is_alnum : ℕ → Bool
is_alnum c = is_lower c || is_upper c || is_digit c

abbrev pub is_component_char : ℕ → Bool
is_component_char c = is_alnum c || nat_beq c b'.' || nat_beq c b'_' || nat_beq c b'-'

unfoldable pub is_safe_component : String → Bool
is_safe_component s = first_rest is_alnum is_component_char (codes s) && leb (length (codes s)) 128

abbrev pub is_source_char : ℕ → Bool
is_source_char c = is_alnum c || nat_beq c b'_' || nat_beq c b'-'

-- ^source_[A-Za-z0-9_-]+$
unfoldable pub is_source_id : String → Bool
is_source_id s = behind (codes "source_") (first_rest is_source_char is_source_char) (codes s)

-- [a-z0-9][a-z0-9_-]{0,63}
abbrev pub is_provider_char : ℕ → Bool
is_provider_char c = is_lower c || is_digit c || nat_beq c b'_' || nat_beq c b'-'

unfoldable pub is_provider_id : String → Bool
is_provider_id s =
    first_rest (λ c. is_lower c || is_digit c) is_provider_char (codes s)
    && leb (length (codes s)) 64

abbrev pub is_word : ℕ → Bool
is_word c = is_lower c || is_digit c || nat_beq c b'_'

-- What follows the first name of an agent id: name characters, one dot, and a second name.
abbrev pub after_name : List ℕ → Bool
after_name [] = false
after_name (c ∷ cs) =
    if nat_beq c b'.' then first_rest is_lower is_word cs else is_word c && after_name cs

abbrev pub agent_codes : List ℕ → Bool
agent_codes [] = false
agent_codes (c ∷ cs) = is_lower c && after_name cs

-- ^[a-z][a-z0-9_]*\.[a-z][a-z0-9_]*$
unfoldable pub is_agent_id : String → Bool
is_agent_id s = agent_codes (codes s)

-- `s.endswith(suffix)`
unfoldable pub ends_with : String → String → Bool
ends_with String.[] suffix = text_beq "" suffix
ends_with (String.◌∷◌ c s) suffix = text_beq (String.◌∷◌ c s) suffix || ends_with s suffix

-- `s[: -len(suffix)]`, for a text that ends with `suffix`.
unfoldable pub drop_suffix : String → String → String
drop_suffix String.[] suffix = ""
drop_suffix (String.◌∷◌ c s) suffix =
    if text_beq (String.◌∷◌ c s) suffix then "" else String.◌∷◌ c (drop_suffix s suffix)

-- `a + b` on texts.
abbrev pub append : String → String → String
append a b = ◌+++◌ a b

text_beq_refl : (s : String) → text_beq s s ≡ true
text_beq_refl s = (eq_iff s s).1 refl

ends_with_self : (t : String) → ends_with t t ≡ true
unfolding ends_with
ends_with_self String.[] = refl
ends_with_self (String.◌∷◌ c s) = rw (text_beq_refl (String.◌∷◌ c s))

pub ends_with-append : (s t : String) → ends_with (append s t) t ≡ true
unfolding ends_with
ends_with-append String.[] t = rw nil-append (ends_with_self t)
ends_with-append (String.◌∷◌ c s) t = rw cons-append (ground (arith, ends_with-append s t))

cons-append-ne : (c : Char) (s t : String) → text_beq (String.◌∷◌ c (append s t)) t ≡ false
cons-append-ne c s t = elim (Bool-cases (text_beq (String.◌∷◌ c (append s t)) t)) [
  | inl e ↦ absurd (
      cons≢nil (
        append_cancel_right (String.◌∷◌ c s) "" t
          (cons-append c s t ∙ (eq_iff _ _).0 e ∙ sym (nil-append t))))
  | inr n ↦ n
]

drop_suffix_self : (t : String) → drop_suffix t t ≡ ""
unfolding drop_suffix
drop_suffix_self String.[] = refl
drop_suffix_self (String.◌∷◌ c s) = rw (text_beq_refl (String.◌∷◌ c s))

-- Cutting off a suffix undoes appending it.
pub drop_suffix-append : (s t : String) → drop_suffix (append s t) t ≡ s
unfolding drop_suffix
drop_suffix-append String.[] t = rw nil-append (drop_suffix_self t)
drop_suffix-append (String.◌∷◌ c s) t =
    rw cons-append (rw (cons-append-ne c s t) (rw (drop_suffix-append s t)))

pub codes-append : (s t : String) → codes (append s t) ≡ codes s ++ codes t
codes-append String.[] t = rw nil-append
codes-append (String.◌∷◌ c s) t = rw cons-append (ap (λ l. code c ∷ l) (codes-append s t))
