-- ===== src/Core/Affinity/Patterns.antt =====
-- What the check of a pattern accepts (crates/refract-core/src/affinity.rs, `regex_syntax_lite`).
use Prim.Native.Char.{Char, code}
use refract.Base.{
  ℕ, zero, suc, ◌+◌, ◌≤◌, ◌≡◌, ◌↔◌, sym, ◌∙◌, arith, none, some, String, ◌==◌, if◌then◌else◌,
  take_chars, ok, err, Option-cases, inl, inr,
}
use refract.Core.Affinity.{unmatched, next_depth, len_utf8, scan_pattern, regex_syntax_lite}

abbrev one_if : ℕ → Char → ℕ
one_if n c = if code c == n then 1 else 0

-- How often a code point occurs.
unfoldable pub count_char : ℕ → String → ℕ
count_char n String.[] = 0
count_char n (String.◌∷◌ c s) = one_if n c + count_char n s

abbrev pub opened : String → ℕ
opened s = count_char 40 s

abbrev pub closed : String → ℕ
closed s = count_char 41 s

-- From a depth, no prefix closes more than was opened, and nothing stays open.
abbrev IsBalancedFrom : ℕ → String → Type 0
IsBalancedFrom depth s =
    ((n : ℕ) → closed (take_chars n s) ≤ depth + opened (take_chars n s))
    × (depth + opened s ≡ closed s)

abbrev pub IsBalanced : String → Type 0
IsBalanced s = IsBalancedFrom 0 s

next_depth-none : (depth : ℕ) (c : Char) → next_depth depth c ≡ none → (code c ≡ 41) × (depth ≡ 0)
unfolding next_depth
next_depth-none depth c e = ground (arith, e)

next_depth-some :
    (depth d : ℕ) (c : Char) → next_depth depth c ≡ some d → depth + one_if 40 c ≡ d + one_if 41 c
unfolding next_depth
next_depth-some depth d c e = ground (arith, e)

scan_pattern_step :
    (depth index d : ℕ) (c : Char) (s : String)
    → next_depth depth c ≡ some d
    → scan_pattern depth index (String.◌∷◌ c s) ≡ scan_pattern d (index + len_utf8 c) s
unfolding scan_pattern
scan_pattern_step depth index d c s e = ground (arith, e)

scan_pattern_stop :
    (depth index : ℕ) (c : Char) (s : String)
    → next_depth depth c ≡ none
    → scan_pattern depth index (String.◌∷◌ c s) ≡ err (unmatched index)
unfolding scan_pattern
scan_pattern_stop depth index c s e = ground (arith, e)

prefix_step :
    (depth d : ℕ) (c : Char) (s : String)
    → next_depth depth c ≡ some d
    → IsBalancedFrom d s
    → (n : ℕ)
    → closed (take_chars n (String.◌∷◌ c s)) ≤ depth + opened (take_chars n (String.◌∷◌ c s))
unfolding count_char take_chars
prefix_step depth d c s e b zero = omega arith
prefix_step depth d c s e b (suc n) = omega (arith, next_depth-some depth d c e, b.0 n)

balanced_step :
    (depth d : ℕ) (c : Char) (s : String)
    → next_depth depth c ≡ some d
    → IsBalancedFrom d s
    → IsBalancedFrom depth (String.◌∷◌ c s)
unfolding count_char
balanced_step depth d c s e b =
    (prefix_step depth d c s e b, omega (arith, next_depth-some depth d c e, b.1))

balanced_rest :
    (depth d : ℕ) (c : Char) (s : String)
    → next_depth depth c ≡ some d
    → IsBalancedFrom depth (String.◌∷◌ c s)
    → IsBalancedFrom d s
unfolding count_char take_chars
balanced_rest depth d c s e b = (
  (λ n. omega (arith, next_depth-some depth d c e, b.0 (suc n))),
  omega (arith, next_depth-some depth d c e, b.1),
)

not_balanced :
    (depth : ℕ) (c : Char) (s : String)
    → next_depth depth c ≡ none
    → ¬ IsBalancedFrom depth (String.◌∷◌ c s)
unfolding count_char take_chars
not_balanced depth c s e b = ground (arith, next_depth-none depth c e, b.0 1)

take_none :
    (depth n : ℕ) → closed (take_chars n String.[]) ≤ depth + opened (take_chars n String.[])
unfolding take_chars count_char
take_none depth zero = omega arith
take_none depth (suc n) = omega arith

scan_pattern→balanced :
    (depth index : ℕ) (s : String) → scan_pattern depth index s ≡ ok tt → IsBalancedFrom depth s
unfolding scan_pattern count_char take_chars
scan_pattern→balanced depth index String.[] h = (take_none depth, ground (arith, h))
scan_pattern→balanced depth index (String.◌∷◌ c s) h = elim (Option-cases (next_depth depth c)) [
  | inl e ↦ cc (h, scan_pattern_stop depth index c s e)
  | inr (d, e) ↦ balanced_step depth d c s e (
      scan_pattern→balanced d (index + len_utf8 c) s
        (sym (scan_pattern_step depth index d c s e) ∙ h))
]

balanced→scan_pattern :
    (depth index : ℕ) (s : String) → IsBalancedFrom depth s → scan_pattern depth index s ≡ ok tt
unfolding scan_pattern count_char
balanced→scan_pattern depth index String.[] b = ground (arith, b.1)
balanced→scan_pattern depth index (String.◌∷◌ c s) b = elim (Option-cases (next_depth depth c)) [
  | inl e ↦ elim (not_balanced depth c s e b) [ ]
  | inr (d, e) ↦
      scan_pattern_step depth index d c s e
      ∙ balanced→scan_pattern d (index + len_utf8 c) s (balanced_rest depth d c s e b)
]

-- The check of a pattern accepts a text exactly if no prefix of it closes more groups than it opens and the whole text
-- closes as many as it opens.
pub regex_syntax_lite_iff : (s : String) → (regex_syntax_lite s ≡ ok tt) ↔ IsBalanced s
unfolding regex_syntax_lite
regex_syntax_lite_iff s = (scan_pattern→balanced 0 0 s, balanced→scan_pattern 0 0 s)
