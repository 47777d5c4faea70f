-- ===== src/Core/Affinity/Validity.antt =====
-- What the check of the affinity settings accepts (crates/refract-core/src/affinity.rs, `AffinitySettings::validate` and
-- `AffinityRule::validate`).
use refract.Base.{
  ℕ, ◌≤◌, ◌≡◌, ◌≢◌, ◌↔◌, refl, sym, ap, ◌∙◌, arith, true, false, any, List, [], ◌∷◌, Option, none,
  some, String, All, All-True, is_empty, map, is_empty_text, char_count, trim, Result-cases, inl,
  inr, Result, ok, err, ◌>>=◌, map_err,
}
use refract.Base.Maps.{string_eq}
use refract.Core.Affinity.{
  invalid_regex, scan_pattern, AffinityKeySource, api_key_id, header, body, AffinityRule,
  AffinitySettings, AffinityError, Check, check_name, check_some_source, check_regex,
  check_value_length, check_sources, check_source, check_ttl, validate_rule, validate_rules,
  validate, max_affinity_ttl_secs, max_value_regex_len, all_header_chars, is_pointer,
  regex_syntax_lite,
}
use refract.Core.Affinity.Patterns.{IsBalanced, regex_syntax_lite_iff}

-- A time to live that the settings may name.
abbrev pub IsTtl : ℕ → Type 0
IsTtl n = 1 ≤ n × n ≤ max_affinity_ttl_secs

abbrev pub TtlIsValid : Option ℕ → Type 0
TtlIsValid none = Unit
TtlIsValid (some n) = IsTtl n

abbrev pub SourceIsValid : AffinityKeySource → Type 0
SourceIsValid api_key_id = Unit
SourceIsValid (header h) = (is_empty_text (trim h) ≡ false) × (all_header_chars (trim h) ≡ true)
SourceIsValid (body p) = is_pointer p ≡ true

abbrev pub rule_name : AffinityRule → String
rule_name r = trim r.name

-- A rule that is good by itself.
abbrev pub RuleIsValid : AffinityRule → Type 0
RuleIsValid r =
    (is_empty_text (rule_name r) ≡ false)
    × (is_empty r.sources ≡ false)
    × IsBalanced r.model_regex
    × IsBalanced r.path_regex
    × char_count r.value_regex ≤ max_value_regex_len
    × IsBalanced r.value_regex
    × All SourceIsValid r.sources
    × TtlIsValid r.ttl_secs

-- No name occurs twice.
abbrev pub IsDistinct : List String → Type 0
IsDistinct [] = Unit
IsDistinct (x ∷ xs) = All (λ y. x ≢ y) xs × IsDistinct xs

abbrev pub IsValid : AffinitySettings → Type 0
IsValid s =
    1 ≤ s.max_entries
    × IsTtl s.default_ttl_secs
    × All RuleIsValid s.rules
    × IsDistinct (map rule_name s.rules)

-- A check and then another computation succeed exactly if both do.
then_iff :
    {B P Q : Type 0} (x : Check) (y : Result B AffinityError) (b : B)
    → (x ≡ ok tt) ↔ P
    → (y ≡ ok b) ↔ Q
    → ((x >>= λ _. y) ≡ ok b) ↔ (P × Q)
then_iff (ok tt) y b f g = ((λ h. (f.0 refl, g.0 h)), λ h. g.1 h.1)
then_iff (err e) y b f g = ((λ h. cc), λ h. cc (f.1 h.0))

map_err_ok :
    {E F : Type 0} (f : E → F) (r : Result {0, 0} Unit E) → (map_err f r ≡ ok tt) ↔ (r ≡ ok tt)
map_err_ok f (ok tt) = ground arith
map_err_ok f (err e) = ground arith

no_pattern : IsBalanced String.[]
unfolding regex_syntax_lite scan_pattern
no_pattern = (regex_syntax_lite_iff String.[]).0 refl

check_regex_iff :
    (rule value field : String) → (check_regex rule value field ≡ ok tt) ↔ IsBalanced value
unfolding check_regex
check_regex_iff rule String.[] field = ((λ h. no_pattern), λ h. refl)
check_regex_iff rule (String.◌∷◌ c s) field =
    let value = String.◌∷◌ c s in
    let same = map_err_ok (invalid_regex rule field value) (regex_syntax_lite value) in
    (
      (λ h. (regex_syntax_lite_iff value).0 (same.0 h)),
      λ b. same.1 ((regex_syntax_lite_iff value).1 b),
    )

check_source_iff :
    (name : String) (s : AffinityKeySource) → (check_source name s ≡ ok tt) ↔ SourceIsValid s
unfolding check_source
check_source_iff name api_key_id = ground arith
check_source_iff name (header h) = ground arith
check_source_iff name (body p) = ground arith

check_sources_iff :
    (name : String) (ss : List AffinityKeySource)
    → (check_sources name ss ≡ ok tt) ↔ All SourceIsValid ss
unfolding check_sources
check_sources_iff name [] = ground arith
check_sources_iff name (s ∷ ss) =
    then_iff (check_source name s) (check_sources name ss) tt (check_source_iff name s)
      (check_sources_iff name ss)

check_ttl_iff : (name : String) (ttl : Option ℕ) → (check_ttl name ttl ≡ ok tt) ↔ TtlIsValid ttl
unfolding check_ttl
check_ttl_iff name none = ground arith
check_ttl_iff name (some n) = ground arith

check_some_source_iff :
    (name : String) (ss : List AffinityKeySource)
    → (check_some_source name ss ≡ ok tt) ↔ (is_empty ss ≡ false)
unfolding check_some_source
check_some_source_iff name [] = ground arith
check_some_source_iff name (s ∷ ss) = ground arith

check_value_length_iff :
    (name value : String)
    → (check_value_length name value ≡ ok tt) ↔ (char_count value ≤ max_value_regex_len)
unfolding check_value_length
check_value_length_iff name value = ground arith

-- No name seen before is the given one.
abbrev IsFresh : List String → String → Type 0
IsFresh seen name = All (λ y. name ≢ y) seen

IsFresh-iff :
    (name : String) (seen : List String)
    → (any (string_eq.beq name) seen ≡ false) ↔ IsFresh seen name
unfolding any
IsFresh-iff name [] = ground arith
IsFresh-iff name (y ∷ ys) = ground (arith, string_eq.beq_iff name y, IsFresh-iff name ys)

check_name_iff :
    (name : String) (seen : List String)
    → (check_name name seen ≡ ok tt) ↔ ((is_empty_text name ≡ false) × IsFresh seen name)
unfolding check_name
check_name_iff name seen = ground (arith, IsFresh-iff name seen)

-- The checks of a rule in the order of the code.
abbrev Passes : AffinityRule → List String → List String → Type 0
Passes r seen names =
    ((is_empty_text (rule_name r) ≡ false) × IsFresh seen (rule_name r))
    × ((is_empty r.sources ≡ false)
        × (IsBalanced r.model_regex
            × (IsBalanced r.path_regex
                × ((char_count r.value_regex ≤ max_value_regex_len)
                    × (IsBalanced r.value_regex
                        × (All SourceIsValid r.sources
                            × (TtlIsValid r.ttl_secs × (rule_name r ∷ seen ≡ names))))))))

ok_iff : {B : Type 0} (a b : B) → (◌≡◌ {A = Result B AffinityError} (ok a) (ok b)) ↔ (a ≡ b)
ok_iff a b = ground arith

validate_rule-Passes :
    (r : AffinityRule) (seen names : List String)
    → (validate_rule r seen ≡ ok names) ↔ Passes r seen names
unfolding validate_rule
validate_rule-Passes r seen names =
    let name = rule_name r in
    let last =
      then_iff (check_ttl name r.ttl_secs) _ names (check_ttl_iff name r.ttl_secs)
        (ok_iff (name ∷ seen) names) in
    let from_sources =
      then_iff (check_sources name r.sources) _ names (check_sources_iff name r.sources) last in
    let from_value =
      then_iff (check_value_length name r.value_regex) _ names
        (check_value_length_iff name r.value_regex)
        (then_iff (check_regex name r.value_regex "value_regex") _ names
          (check_regex_iff name r.value_regex "value_regex") from_sources) in
    let from_path =
      then_iff (check_regex name r.path_regex "path_regex") _ names
        (check_regex_iff name r.path_regex "path_regex") from_value in
    let from_model =
      then_iff (check_regex name r.model_regex "model_regex") _ names
        (check_regex_iff name r.model_regex "model_regex") from_path in
    then_iff (check_name name seen) _ names (check_name_iff name seen) (
      then_iff (check_some_source name r.sources) _ names (check_some_source_iff name r.sources)
        from_model)

-- The rules behind some names seen are good if each is good by itself and all names differ.
abbrev RulesAreValid : List AffinityRule → List String → Type 0
RulesAreValid rs seen =
    All RuleIsValid rs × IsDistinct (map rule_name rs) × All (λ r. IsFresh seen (rule_name r)) rs

IsFresh-cons :
    (rs : List AffinityRule) (name : String) (seen : List String)
    → All (λ r. IsFresh (name ∷ seen) (rule_name r)) rs
      ↔ (All (λ y. name ≢ y) (map rule_name rs) × All (λ r. IsFresh seen (rule_name r)) rs)
IsFresh-cons [] name seen = ground arith
IsFresh-cons (r ∷ rs) name seen =
    let more = IsFresh-cons rs name seen in
    (
      (λ h. (((λ e. h.0.0 (sym e)), (more.0 h.1).0), (h.0.1, (more.0 h.1).1))),
      λ h. (((λ e. h.0.0 (sym e)), h.1.0), more.1 (h.0.1, h.1.1)),
    )

validate_rule_iff :
    (r : AffinityRule) (seen names : List String)
    → (validate_rule r seen ≡ ok names)
      ↔ (RuleIsValid r × IsFresh seen (rule_name r) × (rule_name r ∷ seen ≡ names))
validate_rule_iff r seen names =
    let same = validate_rule-Passes r seen names in
    (
      (λ h.
          let ((a, f), (s, (m, (p, (l, (v, (o, (t, e)))))))) = same.0 h in
          ((a, s, m, p, l, v, o, t), f, e)),
      λ ((a, s, m, p, l, v, o, t), f, e). same.1 ((a, f), (s, (m, (p, (l, (v, (o, (t, e)))))))),
    )

validate_rules_sound :
    (rs : List AffinityRule) (seen : List String)
    → validate_rules rs seen ≡ ok tt
    → RulesAreValid rs seen
unfolding validate_rules
validate_rules_sound [] seen h = (tt, tt, tt)
validate_rules_sound (r ∷ rs) seen h = elim (Result-cases (validate_rule r seen)) [
  | inl (names, e) ↦
      let (good, fresh, same) = (validate_rule_iff r seen names).0 e in
      let more = validate_rules_sound rs (rule_name r ∷ seen) (
        ap (λ ns. validate_rules rs ns) same
        ∙ sym (ap (λ x. x >>= λ ns. validate_rules rs ns) e)
        ∙ h) in
      let apart = (IsFresh-cons rs (rule_name r) seen).0 more.2 in
      ((good, more.0), (apart.0, more.1), (fresh, apart.1))
  | inr (x, e) ↦ cc (h, e)
]

validate_rules_complete :
    (rs : List AffinityRule) (seen : List String)
    → RulesAreValid rs seen
    → validate_rules rs seen ≡ ok tt
unfolding validate_rules
validate_rules_complete [] seen h = refl
validate_rules_complete (r ∷ rs) seen ((good, goods), (apart, distinct), (fresh, others)) =
    let names = rule_name r ∷ seen in
    ap (λ x. x >>= λ s. validate_rules rs s)
      ((validate_rule_iff r seen names).1 (good, fresh, refl))
    ∙ validate_rules_complete rs names
        (goods, distinct, (IsFresh-cons rs (rule_name r) seen).1 (apart, others))

limits_iff :
    (s : AffinitySettings)
    → (validate s ≡ ok tt)
      ↔ (1 ≤ s.max_entries × IsTtl s.default_ttl_secs × (validate_rules s.rules [] ≡ ok tt))
unfolding validate
limits_iff s = ground arith

-- The settings pass their check exactly if there is room for an entry, the default time to live is in its range, every
-- rule has a name, sources that are well formed, balanced patterns, a value pattern that is short enough and a time to
-- live in its range if it has one, and no two rules have the same trimmed name.
pub validate_iff : (s : AffinitySettings) → (validate s ≡ ok tt) ↔ IsValid s
validate_iff s =
    let limits = limits_iff s in
    (
      (λ h.
          let (room, ttl, checked) = limits.0 h in
          let good = validate_rules_sound s.rules [] checked in (room, ttl, good.0, good.1)),
      λ (room, ttl, goods, distinct). limits.1 (
        room,
        ttl,
        validate_rules_complete s.rules []
            (goods, distinct, All-True (λ r. IsFresh [] (rule_name r)) (λ r. tt) s.rules),
      ),
    )
