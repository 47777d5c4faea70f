-- ===== src/Core/Affinity.antt =====
-- Channel affinity: its settings and their check (crates/refract-core/src/affinity.rs). A number of seconds or entries
-- is a natural number, and the reason of a bad pattern names the place or the depth that its text shows.
pub mod Patterns
pub mod Validity
use Prim.Native.Char.{Char, code}
use refract.Base.{
  ℕ, zero, suc, ◌+◌, max, Bool, true, false, not, ◌&&◌, ◌||◌, List, [], ◌∷◌, Option, none, some,
  String, ◌==◌, leb, ltb, if◌then◌else◌, unwrap_or, is_empty, is_empty_text, trim, char_count, any,
  Result, ok, err, ◌>>=◌, map_err, ◌-◌,
}
use refract.Base.Maps.{string_eq}

abbrev pub default_affinity_ttl_secs : ℕ
default_affinity_ttl_secs = 1800

abbrev pub default_affinity_max_entries : ℕ
default_affinity_max_entries = 100000

abbrev pub max_affinity_ttl_secs : ℕ
max_affinity_ttl_secs = 604800

abbrev pub max_value_regex_len : ℕ
max_value_regex_len = 512

-- Where the value that identifies a caller is found.
pub data AffinityKeySource : Type 0 where
  api_key_id : AffinityKeySource
  header : String → AffinityKeySource
  body : String → AffinityKeySource

pub record AffinityRule : Type 0 where
  pub name : String
  pub model_regex : String
  pub path_regex : String
  pub sources : List AffinityKeySource
  pub value_regex : String
  pub ttl_secs : Option ℕ
  pub include_model : Bool
  pub skip_retry_on_failure : Bool

pub record AffinitySettings : Type 0 where
  pub enabled : Bool
  pub switch_on_success : Bool
  pub keep_on_channel_disabled : Bool
  pub max_entries : ℕ
  pub default_ttl_secs : ℕ
  pub rules : List AffinityRule

abbrev pub default_settings : AffinitySettings
default_settings = record {
  enabled = false;
  switch_on_success = true;
  keep_on_channel_disabled = false;
  max_entries = default_affinity_max_entries;
  default_ttl_secs = default_affinity_ttl_secs;
  rules = [];
}

pub data PatternError : Type 0 where
  unmatched : ℕ → PatternError
  unclosed : ℕ → PatternError

-- `AffinityError`; an invalid regex is named by its field, its text and the reason.
pub data AffinityError : Type 0 where
  empty_rule_name : AffinityError
  duplicate_rule_name : String → AffinityError
  no_sources : String → AffinityError
  invalid_regex : String → String → String → PatternError → AffinityError
  value_regex_too_long : String → AffinityError
  invalid_header_name : String → AffinityError
  invalid_body_path : String → String → AffinityError
  ttl_out_of_range : String → AffinityError
  default_ttl_out_of_range : AffinityError
  max_entries_zero : AffinityError

abbrev pub Check : Type 0
Check = Result {0, 0} Unit AffinityError

-- `char::len_utf8`.
unfoldable pub len_utf8 : Char → ℕ
len_utf8 c =
    let n = code c in
    if ltb n 0x80 then 1 else if ltb n 0x800 then 2 else if ltb n 0x10000 then 3 else 4

-- The depth behind a character; a `)` at depth 0 is not matched.
unfoldable pub next_depth : ℕ → Char → Option ℕ
next_depth depth c =
    if code c == 40
    then some (suc depth)
    else if code c == 41
    then if depth == 0 then none else some (depth - 1)
    else some depth

-- The loop of `regex_syntax_lite`, at a depth and a byte's index.
unfoldable pub scan_pattern : ℕ → ℕ → String → Result {0, 0} Unit PatternError
unfolding next_depth len_utf8
scan_pattern depth index String.[] = if depth == 0 then ok tt else err (unclosed depth)
scan_pattern depth index (String.◌∷◌ c s) = elim (next_depth depth c) [
  | none ↦ err (unmatched index)
  | some d ↦ scan_pattern d (index + len_utf8 c) s
]

unfoldable pub regex_syntax_lite : String → Result {0, 0} Unit PatternError
unfolding scan_pattern
regex_syntax_lite pattern = scan_pattern 0 0 pattern

unfoldable pub check_regex : String → String → String → Check
unfolding regex_syntax_lite
check_regex rule value field =
    if is_empty_text value
    then ok tt
    else map_err (invalid_regex rule field value) (regex_syntax_lite value)

-- `1..=MAX_AFFINITY_TTL_SECS` contains the number.
abbrev pub in_ttl_range : ℕ → Bool
in_ttl_range n = leb 1 n && leb n max_affinity_ttl_secs

-- `u8::is_ascii_graphic` and no colon; every byte of a character beyond ASCII fails it.
unfoldable pub is_header_char : Char → Bool
is_header_char c = leb 33 (code c) && leb (code c) 126 && not (code c == 58)

unfoldable pub all_header_chars : String → Bool
unfolding is_header_char
all_header_chars String.[] = true
all_header_chars (String.◌∷◌ c s) = is_header_char c && all_header_chars s

-- `starts_with('/')` or empty.
unfoldable pub is_pointer : String → Bool
is_pointer String.[] = true
is_pointer (String.◌∷◌ c s) = code c == 47

unfoldable pub check_source : String → AffinityKeySource → Check
unfolding trim all_header_chars is_pointer
check_source name api_key_id = ok tt
check_source name (header h) =
    let trimmed = trim h in
    if not (is_empty_text trimmed) && all_header_chars trimmed
    then ok tt
    else err (invalid_header_name name)
check_source name (body path) = if is_pointer path then ok tt else err (invalid_body_path name path)

unfoldable pub check_sources : String → List AffinityKeySource → Check
unfolding check_source
check_sources name [] = ok tt
check_sources name (s ∷ ss) = check_source name s >>= λ _. check_sources name ss

unfoldable pub check_ttl : String → Option ℕ → Check
check_ttl name none = ok tt
check_ttl name (some ttl) = if in_ttl_range ttl then ok tt else err (ttl_out_of_range name)

unfoldable pub check_name : String → List String → Check
unfolding any
check_name name seen =
    if is_empty_text name
    then err empty_rule_name
    else if any (string_eq.beq name) seen
    then err (duplicate_rule_name name)
    else ok tt

unfoldable pub check_value_length : String → String → Check
unfolding char_count
check_value_length name value =
    if ltb max_value_regex_len (char_count value) then err (value_regex_too_long name) else ok tt

unfoldable pub check_some_source : String → List AffinityKeySource → Check
check_some_source name [] = err (no_sources name)
check_some_source name (s ∷ ss) = ok tt

-- `AffinityRule::validate`, which gives back the names seen.
unfoldable pub validate_rule : AffinityRule → List String → Result (List String) AffinityError
unfolding check_name check_some_source check_regex check_value_length check_sources check_ttl trim
validate_rule r seen = do
  let name = trim r.name
  _ ← check_name name seen
  _ ← check_some_source name r.sources
  _ ← check_regex name r.model_regex "model_regex"
  _ ← check_regex name r.path_regex "path_regex"
  _ ← check_value_length name r.value_regex
  _ ← check_regex name r.value_regex "value_regex"
  _ ← check_sources name r.sources
  _ ← check_ttl name r.ttl_secs
  ok (name ∷ seen)

unfoldable pub validate_rules : List AffinityRule → List String → Check
unfolding validate_rule
validate_rules [] seen = ok tt
validate_rules (r ∷ rs) seen = validate_rule r seen >>= λ seen'. validate_rules rs seen'

-- `AffinitySettings::validate`.
unfoldable pub validate : AffinitySettings → Check
unfolding validate_rules
validate s =
    if s.max_entries == 0
    then err max_entries_zero
    else if not (in_ttl_range s.default_ttl_secs)
    then err default_ttl_out_of_range
    else validate_rules s.rules []

unfoldable pub effective_ttl_secs : AffinityRule → ℕ → ℕ
effective_ttl_secs r default_secs = max (unwrap_or r.ttl_secs default_secs) 1
