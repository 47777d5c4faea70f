-- ===== src/Router/Affinity.antt =====
-- The affinity engine (crates/refract-router/src/affinity.rs): callers pinned to channels. The map of the bindings is an
-- association list, a time is a number of seconds, and a method reads the clock once, as an argument. Regular
-- expressions, JSON values and the decimal text of a number are the interface `Outside`.
pub mod Match
pub mod Cache
pub mod Bindings
pub mod Accounts
pub mod Lives
pub mod Kept
pub mod Capacity
pub mod CacheKeys
use Prim.Native.String.{◌++◌ as append_text}
use refract.Base.{
  ℕ, zero, suc, ◌+◌, ◌-◌, Bool, true, false, not, ◌&&◌, ◌||◌, List, [], ◌∷◌, Option, none, some,
  String, ◌==◌, leb, ltb, if◌then◌else◌, is_some, is_empty, is_empty_text, any, length, Result, ok,
  err, ◌>>=◌,
}
use refract.Base.Maps.{string_eq, lookup, put, delete, retain_entries}
use refract.Core.Affinity.{
  AffinityKeySource, api_key_id, header, body, AffinityRule, AffinitySettings, effective_ttl_secs,
}

-- What is read of a JSON value.
pub data JsonView : Type 0 where
  text : String → JsonView
  number : String → JsonView
  boolean : Bool → JsonView
  other : JsonView

-- `Regex::new` and `is_match`, `Value::pointer`, and `u64::to_string`.
pub record Outside : Type 1 where
  pub Regex : Type 0
  pub compile : String → Result {0, 0} Regex Unit
  pub is_match : Regex → String → Bool
  pub Json : Type 0
  pub pointer : Json → String → Option Json
  pub view : Json → JsonView
  pub decimal : ℕ → String

-- A binding to a channel.
pub record Entry : Type 0 where
  pub channel_id : ℕ
  pub expires_at : ℕ
  pub last_used : ℕ

pub record AffinityStats : Type 0 where
  pub hits : ℕ
  pub misses : ℕ
  pub records : ℕ
  pub forgets : ℕ
  pub evictions : ℕ
  pub entries : ℕ

pub record AffinityDecision : Type 0 where
  pub rule_name : String
  pub cache_key : String
  pub binding : Option ℕ
  pub skip_retry_on_failure : Bool
  pub ttl_secs : ℕ

module _ (o : Outside) where
  pub record CompiledRule : Type 0 where
    pub name : String
    pub model_re : Option o.Regex
    pub path_re : Option o.Regex
    pub sources : List AffinityKeySource
    pub value_re : Option o.Regex
    pub ttl_secs : ℕ
    pub include_model : Bool
    pub skip_retry_on_failure : Bool

  -- `Inner`.
  pub record AffinityEngine : Type 0 where
    pub enabled : Bool
    pub switch_on_success : Bool
    pub keep_on_channel_disabled : Bool
    pub rules : List CompiledRule
    pub max_entries : ℕ
    pub bindings : List (String × Entry)
    pub stats : AffinityStats

  -- A header's value that is visible text is given by its name.
  pub record AffinityContext : Type 0 where
    pub model : String
    pub path : String
    pub api_key_id : Option ℕ
    pub headers : String → Option String
    pub body : Option o.Json

  abbrev pub no_stats : AffinityStats
  no_stats = record { hits = 0; misses = 0; records = 0; forgets = 0; evictions = 0; entries = 0 }

  -- `AffinityEngine::new`.
  abbrev pub new_engine : AffinityEngine
  new_engine = record {
    enabled = false;
    switch_on_success = false;
    keep_on_channel_disabled = false;
    rules = [];
    max_entries = 0;
    bindings = [];
    stats = no_stats;
  }

  unfoldable pub compile_text : String → Result {0, 0} (Option o.Regex) Unit
  compile_text t =
      if is_empty_text t
      then ok none
      else elim (o.compile t) [ ok re ↦ ok (some re) | err e ↦ err e ]

  unfoldable pub compile_rule : AffinityRule → ℕ → Result {0, 0} CompiledRule Unit
  unfolding compile_text effective_ttl_secs
  compile_rule r default_ttl_secs = do
    model_re ← compile_text r.model_regex
    path_re ← compile_text r.path_regex
    value_re ← compile_text r.value_regex
    ok (record {
      name = r.name;
      model_re = model_re;
      path_re = path_re;
      sources = r.sources;
      value_re = value_re;
      ttl_secs = effective_ttl_secs r default_ttl_secs;
      include_model = r.include_model;
      skip_retry_on_failure = r.skip_retry_on_failure;
    })

  unfoldable pub compile_rules : List AffinityRule → ℕ → List CompiledRule
  unfolding compile_rule
  compile_rules [] ttl = []
  compile_rules (r ∷ rs) ttl =
      let rest = compile_rules rs ttl in
      elim (compile_rule r ttl) [ ok c ↦ c ∷ rest | err e ↦ rest ]

  -- `load`: the bindings and the counts stay.
  unfoldable pub load : AffinitySettings → AffinityEngine → AffinityEngine
  unfolding compile_rules
  load s e = record e {
    enabled = s.enabled;
    switch_on_success = s.switch_on_success;
    keep_on_channel_disabled = s.keep_on_channel_disabled;
    max_entries = s.max_entries;
    rules = compile_rules s.rules s.default_ttl_secs;
  }

  unfoldable pub is_active : AffinityEngine → Bool
  is_active e = e.enabled && not (is_empty e.rules)

  abbrev pub is_body : AffinityKeySource → Bool
  is_body api_key_id = false
  is_body (header h) = false
  is_body (body p) = true

  unfoldable pub needs_body : AffinityEngine → Bool
  unfolding any
  needs_body e = e.enabled && any (λ r. any is_body r.sources) e.rules
