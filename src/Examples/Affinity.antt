-- ===== src/Examples/Affinity.antt =====
-- The theorems of channel affinity at concrete rules and engines.
use refract.Base.{
  ◌≤◌, max, List, inr, [], ◌∷◌, some, none, true, false, ok, String, ◌≡◌, ◌↔◌, refl, arith, length,
}
use refract.Base.Maps.{string_eq}
use refract.Core.Affinity.{
  AffinityRule, AffinitySettings, api_key_id, validate, regex_syntax_lite, default_settings,
}
use refract.Core.Affinity.Patterns.{IsBalanced, regex_syntax_lite_iff}
use refract.Core.Affinity.Validity.{IsValid, validate_iff}
use refract.Router.Affinity.{
  Outside, other, AffinityContext, AffinityEngine, AffinityDecision, new_engine, load,
}
use refract.Router.Affinity.Match.{build_cache_key}
use refract.Router.Affinity.Cache.{resolve, record_winner, may_bind}
use refract.Router.Affinity.Accounts.{
  IsSound, run, Call, load_rules, resolve_at, forget_all_of, stats_at, run-IsSound,
}
use refract.Router.Affinity.Kept.{AllLeave, resolve-record_winner}
use refract.Router.Affinity.Capacity.{record_winner-length}
use refract.Router.Affinity.CacheKeys.{HasNoNul, build_cache_key_inj}

abbrev rule : AffinityRule
rule = record {
  name = "by-key";
  model_regex = "";
  path_regex = "(v1)";
  sources = api_key_id ∷ [];
  value_regex = "";
  ttl_secs = some 60;
  include_model = true;
  skip_retry_on_failure = false;
}

abbrev settings : AffinitySettings
settings = record default_settings { enabled = true; max_entries = 1; rules = rule ∷ [] }

-- Every expression matches, no JSON value is read, and every number is "7".
abbrev outside : Outside
outside = record {
  Regex = Unit {0};
  compile = λ s. ok tt;
  is_match = λ re s. true;
  Json = Unit {0};
  pointer = λ j p. none;
  view = λ j. other;
  decimal = λ n. "7";
}

abbrev request : AffinityContext outside
request = record {
  model = "gpt";
  path = "/v1";
  api_key_id = some 7;
  headers = λ name. none;
  body = none;
}

abbrev engine : AffinityEngine outside
engine = load outside settings (new_engine outside)

abbrev decision : AffinityDecision
decision = record {
  rule_name = "by-key";
  cache_key = build_cache_key "by-key" true "gpt" "7";
  binding = none;
  skip_retry_on_failure = false;
  ttl_secs = 60;
}

abbrev behind : AffinityEngine outside
behind = (resolve 100 request engine).1

decided : resolve 100 request engine ≡ (some decision, behind)
unfolding resolve load
decided = refl

binds : may_bind behind decision.cache_key 3 ≡ true
unfolding may_bind resolve load
binds = refl

-- The statistics, the end of another channel and the request itself.
abbrev between : List (Call outside)
between = stats_at 120 ∷ forget_all_of 9 ∷ resolve_at 130 request ∷ []

left_alone : AllLeave decision.cache_key 3 160 (record_winner 100 decision 3 behind) between
unfolding AllLeave run record_winner resolve load
left_alone = (omega arith, ((λ e. ground (arith, e)), ((omega arith, inr (omega arith)), tt)))

resolve-record_winner_example :
    (resolve 159 request (run outside between (record_winner 100 decision 3 behind))).0
    ≡ some (record decision { binding = some 3 })
resolve-record_winner_example =
    resolve-record_winner 100 100 159 request engine decision behind 3 between decided binds
      left_alone (omega arith)

validate_iff_example : (validate settings ≡ ok tt) ↔ IsValid settings
validate_iff_example = validate_iff settings

regex_syntax_lite_iff_example : (regex_syntax_lite ")(" ≡ ok tt) ↔ IsBalanced ")("
regex_syntax_lite_iff_example = regex_syntax_lite_iff ")("

run-IsSound_example :
    IsSound (run outside (load_rules settings ∷ resolve_at 100 request ∷ []) (new_engine outside))
run-IsSound_example = run-IsSound outside (load_rules settings ∷ resolve_at 100 request ∷ [])

engine_room : 1 ≤ engine.max_entries
unfolding load
engine_room = omega arith

no_nul_name : HasNoNul "by-key"
unfolding HasNoNul
no_nul_name =
    ((λ e. cc e), ((λ e. cc e), ((λ e. cc e), ((λ e. cc e), ((λ e. cc e), ((λ e. cc e), tt))))))

no_nul_gpt : HasNoNul "gpt"
unfolding HasNoNul
no_nul_gpt = ((λ e. cc e), ((λ e. cc e), ((λ e. cc e), tt)))

engine-IsSound : IsSound engine
unfolding load
engine-IsSound = (tt, omega arith)

record_winner-length_example :
    length (record_winner 100 decision 3 engine).bindings
    ≤ max engine.max_entries (length engine.bindings)
record_winner-length_example = record_winner-length 100 decision 3 engine engine-IsSound engine_room

abbrev caller : String
caller = "7"

build_cache_key_inj_example :
    (rule.name ≡ rule.name) × (caller ≡ caller) × ((true ≡ true) → request.model ≡ request.model)
build_cache_key_inj_example =
    build_cache_key_inj rule.name rule.name true request.model request.model caller caller
      no_nul_name no_nul_name no_nul_gpt no_nul_gpt refl
