-- ===== src/Router/Affinity/Match.antt =====
-- From a request to the key of its binding (crates/refract-router/src/affinity.rs, the first part of `resolve`).
use Prim.Native.String.{◌++◌ as append_text}
use refract.Base.{
  Bool, true, false, not, ◌||◌, List, [], ◌∷◌, Option, none, some, String, if◌then◌else◌,
  is_empty_text,
}
use refract.Base.Maps.{string_eq}
use refract.Core.Affinity.{AffinityKeySource, api_key_id, header, body}
use refract.Router.Affinity.{
  Outside, JsonView, text, number, boolean, other, AffinityDecision, CompiledRule, AffinityContext,
}

-- NUL.
abbrev pub nul : String
nul = "\0"

unfoldable pub build_cache_key : String → Bool → String → String → String
build_cache_key rule_name true model value =
    append_text rule_name (append_text nul (append_text model (append_text nul value)))
build_cache_key rule_name false model value =
    append_text rule_name (append_text nul (append_text nul value))

abbrev pub bool_text : Bool → String
bool_text true = "true"
bool_text false = "false"

abbrev pub nonempty_text : String → Option String
nonempty_text s = if is_empty_text s then none else some s

unfoldable pub scalar_text : JsonView → Option String
scalar_text (text s) = nonempty_text s
scalar_text (number s) = some s
scalar_text (boolean b) = some (bool_text b)
scalar_text other = none

module _ (o : Outside) where
  unfoldable pub json_pointer_scalar : o.Json → String → Option String
  unfolding scalar_text
  json_pointer_scalar j p =
      if is_empty_text p
      then none
      else elim (o.pointer j p) [ none ↦ none | some v ↦ scalar_text (o.view v) ]

  unfoldable pub source_value : AffinityContext o → AffinityKeySource → Option String
  unfolding json_pointer_scalar
  source_value ctx api_key_id = elim ctx.api_key_id [ none ↦ none | some id ↦ some (o.decimal id) ]
  source_value ctx (header h) = elim (ctx.headers h) [ none ↦ none | some v ↦ nonempty_text v ]
  source_value ctx (body p) = elim ctx.body [ none ↦ none | some j ↦ json_pointer_scalar j p ]

  unfoldable pub extract_value : List AffinityKeySource → AffinityContext o → Option String
  unfolding source_value
  extract_value [] ctx = none
  extract_value (s ∷ ss) ctx =
      let rest = extract_value ss ctx in elim (source_value ctx s) [ none ↦ rest | some v ↦ some v ]

  -- A missing expression matches everything.
  unfoldable pub matches : Option o.Regex → String → Bool
  matches none s = true
  matches (some re) s = o.is_match re s

  unfoldable pub match_rule : AffinityContext o → CompiledRule o → Option AffinityDecision
  unfolding matches extract_value build_cache_key
  match_rule ctx r =
      if not (matches r.model_re ctx.model) || not (matches r.path_re ctx.path)
      then none
      else elim (extract_value r.sources ctx) [
        | none ↦ none
        | some value ↦
            if not (matches r.value_re value)
            then none
            else some (record {
              rule_name = r.name;
              cache_key = build_cache_key r.name r.include_model ctx.model value;
              binding = none;
              skip_retry_on_failure = r.skip_retry_on_failure;
              ttl_secs = r.ttl_secs;
            })
      ]

  unfoldable pub find_match : AffinityContext o → List (CompiledRule o) → Option AffinityDecision
  unfolding match_rule
  find_match ctx [] = none
  find_match ctx (r ∷ rs) =
      let rest = find_match ctx rs in elim (match_rule ctx r) [ none ↦ rest | some d ↦ some d ]
