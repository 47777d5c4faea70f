-- ===== src/Core/Address/Resolve.antt =====
-- From an address to a URL (crates/refract-core/src/address.rs, `UpstreamAddress::resolve`). The crate `url` is the
-- interface `Urls`.
use refract.Base.{
  Bool, true, false, not, ◌&&◌, [], ◌∷◌, Option, none, some, String, if◌then◌else◌, is_empty_text,
  trim, Result, ok, err, ◌>>=◌, map_err, unwrap_or,
}
use refract.Core.Protocol.{
  Protocol, chat, messages, gemini, protocol_eq, default_base_url, default_version_prefix,
  default_path,
}
use refract.Core.Address.{UpstreamAddress}
use refract.Core.Address.Paths.{
  contains_text, replace_text, join_segments, default_models_path, path_looks_native, trim_slashes,
  ends_with,
}

pub data PassKind : Type 0 where
  embeddings completions images image_edits audio_speech audio_transcriptions audio_translations :
      PassKind
  moderations rerank count_tokens gemini_count_tokens gemini_embed gemini_batch_embed : PassKind

pub data Action : Type 0 where
  generate stream list_models : Action
  passthrough : PassKind → Action

-- `PassKind::protocol`, `default_path`, `path_suffix` and `gemini_verb`.
unfoldable pub pass_protocol : PassKind → Protocol
pass_protocol count_tokens = messages
pass_protocol gemini_count_tokens = gemini
pass_protocol gemini_embed = gemini
pass_protocol gemini_batch_embed = gemini
pass_protocol _ = chat

unfoldable pub pass_path : PassKind → String
pass_path embeddings = "/embeddings"
pass_path completions = "/completions"
pass_path images = "/images/generations"
pass_path image_edits = "/images/edits"
pass_path audio_speech = "/audio/speech"
pass_path audio_transcriptions = "/audio/transcriptions"
pass_path audio_translations = "/audio/translations"
pass_path moderations = "/moderations"
pass_path rerank = "/rerank"
pass_path count_tokens = "/messages/count_tokens"
pass_path gemini_count_tokens = "/models/{model}:{action}"
pass_path gemini_embed = "/models/{model}:{action}"
pass_path gemini_batch_embed = "/models/{model}:{action}"

unfoldable pub path_suffix : PassKind → String
unfolding pass_path
path_suffix gemini_count_tokens = ":countTokens"
path_suffix gemini_embed = ":embedContent"
path_suffix gemini_batch_embed = ":batchEmbedContents"
path_suffix kind = pass_path kind

unfoldable pub pass_verb : PassKind → String
pass_verb gemini_count_tokens = "countTokens"
pass_verb gemini_embed = "embedContent"
pass_verb gemini_batch_embed = "batchEmbedContents"
pass_verb _ = ""

-- `Action::gemini_verb`.
unfoldable pub gemini_verb : Action → String
unfolding pass_verb
gemini_verb generate = "generateContent"
gemini_verb stream = "streamGenerateContent"
gemini_verb list_models = ""
gemini_verb (passthrough kind) = pass_verb kind

unfoldable pub default_path_for : Protocol → Action → String
unfolding pass_path
default_path_for protocol list_models = default_models_path protocol
default_path_for protocol (passthrough kind) = pass_path kind
default_path_for protocol generate = default_path protocol
default_path_for protocol stream = default_path protocol

unfoldable pub substitute_placeholders : String → Action → String → String
unfolding contains_text replace_text gemini_verb
substitute_placeholders raw action model =
    if not (contains_text raw "{")
    then raw
    else replace_text "{action}" (gemini_verb action) (replace_text "{model}" model raw)

-- `Url::parse`, its path, whether a query pair has a key, and a pair more.
pub record Urls : Type 1 where
  pub Url : Type 0
  pub parse : String → Result {0, 0} Url String
  pub path : Url → String
  pub has_query_key : Url → String → Bool
  pub append_pair : Url → String → String → Url

pub data AddressError : Type 0 where
  missing_base_url missing_full_address : AddressError
  invalid_url : String → String → AddressError
  protocol_mismatch : String → Protocol → AddressError

-- A text that is given and not blank, trimmed.
unfoldable pub given : Option String → Option String
unfolding trim
given none = none
given (some s) = if is_empty_text (trim s) then none else some (trim s)

abbrev pub is_stream : Action → Bool
is_stream stream = true
is_stream _ = false

-- `Option::ok_or`.
abbrev pub ok_or {ℓ} : {A : Type ℓ} → Option A → AddressError → Result {ℓ, 0} A AddressError
ok_or none e = err e
ok_or (some a) e = ok a

unfoldable pub custom_path : UpstreamAddress → Protocol → Action → String
unfolding given default_path_for
custom_path a protocol list_models = default_path_for protocol list_models
custom_path a protocol (passthrough kind) = default_path_for protocol (passthrough kind)
custom_path a protocol generate = unwrap_or (given a.path) (default_path_for protocol generate)
custom_path a protocol stream = unwrap_or (given a.path) (default_path_for protocol stream)

module _ (w : Urls) where
  unfoldable pub parse_url : String → Result w.Url AddressError
  parse_url raw = map_err (invalid_url raw) (w.parse raw)

  unfoldable pub append_gemini_sse_query : w.Url → Protocol → Action → w.Url
  append_gemini_sse_query url protocol action =
      if not (protocol_eq protocol gemini && is_stream action)
      then url
      else if w.has_query_key url "alt"
      then url
      else w.append_pair url "alt" "sse"

  unfoldable pub path_ok : w.Url → Protocol → Action → Bool
  unfolding path_suffix
  path_ok url protocol list_models = true
  path_ok url protocol (passthrough kind) = ends_with (trim_slashes (w.path url)) (path_suffix kind)
  path_ok url protocol generate = path_looks_native protocol (w.path url)
  path_ok url protocol stream = path_looks_native protocol (w.path url)

  unfoldable pub build_official : Protocol → Action → String → Result w.Url AddressError
  unfolding parse_url append_gemini_sse_query substitute_placeholders default_path_for
  build_official protocol action model = do
    let joined =
        join_segments (default_base_url protocol)
          (default_version_prefix protocol ∷ default_path_for protocol action ∷ [])
    url ← parse_url (substitute_placeholders joined action model)
    ok (append_gemini_sse_query url protocol action)

  -- The check of the path and the query behind it.
  unfoldable pub checked : Protocol → Action → w.Url → Result w.Url AddressError
  unfolding path_ok append_gemini_sse_query
  checked protocol action url =
      if not (path_ok url protocol action)
      then err (protocol_mismatch (w.path url) protocol)
      else ok (append_gemini_sse_query url protocol action)

  unfoldable pub custom_url : UpstreamAddress → Protocol → Action → String → String → String
  unfolding given custom_path substitute_placeholders
  custom_url a protocol action model base =
      let prefix = unwrap_or (given a.version_prefix) (default_version_prefix protocol) in
      substitute_placeholders (join_segments base (prefix ∷ custom_path a protocol action ∷ []))
        action model

  -- `UpstreamAddress::resolve`.
  unfoldable pub resolve : UpstreamAddress → Protocol → Action → String → Result w.Url AddressError
  unfolding build_official given parse_url checked custom_url substitute_placeholders
  resolve a protocol action model =
      if not a.unofficial
      then build_official protocol action model
      else if a.full_address
      then (ok_or (given a.base_url) missing_full_address >>= λ raw.
          parse_url (substitute_placeholders raw action model))
      else ok_or (given a.base_url) missing_base_url >>= λ base.
          parse_url (custom_url a protocol action model base) >>= λ url. checked protocol action url
