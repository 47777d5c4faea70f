-- ===== src/Core/Channel/Config.antt =====
-- The data of a channel (crates/refract-core/src/channel.rs) and the policies that it carries.
use text.Mathlib.Text.{◌==◌ as str_eq}
use refract.Base.{
  ℕ, Bool, true, false, ◌==◌, List, Option, none, some, String, ltb, ◌&&◌, unwrap_or, ℤ, Result, ok,
  err, if◌then◌else◌, is_none,
}
use refract.Core.Protocol.{Protocol, ProtocolSet, empty_set}
use refract.Core.Address.{UpstreamAddress}

pub data ChannelKind : Type 0 where
  single_protocol : Protocol → ChannelKind
  aggregate : ChannelKind

unfoldable pub native_protocol : ChannelKind → Option Protocol
native_protocol (single_protocol p) = some p
native_protocol aggregate = none

pub record TranscodePolicy : Type 0 where
  pub enabled : Bool
  pub accepted : ProtocolSet

abbrev pub disabled_transcode : TranscodePolicy
disabled_transcode = record { enabled = false; accepted = empty_set }

pub data KeyStrategy : Type 0 where
  sticky round_robin random : KeyStrategy

-- `KeyStrategy::as_str` and `KeyStrategy::parse`; an unknown text is the default.
unfoldable pub strategy_text : KeyStrategy → String
strategy_text sticky = "sticky"
strategy_text round_robin = "round_robin"
strategy_text random = "random"

unfoldable pub parse_strategy : String → KeyStrategy
parse_strategy s =
    if str_eq s "sticky" then sticky else if str_eq s "random" then random else round_robin

-- The keys of one request: one key, or a first key with more behind it.
pub data KeyPool : Type 0 where
  single : String → KeyPool
  pool : String → List String → KeyStrategy → KeyPool

pub record ModelEntry : Type 0 where
  pub name : String
  pub upstream : Option String

pub record ChannelEndpoint : Type 0 where
  pub protocol : Protocol
  pub order : ℕ
  pub enabled : Bool
  pub address : UpstreamAddress
  pub credential : Option String
  pub models : List ModelEntry
  pub transcode : TranscodePolicy

pub record EmptyResponseRetryPolicy : Type 0 where
  pub window_secs : ℕ
  pub max_retries : ℕ
  pub reject_nonstandard_200 : Bool

abbrev pub default_retry_policy : EmptyResponseRetryPolicy
default_retry_policy = record { window_secs = 3; max_retries = 5; reject_nonstandard_200 = false }

pub data RetryPolicyError : Type 0 where
  window_too_long too_many_retries : RetryPolicyError

unfoldable pub validate_retry : EmptyResponseRetryPolicy → Result (Unit {0}) RetryPolicyError
validate_retry p =
    if ltb 3600 p.window_secs
    then err window_too_long
    else if ltb 100 p.max_retries
    then err too_many_retries
    else ok tt

unfoldable pub retry_enabled : EmptyResponseRetryPolicy → Bool
retry_enabled p = ltb 0 p.window_secs && ltb 0 p.max_retries

pub record EmptyResponseRetryOverride : Type 0 where
  pub window_secs : Option ℕ
  pub max_retries : Option ℕ

unfoldable pub is_inherited_retry : EmptyResponseRetryOverride → Bool
is_inherited_retry o = is_none o.window_secs && is_none o.max_retries

unfoldable pub resolve_retry :
    EmptyResponseRetryOverride → EmptyResponseRetryPolicy → EmptyResponseRetryPolicy
resolve_retry o global = record {
  window_secs = unwrap_or o.window_secs global.window_secs;
  max_retries = unwrap_or o.max_retries global.max_retries;
  reject_nonstandard_200 = global.reject_nonstandard_200;
}

unfoldable pub validate_override : EmptyResponseRetryOverride → Result (Unit {0}) RetryPolicyError
unfolding validate_retry resolve_retry
validate_override o =
    validate_retry (
      resolve_retry o (record { window_secs = 0; max_retries = 0; reject_nonstandard_200 = false }))

pub data ChannelVisibility : Type 0 where
  shared private : ChannelVisibility

abbrev pub is_shared : ChannelVisibility → Bool
is_shared shared = true
is_shared private = false

abbrev pub owned_by : Option ℕ → ℕ → Bool
owned_by none user = false
owned_by (some u) user = u == user

pub record Channel : Type 0 where
  pub id : ℕ
  pub name : String
  pub kind : ChannelKind
  pub enabled : Bool
  pub priority : ℤ
  pub weight : ℕ
  pub credential : String
  pub credentials : List String
  pub key_strategy : KeyStrategy
  pub address : UpstreamAddress
  pub endpoints : List ChannelEndpoint
  pub timeout_secs : ℕ
  pub proxy : Option String
  pub extra_headers : List (String × String)
  pub empty_response_retry : EmptyResponseRetryOverride
  pub visibility : ChannelVisibility
  pub user_id : Option ℕ
