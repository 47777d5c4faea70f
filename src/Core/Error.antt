-- ===== src/Core/Error.antt =====
-- crates/refract-core/src/error.rs: error kinds, their classification, and the gateway error.
-- A `Duration` is its number of seconds. The JSON `details` of an error are left out: nothing that
-- is modelled reads them.
pub mod Classes
use refract.Base.{ℕ, Bool, true, false, Option, none, some, String}
use refract.Core.Protocol.{Protocol}

pub data ErrorKind : Type 0 where
  invalid_request unauthenticated permission_denied not_found : ErrorKind
  payload_too_large rate_limited upstream_error invalid_upstream_response : ErrorKind
  no_available_channel timeout transcode_not_permitted transcode_failed : ErrorKind
  configuration internal : ErrorKind

unfoldable pub status : ErrorKind → ℕ
status invalid_request = 400
status transcode_not_permitted = 400
status unauthenticated = 401
status permission_denied = 403
status not_found = 404
status payload_too_large = 413
status rate_limited = 429
status internal = 500
status transcode_failed = 500
status configuration = 500
status invalid_upstream_response = 500
status upstream_error = 502
status no_available_channel = 503
status timeout = 504

unfoldable pub openai_type : ErrorKind → String
openai_type invalid_request = "invalid_request_error"
openai_type transcode_not_permitted = "invalid_request_error"
openai_type payload_too_large = "invalid_request_error"
openai_type not_found = "invalid_request_error"
openai_type unauthenticated = "authentication_error"
openai_type permission_denied = "permission_error"
openai_type rate_limited = "rate_limit_error"
openai_type upstream_error = "api_error"
openai_type no_available_channel = "api_error"
openai_type timeout = "timeout_error"
openai_type transcode_failed = "internal_server_error"
openai_type configuration = "internal_server_error"
openai_type internal = "internal_server_error"
openai_type invalid_upstream_response = "internal_server_error"

unfoldable pub anthropic_type : ErrorKind → String
anthropic_type invalid_request = "invalid_request_error"
anthropic_type transcode_not_permitted = "invalid_request_error"
anthropic_type unauthenticated = "authentication_error"
anthropic_type permission_denied = "permission_error"
anthropic_type not_found = "not_found_error"
anthropic_type payload_too_large = "request_too_large"
anthropic_type rate_limited = "rate_limit_error"
anthropic_type upstream_error = "api_error"
anthropic_type no_available_channel = "api_error"
anthropic_type timeout = "timeout_error"
anthropic_type transcode_failed = "api_error"
anthropic_type configuration = "api_error"
anthropic_type internal = "api_error"
anthropic_type invalid_upstream_response = "api_error"

unfoldable pub google_status : ErrorKind → String
google_status invalid_request = "INVALID_ARGUMENT"
google_status transcode_not_permitted = "INVALID_ARGUMENT"
google_status unauthenticated = "UNAUTHENTICATED"
google_status permission_denied = "PERMISSION_DENIED"
google_status not_found = "NOT_FOUND"
google_status payload_too_large = "OUT_OF_RANGE"
google_status rate_limited = "RESOURCE_EXHAUSTED"
google_status upstream_error = "INTERNAL"
google_status no_available_channel = "UNAVAILABLE"
google_status timeout = "DEADLINE_EXCEEDED"
google_status transcode_failed = "INTERNAL"
google_status configuration = "INTERNAL"
google_status internal = "INTERNAL"
google_status invalid_upstream_response = "INTERNAL"

-- Another channel may do better.
unfoldable pub is_retryable : ErrorKind → Bool
is_retryable rate_limited = true
is_retryable upstream_error = true
is_retryable timeout = true
is_retryable unauthenticated = true
is_retryable permission_denied = true
is_retryable _ = false

-- Another key of the same channel may do better.
unfoldable pub is_key_failure : ErrorKind → Bool
is_key_failure unauthenticated = true
is_key_failure permission_denied = true
is_key_failure rate_limited = true
is_key_failure _ = false

pub record GatewayError : Type 0 where
  pub kind : ErrorKind
  pub message : String
  pub protocol : Option Protocol
  pub channel_id : Option ℕ
  pub channel_name : Option String
  pub attempts : ℕ
  pub upstream_model : Option String
  pub upstream_body : Option String
  pub upstream_status : Option ℕ
  pub retry_after : Option ℕ
  pub credential_hint : Option String

-- `GatewayError::new`.
unfoldable pub new_error : ErrorKind → String → GatewayError
new_error k m = record {
  kind = k;
  message = m;
  protocol = none;
  channel_id = none;
  channel_name = none;
  attempts = 0;
  upstream_model = none;
  upstream_body = none;
  upstream_status = none;
  retry_after = none;
  credential_hint = none;
}

unfoldable pub with_protocol : Protocol → GatewayError → GatewayError
with_protocol p e = record e { protocol = some p }

unfoldable pub with_channel : ℕ → GatewayError → GatewayError
with_channel c e = record e { channel_id = some c }

unfoldable pub budget_exhausted : GatewayError
unfolding new_error
budget_exhausted = new_error no_available_channel "upstream call budget exhausted"
