-- ===== src/Codec/Messages.antt =====
-- The streams of the protocol Messages (crates/refract-protocol/src/codec/messages.rs): what the encoder and the decoder
-- share.
pub mod Payloads
pub mod Encoder
pub mod Client
pub mod Decoder
pub mod Pieces
pub mod Carries
pub mod RoundTrip
use refract.Base.{ℕ, ltb, Option, none, some, String, if◌then◌else◌}
use refract.Base.Maps.{string_eq}
use refract.Codec.Usage.{Usage}
use refract.Codec.Aggregate.{
  StopReason, stop, max_tokens, stop_sequence, call_tool, content_filter, refused, pause_turn,
  other,
}
use refract.Codec.Json.{Json, num, obj, Fields, end, field, get_field, as_u64}

-- A frame before its payload is printed.
pub record JsonFrame : Type 0 where
  pub event : String
  pub payload : Json

unfoldable pub encode_stop_reason : StopReason → String
encode_stop_reason stop = "end_turn"
encode_stop_reason max_tokens = "max_tokens"
encode_stop_reason stop_sequence = "stop_sequence"
encode_stop_reason call_tool = "tool_use"
encode_stop_reason refused = "refusal"
encode_stop_reason pause_turn = "pause_turn"
encode_stop_reason content_filter = "refusal"
encode_stop_reason other = "end_turn"

unfoldable pub decode_stop_reason : String → StopReason
decode_stop_reason s =
    if string_eq.beq s "end_turn"
    then stop
    else if string_eq.beq s "max_tokens"
    then max_tokens
    else if string_eq.beq s "stop_sequence"
    then stop_sequence
    else if string_eq.beq s "tool_use"
    then call_tool
    else if string_eq.beq s "refusal"
    then refused
    else if string_eq.beq s "pause_turn"
    then pause_turn
    else other

abbrev optional_count : String → ℕ → Fields → Fields
optional_count name n rest = if ltb 0 n then field name (num n) rest else rest

unfoldable pub encode_usage : Usage → Json
encode_usage u = obj (
    field "input_tokens" (num u.input_tokens) (
      field "output_tokens" (num u.output_tokens) (
        optional_count "cache_creation_input_tokens" u.cache_write_tokens
          (optional_count "cache_read_input_tokens" u.cached_input_tokens end))))

abbrev count_or_zero : Option Json → ℕ
count_or_zero none = 0
count_or_zero (some v) = elim (as_u64 v) [ none ↦ 0 | some n ↦ n ]

unfoldable pub decode_usage : Json → Usage
unfolding get_field as_u64
decode_usage v = record {
  input_tokens = count_or_zero (get_field "input_tokens" v);
  output_tokens = count_or_zero (get_field "output_tokens" v);
  cached_input_tokens = count_or_zero (get_field "cache_read_input_tokens" v);
  cache_write_tokens = count_or_zero (get_field "cache_creation_input_tokens" v);
  reasoning_tokens = 0;
}
