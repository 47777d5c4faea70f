-- ===== src/Codec/Messages/Decoder.antt =====
-- The stream decoder of the protocol Messages (crates/refract-protocol/src/codec/messages.rs, `MessagesStreamDecoder`). It
-- never fails, so what it gives is the list of the events. A frame's event and payload are texts.
use refract.Base.{
  ℕ, ◌-◌, ◌^◌, min, ◌==◌, Bool, true, false, ◌||◌, List, [], ◌∷◌, ◌++◌, Option, none, some, String,
  is_empty_text, trim, any, if◌then◌else◌,
}
use refract.Base.Maps.{string_eq}
use refract.Codec.Usage.{Usage}
use refract.Codec.Aggregate.{
  PartKind, text, thinking, tool_use, StreamEvent, start, content_start, text_delta, thinking_delta,
  thinking_signature, tool_call_start, tool_call_args_delta, content_stop, usage_update, stop_event,
  done, error_event, ping,
}
use refract.Codec.Json.{Json, JsonText, get_field, as_str, as_u64}
use refract.Codec.Messages.{JsonFrame, decode_usage, decode_stop_reason}

pub record TextFrame : Type 0 where
  pub event : Option String
  pub payload : String

pub record MessagesStreamDecoder : Type 0 where
  pub started : List ℕ
  pub is_done : Bool

abbrev pub new_decoder : MessagesStreamDecoder
new_decoder = record { started = []; is_done = false }

abbrev pub Decoded : Type 0
Decoded = List StreamEvent × MessagesStreamDecoder

-- `and_then(|v| v.get(name))` and `and_then(Value::as_str)`.
abbrev field_of : String → Option Json → Option Json
field_of name none = none
field_of name (some v) = get_field name v

abbrev text_of : Option Json → Option String
text_of none = none
text_of (some v) = as_str v

abbrev or_default : String → Option String → String
or_default d none = d
or_default d (some s) = s

unfoldable pub block_index : Json → ℕ
unfolding get_field as_u64
block_index v = elim (get_field "index" v) [
  | none ↦ 0
  | some i ↦ elim (as_u64 i) [ none ↦ 0 | some n ↦ min n (2 ^ 32 - 1) ]
]

unfoldable pub decoder_ensure_started : ℕ → PartKind → StreamEvent → MessagesStreamDecoder → Decoded
unfolding any
decoder_ensure_started index kind event d =
    if any (λ i. i == index) d.started
    then (event ∷ [], d)
    else (content_start index kind ∷ event ∷ [], record d { started = d.started ++ index ∷ [] })

unfoldable pub decode_kind : Option String → PartKind
decode_kind none = text
decode_kind (some t) =
    if string_eq.beq t "thinking" || string_eq.beq t "redacted_thinking"
    then thinking
    else if string_eq.beq t "tool_use" || string_eq.beq t "server_tool_use"
    then tool_use
    else text

-- Text that a block starts with.
abbrev initial : (String → StreamEvent) → Option String → List StreamEvent
initial event none = []
initial event (some t) = if is_empty_text t then [] else event t ∷ []

abbrev call_start : PartKind → StreamEvent → List StreamEvent
call_start tool_use event = event ∷ []
call_start _ event = []

unfoldable pub decode_block : Json → MessagesStreamDecoder → Decoded
unfolding block_index decode_kind get_field as_str any
decode_block v d =
    let index = block_index v in
    let block = get_field "content_block" v in
    let kind = decode_kind (text_of (field_of "type" block)) in
    let id = or_default "" (text_of (field_of "id" block)) in
    let name = or_default "" (text_of (field_of "name" block)) in
    (
      content_start index kind
          ∷ (call_start kind (tool_call_start index id name none)
              ++ (initial (text_delta index) (text_of (field_of "text" block))
                  ++ initial (thinking_delta index) (text_of (field_of "thinking" block)))),
      if any (λ i. i == index) d.started then d else record d { started = d.started ++ index ∷ [] },
    )

unfoldable pub decode_delta : Json → MessagesStreamDecoder → Decoded
unfolding block_index decoder_ensure_started get_field as_str
decode_delta v d =
    let index = block_index v in
    let delta = get_field "delta" v in
    let kind = or_default "" (text_of (field_of "type" delta)) in
    let value = λ (name : String). or_default "" (text_of (field_of name delta)) in
    if string_eq.beq kind "text_delta"
    then decoder_ensure_started index text (text_delta index (value "text")) d
    else if string_eq.beq kind "thinking_delta"
    then decoder_ensure_started index thinking (thinking_delta index (value "thinking")) d
    else if string_eq.beq kind "signature_delta"
    then decoder_ensure_started index thinking (thinking_signature index (value "signature")) d
    else if string_eq.beq kind "input_json_delta"
    then decoder_ensure_started index tool_use (tool_call_args_delta index (value "partial_json")) d
    else ([], d)

abbrev usage_of : Option Json → List StreamEvent
usage_of none = []
usage_of (some u) = usage_update (decode_usage u) ∷ []

abbrev stop_of : Option String → Option String → List StreamEvent
stop_of none sequence = []
stop_of (some r) sequence = stop_event (decode_stop_reason r) sequence ∷ []

abbrev start_usage : Option Json → Option Usage
start_usage none = none
start_usage (some u) = some (decode_usage u)

-- The events of a frame whose payload is JSON, by the name of the event.
unfoldable pub decode_value : String → Json → MessagesStreamDecoder → Decoded
unfolding decode_block decode_delta block_index get_field as_str
decode_value event v d =
    if string_eq.beq event "message_start"
    then (let message = get_field "message" v in
        (
          start (or_default "" (text_of (field_of "id" message)))
                (or_default "" (text_of (field_of "model" message)))
                (start_usage (field_of "usage" message))
              ∷ [],
          d,
        ))
    else if string_eq.beq event "content_block_start"
    then decode_block v d
    else if string_eq.beq event "content_block_delta"
    then decode_delta v d
    else if string_eq.beq event "content_block_stop"
    then (content_stop (block_index v) ∷ [], d)
    else if string_eq.beq event "message_delta"
    then (let delta = get_field "delta" v in
        (
          usage_of (get_field "usage" v)
              ++ stop_of (text_of (field_of "stop_reason" delta))
                  (text_of (field_of "stop_sequence" delta)),
          d,
        ))
    else if string_eq.beq event "message_stop"
    then (done ∷ [], record d { is_done = true })
    else if string_eq.beq event "ping"
    then (ping ∷ [], d)
    else if string_eq.beq event "error"
    then (let e = get_field "error" v in
        (
          error_event (or_default "upstream stream error" (text_of (field_of "message" e)))
                (or_default "api_error" (text_of (field_of "type" e)))
              ∷ [],
          d,
        ))
    else ([], d)

abbrev event_name : Option String → Json → String
event_name none v = or_default "" (text_of (get_field "type" v))
event_name (some e) v = e

module _ (j : JsonText) where
  unfoldable pub decode : TextFrame → MessagesStreamDecoder → Decoded
  unfolding trim decode_value get_field as_str
  decode f d =
      let payload = trim f.payload in
      if is_empty_text payload
      then ([], d)
      else if string_eq.beq payload "[DONE]"
      then (if d.is_done then ([], d) else (done ∷ [], record d { is_done = true }))
      else (elim (j.parse payload) [
        | none ↦ ([], d)
        | some v ↦ decode_value (event_name f.event v) v d
      ])

  -- `finish`, behind the frames of a stream.
  unfoldable pub decode_all : List TextFrame → MessagesStreamDecoder → List StreamEvent
  unfolding decode
  decode_all [] d = if d.is_done then [] else done ∷ []
  decode_all (f ∷ fs) d = let (es, d') = decode f d in es ++ decode_all fs d'

-- `SseFrame::named` of a payload that is printed.
unfoldable pub named : JsonText → JsonFrame → TextFrame
named j f = record { event = some f.event; payload = j.print f.payload }
