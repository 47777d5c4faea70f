-- ===== src/Codec/Messages/Payloads.antt =====
-- The payloads of the frames of the protocol Messages (crates/refract-protocol/src/codec/messages.rs,
-- `MessagesStreamEncoder`).
use refract.Base.{ℕ, List, [], ◌∷◌, Option, none, some, String}
use refract.Base.Maps.{nat_eq}
use refract.Codec.Usage.{Usage}
use refract.Codec.Aggregate.{PartKind, text, thinking, tool_use, refusal, StopReason}
use refract.Codec.Json.{Json, null, num, str, arr, obj, nil, Fields, end, field}
use refract.Codec.Messages.{JsonFrame, encode_stop_reason, encode_usage}

abbrev pub one : Json → String → List JsonFrame
one payload event = record { event = event; payload = payload } ∷ []

abbrev pub typed : String → Fields → Json
typed name fs = obj (field "type" (str name) fs)

abbrev pub text_or_null : Option String → Json
text_or_null none = null
text_or_null (some s) = str s

-- The payloads.
unfoldable pub start_payload : String → String → Usage → Json
unfolding encode_usage
start_payload id model usage = typed "message_start" (
    field "message"
      (obj (
        field "id" (str id) (
          field "type" (str "message") (
            field "role" (str "assistant") (
              field "model" (str model) (
                field "content" (arr nil) (
                  field "stop_reason" null
                    (field "stop_sequence" null (field "usage" (encode_usage usage) end)))))))))
      end)

unfoldable pub block_payload : ℕ → Json → Json
block_payload index block =
    typed "content_block_start" (field "index" (num index) (field "content_block" block end))

unfoldable pub empty_block : PartKind → Json
empty_block text = typed "text" (field "text" (str "") end)
empty_block thinking = typed "thinking" (field "thinking" (str "") (field "signature" (str "") end))
empty_block refusal = typed "text" (field "text" (str "") end)
empty_block tool_use =
    typed "tool_use" (field "id" (str "") (field "name" (str "") (field "input" (obj end) end)))

unfoldable pub tool_block_json : String → String → Json
tool_block_json id name =
    typed "tool_use" (field "id" (str id) (field "name" (str name) (field "input" (obj end) end)))

-- The delta's type and its field.
unfoldable pub delta_payload : ℕ → String → String → String → Json
delta_payload index kind name value =
    typed "content_block_delta"
      (field "index" (num index) (field "delta" (typed kind (field name (str value) end)) end))

unfoldable pub stop_payload : ℕ → Json
stop_payload index = typed "content_block_stop" (field "index" (num index) end)

unfoldable pub closing_payload : StopReason → Option String → Usage → Json
unfolding encode_stop_reason encode_usage
closing_payload reason sequence usage = typed "message_delta" (
    field "delta"
      (obj (
        field "stop_reason" (str (encode_stop_reason reason))
          (field "stop_sequence" (text_or_null sequence) end)))
      (field "usage" (encode_usage usage) end))
