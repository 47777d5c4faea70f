-- ===== src/Codec/Messages/Encoder.antt =====
-- The stream encoder of the protocol Messages (crates/refract-protocol/src/codec/messages.rs, `MessagesStreamEncoder`).
-- An operation gives the encoder and the frames that it pushes. The identifiers that the crate uuid draws are a
-- sequence, and `drawn` is how many were taken.
use Prim.Native.String.{◌++◌ as append_text}
use refract.Base.{
  ℕ, ◌+◌, ◌==◌, Bool, true, false, ◌&&◌, List, [], ◌∷◌, ◌++◌, Option, none, some, String,
  is_empty_text, option_or, if◌then◌else◌,
}
use refract.Base.Maps.{nat_eq, lookup}
use refract.Codec.Usage.{Usage, no_usage, merge_max}
use refract.Codec.Aggregate.{
  PartKind, text, thinking, tool_use, refusal, StopReason, stop, StreamEvent, start, content_start,
  text_delta, thinking_delta, thinking_signature, refusal_delta, tool_call_start,
  tool_call_args_delta, content_stop, usage_update, stop_event, done, error_event, ping,
}
use refract.Codec.Json.{Json, str, obj, end, field}
use refract.Codec.Messages.{JsonFrame}
use refract.Codec.Messages.Payloads.{
  one, typed, start_payload, block_payload, empty_block, tool_block_json, delta_payload,
  stop_payload, closing_payload,
}

unfoldable pub part_eq : PartKind → PartKind → Bool
part_eq text text = true
part_eq thinking thinking = true
part_eq tool_use tool_use = true
part_eq refusal refusal = true
part_eq _ _ = false

pub record MessagesStreamEncoder : Type 0 where
  pub started : Bool
  pub id : String
  pub model : String
  pub input_usage : Usage
  pub remap : List (ℕ × ℕ)
  pub open_part : Option (ℕ × PartKind)
  pub next_index : ℕ
  pub usage : Usage
  pub stop_reason : Option StopReason
  pub stop_text : Option String
  pub finished : Bool
  pub drawn : ℕ

abbrev pub new_encoder : MessagesStreamEncoder
new_encoder = record {
  started = false;
  id = "";
  model = "";
  input_usage = no_usage;
  remap = [];
  open_part = none;
  next_index = 0;
  usage = no_usage;
  stop_reason = none;
  stop_text = none;
  finished = false;
  drawn = 0;
}

abbrev pub Pushed : Type 0
Pushed = MessagesStreamEncoder × List JsonFrame

module _ (draws : ℕ → String) where
  unfoldable pub ensure_started : MessagesStreamEncoder → Pushed
  unfolding start_payload
  ensure_started s =
      if s.started
      then (s, [])
      else (let drawn = is_empty_text s.id in
          let id = if drawn then append_text "msg_" (draws s.drawn) else s.id in
          (
            record s { started = true; id = id; drawn = if drawn then s.drawn + 1 else s.drawn },
            one (start_payload id s.model s.input_usage) "message_start",
          ))

  unfoldable pub anth_index : ℕ → MessagesStreamEncoder → ℕ × MessagesStreamEncoder
  unfolding lookup
  anth_index ir s = elim (lookup ir s.remap) [
    | some mapped ↦ (mapped, s)
    | none ↦ (
      s.next_index,
      record s { next_index = s.next_index + 1; remap = s.remap ++ (ir, s.next_index) ∷ [] },
    )
  ]

  unfoldable pub close_open : MessagesStreamEncoder → Pushed
  unfolding stop_payload
  close_open s = elim s.open_part [
    | none ↦ (s, [])
    | some (index, kind) ↦
        (record s { open_part = none }, one (stop_payload index) "content_block_stop")
  ]

  -- The block that is pushed once the frames before it were.
  unfoldable pub push_block : ℕ → PartKind → Json → Pushed → Pushed
  unfolding block_payload
  push_block index kind block (s, fs) = (
    record s { open_part = some (index, kind) },
    fs ++ one (block_payload index block) "content_block_start",
  )

  abbrev pub is_open : ℕ → PartKind → Option (ℕ × PartKind) → Bool
  is_open index kind none = false
  is_open index kind (some (i, k)) = i == index && part_eq k kind

  abbrev pub behind : List JsonFrame → Pushed → Pushed
  behind fs (s, gs) = (s, fs ++ gs)

  unfoldable pub open_block : ℕ → PartKind → MessagesStreamEncoder → ℕ × Pushed
  unfolding ensure_started anth_index close_open push_block empty_block part_eq
  open_block ir kind s =
      let (s1, fs) = ensure_started s in
      let (index, s2) = anth_index ir s1 in
      if is_open index kind s2.open_part
      then (index, (s2, fs))
      else (index, behind fs (push_block index kind (empty_block kind) (close_open s2)))

  unfoldable pub open_tool_block : ℕ → String → String → MessagesStreamEncoder → ℕ × Pushed
  unfolding ensure_started anth_index close_open push_block tool_block_json
  open_tool_block ir id name s =
      let (s1, fs) = ensure_started s in
      let (index, s2) = anth_index ir s1 in
      let (s3, gs) = close_open s2 in
      let drawn = is_empty_text id in
      let id' = if drawn then append_text "toolu_" (draws s3.drawn) else id in
      let s4 = record s3 { drawn = if drawn then s3.drawn + 1 else s3.drawn } in
      (index, behind fs (push_block index tool_use (tool_block_json id' name) (s4, gs)))

  unfoldable pub wrap_up : MessagesStreamEncoder → Pushed
  unfolding ensure_started close_open closing_payload
  wrap_up s =
      if s.finished
      then (s, [])
      else (let (s1, fs) = ensure_started (record s { finished = true }) in
          let (s2, gs) = close_open s1 in
          (
            s2,
            fs
                ++ (gs
                    ++ (one
                          (closing_payload (elim s2.stop_reason [ none ↦ stop | some r ↦ r ])
                            s2.stop_text s2.usage)
                          "message_delta"
                        ++ one (typed "message_stop" end) "message_stop")),
          ))

  -- A delta of the block that an operation opens.
  unfoldable pub push_delta : String → String → String → ℕ × Pushed → Pushed
  unfolding delta_payload
  push_delta kind name value (index, (s, fs)) =
      (s, fs ++ one (delta_payload index kind name value) "content_block_delta")

  unfoldable pub encode_start : String → String → Option Usage → MessagesStreamEncoder → Pushed
  unfolding ensure_started
  encode_start id model usage s = ensure_started (
      if s.started then s else (elim usage [
        | none ↦ record s { id = id; model = model }
        | some u ↦ record s { id = id; model = model; input_usage = u; usage = u }
      ]))

  unfoldable pub encode_args : ℕ → String → MessagesStreamEncoder → Pushed
  unfolding anth_index open_tool_block push_delta part_eq
  encode_args ir fragment s =
      let (mapped, s1) = anth_index ir s in
      push_delta "input_json_delta" "partial_json" fragment (
        if is_open mapped tool_use s1.open_part
        then (mapped, (s1, []))
        else open_tool_block ir "" "" s1)

  abbrev pub is_at : ℕ → Option (ℕ × PartKind) → Bool
  is_at index none = false
  is_at index (some (i, k)) = i == index

  unfoldable pub encode_content_stop : ℕ → MessagesStreamEncoder → Pushed
  unfolding anth_index close_open
  encode_content_stop ir s =
      let (index, s1) = anth_index ir s in
      if is_at index s1.open_part then close_open s1 else (s1, [])

  -- `encode` of an encoder that has not finished.
  unfoldable pub encode_event : StreamEvent → MessagesStreamEncoder → Pushed
  unfolding encode_start open_block push_delta open_tool_block encode_args encode_content_stop
      wrap_up merge_max part_eq
  encode_event (start id model usage) s = encode_start id model usage s
  encode_event (content_start ir kind) s =
      if part_eq kind tool_use then (s, []) else (open_block ir kind s).1
  encode_event (text_delta ir t) s = push_delta "text_delta" "text" t (open_block ir text s)
  encode_event (refusal_delta ir t) s = push_delta "text_delta" "text" t (open_block ir refusal s)
  encode_event (thinking_delta ir t) s =
      push_delta "thinking_delta" "thinking" t (open_block ir thinking s)
  encode_event (thinking_signature ir t) s =
      push_delta "signature_delta" "signature" t (open_block ir thinking s)
  encode_event (tool_call_start ir id name signature) s = (open_tool_block ir id name s).1
  encode_event (tool_call_args_delta ir fragment) s = encode_args ir fragment s
  encode_event (content_stop ir) s = encode_content_stop ir s
  encode_event (usage_update u) s = (record s { usage = merge_max s.usage u }, [])
  encode_event (stop_event reason sequence) s =
      (record s { stop_reason = some reason; stop_text = option_or sequence s.stop_text }, [])
  encode_event done s = wrap_up s
  encode_event ping s = (s, one (typed "ping" end) "ping")
  encode_event (error_event message kind) s = (
    record s { finished = true },
    one
        (typed "error"
          (field "error" (obj (field "type" (str kind) (field "message" (str message) end))) end))
        "error",
  )

  unfoldable pub encode : StreamEvent → MessagesStreamEncoder → Pushed
  unfolding encode_event
  encode e s = if s.finished then (s, []) else encode_event e s

  -- `finish`, behind the events of a stream.
  unfoldable pub encode_all : List StreamEvent → MessagesStreamEncoder → Pushed
  unfolding encode wrap_up
  encode_all [] s = wrap_up s
  encode_all (e ∷ es) s = let (s', fs) = encode e s in behind fs (encode_all es s')
