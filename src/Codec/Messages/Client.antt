-- ===== src/Codec/Messages/Client.antt =====
-- What the clients of the protocol Messages accept (the frames of crates/refract-protocol/src/codec/messages.rs,
-- `MessagesStreamEncoder`).
pub mod Blocks
pub mod Ends
pub mod Events
use Prim.Native.String.{◌++◌ as append_text}
use refract.Base.{
  ap₂, if_cases, option_or, ℕ, ◌+◌, ◌==◌, ◌≡◌, refl, sym, ap, subst, ◌∙◌, arith, Bool, true, false,
  List, [], ◌∷◌, ◌++◌, Option, none, some, String, if◌then◌else◌, Bool-cases, Option-cases, inl,
  inr, is_empty_text,
}
use refract.Base.Maps.{string_eq, nat_eq, lookup, beq_refl}
use refract.Codec.Usage.{Usage, merge_max}
use refract.Codec.Aggregate.{
  PartKind, stop, text, thinking, tool_use, refusal, StreamEvent, start, content_start, text_delta,
  thinking_delta, thinking_signature, refusal_delta, tool_call_start, tool_call_args_delta,
  content_stop, usage_update, stop_event, done, error_event, ping, StopReason,
}
use refract.Codec.Json.{Json, get_field, as_u64, obj, field, end, str}
use refract.Codec.Messages.{JsonFrame}
use refract.Codec.Messages.Encoder.{
  MessagesStreamEncoder, new_encoder, Pushed, behind, part_eq, ensure_started, anth_index,
  close_open, push_block, open_block, open_tool_block, wrap_up, push_delta, encode_start,
  encode_args, encode_content_stop, encode_event, encode, encode_all, is_open, is_at,
}
use refract.Codec.Messages.Payloads.{
  one, block_payload, delta_payload, stop_payload, start_payload, closing_payload, empty_block,
  tool_block_json,
}

-- Where a client is: before the message, between blocks, in a block, behind the last delta, and behind the end.
pub data ClientState : Type 0 where
  before : ClientState
  between : ClientState
  inside : ℕ → ClientState
  closing : ClientState
  ended : ClientState

pub data FrameKind : Type 0 where
  starts opens deltas closes concludes stops pings fails unknown : FrameKind

unfoldable pub kind_of : String → FrameKind
kind_of e =
    if string_eq.beq e "message_start"
    then starts
    else if string_eq.beq e "content_block_start"
    then opens
    else if string_eq.beq e "content_block_delta"
    then deltas
    else if string_eq.beq e "content_block_stop"
    then closes
    else if string_eq.beq e "message_delta"
    then concludes
    else if string_eq.beq e "message_stop"
    then stops
    else if string_eq.beq e "ping"
    then pings
    else if string_eq.beq e "error"
    then fails
    else unknown

unfoldable pub index_of : Json → Option ℕ
unfolding get_field as_u64
index_of v = elim (get_field "index" v) [ none ↦ none | some i ↦ as_u64 i ]

-- One message, whose blocks are opened and closed one after another, with the deltas of a block inside it. A ping may
-- come at any time before the end, an error ends the stream.
unfoldable pub move : FrameKind → Option ℕ → ClientState → Option ClientState
move starts i before = some between
move opens (some i) between = some (inside i)
move deltas (some i) (inside j) = if i == j then some (inside j) else none
move closes (some i) (inside j) = if i == j then some between else none
move concludes i between = some closing
move stops i closing = some ended
move pings i ended = none
move pings i st = some st
move fails i ended = none
move fails i st = some ended
move _ _ _ = none

unfoldable pub client_run : ClientState → List JsonFrame → Option ClientState
unfolding kind_of index_of move
client_run st [] = some st
client_run st (f ∷ fs) = elim (move (kind_of f.event) (index_of f.payload) st) [
  | none ↦ none
  | some st' ↦ client_run st' fs
]

pub client_run-append :
    (st : ClientState) (fs gs : List JsonFrame) {st' : ClientState}
    → client_run st fs ≡ some st'
    → client_run st (fs ++ gs) ≡ client_run st' gs
unfolding client_run
client_run-append st [] gs h = ground (arith, h)
client_run-append st (f ∷ fs) gs {st'} h =
    elim (Option-cases (move (kind_of f.event) (index_of f.payload) st)) [
      | inl e ↦ ground (arith, e, h)
      | inr (st1, e) ↦ ground (arith, e, h, client_run-append st1 fs gs {st' = st'})
    ]

client_run-one :
    (st st' : ClientState) (f : JsonFrame)
    → move (kind_of f.event) (index_of f.payload) st ≡ some st'
    → client_run st (f ∷ []) ≡ some st'
unfolding client_run
client_run-one st st' f h = ground (arith, h)

-- Where the frames of an encoder have brought its client, as long as it goes on.
abbrev pub in_block : Option (ℕ × PartKind) → ClientState
in_block none = between
in_block (some (i, k)) = inside i

abbrev pub live : MessagesStreamEncoder → ClientState
live s = if s.started then in_block s.open_part else before

-- An encoder that has not started has no block.
abbrev pub IsCoherent : MessagesStreamEncoder → Type 0
IsCoherent s = s.started ≡ false → s.open_part ≡ none

abbrev pub Leads : Bool → ClientState → Pushed → Type 0
Leads f st p = (client_run st p.1 ≡ some (live p.0)) × (p.0.started ≡ true) × (p.0.finished ≡ f)

pub run-start :
    (id model : String) (u : Usage)
    → client_run before (one (start_payload id model u) "message_start") ≡ some between
unfolding client_run start_payload
run-start id model u = refl

pub run-block :
    (i : ℕ) (b : Json)
    → client_run between (one (block_payload i b) "content_block_start") ≡ some (inside i)
unfolding client_run block_payload
run-block i b = refl

pub run-delta :
    (i : ℕ) (kind name value : String)
    → client_run (inside i) (one (delta_payload i kind name value) "content_block_delta")
      ≡ some (inside i)
unfolding client_run delta_payload
run-delta i kind name value = ground (arith)

pub run-stop :
    (i : ℕ) → client_run (inside i) (one (stop_payload i) "content_block_stop") ≡ some between
unfolding client_run stop_payload
run-stop i = ground (arith)

pub run-closing :
    (r : StopReason) (t : Option String) (u : Usage)
    → client_run between (one (closing_payload r t u) "message_delta") ≡ some closing
unfolding client_run closing_payload
run-closing r t u = refl

abbrev pub last_payload : Json
last_payload = obj (field "type" (str "message_stop") end)

pub run-end : client_run closing (one last_payload "message_stop") ≡ some ended
unfolding client_run
run-end = refl

pub run-nothing : (st : ClientState) → client_run st [] ≡ some st
unfolding client_run
run-nothing st = refl
