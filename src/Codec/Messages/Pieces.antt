-- ===== src/Codec/Messages/Pieces.antt =====
-- What is in the frames of the protocol Messages (crates/refract-protocol/src/codec/messages.rs, `MessagesStreamEncoder`
-- and `MessagesStreamDecoder`).
use mathlib.Core.List.{append_assoc, append-nil}
use refract.Base.{
  min, if_cases, ℕ, ◌≡◌, refl, sym, ap, ap₂, ◌∙◌, List, [], ◌∷◌, ◌++◌, Option, String,
  if◌then◌else◌, any, ◌==◌,
}
use refract.Codec.Usage.{Usage}
use refract.Codec.Aggregate.{
  PartKind, text, thinking, tool_use, refusal, StopReason, StreamEvent, content_start, text_delta,
  thinking_delta, thinking_signature, refusal_delta, tool_call_args_delta, is_terminal,
}
use refract.Codec.Json.{Json, obj, field, str, end}
use refract.Codec.Messages.{JsonFrame}
use refract.Codec.Messages.Payloads.{
  one, start_payload, block_payload, empty_block, tool_block_json, delta_payload, stop_payload,
  closing_payload,
}
use refract.Codec.Messages.Decoder.{
  MessagesStreamDecoder, Decoded, decode_value, decoder_ensure_started,
}

-- A piece of an answer: what an event says, whatever its index. A refusal is a text for Messages.
pub data Piece : Type 0 where
  said thought signed argued : String → Piece

unfoldable pub piece_of : StreamEvent → List Piece
piece_of (text_delta i t) = said t ∷ []
piece_of (refusal_delta i t) = said t ∷ []
piece_of (thinking_delta i t) = thought t ∷ []
piece_of (thinking_signature i t) = signed t ∷ []
piece_of (tool_call_args_delta i t) = argued t ∷ []
piece_of _ = []

unfoldable pub pieces : List StreamEvent → List Piece
unfolding piece_of
pieces [] = []
pieces (e ∷ es) = piece_of e ++ pieces es

-- The pieces up to the event that ends the stream.
unfoldable pub delivered : List StreamEvent → List Piece
unfolding piece_of is_terminal
delivered [] = []
delivered (e ∷ es) = let rest = delivered es in if is_terminal e then [] else piece_of e ++ rest

pub pieces-append : (es fs : List StreamEvent) → pieces (es ++ fs) ≡ pieces es ++ pieces fs
unfolding pieces
pieces-append [] fs = refl
pieces-append (e ∷ es) fs =
    ap (λ x. piece_of e ++ x) (pieces-append es fs)
    ∙ sym (append_assoc (piece_of e) (pieces es) (pieces fs))

unfoldable pub decode_values : List JsonFrame → MessagesStreamDecoder → Decoded
unfolding decode_value
decode_values [] d = ([], d)
decode_values (f ∷ fs) d =
    let (es, d') = decode_value f.event f.payload d in
    let (es', d'') = decode_values fs d' in (es ++ es', d'')

-- A decoder in any state reads these pieces.
abbrev pub Shows : List JsonFrame → List Piece → Type 0
Shows fs ps = (d : MessagesStreamDecoder) → pieces (decode_values fs d).0 ≡ ps

pub Shows-nil : Shows [] []
unfolding decode_values pieces
Shows-nil d = refl

decode_values-append :
    (fs gs : List JsonFrame) (d : MessagesStreamDecoder)
    → (decode_values (fs ++ gs) d).0
      ≡ (decode_values fs d).0 ++ (decode_values gs (decode_values fs d).1).0
unfolding decode_values
decode_values-append [] gs d = refl
decode_values-append (f ∷ fs) gs d =
    let (es, d') = decode_value f.event f.payload d in
    ap (λ x. es ++ x) (decode_values-append fs gs d')
    ∙ sym (append_assoc es (decode_values fs d').0 (decode_values gs (decode_values fs d').1).0)

pub Shows-append :
    (fs gs : List JsonFrame) (ps qs : List Piece)
    → Shows fs ps
    → Shows gs qs
    → Shows (fs ++ gs) (ps ++ qs)
Shows-append fs gs ps qs h k d =
    let (es, d') = decode_values fs d in
    ap pieces (decode_values-append fs gs d)
    ∙ pieces-append es (decode_values gs d').0
    ∙ ap₂ ◌++◌ (h d) (k d')

pub Shows-start :
    (id model : String) (u : Usage) → Shows (one (start_payload id model u) "message_start") []
unfolding decode_values start_payload pieces
Shows-start id model u d = refl

pub Shows-block :
    (i : ℕ) (k : PartKind) → Shows (one (block_payload i (empty_block k)) "content_block_start") []
unfolding decode_values block_payload empty_block pieces
Shows-block i text d = refl
Shows-block i thinking d = refl
Shows-block i tool_use d = refl
Shows-block i refusal d = refl

pub Shows-tool_block :
    (i : ℕ) (id name : String)
    → Shows (one (block_payload i (tool_block_json id name)) "content_block_start") []
unfolding decode_values block_payload tool_block_json pieces
Shows-tool_block i id name d = refl

pub Shows-stop : (i : ℕ) → Shows (one (stop_payload i) "content_block_stop") []
unfolding decode_values stop_payload pieces
Shows-stop i d = refl

pub Shows-closing :
    (r : StopReason) (t : Option String) (u : Usage)
    → Shows (one (closing_payload r t u) "message_delta") []
unfolding decode_values closing_payload pieces
Shows-closing r t u d = refl

pieces-ensure :
    (i : ℕ) (k : PartKind) (e : StreamEvent) (d : MessagesStreamDecoder)
    → pieces ((decoder_ensure_started i k e d).0 ++ []) ≡ piece_of e
unfolding decoder_ensure_started pieces
pieces-ensure i k e d =
    if_cases (λ (p : Decoded). pieces (p.0 ++ []) ≡ piece_of e) (any (λ j. j == i) d.started)
      (e ∷ [], d) (content_start i k ∷ e ∷ [], record d { started = d.started ++ i ∷ [] })
      (λ g. append-nil (piece_of e)) (λ g. append-nil (piece_of e))

pub Shows-text :
    (i : ℕ) (t : String)
    → Shows (one (delta_payload i "text_delta" "text" t) "content_block_delta") (said t ∷ [])
unfolding decode_values delta_payload piece_of
Shows-text i t d = pieces-ensure (min i 4294967295) text (text_delta (min i 4294967295) t) d

pub Shows-thinking :
    (i : ℕ) (t : String)
    → Shows
        (one (delta_payload i "thinking_delta" "thinking" t) "content_block_delta")
        (thought t ∷ [])
unfolding decode_values delta_payload piece_of
Shows-thinking i t d =
    pieces-ensure (min i 4294967295) thinking (thinking_delta (min i 4294967295) t) d

pub Shows-signature :
    (i : ℕ) (t : String)
    → Shows
        (one (delta_payload i "signature_delta" "signature" t) "content_block_delta")
        (signed t ∷ [])
unfolding decode_values delta_payload piece_of
Shows-signature i t d =
    pieces-ensure (min i 4294967295) thinking (thinking_signature (min i 4294967295) t) d

pub Shows-args :
    (i : ℕ) (t : String)
    → Shows
        (one (delta_payload i "input_json_delta" "partial_json" t) "content_block_delta")
        (argued t ∷ [])
unfolding decode_values delta_payload piece_of
Shows-args i t d =
    pieces-ensure (min i 4294967295) tool_use (tool_call_args_delta (min i 4294967295) t) d

pub Shows-end : Shows (one (obj (field "type" (str "message_stop") end)) "message_stop") []
unfolding decode_values pieces
Shows-end d = refl

pub Shows-ping : Shows (one (obj (field "type" (str "ping") end)) "ping") []
unfolding decode_values pieces
Shows-ping d = refl

pub Shows-error : (v : Json) → Shows (one v "error") []
unfolding decode_values pieces
Shows-error v d = refl
