-- ===== src/Codec/Messages/RoundTrip.antt =====
-- What the stream encoder of Messages sends, its decoder reads
-- (crates/refract-protocol/src/codec/messages.rs, `MessagesStreamEncoder` and `MessagesStreamDecoder`).
use refract.Base.{
  ℕ, ◌≡◌, refl, sym, ap, subst, ◌∙◌, arith, Bool, true, false, List, [], ◌∷◌, ◌++◌, some, String,
  if◌then◌else◌, if_cases, All, map, trim, is_empty_text, ◌||◌,
}
use refract.Base.Maps.{string_eq, nat_eq}
use refract.Codec.Aggregate.{
  text, thinking, tool_use, refusal, StreamEvent, start, content_start, text_delta, thinking_delta,
  thinking_signature, refusal_delta, tool_call_start, tool_call_args_delta, content_stop,
  usage_update, stop_event, done, error_event, ping, is_terminal,
}
use refract.Codec.Json.{JsonText}
use refract.Codec.Messages.{JsonFrame}
use refract.Codec.Messages.Encoder.{
  MessagesStreamEncoder, new_encoder, Pushed, part_eq, open_block, wrap_up, encode_event, encode,
  encode_all,
}
use refract.Codec.Messages.Decoder.{
  MessagesStreamDecoder, new_decoder, decode_value, decode, decode_all, named,
}
use refract.Codec.Messages.Pieces.{
  Piece, said, thought, signed, piece_of, pieces, delivered, pieces-append, decode_values, Shows,
  Shows-nil, Shows-append, Shows-text, Shows-thinking, Shows-signature, Shows-ping, Shows-error,
}
use refract.Codec.Messages.Carries.{
  Carries, open_block-Carries, open_tool_block-Carries, push_delta-Carries, encode_args-Carries,
  encode_content_stop-Carries, wrap_up-Carries, encode_start-Carries,
}

module _ (draws : ℕ → String) where
  encode_event-Carries :
      (e : StreamEvent) (s : MessagesStreamEncoder)
      → Carries (is_terminal e || s.finished) (piece_of e) (encode_event draws e s)
  unfolding encode_event is_terminal piece_of
  encode_event-Carries (start id model u) s = encode_start-Carries draws id model u s
  encode_event-Carries (content_start i k) s =
      if_cases (Carries s.finished []) (part_eq k tool_use) (s, []) (open_block draws i k s).1
        (λ g. (Shows-nil, refl)) (λ g. open_block-Carries draws i k s)
  encode_event-Carries (text_delta i t) s =
      push_delta-Carries draws s.finished "text_delta" "text" t (said t ∷ [])
        (open_block draws i text s) (λ k. Shows-text k t) (open_block-Carries draws i text s)
  encode_event-Carries (refusal_delta i t) s =
      push_delta-Carries draws s.finished "text_delta" "text" t (said t ∷ [])
        (open_block draws i refusal s) (λ k. Shows-text k t) (open_block-Carries draws i refusal s)
  encode_event-Carries (thinking_delta i t) s =
      push_delta-Carries draws s.finished "thinking_delta" "thinking" t (thought t ∷ [])
        (open_block draws i thinking s) (λ k. Shows-thinking k t)
        (open_block-Carries draws i thinking s)
  encode_event-Carries (thinking_signature i t) s =
      push_delta-Carries draws s.finished "signature_delta" "signature" t (signed t ∷ [])
        (open_block draws i thinking s) (λ k. Shows-signature k t)
        (open_block-Carries draws i thinking s)
  encode_event-Carries (tool_call_start i id name g) s = open_tool_block-Carries draws i id name s
  encode_event-Carries (tool_call_args_delta i t) s = encode_args-Carries draws i t s
  encode_event-Carries (content_stop i) s = encode_content_stop-Carries draws i s
  encode_event-Carries (usage_update u) s = (Shows-nil, refl)
  encode_event-Carries (stop_event r t) s = (Shows-nil, refl)
  encode_event-Carries done s = wrap_up-Carries draws s
  encode_event-Carries ping s = (Shows-ping, refl)
  encode_event-Carries (error_event m k) s = (Shows-error _, refl)

  -- The pieces that come, of an encoder that has finished none.
  abbrev to_come : Bool → List Piece → List Piece
  to_come f ps = if f then [] else ps

  unless_finished :
      (f t : Bool) (ps : List Piece) (s : MessagesStreamEncoder) (p : Pushed)
      → s.finished ≡ f
      → Carries (t || f) ps p
      → Carries (t || f) (to_come f ps) (if f then (s, []) else p)
  unless_finished true t ps s p e c = (Shows-nil, ground (arith, e))
  unless_finished false t ps s p e c = c

  encode-Carries :
      (e : StreamEvent) (s : MessagesStreamEncoder)
      → Carries (is_terminal e || s.finished) (to_come s.finished (piece_of e)) (encode draws e s)
  unfolding encode
  encode-Carries e s =
      unless_finished s.finished (is_terminal e) (piece_of e) s (encode_event draws e s) refl
        (encode_event-Carries e s)

  piece_of_terminal : (e : StreamEvent) → is_terminal e ≡ true → piece_of e ≡ []
  unfolding is_terminal piece_of
  piece_of_terminal done h = refl
  piece_of_terminal (error_event m k) h = refl
  piece_of_terminal (start id model u) h = refl
  piece_of_terminal (content_start i k) h = refl
  piece_of_terminal (text_delta i t) h = cc h
  piece_of_terminal (refusal_delta i t) h = cc h
  piece_of_terminal (thinking_delta i t) h = cc h
  piece_of_terminal (thinking_signature i t) h = cc h
  piece_of_terminal (tool_call_start i id name g) h = refl
  piece_of_terminal (tool_call_args_delta i t) h = cc h
  piece_of_terminal (content_stop i) h = refl
  piece_of_terminal (usage_update u) h = refl
  piece_of_terminal (stop_event r t) h = refl
  piece_of_terminal ping h = refl

  regroup :
      (f t : Bool) (ps qs : List Piece)
      → (t ≡ true → ps ≡ [])
      → to_come f ps ++ to_come (t || f) qs ≡ to_come f (if t then [] else ps ++ qs)
  regroup true true ps qs h = refl
  regroup true false ps qs h = refl
  regroup false true ps qs h = ap (λ x. x ++ []) (h refl)
  regroup false false ps qs h = refl

  Shows-encode_all :
      (es : List StreamEvent) (s : MessagesStreamEncoder)
      → Shows (encode_all draws es s).1 (to_come s.finished (delivered es))
  unfolding encode_all delivered
  Shows-encode_all [] s =
      if_cases (Shows (wrap_up draws s).1) s.finished [] [] (λ g. (wrap_up-Carries draws s).0)
        (λ g. (wrap_up-Carries draws s).0)
  Shows-encode_all (e ∷ es) s =
      let (s', fs) = encode draws e s in
      let rest = Shows-encode_all es s' in
      let (now, after) = encode-Carries e s in
      subst (Shows (fs ++ (encode_all draws es s').1))
        (ap (λ x. to_come s.finished (piece_of e) ++ to_come x (delivered es)) after
          ∙ regroup s.finished (is_terminal e) (piece_of e) (delivered es) (piece_of_terminal e))
        (Shows-append fs (encode_all draws es s').1 (to_come s.finished (piece_of e)) _ now rest)

-- A frame whose payload is read as it was printed.
abbrev pub IsRead : JsonText → JsonFrame → Type 0
IsRead j f =
    (j.parse (trim (j.print f.payload)) ≡ some f.payload)
    × (is_empty_text (trim (j.print f.payload)) ≡ false)
    × (string_eq.beq (trim (j.print f.payload)) "[DONE]" ≡ false)

decode-named :
    (j : JsonText) (f : JsonFrame) (d : MessagesStreamDecoder)
    → IsRead j f
    → decode j (named j f) d ≡ decode_value f.event f.payload d
unfolding decode named
decode-named j f d h = rw (h.0, h.1, h.2)

decode_all-named :
    (j : JsonText) (fs : List JsonFrame) (d : MessagesStreamDecoder)
    → All (IsRead j) fs
    → pieces (decode_all j (map (named j) fs) d) ≡ pieces (decode_values fs d).0
unfolding decode_all decode_values pieces piece_of
decode_all-named j [] d h = ground arith
decode_all-named j (f ∷ fs) d h =
    let (es, d') = decode_value f.event f.payload d in
    ap
      (λ (x : List StreamEvent × MessagesStreamDecoder).
        pieces (x.0 ++ decode_all j (map (named j) fs) x.1))
      (decode-named j f d h.0)
    ∙ pieces-append es (decode_all j (map (named j) fs) d')
    ∙ ap (λ x. pieces es ++ x) (decode_all-named j fs d' h.1)
    ∙ sym (pieces-append es (decode_values fs d').0)

-- The decoder reads from the frames of the encoder what the events said, piece by piece and in their order, up to the event
-- that ends the stream: no text, thought, signature or argument is lost, doubled or moved, and a refusal becomes a
-- text. The payloads of the frames are read as they were printed.
pub decode_all-encode_all :
    (j : JsonText) (draws : ℕ → String) (es : List StreamEvent)
    → All (IsRead j) (encode_all draws es new_encoder).1
    → pieces (decode_all j (map (named j) (encode_all draws es new_encoder).1) new_decoder)
      ≡ delivered es
decode_all-encode_all j draws es h =
    decode_all-named j (encode_all draws es new_encoder).1 new_decoder h
    ∙ Shows-encode_all draws es new_encoder new_decoder
