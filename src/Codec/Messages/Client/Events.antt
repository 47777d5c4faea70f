-- ===== src/Codec/Messages/Client/Events.antt =====
-- A client accepts what the stream encoder of Messages sends (crates/refract-protocol/src/codec/messages.rs, `encode` and
-- `finish`).
use refract.Base.{
  if_cases, option_or, ℕ, ◌≡◌, refl, sym, ap, subst, ◌∙◌, arith, false, List, [], ◌∷◌, Option, none,
  some, String, if◌then◌else◌, Bool-cases, Option-cases, inl, inr,
}
use refract.Base.Maps.{string_eq, nat_eq}
use refract.Codec.Usage.{Usage, merge_max}
use refract.Codec.Aggregate.{
  text, thinking, tool_use, refusal, StreamEvent, start, content_start, text_delta, thinking_delta,
  thinking_signature, refusal_delta, tool_call_start, tool_call_args_delta, content_stop,
  usage_update, stop_event, done, error_event, ping,
}
use refract.Codec.Json.{Json, obj, field, end, str}
use refract.Codec.Messages.Encoder.{
  MessagesStreamEncoder, new_encoder, Pushed, part_eq, ensure_started, open_block, open_tool_block,
  wrap_up, encode_start, encode_event, encode, encode_all,
}
use refract.Codec.Messages.Payloads.{one}
use refract.Codec.Messages.Client.{
  ClientState, client_run, client_run-append, live, IsCoherent, run-nothing, before, ended,
}
use refract.Codec.Messages.Client.Blocks.{
  ensure_started-Leads, Leads-same, open_block-Opens, open_tool_block-Opens,
}
use refract.Codec.Messages.Client.Ends.{
  view, Follows, nothing-Follows, Leads-Follows, delta-Follows, encode_args-Follows,
  encode_content_stop-Follows, Ends, wrap_up-Ends,
}

module _ (draws : ℕ → String) where
  Ends-Follows : (st : ClientState) (p : Pushed) → Ends draws st p → Follows draws st p
  Ends-Follows st p h =
      (h.0 ∙ ap (λ x. some (if x then ended else live p.0)) (sym h.1), λ e. cc (e, h.2))

  started-Follows :
      (s : MessagesStreamEncoder)
      → s.finished ≡ false
      → IsCoherent s
      → Follows draws (live s) (ensure_started draws s)
  started-Follows s e h =
      let p = ensure_started draws s in
      Leads-Follows draws (live s) p
        (Leads-same draws (live s) p e (ensure_started-Leads draws s h))

  encode_start-Follows :
      (id model : String) (u : Option Usage) (s : MessagesStreamEncoder)
      → s.finished ≡ false
      → IsCoherent s
      → Follows draws (live s) (encode_start draws id model u s)
  unfolding encode_start
  encode_start-Follows id model none s e h =
      let s0 = record s { id = id; model = model } in
      if_cases (λ t. Follows draws (live s) (ensure_started draws t)) s.started s s0
        (λ g. started-Follows s e h) (λ g. started-Follows s0 e h)
  encode_start-Follows id model (some u) s e h =
      let s0 = record s { id = id; model = model; input_usage = u; usage = u } in
      if_cases (λ t. Follows draws (live s) (ensure_started draws t)) s.started s s0
        (λ g. started-Follows s e h) (λ g. started-Follows s0 e h)

  run-ping :
      (s : MessagesStreamEncoder)
      → client_run (live s) (one (obj (field "type" (str "ping") end)) "ping") ≡ some (live s)
  unfolding client_run
  run-ping s = elim (Bool-cases s.started) [
    | inr g ↦ ground (arith, g)
    | inl g ↦ elim (Option-cases s.open_part) [
      | inl k ↦ ground (arith, g, k)
      | inr ((i, l), k) ↦ ground (arith, g, k)
    ]
  ]

  run-error :
      (s : MessagesStreamEncoder) (payload : Json)
      → client_run (live s) (one payload "error") ≡ some ended
  unfolding client_run
  run-error s payload = elim (Bool-cases s.started) [
    | inr g ↦ ground (arith, g)
    | inl g ↦ elim (Option-cases s.open_part) [
      | inl k ↦ ground (arith, g, k)
      | inr ((i, l), k) ↦ ground (arith, g, k)
    ]
  ]

  encode_event-Follows :
      (e : StreamEvent) (s : MessagesStreamEncoder)
      → s.finished ≡ false
      → IsCoherent s
      → Follows draws (live s) (encode_event draws e s)
  unfolding encode_event
  encode_event-Follows (start id model u) s f h = encode_start-Follows id model u s f h
  encode_event-Follows (content_start i k) s f h =
      let p = (open_block draws i k s).1 in
      if_cases (Follows draws (live s)) (part_eq k tool_use) (s, []) p
        (λ g. nothing-Follows draws s f h)
        (λ g.
          Leads-Follows draws (live s) p
            (Leads-same draws (live s) p f (open_block-Opens draws i k s h).0))
  encode_event-Follows (text_delta i t) s f h =
      delta-Follows draws "text_delta" "text" t s (open_block draws i text s) f
        (open_block-Opens draws i text s h)
  encode_event-Follows (refusal_delta i t) s f h =
      delta-Follows draws "text_delta" "text" t s (open_block draws i refusal s) f
        (open_block-Opens draws i refusal s h)
  encode_event-Follows (thinking_delta i t) s f h =
      delta-Follows draws "thinking_delta" "thinking" t s (open_block draws i thinking s) f
        (open_block-Opens draws i thinking s h)
  encode_event-Follows (thinking_signature i t) s f h =
      delta-Follows draws "signature_delta" "signature" t s (open_block draws i thinking s) f
        (open_block-Opens draws i thinking s h)
  encode_event-Follows (tool_call_start i id name g) s f h =
      let p = (open_tool_block draws i id name s).1 in
      Leads-Follows draws (live s) p
        (Leads-same draws (live s) p f (open_tool_block-Opens draws i id name s h).0)
  encode_event-Follows (tool_call_args_delta i t) s f h = encode_args-Follows draws i t s f h
  encode_event-Follows (content_stop i) s f h = encode_content_stop-Follows draws i s f h
  encode_event-Follows (usage_update u) s f h =
      nothing-Follows draws (record s { usage = merge_max s.usage u }) f h
  encode_event-Follows (stop_event r t) s f h =
      nothing-Follows draws (record s { stop_reason = some r; stop_text = option_or t s.stop_text })
        f h
  encode_event-Follows done s f h =
      Ends-Follows (live s) (wrap_up draws s) (wrap_up-Ends draws s f h)
  encode_event-Follows ping s f h =
      (run-ping s ∙ ap (λ x. some (if x then ended else live s)) (sym f), h)
  encode_event-Follows (error_event m k) s f h = (run-error s _, h)

  encode-Follows :
      (e : StreamEvent) (s : MessagesStreamEncoder)
      → IsCoherent s
      → Follows draws (view draws s) (encode draws e s)
  unfolding encode
  encode-Follows e s h =
      let p = encode_event draws e s in
      if_cases (Follows draws (view draws s)) s.finished (s, []) p
        (λ f. (run-nothing (view draws s), h))
        (λ f.
          let same : live s ≡ view draws s = ap (λ x. if x then ended else live s) (sym f) in
          subst (λ st. Follows draws st p) same (encode_event-Follows e s f h))

  run-encode_all :
      (es : List StreamEvent) (s : MessagesStreamEncoder)
      → IsCoherent s
      → client_run (view draws s) (encode_all draws es s).1 ≡ some ended
  unfolding encode_all wrap_up
  run-encode_all [] s h = elim (Bool-cases s.finished) [
    | inl f ↦ rw f (run-nothing ended)
    | inr f ↦
        ap (λ x. client_run (if x then ended else live s) (wrap_up draws s).1) f
        ∙ (wrap_up-Ends draws s f h).0
  ]
  run-encode_all (e ∷ es) s h =
      let (s', fs) = encode draws e s in
      let (run, coherent) = encode-Follows e s h in
      client_run-append (view draws s) fs (encode_all draws es s').1 run
      ∙ run-encode_all es s' coherent

  -- Whatever events come, in whatever order, a new encoder that is finished behind them has sent one whole message: a
  -- start, blocks that are opened and closed one after another with their deltas inside, and an end with nothing behind it;
  -- or such a beginning and an error.
  pub client_run-encode_all :
      (es : List StreamEvent) → client_run before (encode_all draws es new_encoder).1 ≡ some ended
  client_run-encode_all es = run-encode_all es new_encoder (λ e. refl)
