-- ===== src/Codec/Messages/Carries.antt =====
-- The pieces that each operation of the stream encoder of Messages sends
-- (crates/refract-protocol/src/codec/messages.rs, `MessagesStreamEncoder`).
use Prim.Native.String.{◌++◌ as append_text}
use refract.Base.{
  ℕ, ◌+◌, ◌≡◌, refl, ◌∙◌, arith, Bool, true, List, [], ◌∷◌, ◌++◌, Option, none, some, String,
  if◌then◌else◌, if_cases, Option-cases, inl, inr, is_empty_text,
}
use refract.Base.Maps.{string_eq, nat_eq, lookup}
use refract.Codec.Usage.{Usage}
use refract.Codec.Aggregate.{PartKind, tool_use, StopReason, stop}
use refract.Codec.Json.{Json, obj, field, str, end}
use refract.Codec.Messages.{JsonFrame}
use refract.Codec.Messages.Encoder.{
  MessagesStreamEncoder, Pushed, behind, ensure_started, anth_index, close_open, push_block,
  open_block, open_tool_block, wrap_up, push_delta, encode_start, encode_args, encode_content_stop,
  is_open, is_at,
}
use refract.Codec.Messages.Payloads.{
  one, block_payload, empty_block, tool_block_json, delta_payload, stop_payload, closing_payload,
}
use refract.Codec.Messages.Pieces.{
  Piece, argued, Shows, Shows-nil, Shows-append, Shows-start, Shows-block, Shows-tool_block,
  Shows-stop, Shows-closing, Shows-args, Shows-end,
}

-- Frames that are pushed show these pieces, and the encoder has finished or not.
abbrev pub Carries : Bool → List Piece → Pushed → Type 0
Carries f ps p = Shows p.1 ps × (p.0.finished ≡ f)

module _ (draws : ℕ → String) where
  behind-Carries :
      (f : Bool) (ps : List Piece) (fs : List JsonFrame) (p : Pushed)
      → Shows fs []
      → Carries f ps p
      → Carries f ps (behind draws fs p)
  behind-Carries f ps fs p h k = (Shows-append fs p.1 [] ps h k.0, k.1)

  ensure_started-Carries :
      (s : MessagesStreamEncoder) → Carries s.finished [] (ensure_started draws s)
  unfolding ensure_started
  ensure_started-Carries s =
      if_cases (Carries s.finished []) s.started (s, []) _ (λ g. (Shows-nil, refl))
        (λ g. (Shows-start _ s.model s.input_usage, refl))

  anth_index-finished :
      (ir : ℕ) (s : MessagesStreamEncoder) → (anth_index draws ir s).1.finished ≡ s.finished
  unfolding anth_index
  anth_index-finished ir s = elim (Option-cases (lookup ir s.remap)) [
    | inl e ↦ ground (arith, e)
    | inr (m, e) ↦ ground (arith, e)
  ]

  close_open-Carries : (s : MessagesStreamEncoder) → Carries s.finished [] (close_open draws s)
  unfolding close_open
  close_open-Carries s =
      elim s.open_part
        as (λ o. Carries s.finished [] (elim o [
          | none ↦ (s, [])
          | some (index, kind) ↦
              (record s { open_part = none }, one (stop_payload index) "content_block_stop")
        ])) [ none ↦ (Shows-nil, refl) | some (i, k) ↦ (Shows-stop i, refl) ]

  push_block-Carries :
      (f : Bool) (i : ℕ) (k : PartKind) (b : Json) (p : Pushed)
      → Shows (one (block_payload i b) "content_block_start") []
      → Carries f [] p
      → Carries f [] (push_block draws i k b p)
  unfolding push_block
  push_block-Carries f i k b (s, fs) h c = (Shows-append fs _ [] [] c.0 h, c.1)

  pub open_block-Carries :
      (ir : ℕ) (k : PartKind) (s : MessagesStreamEncoder)
      → Carries s.finished [] (open_block draws ir k s).1
  unfolding open_block
  open_block-Carries ir k s =
      let (s1, fs) = ensure_started draws s in
      let (index, s2) = anth_index draws ir s1 in
      let begun = ensure_started-Carries s in
      let same = anth_index-finished ir s1 ∙ begun.1 in
      let closed = close_open-Carries s2 in
      let block = push_block draws index k (empty_block k) (close_open draws s2) in
      if_cases (λ (q : ℕ × Pushed). Carries s.finished [] q.1) (is_open draws index k s2.open_part)
        (index, (s2, fs)) (index, behind draws fs block) (λ e. (begun.0, same))
        (λ e. behind-Carries s.finished [] fs block begun.0 (
          push_block-Carries s.finished index k (empty_block k) (close_open draws s2)
            (Shows-block index k) (closed.0, closed.1 ∙ same)))

  pub open_tool_block-Carries :
      (ir : ℕ) (id name : String) (s : MessagesStreamEncoder)
      → Carries s.finished [] (open_tool_block draws ir id name s).1
  unfolding open_tool_block
  open_tool_block-Carries ir id name s =
      let (s1, fs) = ensure_started draws s in
      let (index, s2) = anth_index draws ir s1 in
      let begun = ensure_started-Carries s in
      let same = anth_index-finished ir s1 ∙ begun.1 in
      let closed = close_open-Carries s2 in
      let (s3, gs) = close_open draws s2 in
      let drawn = is_empty_text id in
      let s4 = record s3 { drawn = if drawn then s3.drawn + 1 else s3.drawn } in
      let b = tool_block_json (if drawn then append_text "toolu_" (draws s3.drawn) else id) name in
      behind-Carries s.finished [] fs (push_block draws index tool_use b (s4, gs)) begun.0 (
        push_block-Carries s.finished index tool_use b (s4, gs) (Shows-tool_block index _ name)
          (closed.0, closed.1 ∙ same))

  pub push_delta-Carries :
      (f : Bool) (kind name value : String) (ps : List Piece) (q : ℕ × Pushed)
      → ((i : ℕ) → Shows (one (delta_payload i kind name value) "content_block_delta") ps)
      → Carries f [] q.1
      → Carries f ps (push_delta draws kind name value q)
  unfolding push_delta
  push_delta-Carries f kind name value ps (i, (s, fs)) h c =
      (Shows-append fs _ [] ps c.0 (h i), c.1)

  pub encode_args-Carries :
      (ir : ℕ) (t : String) (s : MessagesStreamEncoder)
      → Carries s.finished (argued t ∷ []) (encode_args draws ir t s)
  unfolding encode_args
  encode_args-Carries ir t s =
      let (i, s1) = anth_index draws ir s in
      let same = anth_index-finished ir s in
      let opened = open_tool_block draws ir "" "" s1 in
      let chosen = if is_open draws i tool_use s1.open_part then (i, (s1, [])) else opened in
      push_delta-Carries s.finished "input_json_delta" "partial_json" t (argued t ∷ []) chosen
        (λ k. Shows-args k t)
        (if_cases (λ (q : ℕ × Pushed). Carries s.finished [] q.1)
          (is_open draws i tool_use s1.open_part) (i, (s1, [])) opened (λ g. (Shows-nil, same))
          (λ g. let c = open_tool_block-Carries ir "" "" s1 in (c.0, c.1 ∙ same)))

  pub encode_content_stop-Carries :
      (ir : ℕ) (s : MessagesStreamEncoder) → Carries s.finished [] (encode_content_stop draws ir s)
  unfolding encode_content_stop
  encode_content_stop-Carries ir s =
      let (i, s1) = anth_index draws ir s in
      let same = anth_index-finished ir s in
      let closed = close_open-Carries s1 in
      if_cases (Carries s.finished []) (is_at draws i s1.open_part) (close_open draws s1) (s1, [])
        (λ g. (closed.0, closed.1 ∙ same)) (λ g. (Shows-nil, same))

  pub wrap_up-Carries : (s : MessagesStreamEncoder) → Carries true [] (wrap_up draws s)
  unfolding wrap_up
  wrap_up-Carries s =
      let s0 = record s { finished = true } in
      let (s1, fs) = ensure_started draws s0 in
      let begun = ensure_started-Carries s0 in
      let (s2, gs) = close_open draws s1 in
      let closed = close_open-Carries s1 in
      let reason = elim s2.stop_reason as (λ o. StopReason) [ none ↦ stop | some r ↦ r ] in
      let last = one (closing_payload reason s2.stop_text s2.usage) "message_delta" in
      let tail = last ++ one (obj (field "type" (str "message_stop") end)) "message_stop" in
      if_cases (Carries true []) s.finished (s, []) (s2, fs ++ (gs ++ tail)) (λ g. (Shows-nil, g))
        (λ g. (
          Shows-append fs (gs ++ tail) [] [] begun.0 (
              Shows-append gs tail [] [] closed.0
                (Shows-append last _ [] [] (Shows-closing reason s2.stop_text s2.usage) Shows-end)),
          closed.1 ∙ begun.1,
        ))

  pub encode_start-Carries :
      (id model : String) (u : Option Usage) (s : MessagesStreamEncoder)
      → Carries s.finished [] (encode_start draws id model u s)
  unfolding encode_start
  encode_start-Carries id model none s =
      if_cases (λ t. Carries s.finished [] (ensure_started draws t)) s.started s _
        (λ g. ensure_started-Carries s)
        (λ g. ensure_started-Carries (record s { id = id; model = model }))
  encode_start-Carries id model (some u) s =
      if_cases (λ t. Carries s.finished [] (ensure_started draws t)) s.started s _
        (λ g. ensure_started-Carries s)
        (λ g.
          ensure_started-Carries (record s { id = id; model = model; input_usage = u; usage = u }))
