-- ===== src/Codec/Messages/Client/Ends.antt =====
-- How deltas, arguments, stops and the end of a message look to a client
-- (crates/refract-protocol/src/codec/messages.rs, `MessagesStreamEncoder`).
use refract.Base.{
  ap₂, if_cases, ℕ, ◌≡◌, refl, sym, ap, subst, ◌∙◌, true, false, [], ◌++◌, none, some, String,
  if◌then◌else◌, Bool-cases, inl, inr,
}
use refract.Base.Maps.{string_eq, nat_eq}
use refract.Codec.Aggregate.{PartKind, stop, tool_use, StopReason}
use refract.Codec.Messages.Encoder.{
  MessagesStreamEncoder, Pushed, ensure_started, anth_index, close_open, open_tool_block, wrap_up,
  push_delta, encode_args, encode_content_stop, is_open, is_at,
}
use refract.Codec.Messages.Payloads.{one, closing_payload}
use refract.Codec.Messages.Client.{
  ClientState, client_run, client_run-append, in_block, live, IsCoherent, Leads, run-closing,
  last_payload, run-end, run-nothing, before, between, ended,
}
use refract.Codec.Messages.Client.Blocks.{
  ensure_started-Leads, anth_index-same, close_open-Leads, Opens, is_at-of_open, Leads-same,
  open_tool_block-Opens, push_delta-Leads,
}

module _ (draws : ℕ → String) where
  -- What a client has seen of an encoder.
  abbrev pub view : MessagesStreamEncoder → ClientState
  view s = if s.finished then ended else live s

  abbrev pub Follows : ClientState → Pushed → Type 0
  Follows st p = (client_run st p.1 ≡ some (view p.0)) × IsCoherent p.0

  pub nothing-Follows :
      (s : MessagesStreamEncoder) → s.finished ≡ false → IsCoherent s → Follows (live s) (s, [])
  nothing-Follows s e h =
      (run-nothing (live s) ∙ ap (λ x. some (if x then ended else live s)) (sym e), h)

  pub Leads-Follows : (st : ClientState) (p : Pushed) → Leads false st p → Follows st p
  Leads-Follows st p h =
      (h.0 ∙ ap (λ x. some (if x then ended else live p.0)) (sym h.2), λ e. cc (e, h.1))

  pub delta-Follows :
      (kind name value : String) (s : MessagesStreamEncoder) (q : ℕ × Pushed)
      → s.finished ≡ false
      → Opens draws s.finished (live s) q
      → Follows (live s) (push_delta draws kind name value q)
  delta-Follows kind name value s q e h =
      let p = push_delta draws kind name value q in
      Leads-Follows (live s) p (
        Leads-same draws (live s) p e
          (push_delta-Leads draws s.finished (live s) kind name value q h))

  anth_index-live : (ir : ℕ) (s : MessagesStreamEncoder) → live (anth_index draws ir s).1 ≡ live s
  anth_index-live ir s =
      let same = anth_index-same draws ir s in
      ap₂ (λ x o. if x then in_block o else before) same.0 same.1

  started_of_at :
      (i : ℕ) (s : MessagesStreamEncoder)
      → IsCoherent s
      → is_at draws i s.open_part ≡ true
      → s.started ≡ true
  started_of_at i s h g = elim (Bool-cases s.started) [
    | inl e ↦ e
    | inr e ↦ cc (ap (is_at draws i) (sym (h e)) ∙ g)
  ]

  started_of_open :
      (i : ℕ) (k : PartKind) (s : MessagesStreamEncoder)
      → IsCoherent s
      → is_open draws i k s.open_part ≡ true
      → s.started ≡ true
  started_of_open i k s h g = started_of_at i s h (is_at-of_open draws i k s.open_part g)

  pub encode_args-Follows :
      (ir : ℕ) (t : String) (s : MessagesStreamEncoder)
      → s.finished ≡ false
      → IsCoherent s
      → Follows (live s) (encode_args draws ir t s)
  unfolding encode_args
  encode_args-Follows ir t s e h =
      let (i, s1) = anth_index draws ir s in
      let same = anth_index-same draws ir s in
      let coherent : IsCoherent s1 = λ g. same.1 ∙ h (sym same.0 ∙ g) in
      let opened = open_tool_block draws ir "" "" s1 in
      let chosen = if is_open draws i tool_use s1.open_part then (i, (s1, [])) else opened in
      subst (λ st. Follows st (encode_args draws ir t s)) (anth_index-live ir s)
        (delta-Follows "input_json_delta" "partial_json" t s1 chosen (same.2 ∙ e) (
          if_cases (Opens draws s1.finished (live s1)) (is_open draws i tool_use s1.open_part)
            (i, (s1, [])) opened
            (λ g. (
              (run-nothing (live s1), started_of_open i tool_use s1 coherent g, refl),
              is_at-of_open draws i tool_use s1.open_part g,
            ))
            (λ g. open_tool_block-Opens draws ir "" "" s1 coherent)))

  pub encode_content_stop-Follows :
      (ir : ℕ) (s : MessagesStreamEncoder)
      → s.finished ≡ false
      → IsCoherent s
      → Follows (live s) (encode_content_stop draws ir s)
  unfolding encode_content_stop
  encode_content_stop-Follows ir s e h =
      let (i, s1) = anth_index draws ir s in
      let same = anth_index-same draws ir s in
      let coherent : IsCoherent s1 = λ g. same.1 ∙ h (sym same.0 ∙ g) in
      let p = close_open draws s1 in
      subst (λ st. Follows st (encode_content_stop draws ir s)) (anth_index-live ir s)
        (if_cases (Follows (live s1)) (is_at draws i s1.open_part) p (s1, [])
          (λ g. Leads-Follows (live s1) p (
            Leads-same draws (live s1) p (same.2 ∙ e)
              (close_open-Leads draws s1 (started_of_at i s1 coherent g)).0))
          (λ g. (
            run-nothing (live s1)
                ∙ ap (λ x. some (if x then ended else live s1)) (sym (same.2 ∙ e)),
            coherent,
          )))

  abbrev pub Ends : ClientState → Pushed → Type 0
  Ends st p = (client_run st p.1 ≡ some ended) × (p.0.finished ≡ true) × (p.0.started ≡ true)

  pub wrap_up-Ends :
      (s : MessagesStreamEncoder)
      → s.finished ≡ false
      → IsCoherent s
      → Ends (live s) (wrap_up draws s)
  unfolding wrap_up
  wrap_up-Ends s e h =
      let s0 = record s { finished = true } in
      let (s1, fs) = ensure_started draws s0 in
      let led = ensure_started-Leads draws s0 h in
      let closed = close_open-Leads draws s1 led.1 in
      let (s2, gs) = close_open draws s1 in
      let end_state : live s2 ≡ between =
        ap₂ (λ x o. if x then in_block o else before) closed.0.1 closed.1 in
      let reason = elim s2.stop_reason as (λ o. StopReason) [ none ↦ stop | some r ↦ r ] in
      let last = closing_payload reason s2.stop_text s2.usage in
      let tail = one last "message_delta" ++ one last_payload "message_stop" in
      if_cases (Ends (live s)) s.finished (s, []) (s2, fs ++ (gs ++ tail)) (λ g. cc (e, g))
        (λ g. (
          client_run-append (live s) fs (gs ++ tail) led.0
              ∙ client_run-append (live s1) gs tail closed.0.0
              ∙ ap (λ x. client_run x tail) end_state
              ∙ client_run-append between (one last "message_delta")
                  (one last_payload "message_stop") (run-closing reason s2.stop_text s2.usage)
              ∙ run-end,
          closed.0.2 ∙ led.2,
          closed.0.1,
        ))
