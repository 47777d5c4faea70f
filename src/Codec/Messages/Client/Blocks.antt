-- ===== src/Codec/Messages/Client/Blocks.antt =====
-- The blocks that the stream encoder of Messages opens and closes, for a client
-- (crates/refract-protocol/src/codec/messages.rs, `open_block`, `open_tool_block` and `close_open`).
use Prim.Native.String.{◌++◌ as append_text}
use refract.Base.{
  ap₂, if_cases, ℕ, ◌+◌, ◌≡◌, sym, ap, ◌∙◌, arith, Bool, true, List, Option, none, some, String,
  if◌then◌else◌, Bool-cases, Option-cases, inl, inr, is_empty_text,
}
use refract.Base.Maps.{string_eq, nat_eq, lookup}
use refract.Codec.Aggregate.{PartKind, tool_use}
use refract.Codec.Json.{Json}
use refract.Codec.Messages.{JsonFrame}
use refract.Codec.Messages.Encoder.{
  MessagesStreamEncoder, Pushed, behind, ensure_started, anth_index, close_open, push_block,
  open_block, open_tool_block, push_delta, is_open, is_at,
}
use refract.Codec.Messages.Payloads.{
  one, block_payload, delta_payload, empty_block, tool_block_json,
}
use refract.Codec.Messages.Client.{
  ClientState, client_run, client_run-append, in_block, live, IsCoherent, Leads, run-start,
  run-block, run-delta, run-stop, before, between, inside,
}

module _ (draws : ℕ → String) where
  pub ensure_started-Leads :
      (s : MessagesStreamEncoder)
      → IsCoherent s
      → Leads s.finished (live s) (ensure_started draws s)
  unfolding ensure_started client_run
  ensure_started-Leads s h = elim (Bool-cases s.started) [
    | inl e ↦ ground (arith, e)
    | inr e ↦ ground (arith, e, h e, run-start s.id s.model s.input_usage)
  ]

  pub anth_index-same :
      (ir : ℕ) (s : MessagesStreamEncoder)
      → let s' = (anth_index draws ir s).1 in
        (s'.started ≡ s.started) × (s'.open_part ≡ s.open_part) × (s'.finished ≡ s.finished)
  unfolding anth_index
  anth_index-same ir s = elim (Option-cases (lookup ir s.remap)) [
    | inl e ↦ ground (arith, e)
    | inr (m, e) ↦ ground (arith, e)
  ]

  pub close_open-Leads :
      (s : MessagesStreamEncoder)
      → s.started ≡ true
      → Leads s.finished (live s) (close_open draws s) × ((close_open draws s).0.open_part ≡ none)
  unfolding close_open client_run
  close_open-Leads s h = elim (Option-cases s.open_part) [
    | inl e ↦ ground (arith, e, h)
    | inr ((i, k), e) ↦ ground (arith, e, h, run-stop i)
  ]

  push_block-Leads :
      (f : Bool) (st : ClientState) (i : ℕ) (k : PartKind) (b : Json) (p : Pushed)
      → Leads f st p
      → p.0.open_part ≡ none
      → Leads f st (push_block draws i k b p)
  unfolding push_block
  push_block-Leads f st i k b (s, fs) h e =
      let e1 : live s ≡ between = ground (arith, e, h.1) in
      (
        client_run-append st fs (one (block_payload i b) "content_block_start") h.0
            ∙ ap (λ x. client_run x (one (block_payload i b) "content_block_start")) e1
            ∙ run-block i b
            ∙ ap (λ (x : Bool). some (if x then inside i else before)) (sym h.1),
        h.1,
        h.2,
      )

  behind-Leads :
      (f : Bool) (st : ClientState) (s : MessagesStreamEncoder) (fs : List JsonFrame) (p : Pushed)
      → client_run st fs ≡ some (live s)
      → Leads f (live s) p
      → Leads f st (behind draws fs p)
  behind-Leads f st s fs p h k = (client_run-append st fs p.1 h ∙ k.0, k.1, k.2)

  at_live :
      (i : ℕ) (s : MessagesStreamEncoder)
      → s.started ≡ true
      → is_at draws i s.open_part ≡ true
      → live s ≡ inside i
  at_live i s e h = elim (Option-cases s.open_part) [
    | inl g ↦ ground (arith, g, h)
    | inr ((j, k), g) ↦ ground (arith, e, g, h)
  ]

  -- A block's operation leads there, and the block that it names is open.
  abbrev pub Opens : Bool → ClientState → ℕ × Pushed → Type 0
  Opens f st q = Leads f st q.1 × (is_at draws q.0 q.1.0.open_part ≡ true)

  pub is_at-of_open :
      (i : ℕ) (k : PartKind) (o : Option (ℕ × PartKind))
      → is_open draws i k o ≡ true
      → is_at draws i o ≡ true
  is_at-of_open i k none h = cc h
  is_at-of_open i k (some (j, l)) h = ground (arith, h)

  push_block-at :
      (i : ℕ) (k : PartKind) (b : Json) (p : Pushed)
      → is_at draws i (push_block draws i k b p).0.open_part ≡ true
  unfolding push_block
  push_block-at i k b (s, fs) = ground arith

  -- `ensure_started` and the choice of an index.
  entered :
      (ir : ℕ) (s : MessagesStreamEncoder)
      → IsCoherent s
      → let p = ensure_started draws s in
        let s2 = (anth_index draws ir p.0).1 in Leads s.finished (live s) (s2, p.1)
  entered ir s h =
      let p = ensure_started draws s in
      let same = anth_index-same ir p.0 in
      let led = ensure_started-Leads s h in
      (
        led.0 ∙ sym (ap₂ (λ x o. some (if x then in_block o else before)) same.0 same.1),
        same.0 ∙ led.1,
        same.2 ∙ led.2,
      )

  pub Leads-same :
      {f g : Bool} (st : ClientState) (p : Pushed) → f ≡ g → Leads f st p → Leads g st p
  Leads-same st p e h = (h.0, h.1, h.2 ∙ e)

  pub open_block-Opens :
      (ir : ℕ) (k : PartKind) (s : MessagesStreamEncoder)
      → IsCoherent s
      → Opens s.finished (live s) (open_block draws ir k s)
  unfolding open_block
  open_block-Opens ir k s h =
      let p = ensure_started draws s in
      let (index, s2) = anth_index draws ir p.0 in
      let led = entered ir s h in
      let closed = close_open-Leads s2 led.1 in
      let block = push_block draws index k (empty_block k) (close_open draws s2) in
      if_cases (Opens s.finished (live s)) (is_open draws index k s2.open_part) (index, (s2, p.1))
        (index, behind draws p.1 block) (λ e. (led, is_at-of_open index k s2.open_part e))
        (λ e. (
          behind-Leads s.finished (live s) s2 p.1 block led.0 (
              push_block-Leads s.finished (live s2) index k (empty_block k) (close_open draws s2)
                (Leads-same (live s2) (close_open draws s2) led.2 closed.0) closed.1),
          push_block-at index k (empty_block k) (close_open draws s2),
        ))

  pub open_tool_block-Opens :
      (ir : ℕ) (id name : String) (s : MessagesStreamEncoder)
      → IsCoherent s
      → Opens s.finished (live s) (open_tool_block draws ir id name s)
  unfolding open_tool_block
  open_tool_block-Opens ir id name s h =
      let p = ensure_started draws s in
      let (index, s2) = anth_index draws ir p.0 in
      let led = entered ir s h in
      let closed = close_open-Leads s2 led.1 in
      let (s3, gs) = close_open draws s2 in
      let drawn = is_empty_text id in
      let s4 = record s3 { drawn = if drawn then s3.drawn + 1 else s3.drawn } in
      let b = tool_block_json (if drawn then append_text "toolu_" (draws s3.drawn) else id) name in
      (
        behind-Leads s.finished (live s) s2 p.1 (push_block draws index tool_use b (s4, gs)) led.0 (
            push_block-Leads s.finished (live s2) index tool_use b (s4, gs)
              (Leads-same (live s2) (close_open draws s2) led.2 closed.0) closed.1),
        push_block-at index tool_use b (s4, gs),
      )

  pub push_delta-Leads :
      (f : Bool) (st : ClientState) (kind name value : String) (q : ℕ × Pushed)
      → Opens f st q
      → Leads f st (push_delta draws kind name value q)
  unfolding push_delta
  push_delta-Leads f st kind name value (i, (s, fs)) h =
      let gs = one (delta_payload i kind name value) "content_block_delta" in
      let e : live s ≡ inside i = at_live i s h.0.1 h.1 in
      (
        client_run-append st fs gs h.0.0
            ∙ ap (λ x. client_run x gs) e
            ∙ run-delta i kind name value
            ∙ ap some (sym e),
        h.0.1,
        h.0.2,
      )
