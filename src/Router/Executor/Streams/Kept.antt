-- ===== src/Router/Executor/Streams/Kept.antt =====
-- No event of a stream is lost between its opening and its client (crates/refract-router/src/executor.rs,
-- `preflight_sse_stream`, `prepend_stream` and `track_stream`).
use mathlib.Core.List.{map-append, append_assoc, append-nil}
use refract.Base.{
  ℕ, zero, suc, ◌+◌, ◌<◌, ◌≡◌, refl, sym, ap, ◌∙◌, arith, Bool, true, false, ◌||◌, List, [], ◌∷◌,
  ◌++◌, Option, none, some, is_some, Bool-cases, Result-cases, Option-cases, inl, inr, Result, ok,
  err, map, length, option_or, min, String, ◌⊎◌, ltb, ◌^◌, ◌-◌,
}
use refract.Core.Error.{GatewayError}
use refract.Core.Channel.{EmptyResponseRetryPolicy}
use refract.Codec.Aggregate.{StreamEvent}
use refract.Store.Health.{HealthRepo, Key, record_success}
use refract.Router.Executor.Streams.{
  Wait, Round, arrives, finishes, idles, window_ends, StreamServices, Preflight, Opening, opened,
  new_preflight, window_is_over, absorb_events, decode_item, take_item, stream_end, preflight,
  track_stream, preflight_limit,
}
use refract.Router.Executor.StreamEvents.{stream_events_have_output, validate_stream_events}

module _ {E : Type 0} where
  -- The events that arrive in rounds.
  abbrev arrived : Wait E → List E
  arrived (arrives now (ok e)) = e ∷ []
  arrived _ = []

  abbrev pub items : List (Round E) → List E
  items [] = []
  items ((head, wait) ∷ rs) = arrived wait ++ items rs

  -- All that arrives, errors included.
  abbrev outcome : Wait E → List (Result {0, 0} E GatewayError)
  outcome (arrives now r) = r ∷ []
  outcome _ = []

  abbrev pub results : List (Round E) → List (Result {0, 0} E GatewayError)
  results [] = []
  results ((head, wait) ∷ rs) = outcome wait ++ results rs

module _ {E D : Type 0} (s : StreamServices E D) (p : EmptyResponseRetryPolicy) where
  abbrev shows : Result {0, 0} (List StreamEvent) GatewayError → Bool
  shows (ok es) = stream_events_have_output es
  shows (err x) = false

  -- Whether an event among these has output for the client.
  unfoldable pub has_any_output : D → List E → Bool
  unfolding stream_events_have_output
  has_any_output d [] = false
  has_any_output d (e ∷ es) =
      let (r, d') = s.decode e d in let rest = has_any_output d' es in shows r || rest

  abbrev Absorbs : E → Preflight E D → Bool → Preflight E D → Type 0
  Absorbs e st ready st' =
      (st'.prefix ≡ st.prefix ++ e ∷ [])
      × (ready ≡ false → st'.decoder ≡ (s.decode e st.decoder).1)
      × (ready ≡ false → shows (s.decode e st.decoder).0 ≡ false)

  absorb_events-eq :
      (e : E) (d : D) (es : List StreamEvent) (st st' : Preflight E D) (ready : Bool)
      → absorb_events s p e d es st ≡ ok (ready, st')
      → (st'.prefix ≡ st.prefix ++ e ∷ [])
        × (st'.decoder ≡ d)
        × (ready ≡ false → stream_events_have_output es ≡ false)
  unfolding absorb_events
  absorb_events-eq e d es st st' ready h = elim (Result-cases (validate_stream_events es)) [
    | inl (m, v) ↦ (ground (arith, v, h), ground (arith, v, h), λ g. ground (arith, v, h, g))
    | inr (x, v) ↦ ground (arith, v, h)
  ]

  decode_item-Absorbs :
      (e : E) (st st' : Preflight E D) (ready : Bool)
      → decode_item s p e st ≡ ok (ready, st')
      → Absorbs e st ready st'
  unfolding decode_item
  decode_item-Absorbs e st st' ready h = elim (Result-cases (s.decode e st.decoder).0) [
    | inr (x, v) ↦ ground (arith, v, h)
    | inl (es, v) ↦
        let a =
          absorb_events-eq e (s.decode e st.decoder).1 es st st' ready (ground (arith, v, h)) in
        (a.0, λ g. a.1, λ g. ap shows v ∙ a.2 g)
  ]

  take_item-Absorbs :
      (now : ℕ) (e : E) (st st' : Preflight E D) (ready : Bool)
      → take_item s p now e st ≡ ok (ready, st')
      → Absorbs e st ready st'
  unfolding take_item
  take_item-Absorbs now e st st' ready h =
      let bytes = min (st.bytes + s.size e) (2 ^ 64 - 1) in
      elim (Bool-cases (ltb preflight_limit bytes)) [
        | inl g ↦ ground (arith, g, h)
        | inr g ↦
            decode_item-Absorbs e
              (record st { bytes = bytes; first_byte_at = option_or st.first_byte_at (some now) })
              st' ready (ground (arith, g, h))
      ]

  -- What an opening kept of rounds: the events that were read lie between the state and the rest, and they have no output
  -- if the stream is said to have ended empty.
  abbrev pub Keeps : Preflight E D → List (Round E) → List E → Option ℕ → List (Round E) → Type 0
  Keeps st rs prefix at rest =
      (new : List E) × (prefix ≡ st.prefix ++ new)
      × (new ++ items rest ≡ items rs)
      × (is_some at ≡ true → has_any_output st.decoder new ≡ false)

  nothing_read :
      (st : Preflight E D) (rs rest : List (Round E)) (prefix : List E) (at : Option ℕ)
      → st.prefix ≡ prefix
      → items rest ≡ items rs
      → Keeps st rs prefix at rest
  unfolding has_any_output
  nothing_read st rs rest prefix at e h = ([], sym e ∙ sym (append-nil st.prefix), h, λ g. refl)

  over :
      (st : Preflight E D) (rs rest : List (Round E)) (prefix : List E) (at : Option ℕ)
      → ◌≡◌ {A = Opening E} (opened st.prefix none rs) (opened prefix at rest)
      → Keeps st rs prefix at rest
  over st rs rest prefix at h =
      let e : st.prefix ≡ prefix = cc h in
      let g : rest ≡ rs = cc h in nothing_read st rs rest prefix at e (ap items g)

  read_one :
      (now head : ℕ) (e : E) (st st' : Preflight E D) (ready : Bool) (rs rest : List (Round E))
      (prefix : List E) (at : Option ℕ)
      → take_item s p now e st ≡ ok (ready, st')
      → (ready ≡ true → at ≡ none)
      → Keeps st' rs prefix at rest
      → Keeps st ((head, arrives now (ok e)) ∷ rs) prefix at rest
  unfolding has_any_output
  read_one now head e st st' ready rs rest prefix at t h (new, front, all, quiet) =
      let (kept, decoded, shown) = take_item-Absorbs now e st st' ready t in
      (
        e ∷ new,
        front ∙ ap (λ x. x ++ new) kept ∙ append_assoc st.prefix (e ∷ []) new,
        ap (λ x. e ∷ x) all,
        λ g. elim (Bool-cases ready) [
          | inl r ↦ cc (g, h r)
          | inr r ↦
              ap (λ x. x || has_any_output (s.decode e st.decoder).1 new) (shown r)
              ∙ ap (λ d. has_any_output d new) (sym (decoded r))
              ∙ quiet g
        ],
      )

  preflight-Keeps :
      (st : Preflight E D) (rs : List (Round E)) (prefix : List E) (at : Option ℕ)
      (rest : List (Round E))
      → preflight s p st rs ≡ opened prefix at rest
      → Keeps st rs prefix at rest
  unfolding preflight stream_end
  preflight-Keeps st [] prefix at rest h = ground (arith, h)
  preflight-Keeps st ((head, window_ends) ∷ rs) prefix at rest h =
      elim (Bool-cases (window_is_over s p st head)) [
        | inl o ↦ over st ((head, window_ends) ∷ rs) rest prefix at (ground (arith, o, h))
        | inr o ↦ over st rs rest prefix at (ground (arith, o, h))
      ]
  preflight-Keeps st ((head, idles) ∷ rs) prefix at rest h =
      elim (Bool-cases (window_is_over s p st head)) [
        | inl o ↦ over st ((head, idles) ∷ rs) rest prefix at (ground (arith, o, h))
        | inr o ↦ ground (arith, o, h)
      ]
  preflight-Keeps st ((head, finishes now) ∷ rs) prefix at rest h =
      elim (Bool-cases (window_is_over s p st head)) [
        | inl o ↦ over st ((head, finishes now) ∷ rs) rest prefix at (ground (arith, o, h))
        | inr o ↦ elim (Bool-cases st.saw_valid_event) [
          | inl v ↦
              nothing_read st rs rest prefix at (ground (arith, o, v, h))
                (let g : rest ≡ rs = ground (arith, o, v, h) in ap items g)
          | inr v ↦ ground (arith, o, v, h)
        ]
      ]
  preflight-Keeps st ((head, arrives now (err x)) ∷ rs) prefix at rest h =
      elim (Bool-cases (window_is_over s p st head)) [
        | inl o ↦ over st ((head, arrives now (err x)) ∷ rs) rest prefix at (ground (arith, o, h))
        | inr o ↦ ground (arith, o, h)
      ]
  preflight-Keeps st ((head, arrives now (ok e)) ∷ rs) prefix at rest h =
      elim (Bool-cases (window_is_over s p st head)) [
        | inl o ↦ over st ((head, arrives now (ok e)) ∷ rs) rest prefix at (ground (arith, o, h))
        | inr o ↦ elim (Result-cases (take_item s p now e st)) [
          | inr (x, t) ↦ ground (arith, o, t, h)
          | inl ((ready, st'), t) ↦
              read_one now head e st st' ready rs rest prefix at t (λ g. ground (arith, o, t, g, h))
                (elim (Bool-cases ready) [
                  | inl g ↦ over st' rs rest prefix at (ground (arith, o, t, g, h))
                  | inr g ↦ preflight-Keeps st' rs prefix at rest (ground (arith, o, t, g, h))
                ])
        ]
      ]

-- A client that polls behind the last item gets every item of a stream without errors, and the endpoint has a success.
track_stream-all :
    {E : Type 0} (from_std : ℕ → Option ℕ) (error_text : GatewayError → String)
    (now now' latency : ℕ) (k : Key) (polls : ℕ) (es : List E) (r : HealthRepo)
    → length es < polls
    → track_stream from_std error_text now now' latency k polls (map ok es) r
      ≡ (map ok es, (record_success now r k latency).1)
unfolding track_stream
track_stream-all from_std error_text now now' latency k zero es r h = elim h [ ]
track_stream-all from_std error_text now now' latency k (suc polls) [] r h = refl
track_stream-all from_std error_text now now' latency k (suc polls) (e ∷ es) r h =
    ap (λ (x : List (Result {0, 0} _ GatewayError) × HealthRepo). (ok e ∷ x.0, x.1))
      (track_stream-all from_std error_text now now' latency k polls es r (omega (arith, h)))

-- A stream that is opened is whole: what was read of it, with the rest behind it, reaches a client that polls behind the
-- last event as what the upstream sent, nothing lost, doubled or moved, and the endpoint has a success in the health,
-- if no error is in the rest. The stream is said to have ended empty only if no event that was read had output.
pub preflight-delivers :
    {E D : Type 0} (s : StreamServices E D) (p : EmptyResponseRetryPolicy) (from_std : ℕ → Option ℕ)
    (error_text : GatewayError → String) (now now' latency : ℕ) (k : Key) (r : HealthRepo)
    (polls : ℕ) (rs : List (Round E)) (prefix : List E) (at : Option ℕ) (rest : List (Round E))
    → preflight s p (new_preflight s p) rs ≡ opened prefix at rest
    → results rest ≡ map ok (items rest)
    → length (items rs) < polls
    → (track_stream from_std error_text now now' latency k polls (map ok prefix ++ results rest) r
        ≡ (map ok (items rs), (record_success now r k latency).1))
      × ((at ≡ none) ⊎ (has_any_output s p s.start prefix ≡ false))
preflight-delivers s p from_std error_text now now' latency k r polls rs prefix at rest h clean
      enough =
    let (new, front, all, quiet) = preflight-Keeps s p (new_preflight s p) rs prefix at rest h in
    let whole = ap (λ x. x ++ items rest) front ∙ all in
    (
      ap (λ x. track_stream from_std error_text now now' latency k polls x r)
            (ap (λ x. map ok prefix ++ x) clean
              ∙ sym (map-append ok prefix (items rest))
              ∙ ap (map ok) whole)
          ∙ track_stream-all from_std error_text now now' latency k polls (items rs) r enough,
      elim (Option-cases at) [
        | inl e ↦ inl e
        | inr (t, e) ↦ inr (ap (has_any_output s p s.start) front ∙ quiet (ap is_some e))
      ],
    )
