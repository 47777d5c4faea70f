-- ===== src/Codec/Sse/RoundTrip.antt =====
-- Frames that are written are read back (crates/refract-protocol/src/stream.rs, `render` and `feed_bytes`).
use refract.Base.{
  ℕ, zero, suc, ◌<◌, ◌≤◌, ◌≡◌, ◌≢◌, refl, sym, ap, ap₂, subst, ◌∙◌, arith, List, [], ◌∷◌, ◌++◌,
  Option, none, some, length, ok, All, All-append, All-mono, Bool-cases, inl, inr, ltb,
}
use refract.Codec.Sse.{
  Utf8, SseFrame, SseParser, new_parser, Text, split_line, render, line_feed, carriage_return,
  take_line, prepend, after_line, decoded_line, feed_lines, feed_bytes,
}
use refract.Codec.Sse.Chunks.{
  feed_lines-some, feed_lines-none, take_line-buffer, resume, prepend_all, feed_bytes-append,
}
use refract.Codec.Sse.Lines.{
  IsWithout, split_line_without, strip_cr_without, IsLine, add_frame, take_lines, frame_lines,
  lines_text, render_lines, take_frame, render_all, IsPlain, frame_lines-All,
}

-- What the encoding guarantees: it goes character by character, a character of ASCII is its own byte, every byte of
-- another is beyond ASCII, and decoding undoes it.
pub record IsUtf8 (u : Utf8) : Type 0 where
  pub encode-nil : u.encode [] ≡ []
  pub encode-append : (s t : Text) → u.encode (s ++ t) ≡ u.encode s ++ u.encode t
  pub encode_ascii : (c : ℕ) → c < 128 → u.encode (c ∷ []) ≡ c ∷ []
  pub encode_beyond : (c : ℕ) → 128 ≤ c → All (λ b. 128 ≤ b) (u.encode (c ∷ []))
  pub decode-encode : (t : Text) → u.decode (u.encode t) ≡ ok t

module _ (u : Utf8) (laws : IsUtf8 u) where
  abbrev line_bytes : Text → List ℕ
  line_bytes t = u.encode t ++ line_feed ∷ []

  abbrev lines_bytes : List Text → List ℕ
  lines_bytes [] = []
  lines_bytes (t ∷ ts) = line_bytes t ++ lines_bytes ts

  encode_one : (n c : ℕ) → n < 128 → c ≢ n → IsWithout n (u.encode (c ∷ []))
  encode_one n c low h = elim (Bool-cases (ltb c 128)) [
    | inl e ↦ subst (IsWithout n) (sym (laws.encode_ascii c (ground (arith, e)))) (h, tt)
    | inr e ↦
        All-mono (λ b. 128 ≤ b) (λ b. b ≢ n) (λ b x y. omega (arith, x, y, low)) (u.encode (c ∷ []))
          (laws.encode_beyond c (ground (arith, e)))
  ]

  encode-IsWithout : (n : ℕ) (t : Text) → n < 128 → IsWithout n t → IsWithout n (u.encode t)
  encode-IsWithout n [] low h = subst (IsWithout n) (sym laws.encode-nil) tt
  encode-IsWithout n (c ∷ cs) low h = subst (IsWithout n) (sym (laws.encode-append (c ∷ []) cs)) (
      All-append (λ b. b ≢ n) (u.encode (c ∷ [])) (u.encode cs) (encode_one n c low h.0)
        (encode-IsWithout n cs low h.1))

  feed_lines_idle : (n : ℕ) (p : SseParser) → p.buffer ≡ [] → feed_lines u n p ≡ (ok [], p)
  unfolding feed_lines split_line
  feed_lines_idle zero p e = refl
  feed_lines_idle (suc n) p e = feed_lines-none u n p (ap split_line e)

  -- A parser with an empty buffer takes a line.
  feed_line :
      (p : SseParser) (t : Text)
      → p.buffer ≡ []
      → IsLine t
      → feed_bytes u p (line_bytes t) ≡ (prepend (take_line p t).0 (ok []), (take_line p t).1)
  unfolding feed_bytes decoded_line after_line
  feed_line p t e h =
      let line = line_bytes t in
      let bytes = u.encode t in
      let clean = encode-IsWithout line_feed t (omega arith) h.0 in
      let kept = encode-IsWithout carriage_return t (omega arith) h.1 in
      let idle : record p { buffer = [] } ≡ p = ap (λ x. record p { buffer = x }) (sym e) in
      let read = ap u.decode (strip_cr_without bytes kept) ∙ laws.decode-encode t in
      ap (λ x. feed_lines u (suc (length (x ++ line))) (record p { buffer = x ++ line })) e
      ∙ feed_lines-some u (length line) (record p { buffer = line }) bytes []
          (split_line_without bytes [] clean)
      ∙ ap₂ (λ q d. after_line (decoded_line u q d) (λ p'. feed_lines u (length line) p')) idle read
      ∙ ap (λ x. (prepend (take_line p t).0 x.0, x.1))
          (feed_lines_idle (length line) (take_line p t).1 (take_line-buffer p t ∙ e))

  lines_text-encode : (ts : List Text) → u.encode (lines_text ts) ≡ lines_bytes ts
  lines_text-encode [] = laws.encode-nil
  lines_text-encode (t ∷ ts) =
      laws.encode-append (t ++ line_feed ∷ []) (lines_text ts)
      ∙ ap₂ ◌++◌
          (laws.encode-append t (line_feed ∷ [])
            ∙ ap (λ x. u.encode t ++ x) (laws.encode_ascii line_feed (omega arith)))
          (lines_text-encode ts)

  resume_frame :
      (f : Option SseFrame) (p q : SseParser) (rest : List ℕ) (fs : List SseFrame)
      → feed_bytes u p rest ≡ (ok fs, q)
      → resume u (prepend f (ok []), p) rest ≡ (ok (add_frame f fs), q)
  unfolding prepend
  resume_frame none p q rest fs h = ap (λ x. (prepend_all [] x.0, x.1)) h
  resume_frame (some f) p q rest fs h = ap (λ x. (prepend_all (f ∷ []) x.0, x.1)) h

  feed_nil : (p : SseParser) → p.buffer ≡ [] → feed_bytes u p [] ≡ (ok [], p)
  unfolding feed_bytes
  feed_nil p e =
      ap (λ x. feed_lines u (suc (length (x ++ []))) (record p { buffer = x ++ [] })) e
      ∙ feed_lines_idle 1 (record p { buffer = [] }) refl
      ∙ ap (λ x. (ok [], record p { buffer = x })) (sym e)

  feed_lines-All :
      (p : SseParser) (ts : List Text)
      → p.buffer ≡ []
      → All IsLine ts
      → feed_bytes u p (lines_bytes ts) ≡ (ok (take_lines p ts).0, (take_lines p ts).1)
  feed_lines-All p [] e h = feed_nil p e
  feed_lines-All p (t ∷ ts) e h =
      let (f, p') = take_line p t in
      feed_bytes-append u p (line_bytes t) (lines_bytes ts)
      ∙ ap (λ x. resume u x (lines_bytes ts)) (feed_line p t e h.0)
      ∙ resume_frame f p' (take_lines p' ts).1 (lines_bytes ts) (take_lines p' ts).0
          (feed_lines-All p' ts (take_line-buffer p t ∙ e) h.1)

  feed_frame :
      (f : SseFrame)
      → IsPlain f
      → feed_bytes u new_parser (u.encode (render f)) ≡ (ok (f ∷ []), new_parser)
  feed_frame f h =
      ap (λ t. feed_bytes u new_parser (u.encode t)) (render_lines f)
      ∙ ap (feed_bytes u new_parser) (lines_text-encode (frame_lines f))
      ∙ feed_lines-All new_parser (frame_lines f) refl (frame_lines-All f h)
      ∙ ap (λ x. (ok x.0, x.1)) (take_frame f)

  -- Frames that are rendered, encoded and fed to a new parser come out as they were, with nothing left over. Their events
  -- hold no line feed and no carriage return, and their payloads, which may have several lines, no carriage return.
  pub feed_bytes-render_all :
      (fs : List SseFrame)
      → All IsPlain fs
      → feed_bytes u new_parser (u.encode (render_all fs)) ≡ (ok fs, new_parser)
  feed_bytes-render_all [] h =
      ap (feed_bytes u new_parser) laws.encode-nil ∙ feed_nil new_parser refl
  feed_bytes-render_all (f ∷ fs) h =
      let rest = u.encode (render_all fs) in
      ap (feed_bytes u new_parser) (laws.encode-append (render f) (render_all fs))
      ∙ feed_bytes-append u new_parser (u.encode (render f)) rest
      ∙ ap (λ x. resume u x rest) (feed_frame f h.0)
      ∙ ap (λ x. (prepend_all (f ∷ []) x.0, x.1)) (feed_bytes-render_all fs h.1)
