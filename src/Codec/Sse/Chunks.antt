-- ===== src/Codec/Sse/Chunks.antt =====
-- The parser does not depend on where the stream is cut (crates/refract-protocol/src/stream.rs).
use refract.Base.{
  ℕ, zero, suc, ◌≤◌, ◌<◌, ◌≡◌, refl, arith, List, [], ◌∷◌, ◌++◌, Option, none, some, String, length,
  Result, ok, err, ap, sym, ◌∙◌, length-append, Option-cases, inl, inr,
}
use mathlib.Core.List.{append_assoc}
use refract.Core.Error.{GatewayError}
use refract.Codec.Sse.{
  Utf8, SseFrame, SseParser, Text, Fed, split_line, strip_cr, take_line, take_field, flush, prepend,
  after_line, decoded_line, feed_lines, feed_bytes,
}

-- The parser with more bytes at the end of its buffer.
abbrev pub fed_more : SseParser → List ℕ → SseParser
fed_more p bytes = record p { buffer = p.buffer ++ bytes }

-- Later bytes do not change which line comes first.
split_line-append :
    (bytes more line rest : List ℕ)
    → split_line bytes ≡ some (line, rest)
    → split_line (bytes ++ more) ≡ some (line, rest ++ more)
unfolding split_line
split_line-append [] more line rest e = cc
split_line-append (b ∷ bs) more line rest e = elim (Option-cases (split_line bs)) [
  | inl f ↦ ground (arith, e, f)
  | inr ((l, r), f) ↦ ground (arith, e, f, split_line-append bs more l r f)
]

-- The bytes behind a line are fewer.
split_line-length :
    (bytes line rest : List ℕ) → split_line bytes ≡ some (line, rest) → length rest < length bytes
unfolding split_line
split_line-length [] line rest e = ground (arith, e)
split_line-length (b ∷ bs) line rest e = elim (Option-cases (split_line bs)) [
  | inl f ↦ ground (arith, e, f)
  | inr ((l, r), f) ↦ ground (arith, e, f, split_line-length bs l r f)
]

split_line_short : (bytes : List ℕ) → length bytes ≤ 0 → split_line bytes ≡ none
unfolding split_line
split_line_short [] h = refl
split_line_short (b ∷ bs) h = elim h [ ]

-- A line is taken whatever the buffer holds, and leaves it alone.
take_line-fed_more :
    (p : SseParser) (text more : List ℕ)
    → take_line (fed_more p more) text ≡ ((take_line p text).0, fed_more (take_line p text).1 more)
unfolding take_line flush take_field
take_line-fed_more p [] more = ground arith
take_line-fed_more p (c ∷ cs) more = ground arith

pub take_line-buffer : (p : SseParser) (text : List ℕ) → (take_line p text).1.buffer ≡ p.buffer
unfolding take_line flush take_field
take_line-buffer p [] = ground arith
take_line-buffer p (c ∷ cs) = ground arith

abbrev Decoded : Type 0
Decoded = Result (Option SseFrame) GatewayError × SseParser

-- The frames of the first part before those of the second.
abbrev pub prepend_all :
    List SseFrame → Result (List SseFrame) GatewayError → Result (List SseFrame) GatewayError
prepend_all fs (ok gs) = ok (fs ++ gs)
prepend_all fs (err e) = err e

prepend_all-nil : (r : Result (List SseFrame) GatewayError) → prepend_all [] r ≡ r
prepend_all-nil (ok gs) = refl
prepend_all-nil (err e) = refl

prepend_all-cons :
    (f : SseFrame) (fs : List SseFrame) (r : Result (List SseFrame) GatewayError)
    → prepend (some f) (prepend_all fs r) ≡ prepend_all (f ∷ fs) r
unfolding prepend
prepend_all-cons f fs (ok gs) = refl
prepend_all-cons f fs (err e) = refl

module _ (u : Utf8) where
  decoded-fed_more :
      (p : SseParser) (d : Result Text String) (more : List ℕ)
      → decoded_line u (fed_more p more) d
        ≡ ((decoded_line u p d).0, fed_more (decoded_line u p d).1 more)
  unfolding decoded_line
  decoded-fed_more p (err e) more = refl
  decoded-fed_more p (ok text) more = ground (arith, take_line-fed_more p text more)

  decoded-buffer :
      (p : SseParser) (d : Result Text String) → (decoded_line u p d).1.buffer ≡ p.buffer
  unfolding decoded_line
  decoded-buffer p (err e) = refl
  decoded-buffer p (ok text) = take_line-buffer p text

  -- The parser goes on after a part of the stream; after an error only the buffer grows.
  abbrev pub resume : Fed → List ℕ → Fed
  resume (ok fs, p) more = (prepend_all fs (feed_bytes u p more).0, (feed_bytes u p more).1)
  resume (err e, p) more = (err e, fed_more p more)

  after_line-cong :
      (d : Decoded) (f g : SseParser → Fed) → f d.1 ≡ g d.1 → after_line d f ≡ after_line d g
  unfolding after_line
  after_line-cong (err e, p) f g h = refl
  after_line-cong (ok frame, p) f g h = ap (λ x. (prepend frame x.0, x.1)) h

  pub feed_lines-none :
      (n : ℕ) (p : SseParser) → split_line p.buffer ≡ none → feed_lines u (suc n) p ≡ (ok [], p)
  unfolding feed_lines
  feed_lines-none n p e = ground (arith, e)

  -- The parser at a line, with the rest of the buffer behind it.
  abbrev pub line_of : SseParser → List ℕ → List ℕ → Decoded
  line_of p line rest = decoded_line u (record p { buffer = rest }) (u.decode (strip_cr line))

  pub feed_lines-some :
      (n : ℕ) (p : SseParser) (line rest : List ℕ)
      → split_line p.buffer ≡ some (line, rest)
      → feed_lines u (suc n) p ≡ after_line (line_of p line rest) (λ p'. feed_lines u n p')
  unfolding feed_lines
  feed_lines-some n p line rest e =
      ap
        (λ o. elim o as (λ x. Fed) [
          | none ↦ (ok [], p)
          | some (l, r) ↦ after_line (line_of p l r) (λ p'. feed_lines u n p')
        ])
        e

  line_of-length :
      (p : SseParser) (line rest : List ℕ) (n : ℕ)
      → split_line p.buffer ≡ some (line, rest)
      → length p.buffer ≤ suc n
      → length (line_of p line rest).1.buffer ≤ n
  line_of-length p line rest n e h =
      let same =
        ap length (decoded-buffer (record p { buffer = rest }) (u.decode (strip_cr line))) in
      omega (arith, same, split_line-length p.buffer line rest e)

  -- The bound on the rounds does not matter when it is not below the length of the buffer.
  feed_lines_bound :
      (n m : ℕ) (p : SseParser)
      → length p.buffer ≤ n
      → length p.buffer ≤ m
      → feed_lines u (suc n) p ≡ feed_lines u (suc m) p
  feed_lines_bound zero m p a b =
      let e = split_line_short p.buffer a in feed_lines-none zero p e ∙ sym (feed_lines-none m p e)
  feed_lines_bound (suc n) zero p a b =
      let e = split_line_short p.buffer b in
      feed_lines-none (suc n) p e ∙ sym (feed_lines-none zero p e)
  feed_lines_bound (suc n) (suc m) p a b = elim (Option-cases (split_line p.buffer)) [
    | inl e ↦ feed_lines-none (suc n) p e ∙ sym (feed_lines-none (suc m) p e)
    | inr ((line, rest), e) ↦
        let d = line_of p line rest in
        feed_lines-some (suc n) p line rest e
        ∙ after_line-cong d (λ q. feed_lines u (suc n) q) (λ q. feed_lines u (suc m) q)
            (feed_lines_bound n m d.1 (line_of-length p line rest n e a)
              (line_of-length p line rest m e b))
        ∙ sym (feed_lines-some (suc m) p line rest e)
  ]

  resume_prepend :
      (f : Option SseFrame) (x y : Fed) (more : List ℕ)
      → y ≡ resume x more
      → ◌≡◌ {A = Fed} (prepend f y.0, y.1) (resume (prepend f x.0, x.1) more)
  unfolding prepend
  resume_prepend none x y more h = h
  resume_prepend (some f) (ok fs, p) y more h =
      ap (λ z. (prepend (some f) z.0, z.1)) h
      ∙ ap (λ r. (r, (feed_bytes u p more).1)) (prepend_all-cons f fs (feed_bytes u p more).0)
  resume_prepend (some f) (err e, p) y more h = ap (λ z. (prepend (some f) z.0, z.1)) h

  resume_after :
      (d : Decoded) (more : List ℕ) (f g : SseParser → Fed)
      → g (fed_more d.1 more) ≡ resume (f d.1) more
      → after_line (d.0, fed_more d.1 more) g ≡ resume (after_line d f) more
  unfolding after_line
  resume_after (err e, p) more f g h = refl
  resume_after (ok frame, p) more f g h = resume_prepend frame (f p) (g (fed_more p more)) more h

  none_append :
      (n m : ℕ) (p : SseParser) (more : List ℕ)
      → length (p.buffer ++ more) ≤ m
      → split_line p.buffer ≡ none
      → feed_lines u (suc m) (fed_more p more) ≡ resume (feed_lines u (suc n) p) more
  unfolding feed_bytes
  none_append n m p more b e =
      let q = feed_bytes u p more in
      feed_lines_bound m (length (p.buffer ++ more)) (fed_more p more) b (omega arith)
      ∙ ap (λ r. (r, q.1)) (sym (prepend_all-nil q.0))
      ∙ ap (λ x. resume x more) (sym (feed_lines-none n p e))

  some_append :
      (n m : ℕ) (p : SseParser) (more line rest : List ℕ)
      → split_line p.buffer ≡ some (line, rest)
      → feed_lines u (suc m) (fed_more (line_of p line rest).1 more)
        ≡ resume (feed_lines u (suc n) (line_of p line rest).1) more
      → feed_lines u (suc (suc m)) (fed_more p more) ≡ resume (feed_lines u (suc (suc n)) p) more
  some_append n m p more line rest e h =
      let d = line_of p line rest in
      feed_lines-some (suc m) (fed_more p more) line (rest ++ more)
        (split_line-append p.buffer more line rest e)
      ∙ ap (λ x. after_line x (λ q. feed_lines u (suc m) q))
          (decoded-fed_more (record p { buffer = rest }) (u.decode (strip_cr line)) more)
      ∙ resume_after d more (λ q. feed_lines u (suc n) q) (λ q. feed_lines u (suc m) q) h
      ∙ ap (λ x. resume x more) (sym (feed_lines-some (suc n) p line rest e))

  lines-append :
      (n m : ℕ) (p : SseParser) (more : List ℕ)
      → length p.buffer ≤ n
      → length (p.buffer ++ more) ≤ m
      → feed_lines u (suc m) (fed_more p more) ≡ resume (feed_lines u (suc n) p) more
  lines-append zero m p more a b = none_append zero m p more b (split_line_short p.buffer a)
  lines-append (suc n) zero p more a b =
      none_append (suc n) zero p more b
        (split_line_short p.buffer (omega (arith, b, length-append p.buffer more)))
  lines-append (suc n) (suc m) p more a b = elim (Option-cases (split_line p.buffer)) [
    | inl e ↦ none_append (suc n) (suc m) p more b e
    | inr ((line, rest), e) ↦
        let q = (line_of p line rest).1 in
        let kept = decoded-buffer (record p { buffer = rest }) (u.decode (strip_cr line)) in
        some_append n m p more line rest e (
          lines-append n m q more (line_of-length p line rest n e a) (
            omega (
              arith,
              b,
              ap length kept,
              split_line-length p.buffer line rest e,
              length-append p.buffer more,
              length-append q.buffer more,
            )))
  ]

  -- Where a stream is cut does not matter: for every parser and bytes a and b, feeding a ++ b at once leaves the parser
  -- and gives the frames of feeding a and then b; when a line of a is no UTF-8, its error is given and b stays in the
  -- buffer.
  pub feed_bytes-append :
      (p : SseParser) (a b : List ℕ) → feed_bytes u p (a ++ b) ≡ resume (feed_bytes u p a) b
  unfolding feed_bytes
  feed_bytes-append p a b =
      let x = p.buffer ++ a in
      ap (λ bytes. feed_lines u (suc (length bytes)) (record p { buffer = bytes }))
        (sym (append_assoc p.buffer a b))
      ∙ lines-append (length x) (length (x ++ b)) (record p { buffer = x }) b (omega arith)
          (omega arith)
