-- ===== src/Codec/Sse/Lines.antt =====
-- A frame is a text of lines, and the parser takes those lines back to the frame (crates/refract-protocol/src/stream.rs,
-- `render`, `take_line` and `flush`).
use mathlib.Core.List.{append_assoc, append-nil}
use refract.Base.{
  ℕ, ◌≡◌, ◌≢◌, refl, sym, ap, ap₂, ◌∙◌, arith, false, List, [], ◌∷◌, ◌++◌, Option, none, some, ◌==◌,
  if◌then◌else◌, is_empty, map, All, All-append, Bool-cases, inl, inr,
}
use refract.Codec.Sse.{
  SseFrame, SseParser, new_parser, Text, split_line, strip_cr, split_lines, join_lines, put_first,
  field_line, data_lines, event_line, render, event_field, data_field, colon, space, line_feed,
  carriage_return, take_line, take_field, split_field, strip_space, same_text, flush,
}

-- A number does not occur.
abbrev pub IsWithout : ℕ → List ℕ → Type 0
IsWithout n t = All (λ c. c ≢ n) t

pub split_line_without :
    (line rest : List ℕ)
    → IsWithout line_feed line
    → split_line (line ++ line_feed ∷ rest) ≡ some (line, rest)
unfolding split_line
split_line_without [] rest h = refl
split_line_without (b ∷ bs) rest h = ground (arith, h, split_line_without bs rest h.1)

pub strip_cr_without : (line : List ℕ) → IsWithout carriage_return line → strip_cr line ≡ line
unfolding strip_cr
strip_cr_without [] h = refl
strip_cr_without (b ∷ bs) h = ground (arith, h, strip_cr_without bs h.1)

-- A text in lines is joined again.
join_nil : join_lines ([] ∷ []) ≡ []
unfolding join_lines
join_nil = refl

join_lines-put_first : (c : ℕ) (ts : List Text) → join_lines (put_first c ts) ≡ c ∷ join_lines ts
unfolding join_lines put_first
join_lines-put_first c [] = refl
join_lines-put_first c (t ∷ []) = refl
join_lines-put_first c (t ∷ s ∷ ts) = refl

join_lines_blank :
    (ts : List Text) → is_empty ts ≡ false → join_lines ([] ∷ ts) ≡ line_feed ∷ join_lines ts
unfolding join_lines
join_lines_blank [] h = cc h
join_lines_blank (t ∷ ts) h = refl

split_lines_some : (t : Text) → is_empty (split_lines t) ≡ false
unfolding split_lines put_first
split_lines_some [] = refl
split_lines_some (c ∷ cs) = ground (arith, split_lines_some cs)

join_lines-split_lines : (t : Text) → join_lines (split_lines t) ≡ t
unfolding split_lines
join_lines-split_lines [] = join_nil
join_lines-split_lines (c ∷ cs) = elim (Bool-cases (c == line_feed)) [
  | inl e ↦
      let same : line_feed ≡ c = ground (arith, e) in
      ap (λ b. join_lines (if b then [] ∷ split_lines cs else put_first c (split_lines cs))) e
      ∙ join_lines_blank (split_lines cs) (split_lines_some cs)
      ∙ ap₂ ◌∷◌ same (join_lines-split_lines cs)
  | inr e ↦
      ap (λ b. join_lines (if b then [] ∷ split_lines cs else put_first c (split_lines cs))) e
      ∙ join_lines-put_first c (split_lines cs)
      ∙ ap (◌∷◌ c) (join_lines-split_lines cs)
]

-- A line of the format: no line feed and no carriage return in it.
abbrev pub IsLine : Text → Type 0
IsLine t = IsWithout line_feed t × IsWithout carriage_return t

put_first_lines :
    (c : ℕ) (ts : List Text)
    → c ≢ line_feed
    → c ≢ carriage_return
    → All IsLine ts
    → All IsLine (put_first c ts)
unfolding put_first
put_first_lines c [] a b h = (((a, tt), (b, tt)), tt)
put_first_lines c (t ∷ ts) a b h = (((a, h.0.0), (b, h.0.1)), h.1)

split_lines_without : (t : Text) → IsWithout carriage_return t → All IsLine (split_lines t)
unfolding split_lines
split_lines_without [] h = ((tt, tt), tt)
split_lines_without (c ∷ cs) h = elim (Bool-cases (c == line_feed)) [
  | inl e ↦ rw e ((tt, tt), split_lines_without cs h.1)
  | inr e ↦
      rw e (put_first_lines c (split_lines cs) (ground (arith, e)) h.0 (split_lines_without cs h.1))
]

-- What the parser does with lines.
abbrev pub add_frame : Option SseFrame → List SseFrame → List SseFrame
add_frame none fs = fs
add_frame (some f) fs = f ∷ fs

abbrev pub take_lines : SseParser → List Text → List SseFrame × SseParser
take_lines p [] = ([], p)
take_lines p (t ∷ ts) =
    let (f, p') = take_line p t in let (fs, q) = take_lines p' ts in (add_frame f fs, q)

-- The lines of a frame, without their ends.
abbrev data_line : Text → Text
data_line v = data_field ++ colon ∷ space ∷ v

abbrev event_lines : Option Text → List Text
event_lines none = []
event_lines (some e) = (event_field ++ colon ∷ space ∷ e) ∷ []

abbrev pub frame_lines : SseFrame → List Text
frame_lines f = event_lines f.event ++ map data_line (split_lines f.payload) ++ [] ∷ []

abbrev pub lines_text : List Text → Text
lines_text [] = []
lines_text (t ∷ ts) = (t ++ line_feed ∷ []) ++ lines_text ts

data_lines_text :
    (ls : List Text) → data_lines ls ++ line_feed ∷ [] ≡ lines_text (map data_line ls ++ [] ∷ [])
unfolding data_lines field_line
data_lines_text [] = refl
data_lines_text (t ∷ ts) =
    append_assoc (field_line data_field t) (data_lines ts) (line_feed ∷ [])
    ∙ ap (λ x. field_line data_field t ++ x) (data_lines_text ts)

pub render_lines : (f : SseFrame) → render f ≡ lines_text (frame_lines f)
unfolding render event_line field_line
render_lines f =
    elim f.event
      as (λ e.
        event_line e ++ data_lines (split_lines f.payload) ++ line_feed ∷ []
        ≡ lines_text (event_lines e ++ map data_line (split_lines f.payload) ++ [] ∷ [])) [
          | none ↦ data_lines_text (split_lines f.payload)
          | some e ↦
              append_assoc (field_line event_field e) (data_lines (split_lines f.payload))
                (line_feed ∷ [])
              ∙ ap (λ x. field_line event_field e ++ x) (data_lines_text (split_lines f.payload))
        ]

-- A parser between frames reads the lines of one.
take_lines-data :
    (p : SseParser) (ls rest : List Text)
    → take_lines p (map data_line ls ++ rest) ≡ take_lines (record p { lines = p.lines ++ ls }) rest
unfolding take_line take_field split_field strip_space same_text
take_lines-data p [] rest =
    ap (λ x. take_lines (record p { lines = x }) rest) (sym (append-nil p.lines))
take_lines-data p (t ∷ ts) rest =
    take_lines-data (record p { lines = p.lines ++ t ∷ [] }) ts rest
    ∙ ap (λ x. take_lines (record p { lines = x }) rest) (append_assoc p.lines (t ∷ []) ts)

abbrev between : Option Text → List Text → SseParser
between e ls = record { buffer = []; event = e; lines = ls }

take_end :
    (e : Option Text) (ls : List Text)
    → is_empty ls ≡ false
    → take_lines (between e ls) ([] ∷ [])
      ≡ (record { event = e; payload = join_lines ls } ∷ [], new_parser)
unfolding take_line flush
take_end e [] h = cc h
take_end e (l ∷ ls) h = refl

take_frame_of :
    (e : Option Text) (t : Text)
    → take_lines new_parser (event_lines e ++ map data_line (split_lines t) ++ [] ∷ [])
      ≡ (record { event = e; payload = t } ∷ [], new_parser)
unfolding take_line take_field split_field strip_space same_text
take_frame_of none t =
    take_lines-data new_parser (split_lines t) ([] ∷ [])
    ∙ take_end none (split_lines t) (split_lines_some t)
    ∙ ap (λ x. (record { event = none; payload = x } ∷ [], new_parser)) (join_lines-split_lines t)
take_frame_of (some e) t =
    take_lines-data (between (some e) []) (split_lines t) ([] ∷ [])
    ∙ take_end (some e) (split_lines t) (split_lines_some t)
    ∙ ap (λ x. (record { event = some e; payload = x } ∷ [], new_parser)) (join_lines-split_lines t)

pub take_frame : (f : SseFrame) → take_lines new_parser (frame_lines f) ≡ (f ∷ [], new_parser)
take_frame f = take_frame_of f.event f.payload

-- Several frames on the wire.
abbrev pub render_all : List SseFrame → Text
render_all [] = []
render_all (f ∷ fs) = render f ++ render_all fs

-- An event, where there is one, is a line.
abbrev pub IsEventLine : Option Text → Type 0
IsEventLine none = Unit
IsEventLine (some e) = IsLine e

-- A frame whose event is a line and whose payload has no carriage return.
abbrev pub IsPlain : SseFrame → Type 0
IsPlain f = IsEventLine f.event × IsWithout carriage_return f.payload

behind_field :
    (name v : Text)
    → IsLine (name ++ colon ∷ space ∷ [])
    → IsLine v
    → IsLine ((name ++ colon ∷ space ∷ []) ++ v)
behind_field name v a b = (
  All-append (λ c. c ≢ line_feed) (name ++ colon ∷ space ∷ []) v a.0 b.0,
  All-append (λ c. c ≢ carriage_return) (name ++ colon ∷ space ∷ []) v a.1 b.1,
)

data_prefix : IsLine (data_field ++ colon ∷ space ∷ [])
data_prefix = ground arith

event_prefix : IsLine (event_field ++ colon ∷ space ∷ [])
event_prefix = ground arith

data_lines-All : (ls : List Text) → All IsLine ls → All IsLine (map data_line ls ++ [] ∷ [])
data_lines-All [] h = ((tt, tt), tt)
data_lines-All (l ∷ ls) h = (behind_field data_field l data_prefix h.0, data_lines-All ls h.1)

event_lines-All :
    (e : Option Text) (ls : List Text)
    → IsEventLine e
    → All IsLine (map data_line ls ++ [] ∷ [])
    → All IsLine (event_lines e ++ map data_line ls ++ [] ∷ [])
event_lines-All none ls h more = more
event_lines-All (some t) ls h more = (behind_field event_field t event_prefix h, more)

pub frame_lines-All : (f : SseFrame) → IsPlain f → All IsLine (frame_lines f)
frame_lines-All f h =
    event_lines-All f.event (split_lines f.payload) h.0
      (data_lines-All (split_lines f.payload) (split_lines_without f.payload h.1))
