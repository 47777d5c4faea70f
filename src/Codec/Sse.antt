-- ===== src/Codec/Sse.antt =====
-- Frames of server-sent events and their incremental parser (crates/refract-protocol/src/stream.rs, `SseFrame` and
-- `SseParser`). A text is a list of code points; UTF-8 is the interface `Utf8`.
pub mod Chunks
pub mod Lines
pub mod RoundTrip
use Prim.Native.String.{◌++◌ as append_text}
use refract.Base.{
  ℕ, zero, suc, Bool, true, false, ◌&&◌, ◌||◌, not, List, [], ◌∷◌, ◌++◌, Option, none, some, String,
  ◌==◌, leb, if◌then◌else◌, length, is_empty, is_none, Result, ok, err,
}
use refract.Core.Error.{GatewayError, new_error, upstream_error}

abbrev pub Text : Type 0
Text = List ℕ

-- `str::from_utf8`, whose error is a text, and its inverse.
pub record Utf8 : Type 0 where
  pub decode : List ℕ → Result Text String
  pub encode : Text → List ℕ

pub record SseFrame : Type 0 where
  pub event : Option Text
  pub payload : Text

abbrev pub colon : ℕ
colon = 58

abbrev pub space : ℕ
space = 32

abbrev pub line_feed : ℕ
line_feed = 10

abbrev pub carriage_return : ℕ
carriage_return = 13

-- "event" and "data".
abbrev pub event_field : Text
event_field = 101 ∷ 118 ∷ 101 ∷ 110 ∷ 116 ∷ []

abbrev pub data_field : Text
data_field = 100 ∷ 97 ∷ 116 ∷ 97 ∷ []

-- `str::split('\n')`, which has a piece more than there are line feeds, and `join("\n")`.
unfoldable pub put_first : ℕ → List Text → List Text
put_first c [] = (c ∷ []) ∷ []
put_first c (t ∷ ts) = (c ∷ t) ∷ ts

unfoldable pub split_lines : Text → List Text
unfolding put_first
split_lines [] = [] ∷ []
split_lines (c ∷ cs) =
    let rest = split_lines cs in if c == line_feed then [] ∷ rest else put_first c rest

unfoldable pub join_lines : List Text → Text
join_lines [] = []
join_lines (t ∷ []) = t
join_lines (t ∷ u ∷ ts) = t ++ line_feed ∷ join_lines (u ∷ ts)

-- `SseFrame::render`.
unfoldable pub field_line : Text → Text → Text
field_line name value = name ++ colon ∷ space ∷ value ++ line_feed ∷ []

unfoldable pub data_lines : List Text → Text
unfolding field_line
data_lines [] = []
data_lines (t ∷ ts) = field_line data_field t ++ data_lines ts

unfoldable pub event_line : Option Text → Text
unfolding field_line
event_line none = []
event_line (some e) = field_line event_field e

unfoldable pub render : SseFrame → Text
unfolding event_line data_lines split_lines
render f = event_line f.event ++ data_lines (split_lines f.payload) ++ line_feed ∷ []

pub record SseParser : Type 0 where
  pub buffer : List ℕ
  pub event : Option Text
  pub lines : List Text

abbrev pub new_parser : SseParser
new_parser = record { buffer = []; event = none; lines = [] }

-- The bytes before the first line feed and those behind it.
unfoldable pub split_line : List ℕ → Option (List ℕ × List ℕ)
split_line [] = none
split_line (b ∷ bs) =
    if b == line_feed
    then some ([], bs)
    else elim (split_line bs) [ none ↦ none | some (line, rest) ↦ some (b ∷ line, rest) ]

-- The line without a carriage return at its end.
unfoldable pub strip_cr : List ℕ → List ℕ
strip_cr [] = []
strip_cr (b ∷ bs) =
    let rest = strip_cr bs in if b == carriage_return && is_empty bs then [] else b ∷ rest

-- `split_once(':')`, where a line without a colon is a field with an empty value.
unfoldable pub split_field : Text → Text × Text
split_field [] = ([], [])
split_field (c ∷ cs) =
    let (field, value) = split_field cs in if c == colon then ([], cs) else (c ∷ field, value)

-- The value without one space at its front.
unfoldable pub strip_space : Text → Text
strip_space [] = []
strip_space (c ∷ cs) = if c == space then cs else c ∷ cs

unfoldable pub same_text : Text → Text → Bool
same_text [] [] = true
same_text [] (d ∷ ds) = false
same_text (c ∷ cs) [] = false
same_text (c ∷ cs) (d ∷ ds) = c == d && same_text cs ds

-- `SseParser::flush`.
unfoldable pub flush : SseParser → Option SseFrame × SseParser
unfolding join_lines
flush p = if is_empty p.lines && is_none p.event then (none, p) else (
  some (record { event = p.event; payload = join_lines p.lines }),
  record p { event = none; lines = [] },
)

unfoldable pub take_field : SseParser → Text → Text → SseParser
unfolding same_text strip_space
take_field p field value =
    if same_text field event_field
    then record p { event = some (strip_space value) }
    else if same_text field data_field
    then record p { lines = p.lines ++ strip_space value ∷ [] }
    else p

-- What a line does: an empty one ends a frame, and one that starts with a colon is a comment.
unfoldable pub take_line : SseParser → Text → Option SseFrame × SseParser
unfolding flush take_field split_field
take_line p [] = flush p
take_line p (c ∷ cs) =
    let (field, value) = split_field (c ∷ cs) in
    if c == colon then (none, p) else (none, take_field p field value)

unfoldable pub prepend :
    Option SseFrame → Result (List SseFrame) GatewayError → Result (List SseFrame) GatewayError
prepend none r = r
prepend (some f) (ok fs) = ok (f ∷ fs)
prepend (some f) (err e) = err e

abbrev pub utf8_error : String → GatewayError
utf8_error text =
    new_error upstream_error (append_text "upstream SSE contains invalid UTF-8: " text)

-- A parser's frames, or the error of a line that is no UTF-8, with the parser behind them.
abbrev pub Fed : Type 0
Fed = Result (List SseFrame) GatewayError × SseParser

unfoldable pub after_line :
    Result (Option SseFrame) GatewayError × SseParser → (SseParser → Fed) → Fed
unfolding prepend
after_line (err e, p) more = (err e, p)
after_line (ok frame, p) more = (prepend frame (more p).0, (more p).1)

-- `char::is_whitespace` of a code point.
unfoldable pub is_white : ℕ → Bool
is_white n =
    (leb 9 n && leb n 13)
    || n == 0x20
    || n == 0x85
    || n == 0xa0
    || n == 0x1680
    || (leb 0x2000 n && leb n 0x200a)
    || n == 0x2028
    || n == 0x2029
    || n == 0x202f
    || n == 0x205f
    || n == 0x3000

-- `str::trim_start` and `trim_end`.
unfoldable pub trim_front : Text → Text
unfolding is_white
trim_front [] = []
trim_front (c ∷ cs) = let rest = trim_front cs in if is_white c then rest else c ∷ cs

unfoldable pub trim_back : Text → Text
unfolding is_white
trim_back [] = []
trim_back (c ∷ cs) = let rest = trim_back cs in if is_white c && is_empty rest then [] else c ∷ rest

-- `strip_prefix`.
unfoldable pub strip_prefix : Text → Text → Option Text
strip_prefix [] t = some t
strip_prefix (c ∷ cs) [] = none
strip_prefix (c ∷ cs) (d ∷ ds) = let rest = strip_prefix cs ds in if c == d then rest else none

unfoldable pub rest_value : Text → Option Text
unfolding trim_front trim_back strip_prefix
rest_value t = elim (strip_prefix (data_field ++ colon ∷ []) (trim_back (trim_front t))) [
  | none ↦ none
  | some value ↦ some (trim_front value)
]

-- What an unfinished last line adds.
unfoldable pub finish_rest : SseParser → Text → SseParser
unfolding rest_value
finish_rest p t = elim (rest_value t) [
  | none ↦ p
  | some value ↦ record p { lines = p.lines ++ value ∷ [] }
]

module _ (u : Utf8) where
  unfoldable pub decoded_line :
      SseParser → Result Text String → Result (Option SseFrame) GatewayError × SseParser
  unfolding take_line
  decoded_line p (err e) = (err (utf8_error e), p)
  decoded_line p (ok text) = let (frame, p') = take_line p text in (ok frame, p')

  -- The loop over the complete lines of the buffer; the number bounds the rounds.
  unfoldable pub feed_lines : ℕ → SseParser → Fed
  unfolding decoded_line split_line strip_cr after_line
  feed_lines zero p = (ok [], p)
  feed_lines (suc n) p = elim (split_line p.buffer) [
    | none ↦ (ok [], p)
    | some (line, rest) ↦
        after_line (decoded_line (record p { buffer = rest }) (u.decode (strip_cr line)))
          (λ p'. feed_lines n p')
  ]

  -- `SseParser::feed_bytes`.
  unfoldable pub feed_bytes : SseParser → List ℕ → Fed
  unfolding feed_lines
  feed_bytes p chunk =
      let bytes = p.buffer ++ chunk in feed_lines (suc (length bytes)) (record p { buffer = bytes })

  -- `SseParser::finish_bytes`.
  unfoldable pub finish_bytes : SseParser → Result (Option SseFrame) GatewayError × SseParser
  unfolding finish_rest flush
  finish_bytes p =
      let taken = record p { buffer = [] } in
      if is_empty p.buffer
      then (let (frame, p') = flush p in (ok frame, p'))
      else elim (u.decode p.buffer) [
        | err e ↦ (err (utf8_error e), taken)
        | ok t ↦ let (frame, p') = flush (finish_rest taken t) in (ok frame, p')
      ]
