-- ===== src/Examples/Streams.antt =====
-- The stream's theorems at concrete bytes.
use refract.Base.{All, arith, if◌then◌else◌, some, ℕ, List, [], ◌∷◌, ◌++◌, none, ok, ◌≡◌, refl}
use refract.Codec.Sse.RoundTrip.{IsUtf8, feed_bytes-render_all}
use refract.Codec.Sse.Lines.{IsPlain, render_all}
use refract.Codec.Sse.{Utf8, SseFrame, feed_bytes, new_parser}
use refract.Codec.Aggregate.{
  StreamEvent, text, text_delta, thinking_delta, absorb_all, new_aggregator,
}
use refract.Codec.Aggregate.Blocks.{text_at}
use refract.Codec.Aggregate.Texts.{joined, is_touched, absorb_all-text_at}
use refract.Codec.Sse.Chunks.{resume, feed_bytes-append}

-- Texts of ASCII characters.
abbrev ascii : Utf8
ascii = record { decode = λ bytes. ok bytes; encode = λ text. text }

-- "data: a" and "b" with two line feeds.
abbrev front : List ℕ
front = 100 ∷ 97 ∷ 116 ∷ 97 ∷ 58 ∷ 32 ∷ 97 ∷ []

abbrev back : List ℕ
back = 98 ∷ 10 ∷ 10 ∷ []

one_frame :
    feed_bytes ascii new_parser (front ++ back)
    ≡ (ok (record { event = none; payload = 97 ∷ 98 ∷ [] } ∷ []), new_parser)
unfolding feed_bytes
one_frame = refl

feed_bytes-append_example :
    feed_bytes ascii new_parser (front ++ back)
    ≡ resume ascii (feed_bytes ascii new_parser front) back
feed_bytes-append_example = feed_bytes-append ascii new_parser front back

ascii_laws : IsUtf8 ascii
ascii_laws = record {
  encode-nil = refl;
  encode-append = λ s t. refl;
  encode_ascii = λ c h. refl;
  encode_beyond = λ c h. (h, tt);
  decode-encode = λ t. refl;
}

-- A frame of two lines and a named one.
abbrev frames : List SseFrame
frames =
    record { event = none; payload = 97 ∷ 10 ∷ 98 ∷ [] }
    ∷ record { event = some (101 ∷ []); payload = [] }
    ∷ []

frames-IsPlain : All IsPlain frames
frames-IsPlain = ground arith

feed_bytes-render_all_example :
    feed_bytes ascii new_parser (ascii.encode (render_all frames)) ≡ (ok frames, new_parser)
feed_bytes-render_all_example = feed_bytes-render_all ascii ascii_laws frames frames-IsPlain

-- Thoughts and text on one index, as some upstreams send them.
abbrev events : List StreamEvent
events = thinking_delta 0 "hm" ∷ text_delta 0 "a" ∷ thinking_delta 0 "." ∷ text_delta 0 "b" ∷ []

text_is_whole : text_at 0 text (absorb_all events new_aggregator).blocks ≡ some "ab"
unfolding text_at absorb_all
text_is_whole = refl

absorb_all-text_at_example :
    text_at 0 text (absorb_all events new_aggregator).blocks
    ≡ (if is_touched 0 text events then some (joined 0 text "" events) else none)
absorb_all-text_at_example = absorb_all-text_at 0 text events
