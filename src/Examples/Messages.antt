-- ===== src/Examples/Messages.antt =====
-- The streams of Messages at a concrete answer.
use refract.Base.{
  ℕ, List, [], ◌∷◌, Option, none, some, String, All, map, trim, if◌then◌else◌, ◌≡◌, refl,
}
use refract.Base.Maps.{string_eq}
use Prim.Native.String.{◌++◌ as append_text}
use refract.Codec.Aggregate.{StreamEvent, text_delta, done}
use refract.Codec.Json.{Json, JsonText, get_field, as_str}
use refract.Codec.Messages.{JsonFrame}
use refract.Codec.Messages.Encoder.{encode_all, new_encoder}
use refract.Codec.Messages.Decoder.{decode_all, new_decoder, named}
use refract.Codec.Messages.Client.{client_run, before, ended}
use refract.Codec.Messages.Client.Events.{client_run-encode_all}
use refract.Codec.Messages.Pieces.{pieces, delivered, said}
use refract.Codec.Messages.RoundTrip.{IsRead, decode_all-encode_all}

abbrev ids : ℕ → String
ids n = "7f"

-- A text that comes without its ceremony.
abbrev answer : List StreamEvent
answer = text_delta 4 "hi" ∷ done ∷ text_delta 4 "late" ∷ []

abbrev sent : List JsonFrame
sent = (encode_all ids answer new_encoder).1

-- A printer that is enough for these frames.
abbrev short_print : Json → String
short_print v = elim (get_field "type" v) [
  | none ↦ "{}"
  | some t ↦ elim (as_str t) [ none ↦ "{}" | some s ↦ append_text "{" (append_text s "}") ]
]

abbrev find_printed : String → List JsonFrame → Option Json
find_printed s [] = none
find_printed s (f ∷ fs) =
    if string_eq.beq (short_print f.payload) s then some f.payload else find_printed s fs

abbrev short_json : JsonText
short_json = record { parse = λ s. find_printed s sent; print = short_print }

sent-All : All (IsRead short_json) sent
unfolding encode_all get_field as_str trim
sent-All = (
  (refl, refl, refl),
  (
    (refl, refl, refl),
    ((refl, refl, refl), ((refl, refl, refl), ((refl, refl, refl), ((refl, refl, refl), tt)))),
  ),
)

client_run-encode_all_example : client_run before sent ≡ some ended
client_run-encode_all_example = client_run-encode_all ids answer

decode_all-encode_all_example :
    pieces (decode_all short_json (map (named short_json) sent) new_decoder) ≡ delivered answer
decode_all-encode_all_example = decode_all-encode_all short_json ids answer sent-All

one_piece : delivered answer ≡ said "hi" ∷ []
unfolding delivered
one_piece = refl
