-- ===== src/Examples/Channels.antt =====
-- The theorems on channels, protocols and weights at concrete values.
use refract.Base.{◌∷◌, [], ◌≡◌, refl, ◌+◌, some, arith, true, false, ok, ◌++◌, trim, any}
use mathlib.Core.List.{Memᴰ}
use refract.Core.Protocol.{chat, contains}
use refract.Core.Channel.{
  is_blank, key_at, key_pool, TranscodePolicy, native_protocol, validate_override,
}
use refract.Core.Channel.Validation.{
  validate, check_kind, check_endpoints, check_endpoint, check_headers,
}
use refract.Core.Channel.Validity.{IsValid, validate-IsValid}
use refract.Core.Channel.Keys.{validate-key_at}
use refract.Core.Routing.{weighted_pick, sum, effective}
use refract.Core.Routing.Weights.{weighted_pick_share}
use refract.Base.{String, List}
use refract.Base.Maps.{string_eq}
use refract.Core.Address.Resolve.{Urls, generate, resolve}
use refract.Core.Address.Checked.{says_missing}
use refract.Core.Channel.{effective_address}
use refract.Core.Channel.Addresses.{validate-resolve}
use refract.Examples.{chat_channel, chat_endpoint}

one_passes : validate (chat_channel 1 0) ≡ ok tt
unfolding validate is_blank trim any check_kind native_protocol check_endpoints check_endpoint
    contains check_headers validate_override
one_passes = refl

validate-IsValid_example : IsValid (chat_channel 1 0)
validate-IsValid_example = validate-IsValid (chat_channel 1 0) one_passes

validate-key_at_example : is_blank (key_at (key_pool (chat_channel 1 0) chat_endpoint) 5) ≡ false
validate-key_at_example =
    validate-key_at (chat_channel 1 0) chat_endpoint 5 one_passes (Memᴰ.head refl)

abbrev open_to_messages : TranscodePolicy
open_to_messages = record { enabled = true; accepted = record { bits = 4 } }

weighted_pick_share_example :
    weighted_pick ((3 ∷ []) ++ 5 ∷ 2 ∷ []) (λ total. sum (effective (3 ∷ [])) + 4) ≡ some 1
weighted_pick_share_example = weighted_pick_share (3 ∷ []) 5 (2 ∷ []) 4 (omega arith)

-- Every text is a URL, and a query is its keys.
abbrev urls : Urls
urls = record {
  Url = String × List String;
  parse = λ raw. ok (raw, []);
  path = λ url. url.0;
  has_query_key = λ url key. any (string_eq.beq key) url.1;
  append_pair = λ url key value. (url.0, key ∷ url.1);
}

validate-resolve_example :
    says_missing urls
      (resolve urls (effective_address (chat_channel 1 0) chat_endpoint) chat generate "gpt")
    ≡ false
validate-resolve_example =
    validate-resolve urls (chat_channel 1 0) chat_endpoint chat generate "gpt" one_passes
      (Memᴰ.head refl)
