-- ===== src/Core/Channel/Rules.antt =====
-- What the parts of a channel must be (crates/refract-core/src/channel.rs, `Channel::validate`), each next
-- to what the check of that part lets through.
use refract.Base.{
  ℕ, ◌≡◌, ◌≢◌, ◌≤◌, refl, arith, Bool, true, false, not, ◌&&◌, ◌||◌, ◌==◌, List, [], ◌∷◌, any, all,
  ok, err, is_empty, All, Option, none, some, String, subst, unwrap_or, Bool-cases, inl, inr, ◌⊎◌,
}
use refract.Core.Protocol.{Protocol}
use refract.Core.Address.{UpstreamAddress}
use refract.Core.Protocol.Names.{protocol_eq_iff}
use refract.Core.Channel.{
  ChannelKind, single_protocol, aggregate, ChannelEndpoint, ModelEntry, is_blank, native_protocol,
  EmptyResponseRetryOverride, validate_override,
}
use refract.Core.Channel.Validation.{
  Check, ChannelError, refuse, ◌>>◌, blank_option, check_models, check_kind, check_headers,
  normalized, codes, managed, has_line_break, ascii_graphic, same_codes, missing, base_url_missing,
}

pub refuse-ok : (b : Bool) (e : ChannelError) → refuse b e ≡ ok tt → b ≡ false
refuse-ok b e h = ground arith

pub >>-ok : (m k : Check) → (m >> k) ≡ ok tt → (m ≡ ok tt) × (k ≡ ok tt)
>>-ok (ok tt) k h = (refl, h)
>>-ok (err e) k h = cc

-- A text that is there and not only white space.
abbrev pub IsFilled : Option String → Type 0
IsFilled none = ⊥
IsFilled (some s) = is_blank s ≡ false

-- A model with a name, and with no blank name upstream.
abbrev pub ModelIsValid : ModelEntry → Type 0
ModelIsValid m = (is_blank m.name ≡ false) × ((m.upstream ≡ none) ⊎ IsFilled m.upstream)

not_blank : (o : Option String) → blank_option o ≡ false → (o ≡ none) ⊎ IsFilled o
not_blank none h = inl refl
not_blank (some s) h = inr h

pub models-ok :
    (p : Protocol) (ms : List ModelEntry) → check_models p ms ≡ ok tt → All ModelIsValid ms
unfolding check_models
models-ok p [] h = tt
models-ok p (m ∷ ms) h =
    ((ground arith, not_blank m.upstream (ground arith)), models-ok p ms (ground arith))

-- A channel of one protocol has exactly one endpoint, of that protocol.
abbrev pub IsOfKind : ChannelKind → List ChannelEndpoint → Type 0
IsOfKind (single_protocol p) eps = (ep : ChannelEndpoint) × (eps ≡ ep ∷ []) × (ep.protocol ≡ p)
IsOfKind aggregate eps = Unit

pub kind-ok :
    (k : ChannelKind) (eps : List ChannelEndpoint)
    → check_kind (native_protocol k) eps ≡ ok tt
    → IsOfKind k eps
unfolding check_kind native_protocol
kind-ok aggregate eps h = tt
kind-ok (single_protocol p) [] h = cc
kind-ok (single_protocol p) (ep ∷ []) h = (ep, refl, ground (arith, protocol_eq_iff ep.protocol p))
kind-ok (single_protocol p) (ep ∷ e ∷ eps) h = cc

abbrev pub managed_names : List String
managed_names = "authorization" ∷ "host" ∷ "content-length" ∷ "content-type" ∷ "x-api-key" ∷ []

-- A header that is left to the channel: its name, trimmed and in lower case, is not empty, has visible ASCII only and is
-- none of the names that the gateway manages, and its value has no line break.
abbrev pub HeaderIsValid : String × String → Type 0
HeaderIsValid (name, value) =
    (normalized name ≢ [])
    × All (λ n. (33 ≤ n) × (n ≤ 126)) (normalized name)
    × All (λ m. normalized name ≢ codes m) managed_names
    × All (λ n. (n ≢ 10) × (n ≢ 13)) (codes value)

graphic : (ns : List ℕ) → all ascii_graphic ns ≡ true → All (λ n. (33 ≤ n) × (n ≤ 126)) ns
unfolding all
graphic [] h = tt
graphic (n ∷ ns) h = ((ground arith, ground arith), graphic ns (ground arith))

no_break :
    (ns : List ℕ) → any (λ n. n == 13 || n == 10) ns ≡ false → All (λ n. (n ≢ 10) × (n ≢ 13)) ns
unfolding any
no_break [] h = tt
no_break (n ∷ ns) h = ((ground arith, ground arith), no_break ns (ground arith))

same_refl : (ns : List ℕ) → same_codes ns ns ≡ true
same_refl [] = refl
same_refl (n ∷ ns) = ground (arith, same_refl ns)

apart : (ns ms : List ℕ) → same_codes ns ms ≡ false → ns ≢ ms
apart ns ms h e =
    let t : same_codes ns ms ≡ true = subst (λ x. same_codes ns x ≡ true) e (same_refl ns) in cc

free : (ns : List ℕ) → managed ns ≡ false → All (λ m. ns ≢ codes m) managed_names
unfolding managed
free ns h =
    let off : (m : List ℕ) → same_codes ns m ≡ false → ns ≢ m = apart ns in
    (
      off (codes "authorization") (ground arith),
      (
        off (codes "host") (ground arith),
        (
          off (codes "content-length") (ground arith),
          (off (codes "content-type") (ground arith), (off (codes "x-api-key") (ground arith), tt)),
        ),
      ),
    )

pub not_empty {ℓ} : {A : Type ℓ} (ns : List A) → is_empty ns ≡ false → ns ≢ []
not_empty [] h e = cc
not_empty (n ∷ ns) h e = cc

pub headers-ok : (hs : List (String × String)) → check_headers hs ≡ ok tt → All HeaderIsValid hs
unfolding check_headers has_line_break
headers-ok [] h = tt
headers-ok ((name, value) ∷ hs) h =
    let n = normalized name in
    let (a, h1) = >>-ok (refuse (is_empty n || not (all ascii_graphic n)) _) _ h in
    let (b, h2) = >>-ok (refuse (managed n) _) _ h1 in
    let (c, h3) = >>-ok (refuse (has_line_break value) _) _ h2 in
    let x : (is_empty n || not (all ascii_graphic n)) ≡ false = refuse-ok _ _ a in
    (
      (
        not_empty n (ground arith),
        graphic n (ground arith),
        free n (refuse-ok _ _ b),
        no_break (codes value) (refuse-ok _ _ c),
      ),
      headers-ok hs h3,
    )

abbrev AtMost : ℕ → Option ℕ → Type 0
AtMost limit none = Unit
AtMost limit (some n) = n ≤ limit

-- The window of the retries of empty replies is of an hour at most, and they are at most a hundred.
abbrev pub RetryIsValid : EmptyResponseRetryOverride → Type 0
RetryIsValid o = AtMost 3600 o.window_secs × AtMost 100 o.max_retries

at_most : (limit : ℕ) (o : Option ℕ) → unwrap_or o 0 ≤ limit → AtMost limit o
at_most limit none h = tt
at_most limit (some n) h = h

pub retry-ok : (o : EmptyResponseRetryOverride) → validate_override o ≡ ok tt → RetryIsValid o
unfolding validate_override
retry-ok o h = (at_most 3600 o.window_secs (ground arith), at_most 100 o.max_retries (ground arith))

-- An address that is not the official one has a base URL.
abbrev pub AddressIsValid : UpstreamAddress → Type 0
AddressIsValid a = (a.unofficial ≡ false) ⊎ IsFilled a.base_url

filled : (o : Option String) → missing o ≡ false → IsFilled o
filled none h = cc
filled (some s) h = h

pub address-ok :
    (a : UpstreamAddress) → (a.unofficial && base_url_missing a) ≡ false → AddressIsValid a
unfolding base_url_missing
address-ok a h = elim (Bool-cases a.unofficial) [
  | inl u ↦ inr (filled a.base_url (ground arith))
  | inr u ↦ inl u
]
