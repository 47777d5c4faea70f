-- ===== src/Core/Channel/Validity.antt =====
-- What `Channel::validate` guarantees (crates/refract-core/src/channel.rs).
use refract.Base.{
  ◌≡◌, arith, false, not, ◌&&◌, List, [], ◌∷◌, any, ok, is_empty, All, All-mono, ◌≢◌, ◌⊎◌, inl, inr,
  true, none, some, Option, String, Bool-cases, Result-cases, ap, map_err,
}
use refract.Base.Sort.{AllPairs}
use refract.Core.Protocol.{ProtocolSet, contains, insert, empty_set}
use refract.Core.Protocol.Sets.{IsByte, contains-insert}
use refract.Core.Channel.{
  Channel, ChannelEndpoint, is_blank, native_protocol, EmptyResponseRetryOverride,
  validate_override,
}
use refract.Core.Channel.Validation.{
  empty_name, no_endpoints, empty_pool_credential, missing_default_unofficial_base_url, refuse,
  has_own, check_endpoint, check_endpoints, check_kind, check_headers, validate,
  invalid_empty_response_retry,
}
use refract.Core.Channel.Rules.{
  refuse-ok, >>-ok, not_empty, IsFilled, ModelIsValid, models-ok, IsOfKind, kind-ok, HeaderIsValid,
  headers-ok, RetryIsValid, retry-ok, AddressIsValid, address-ok,
}
use refract.Core.Protocol.Names.{protocol_eq_iff}

-- A key that an endpoint can use: its own, the channel's, or one of the channel's pool.
abbrev pub HasKey : Channel → ChannelEndpoint → Type 0
HasKey c ep = (IsFilled ep.credential ⊎ (is_blank c.credential ≡ false)) ⊎ (c.credentials ≢ [])

-- An endpoint that does not transcode from its own protocol and has a key, valid models and an address.
pub record EndpointIsValid (c : Channel) (ep : ChannelEndpoint) : Type 0 where
  pub not_self : contains ep.transcode.accepted ep.protocol ≡ false
  pub has_key : HasKey c ep
  pub models_valid : All ModelIsValid ep.models
  pub addressed : AddressIsValid ep.address

pub record IsValid (c : Channel) : Type 0 where
  pub named : is_blank c.name ≡ false
  pub some_endpoint : c.endpoints ≢ []
  pub keys_filled : All (λ k. is_blank k ≡ false) c.credentials
  pub of_kind : IsOfKind c.kind c.endpoints
  pub endpoints_valid : All (EndpointIsValid c) c.endpoints
  pub protocols_distinct : AllPairs (λ a b. a.protocol ≢ b.protocol) c.endpoints
  pub default_addressed : AddressIsValid c.address
  pub headers_valid : All HeaderIsValid c.extra_headers
  pub retry_valid : RetryIsValid c.empty_response_retry

filled-ok : (ks : List String) → any is_blank ks ≡ false → All (λ k. is_blank k ≡ false) ks
unfolding any
filled-ok [] h = tt
filled-ok (k ∷ ks) h = (ground arith, filled-ok ks (ground arith))

own-ok : (o : Option String) → has_own o ≡ true → IsFilled o
own-ok none h = cc
own-ok (some s) h = ground arith

key-ok :
    (c : Channel) (ep : ChannelEndpoint)
    → (not (has_own ep.credential) && is_blank c.credential && is_empty c.credentials) ≡ false
    → HasKey c ep
key-ok c ep h = elim (Bool-cases (has_own ep.credential)) [
  | inl own ↦ inl (inl (own-ok ep.credential own))
  | inr own ↦ elim (Bool-cases (is_blank c.credential)) [
    | inl top ↦ inr (not_empty c.credentials (ground arith))
    | inr top ↦ inl (inr top)
  ]
]

check_endpoint-ok :
    (c : Channel) (seen : ProtocolSet) (ep : ChannelEndpoint)
    → check_endpoint c seen ep ≡ ok tt
    → (contains seen ep.protocol ≡ false) × EndpointIsValid c ep
unfolding check_endpoint
check_endpoint-ok c seen ep h = (
  ground arith,
  record {
    not_self = ground arith;
    has_key = key-ok c ep (ground arith);
    models_valid = models-ok ep.protocol ep.models (ground arith);
    addressed = address-ok ep.address (ground arith);
  },
)

abbrev Unseen : ProtocolSet → ChannelEndpoint → Type 0
Unseen seen ep = contains seen ep.protocol ≡ false

abbrev Distinct : ChannelEndpoint → ChannelEndpoint → Type 0
Distinct a b = a.protocol ≢ b.protocol

Unseen-insert :
    (seen : ProtocolSet) (ep : ChannelEndpoint)
    → IsByte seen
    → (e : ChannelEndpoint) → Unseen (insert ep.protocol seen) e
    → Distinct ep e × Unseen seen e
Unseen-insert seen ep b e h = (
  λ same. ground (
    arith,
    contains-insert seen ep.protocol e.protocol b,
    protocol_eq_iff ep.protocol e.protocol,
  ),
  ground (arith, contains-insert seen ep.protocol e.protocol b),
)

check_endpoints-ok :
    (c : Channel) (seen : ProtocolSet) (eps : List ChannelEndpoint)
    → IsByte seen
    → check_endpoints c seen eps ≡ ok tt
    → All (EndpointIsValid c) eps × All (Unseen seen) eps × AllPairs Distinct eps
unfolding check_endpoints
check_endpoints-ok c seen [] b h = (tt, tt, tt)
check_endpoints-ok c seen (ep ∷ eps) b h =
    let (here, rest) = >>-ok (check_endpoint c seen ep) _ h in
    let (unseen, valid) = check_endpoint-ok c seen ep here in
    let fits = (contains-insert seen ep.protocol ep.protocol b).1 in
    let (all_valid, all_unseen, pairs) =
      check_endpoints-ok c (insert ep.protocol seen) eps fits rest in
    (
      (valid, all_valid),
      (
        unseen,
        All-mono (Unseen (insert ep.protocol seen)) (Unseen seen)
            (λ e u. (Unseen-insert seen ep b e u).1) eps all_unseen,
      ),
      (
        All-mono (Unseen (insert ep.protocol seen)) (Distinct ep)
            (λ e u. (Unseen-insert seen ep b e u).0) eps all_unseen,
        pairs,
      ),
    )

pub empty_set-IsByte : IsByte empty_set
empty_set-IsByte = omega arith

retried :
    (o : EmptyResponseRetryOverride)
    → map_err invalid_empty_response_retry (validate_override o) ≡ ok tt
    → validate_override o ≡ ok tt
retried o h = elim (Result-cases (validate_override o)) [
  | inl (v, e) ↦ e
  | inr (x, e) ↦ ground (arith, ap (map_err invalid_empty_response_retry) e)
]

-- A channel that passes `validate` has a name and an endpoint; the keys of its pool are not blank; if it is of the
-- kind of one protocol, it has exactly one endpoint, of that protocol; its endpoints have pairwise distinct
-- protocols, a key to use, models whose names are not blank on either side, and no transcoding from their own protocol;
-- wherever an address is not the official one, it has a base URL that is not blank; its extra headers have visible names
-- that the gateway does not manage, and values without line breaks; and its retries of empty replies are
-- within an hour and at most a hundred, where it sets them.
pub validate-IsValid : (c : Channel) → validate c ≡ ok tt → IsValid c
unfolding validate
validate-IsValid c h =
    let (a, h1) = >>-ok (refuse (is_blank c.name) empty_name) _ h in
    let (b, h2) = >>-ok (refuse (is_empty c.endpoints) no_endpoints) _ h1 in
    let (d, h3) = >>-ok (refuse (any is_blank c.credentials) empty_pool_credential) _ h2 in
    let (e, h4) = >>-ok (check_kind (native_protocol c.kind) c.endpoints) _ h3 in
    let (f, h5) = >>-ok (check_endpoints c empty_set c.endpoints) _ h4 in
    let (g, h6) = >>-ok (refuse _ missing_default_unofficial_base_url) _ h5 in
    let (k, h7) = >>-ok (check_headers c.extra_headers) _ h6 in
    let (valid, _, pairs) = check_endpoints-ok c empty_set c.endpoints empty_set-IsByte f in
    record {
      named = refuse-ok _ _ a;
      some_endpoint = not_empty c.endpoints (refuse-ok _ _ b);
      keys_filled = filled-ok c.credentials (refuse-ok _ _ d);
      of_kind = kind-ok c.kind c.endpoints e;
      endpoints_valid = valid;
      protocols_distinct = pairs;
      default_addressed = address-ok c.address (refuse-ok _ _ g);
      headers_valid = headers-ok c.extra_headers k;
      retry_valid = retry-ok c.empty_response_retry (retried c.empty_response_retry h7);
    }
