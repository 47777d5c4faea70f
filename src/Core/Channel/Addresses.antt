-- ===== src/Core/Channel/Addresses.antt =====
-- The addresses of a validated channel resolve (crates/refract-core/src/channel.rs and address.rs).
use refract.Base.{
  ◌≡◌, refl, sym, ap, ◌∙◌, arith, false, ◌&&◌, Option, none, some, String, ok, is_none, Memᴰ,
  All-Memᴰ, Bool-cases, inl, inr,
}
use refract.Core.Protocol.{Protocol}
use refract.Core.Address.{UpstreamAddress, is_inherited}
use refract.Core.Address.Resolve.{Action, Urls, given, resolve}
use refract.Core.Address.Checked.{says_missing, says_missing-resolve}
use refract.Core.Channel.{Channel, ChannelEndpoint, effective_address, is_blank}
use refract.Core.Channel.Validation.{validate, base_url_missing, missing}
use refract.Core.Channel.Rules.{IsFilled, AddressIsValid}
use refract.Core.Channel.Validity.{EndpointIsValid, validate-IsValid}

missing-given : (o : Option String) → missing o ≡ is_none (given o)
unfolding given is_blank
missing-given none = refl
missing-given (some s) = ground arith

not_missing : (o : Option String) → IsFilled o → missing o ≡ false
not_missing none h = elim h [ ]
not_missing (some s) h = h

based : (a : UpstreamAddress) → AddressIsValid a → (a.unofficial && base_url_missing a) ≡ false
unfolding base_url_missing
based a (inl u) = rw u refl
based a (inr h) = ground (arith, not_missing a.base_url h)

effective_addressed :
    (c : Channel) (ep : ChannelEndpoint)
    → validate c ≡ ok tt
    → Memᴰ ep c.endpoints
    → ((effective_address c ep).unofficial && base_url_missing (effective_address c ep)) ≡ false
unfolding effective_address
effective_addressed c ep h m =
    let v = validate-IsValid c h in
    let e = All-Memᴰ (EndpointIsValid c) c.endpoints ep v.endpoints_valid m in
    elim (Bool-cases (is_inherited ep.address)) [
      | inl x ↦ rw x (based c.address v.default_addressed)
      | inr x ↦ rw x (based ep.address e.addressed)
    ]

-- An endpoint of a channel that passes `validate`, asked for whatever request, never fails for want of a base URL or of a
-- complete URL, be the address its own or the channel's.
pub validate-resolve :
    (w : Urls) (c : Channel) (ep : ChannelEndpoint) (protocol : Protocol) (action : Action)
    (model : String)
    → validate c ≡ ok tt
    → Memᴰ ep c.endpoints
    → says_missing w (resolve w (effective_address c ep) protocol action model) ≡ false
unfolding base_url_missing
validate-resolve w c ep protocol action model h m =
    let a = effective_address c ep in
    says_missing-resolve w a protocol action model
    ∙ ap (λ b. a.unofficial && b) (sym (missing-given a.base_url))
    ∙ effective_addressed c ep h m
