-- ===== src/Core/Address/Checked.antt =====
-- When a request fails for want of a URL (crates/refract-core/src/address.rs, `resolve`).
use refract.Base.{
  ◌≡◌, refl, Bool, true, false, not, ◌&&◌, Option, none, some, String, if◌then◌else◌, Result, ok,
  err, ◌>>=◌, map_err, Bool-cases, is_none, inl, inr,
}
use refract.Core.Protocol.{Protocol}
use refract.Core.Address.{UpstreamAddress}
use refract.Core.Address.Resolve.{
  Action, Urls, AddressError, missing_base_url, missing_full_address, invalid_url,
  protocol_mismatch, given, ok_or, parse_url, append_gemini_sse_query, path_ok, checked, custom_url,
  build_official, resolve, substitute_placeholders,
}

abbrev pub is_missing : AddressError → Bool
is_missing missing_base_url = true
is_missing missing_full_address = true
is_missing (invalid_url u e) = false
is_missing (protocol_mismatch p q) = false

module _ (w : Urls) where
  -- Whether a result says that no URL is given.
  abbrev pub says_missing : Result w.Url AddressError → Bool
  says_missing (ok u) = false
  says_missing (err e) = is_missing e

  says_missing-parse :
      (raw : String) (r : Result {0, 0} w.Url String) (f : w.Url → Result w.Url AddressError)
      → ((u : w.Url) → says_missing (f u) ≡ false)
      → says_missing (map_err (invalid_url raw) r >>= f) ≡ false
  says_missing-parse raw (ok u) f h = h u
  says_missing-parse raw (err e) f h = refl

  says_missing-parsed :
      (raw : String) (r : Result {0, 0} w.Url String)
      → says_missing (map_err (invalid_url raw) r) ≡ false
  says_missing-parsed raw (ok u) = refl
  says_missing-parsed raw (err e) = refl

  says_missing-pick :
      (b c : Bool) (x y z : Result w.Url AddressError) (m : Bool)
      → says_missing x ≡ false
      → says_missing y ≡ m
      → says_missing z ≡ m
      → says_missing (if not b then x else if c then y else z) ≡ (b && m)
  says_missing-pick false c x y z m p q r = p
  says_missing-pick true true x y z m p q r = q
  says_missing-pick true false x y z m p q r = r

  says_missing-checked :
      (protocol : Protocol) (action : Action) (url : w.Url)
      → says_missing (checked w protocol action url) ≡ false
  unfolding checked
  says_missing-checked protocol action url = elim (Bool-cases (path_ok w url protocol action)) [
    | inl e ↦ rw e refl
    | inr e ↦ rw e refl
  ]

  says_missing-given :
      (o : Option String) (e : AddressError) (f : String → Result w.Url AddressError)
      → is_missing e ≡ true
      → ((s : String) → says_missing (f s) ≡ false)
      → says_missing (ok_or o e >>= f) ≡ is_none o
  says_missing-given none e f m h = m
  says_missing-given (some s) e f m h = h s

  -- The result says that no base URL or no complete URL is given exactly if the address is not official and its base URL
  -- is missing or blank.
  pub says_missing-resolve :
      (a : UpstreamAddress) (protocol : Protocol) (action : Action) (model : String)
      → says_missing (resolve w a protocol action model)
        ≡ (a.unofficial && is_none (given a.base_url))
  unfolding resolve parse_url build_official
  says_missing-resolve a protocol action model =
      let late = λ (raw : String). says_missing-parse raw (w.parse raw) in
      says_missing-pick a.unofficial a.full_address _ _ _ (is_none (given a.base_url))
        (late _ (λ url. ok (append_gemini_sse_query w url protocol action)) (λ u. refl))
        (says_missing-given (given a.base_url) missing_full_address _ refl (λ raw.
          says_missing-parsed (substitute_placeholders raw action model)
            (w.parse (substitute_placeholders raw action model))))
        (says_missing-given (given a.base_url) missing_base_url _ refl (λ base.
          late (custom_url w a protocol action model base) (λ url. checked w protocol action url)
            (says_missing-checked protocol action)))
