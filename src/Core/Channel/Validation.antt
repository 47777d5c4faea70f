-- ===== src/Core/Channel/Validation.antt =====
-- `Channel::validate` (crates/refract-core/src/channel.rs). A normalised header name is the list of
-- its code points.
use Prim.Native.Char.{code}
use refract.Base.{
  ℕ, suc, ◌+◌, Bool, true, false, not, ◌&&◌, ◌||◌, ◌==◌, List, [], ◌∷◌, Option, none, some, String,
  if◌then◌else◌, leb, length, is_empty, any, all, map, Result, ok, err, ◌>>=◌, map_err, trim,
}
use refract.Core.Protocol.{Protocol, ProtocolSet, protocol_eq, contains, insert, empty_set}
use refract.Core.Address.{UpstreamAddress}
use refract.Core.Channel.{
  Channel, ChannelEndpoint, ModelEntry, RetryPolicyError, native_protocol, is_blank,
  validate_override,
}

pub data ChannelError : Type 0 where
  empty_name no_endpoints : ChannelError
  single_must_have_one_endpoint : ℕ → ChannelError
  endpoint_protocol_mismatch : Protocol → Protocol → ChannelError
  duplicate_protocol missing_credential : Protocol → ChannelError
  empty_pool_credential : ChannelError
  self_transcode : Protocol → ChannelError
  invalid_extra_header : String → ChannelError
  forbidden_extra_header : List ℕ → ChannelError
  invalid_extra_header_value : String → ChannelError
  empty_model_name : Protocol → ChannelError
  empty_upstream_mapping : String → ChannelError
  missing_unofficial_base_url : Protocol → ChannelError
  missing_default_unofficial_base_url : ChannelError
  invalid_empty_response_retry : RetryPolicyError → ChannelError

abbrev pub Check : Type 0
Check = Result (Unit {0}) ChannelError

infixl 5 ◌>>◌
abbrev pub ◌>>◌ : Check → Check → Check
m >> k = m >>= λ _. k

-- An early return: the error, if the test holds.
abbrev pub refuse : Bool → ChannelError → Check
refuse true e = err e
refuse false e = ok tt

abbrev pub codes : String → List ℕ
codes String.[] = []
codes (String.◌∷◌ c s) = code c ∷ codes s

abbrev pub blank_option : Option String → Bool
blank_option none = false
blank_option (some s) = is_blank s

abbrev pub has_own : Option String → Bool
has_own none = false
has_own (some s) = not (is_blank s)

-- `base_url_missing`: none, or only white space.
abbrev pub missing : Option String → Bool
missing none = true
missing (some s) = is_blank s

unfoldable pub base_url_missing : UpstreamAddress → Bool
base_url_missing a = missing a.base_url

unfoldable pub check_models : Protocol → List ModelEntry → Check
check_models p [] = ok tt
check_models p (m ∷ ms) =
    let rest = check_models p ms in
    if is_blank m.name
    then err (empty_model_name p)
    else if blank_option m.upstream
    then err (empty_upstream_mapping m.name)
    else rest

-- The body of the loop over the endpoints, without the update of `seen`.
unfoldable pub check_endpoint : Channel → ProtocolSet → ChannelEndpoint → Check
unfolding check_models base_url_missing
check_endpoint c seen ep = do
  refuse (contains seen ep.protocol) (duplicate_protocol ep.protocol)
  refuse (contains ep.transcode.accepted ep.protocol) (self_transcode ep.protocol)
  refuse (not (has_own ep.credential) && is_blank c.credential && is_empty c.credentials)
      (missing_credential ep.protocol)
  check_models ep.protocol ep.models
  refuse (ep.address.unofficial && base_url_missing ep.address)
      (missing_unofficial_base_url ep.protocol)

unfoldable pub check_endpoints : Channel → ProtocolSet → List ChannelEndpoint → Check
check_endpoints c seen [] = ok tt
check_endpoints c seen (ep ∷ eps) =
    let rest = check_endpoints c (insert ep.protocol seen) eps in check_endpoint c seen ep >> rest

unfoldable pub kind_fits : Protocol → ChannelEndpoint → List ChannelEndpoint → Check
kind_fits native ep [] =
    if protocol_eq ep.protocol native
    then ok tt
    else err (endpoint_protocol_mismatch native ep.protocol)
kind_fits native ep (e ∷ es) = err (single_must_have_one_endpoint (suc (suc (length es))))

-- A single-protocol channel has one endpoint, of its own protocol.
unfoldable pub check_kind : Option Protocol → List ChannelEndpoint → Check
unfolding kind_fits
check_kind none eps = ok tt
check_kind (some native) [] = err (single_must_have_one_endpoint 0)
check_kind (some native) (ep ∷ eps) = kind_fits native ep eps

abbrev pub ascii_lower : ℕ → ℕ
ascii_lower n = if leb 65 n && leb n 90 then n + 32 else n

abbrev pub ascii_graphic : ℕ → Bool
ascii_graphic n = leb 33 n && leb n 126

abbrev pub same_codes : List ℕ → List ℕ → Bool
same_codes [] [] = true
same_codes [] (b ∷ ys) = false
same_codes (a ∷ xs) [] = false
same_codes (a ∷ xs) (b ∷ ys) = a == b && same_codes xs ys

unfoldable pub normalized : String → List ℕ
unfolding trim
normalized name = map ascii_lower (codes (trim name))

-- The headers that the gateway manages.
unfoldable pub managed : List ℕ → Bool
managed n =
    same_codes n (codes "authorization")
    || same_codes n (codes "host")
    || same_codes n (codes "content-length")
    || same_codes n (codes "content-type")
    || same_codes n (codes "x-api-key")

unfoldable pub has_line_break : String → Bool
unfolding any
has_line_break s = any (λ n. n == 13 || n == 10) (codes s)

unfoldable pub check_headers : List (String × String) → Check
unfolding normalized managed has_line_break all
check_headers [] = ok tt
check_headers ((name, value) ∷ hs) =
    let rest = check_headers hs in
    let n = normalized name in
    do
      refuse (is_empty n || not (all ascii_graphic n)) (invalid_extra_header name)
      refuse (managed n) (forbidden_extra_header n)
      refuse (has_line_break value) (invalid_extra_header_value name)
      rest

unfoldable pub validate : Channel → Check
validate c = do
  refuse (is_blank c.name) empty_name
  refuse (is_empty c.endpoints) no_endpoints
  refuse (any is_blank c.credentials) empty_pool_credential
  check_kind (native_protocol c.kind) c.endpoints
  check_endpoints c empty_set c.endpoints
  refuse (c.address.unofficial && base_url_missing c.address) missing_default_unofficial_base_url
  check_headers c.extra_headers
  map_err invalid_empty_response_retry (validate_override c.empty_response_retry)
