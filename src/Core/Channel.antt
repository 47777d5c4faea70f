-- ===== src/Core/Channel.antt =====
-- crates/refract-core/src/channel.rs: channels, their endpoints, keys and policies.
-- An id is the row id that the store assigns. Tags, notes, balance figures, the owner id and the
-- parameter override are left out of the record: nothing that is modelled reads them.
mod Config
pub mod Keys
pub mod Serving
pub mod Addresses
pub mod Validation
pub mod Rules
pub mod Validity
unfoldable pub use Config.*
use Prim.Native.String.{◌++◌ as append_text}
use text.Mathlib.Text.{◌==◌ as str_eq}
use refract.Base.{
  ℕ, zero, suc, ◌+◌, ◌-◌, ◌%◌, Bool, true, false, not, ◌&&◌, ◌||◌, ◌==◌, List, [], ◌∷◌, Option,
  none, some, String, if◌then◌else◌, is_some, unwrap_or, option_or, ltb, leb, length, get_elem?,
  is_empty, any, Result, ok, err, ◌>>=◌, ℤ, trim, is_empty_text, char_count, take_chars, drop_chars,
}
use refract.Core.Protocol.{Protocol, ProtocolSet, protocol_eq, contains, insert, empty_set}
use refract.Core.Address.{UpstreamAddress, is_inherited}

-- `TranscodePolicy::can_serve`.
unfoldable pub can_serve : TranscodePolicy → Protocol → Protocol → Bool
can_serve t inbound native =
    protocol_eq inbound native || (t.enabled && contains t.accepted inbound)

unfoldable pub served_protocols : TranscodePolicy → Protocol → ProtocolSet
served_protocols t native = insert native (if t.enabled then t.accepted else empty_set)

-- `Credential::is_empty`.
unfoldable pub is_blank : String → Bool
is_blank s = is_empty_text (trim s)

bullets : ℕ → String
bullets zero = ""
bullets (suc n) = append_text "•" (bullets n)

-- `Credential::masked`.
unfoldable pub masked : String → String
unfolding bullets trim char_count take_chars drop_chars
masked secret =
    let s = trim secret in
    let n = char_count s in
    if leb n 8
    then bullets n
    else append_text (take_chars 4 s) (append_text "…" (drop_chars (n - 4) s))

-- `KeyPool::len`.
abbrev pub pool_len : KeyPool → ℕ
pool_len (single k) = 1
pool_len (pool f rest s) = suc (length rest)

abbrev pub is_single : KeyPool → Bool
is_single (single k) = true
is_single (pool f rest s) = false

abbrev pub pool_strategy : KeyPool → KeyStrategy
pool_strategy (single k) = round_robin
pool_strategy (pool f rest s) = s

nth_key : String → List String → ℕ → String
nth_key first rest zero = first
nth_key first rest (suc i) = unwrap_or (get_elem? rest i) first

-- `KeyPool::key_at`: an index out of range wraps.
unfoldable pub key_at : KeyPool → ℕ → String
unfolding nth_key
key_at (single k) i = k
key_at (pool first rest s) i =
    if is_empty rest then first else nth_key first rest (i % suc (length rest))

-- `ModelEntry::upstream_name`.
unfoldable pub upstream_name : ModelEntry → String
upstream_name m = unwrap_or m.upstream m.name

find_entry : List ModelEntry → String → Option ModelEntry
find_entry [] name = none
find_entry (m ∷ ms) name = if str_eq m.name name then some m else find_entry ms name

-- `ChannelEndpoint::find_model`.
unfoldable pub find_model : ChannelEndpoint → String → Option ModelEntry
unfolding find_entry
find_model ep name = find_entry ep.models name

-- `Channel::effective_address`.
unfoldable pub effective_address : Channel → ChannelEndpoint → UpstreamAddress
effective_address c ep = if is_inherited ep.address then c.address else ep.address

-- `Channel::key_pool`.
pool_of : String → List String → KeyStrategy → KeyPool
pool_of top [] s = single top
pool_of top (k ∷ ks) s = if is_blank top then pool k ks s else pool top (k ∷ ks) s

own_key : Option String → Option String
own_key none = none
own_key (some k) = if is_blank k then none else some k

key_pool_of : Option String → KeyPool → KeyPool
key_pool_of none p = p
key_pool_of (some own) p = single own

unfoldable pub key_pool : Channel → ChannelEndpoint → KeyPool
unfolding pool_of own_key key_pool_of
key_pool c ep =
    key_pool_of (own_key ep.credential) (pool_of c.credential c.credentials c.key_strategy)

-- `Channel::effective_credential`.
unfoldable pub effective_credential : Channel → ChannelEndpoint → String
effective_credential c ep = key_at (key_pool c ep) 0

-- `Channel::visible_to`.
unfoldable pub visible_to : Channel → ℕ → Bool
visible_to c user = is_shared c.visibility || owned_by c.user_id user
