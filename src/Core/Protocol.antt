-- ===== src/Core/Protocol.antt =====
-- crates/refract-core/src/protocol.rs: the four protocols, their text form, and the bitmap of a set
-- of protocols. A set holds one byte, as the `u8` of the source.
pub mod Names
pub mod Sets
use Prim.Native.Nat.{bit_and, bit_or}
use text.Mathlib.Text.{◌==◌ as str_eq}
use refract.Base.{
  ℕ, ◌-◌, ◌^◌, Bool, not, List, [], ◌∷◌, String, Result, ok, err, if◌then◌else◌, ◌==◌, retain,
}

pub data Protocol : Type 0 where
  chat responses messages gemini : Protocol

-- `Protocol::ALL`.
abbrev pub all_protocols : List Protocol
all_protocols = chat ∷ responses ∷ messages ∷ gemini ∷ []

unfoldable pub as_str : Protocol → String
as_str chat = "chat"
as_str responses = "responses"
as_str messages = "messages"
as_str gemini = "gemini"

-- `FromStr`; the error carries the text.
unfoldable pub from_str : String → Result Protocol String
from_str s =
    if str_eq s "chat"
    then ok chat
    else if str_eq s "responses"
    then ok responses
    else if str_eq s "res"
    then ok responses
    else if str_eq s "messages"
    then ok messages
    else if str_eq s "message"
    then ok messages
    else if str_eq s "gemini"
    then ok gemini
    else err s

pub data AuthScheme : Type 0 where
  bearer anthropic_api_key google_api_key : AuthScheme

unfoldable pub auth_scheme : Protocol → AuthScheme
auth_scheme chat = bearer
auth_scheme responses = bearer
auth_scheme messages = anthropic_api_key
auth_scheme gemini = google_api_key

unfoldable pub default_base_url : Protocol → String
default_base_url chat = "https://api.openai.com"
default_base_url responses = "https://api.openai.com"
default_base_url messages = "https://api.anthropic.com"
default_base_url gemini = "https://generativelanguage.googleapis.com"

unfoldable pub default_version_prefix : Protocol → String
default_version_prefix chat = "/v1"
default_version_prefix responses = "/v1"
default_version_prefix messages = "/v1"
default_version_prefix gemini = "/v1beta"

unfoldable pub default_path : Protocol → String
default_path chat = "/chat/completions"
default_path responses = "/responses"
default_path messages = "/messages"
default_path gemini = "/models/{model}:{action}"

unfoldable pub path_is_model_dependent : Protocol → Bool
path_is_model_dependent gemini = Bool.true
path_is_model_dependent _ = Bool.false

-- The discriminant, `p as u8`.
abbrev pub index : Protocol → ℕ
index chat = 0
index responses = 1
index messages = 2
index gemini = 3

-- The derived `==`.
abbrev pub protocol_eq : Protocol → Protocol → Bool
protocol_eq p q = index p == index q

pub record ProtocolSet : Type 0 where
  pub bits : ℕ

abbrev pub empty_set : ProtocolSet
empty_set = record { bits = 0 }

abbrev pub full_set : ProtocolSet
full_set = record { bits = 15 }

-- `1 << (p as u8)`.
abbrev pub bit : Protocol → ℕ
bit p = 2 ^ index p

unfoldable pub insert : Protocol → ProtocolSet → ProtocolSet
insert p s = record { bits = bit_or s.bits (bit p) }

-- `!` on a byte is its difference to 255.
unfoldable pub remove : Protocol → ProtocolSet → ProtocolSet
remove p s = record { bits = bit_and s.bits (255 - bit p) }

unfoldable pub contains : ProtocolSet → Protocol → Bool
contains s p = not (bit_and s.bits (bit p) == 0)

-- `ProtocolSet::iter`.
unfoldable pub members : ProtocolSet → List Protocol
unfolding contains retain
members s = retain (contains s) all_protocols

insert_all : ProtocolSet → List Protocol → ProtocolSet
insert_all s [] = s
insert_all s (p ∷ ps) = insert_all (insert p s) ps

unfoldable pub from_iter_protocols : List Protocol → ProtocolSet
unfolding insert_all insert
from_iter_protocols ps = insert_all empty_set ps
