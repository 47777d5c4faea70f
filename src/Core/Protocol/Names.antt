-- ===== src/Core/Protocol/Names.antt =====
-- The text form of a protocol (crates/refract-core/src/protocol.rs) is read back.
use refract.Base.{◌≡◌, refl, ok, arith, ◌↔◌, true}
use refract.Core.Protocol.{
  Protocol, chat, responses, messages, gemini, as_str, from_str, protocol_eq,
}

-- `from_str` reads back every name that `as_str` writes.
pub from_str-as_str : (p : Protocol) → from_str (as_str p) ≡ ok p
unfolding from_str as_str
from_str-as_str chat = refl
from_str-as_str responses = refl
from_str-as_str messages = refl
from_str-as_str gemini = refl

pub protocol_eq_iff : (p q : Protocol) → (protocol_eq p q ≡ true) ↔ (p ≡ q)
protocol_eq_iff p q = ground arith

pub protocol_eq_refl : (p : Protocol) → protocol_eq p p ≡ true
protocol_eq_refl p = ground arith

pub protocol_eq_comm : (p q : Protocol) → protocol_eq p q ≡ protocol_eq q p
protocol_eq_comm p q = ground arith
