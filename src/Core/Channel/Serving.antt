-- ===== src/Core/Channel/Serving.antt =====
-- Which inbound protocols an endpoint serves (crates/refract-core/src/channel.rs).
use refract.Base.{◌≡◌, arith, false}
use refract.Core.Protocol.{Protocol, contains, protocol_eq}
use refract.Core.Protocol.Sets.{IsByte, contains-insert, contains-empty}
use refract.Core.Channel.{TranscodePolicy, can_serve, served_protocols}

-- The set of served protocols holds exactly what `can_serve` admits.
contains-served_protocols :
    (t : TranscodePolicy) (inbound native : Protocol)
    → IsByte t.accepted
    → contains (served_protocols t native) inbound ≡ can_serve t inbound native
unfolding served_protocols can_serve
contains-served_protocols t inbound native h = ground (
  arith,
  contains-insert t.accepted native inbound,
  contains-insert (record { bits = 0 }) native inbound,
  contains-empty inbound,
)

-- With transcoding off only the native protocol is served.
pub can_serve-disabled :
    (t : TranscodePolicy) (inbound native : Protocol)
    → t.enabled ≡ false
    → can_serve t inbound native ≡ protocol_eq inbound native
unfolding can_serve
can_serve-disabled t inbound native h = ground arith
