-- ===== src/Router/Plan/Defs.antt =====
-- The data of a route (crates/refract-router/src/plan.rs).
use refract.Base.{ℕ, Bool, not, List, Option, String}
use refract.Core.Protocol.{Protocol, ProtocolSet, protocol_eq}
use refract.Core.Address.{UpstreamAddress}
use refract.Core.Routing.{RankKey}
use refract.Core.Channel.{
  Channel, ChannelEndpoint, ModelEntry, effective_address, effective_credential, upstream_name,
}

pub record Candidate : Type 0 where
  pub channel : Channel
  pub endpoint : ChannelEndpoint
  pub model : ModelEntry
  pub rank : RankKey

abbrev pub needs_transcode : Candidate → Protocol → Bool
needs_transcode c inbound = not (protocol_eq inbound c.endpoint.protocol)

abbrev pub candidate_address : Candidate → UpstreamAddress
candidate_address c = effective_address c.channel c.endpoint

abbrev pub candidate_credential : Candidate → String
candidate_credential c = effective_credential c.channel c.endpoint

abbrev pub upstream_model : Candidate → String
upstream_model c = upstream_name c.model

pub record Route : Type 0 where
  pub inbound : Protocol
  pub model : String
  pub attempts : List Candidate
  pub attempt_cap : ℕ
  pub max_upstream_calls : ℕ
  pub identity : Option ℕ

pub data Diagnosis : Type 0 where
  routable unknown_model : Diagnosis
  protocol_not_permitted : ProtocolSet → Diagnosis
