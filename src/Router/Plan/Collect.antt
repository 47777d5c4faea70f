-- ===== src/Router/Plan/Collect.antt =====
-- `RoutePlanner::collect` (crates/refract-router/src/plan.rs) finds the candidates and no others.
use refract.Base.{
  ◌≡◌, refl, true, List, [], ◌∷◌, String, some, Memᴰ, All, All-append, Bool-cases, Option-cases,
  inl, inr,
}
use mathlib.Core.List.Memᴰ
use refract.Core.Protocol.{Protocol, protocol_eq}
use refract.Core.Channel.{Channel, ChannelEndpoint, ModelEntry, find_model, can_serve}
use refract.Router.Plan.{
  Candidate, candidate_for, collect_entry, collect_endpoint, collect_endpoints, collect,
}

-- An enabled endpoint of an enabled channel has the model and serves the protocol.
pub record Serves (channels : List Channel) (model : String) (inbound : Protocol) (c : Candidate)
    : Type 0 where
  pub channel_listed : Memᴰ c.channel channels
  pub channel_enabled : c.channel.enabled ≡ true
  pub endpoint_listed : Memᴰ c.endpoint c.channel.endpoints
  pub endpoint_enabled : c.endpoint.enabled ≡ true
  pub entry_found : find_model c.endpoint model ≡ some c.model
  pub permitted : can_serve c.endpoint.transcode inbound c.endpoint.protocol ≡ true
  pub ranked : c.rank ≡ record {
    native = protocol_eq inbound c.endpoint.protocol;
    priority = c.channel.priority;
    endpoint_order = c.endpoint.order;
  }

module _ (all : List Channel) (model : String) (inbound : Protocol) where
  collect_endpoint-Serves :
      (ch : Channel) (ep : ChannelEndpoint)
      → Memᴰ ch all
      → ch.enabled ≡ true
      → Memᴰ ep ch.endpoints
      → All (Serves all model inbound) (collect_endpoint ch model inbound ep)
  unfolding collect_endpoint
  collect_endpoint-Serves ch ep m e n = elim (Bool-cases ep.enabled) [
    | inr off ↦ simp off tt
    | inl on ↦ elim (Option-cases (find_model ep model)) [
      | inl absent ↦ simp (on, absent) tt
      | inr (entry, found) ↦ elim (Bool-cases (can_serve ep.transcode inbound ep.protocol)) [
        | inr refused ↦ simp (on, found, collect_entry, refused) tt
        | inl served ↦
            simp (on, found, collect_entry, served)
              (
                record {
                  channel_listed = m;
                  channel_enabled = e;
                  endpoint_listed = n;
                  endpoint_enabled = on;
                  entry_found = found;
                  permitted = served;
                  ranked = refl;
                },
                tt,
              )
      ]
    ]
  ]

  collect_endpoints-Serves :
      (ch : Channel) (eps : List ChannelEndpoint)
      → Memᴰ ch all
      → ch.enabled ≡ true
      → ((ep : ChannelEndpoint) → Memᴰ ep eps → Memᴰ ep ch.endpoints)
      → All (Serves all model inbound) (collect_endpoints ch model inbound eps)
  unfolding collect_endpoints
  collect_endpoints-Serves ch [] m e f = tt
  collect_endpoints-Serves ch (ep ∷ eps) m e f =
      All-append (Serves all model inbound) (collect_endpoint ch model inbound ep)
        (collect_endpoints ch model inbound eps)
        (collect_endpoint-Serves ch ep m e (f ep (Memᴰ.head refl)))
        (collect_endpoints-Serves ch eps m e (λ x n. f x (Memᴰ.tail n)))

  collect_part-Serves :
      (cs : List Channel)
      → ((c : Channel) → Memᴰ c cs → Memᴰ c all)
      → All (Serves all model inbound) (collect cs model inbound)
  unfolding collect
  collect_part-Serves [] f = tt
  collect_part-Serves (c ∷ cs) f =
      let rest = collect_part-Serves cs (λ x n. f x (Memᴰ.tail n)) in
      elim (Bool-cases c.enabled) [
        | inr off ↦ simp off rest
        | inl on ↦ simp on (
            All-append (Serves all model inbound) (collect_endpoints c model inbound c.endpoints)
              (collect cs model inbound)
              (collect_endpoints-Serves c c.endpoints (f c (Memᴰ.head refl)) on (λ x n. n)) rest)
      ]

-- Every collected candidate is an enabled endpoint of a listed, enabled channel that has the model
-- and may serve the protocol, with the rank of its channel and endpoint.
pub collect-Serves :
    (channels : List Channel) (model : String) (inbound : Protocol)
    → All (Serves channels model inbound) (collect channels model inbound)
collect-Serves channels model inbound =
    collect_part-Serves channels model inbound channels (λ c m. m)

module _ (model : String) (inbound : Protocol) where
  mem-collect_endpoint :
      (ch : Channel) (ep : ChannelEndpoint) (entry : ModelEntry)
      → ep.enabled ≡ true
      → find_model ep model ≡ some entry
      → can_serve ep.transcode inbound ep.protocol ≡ true
      → collect_endpoint ch model inbound ep ≡ candidate_for ch ep inbound entry ∷ []
  unfolding collect_endpoint
  mem-collect_endpoint ch ep entry on found served = simp (on, found, collect_entry, served)

  mem-collect_endpoints :
      (ch : Channel) (eps : List ChannelEndpoint) (ep : ChannelEndpoint) (entry : ModelEntry)
      → Memᴰ ep eps
      → ep.enabled ≡ true
      → find_model ep model ≡ some entry
      → can_serve ep.transcode inbound ep.protocol ≡ true
      → Memᴰ (candidate_for ch ep inbound entry) (collect_endpoints ch model inbound eps)
  unfolding collect_endpoints
  mem-collect_endpoints ch [] ep entry m on found served = elim m [ ]
  mem-collect_endpoints ch (x ∷ eps) ep entry (Memᴰ.head e) on found served =
      rw (← e, mem-collect_endpoint ch ep entry on found served) (Memᴰ.head refl)
  mem-collect_endpoints ch (x ∷ eps) ep entry (Memᴰ.tail m) on found served =
      Memᴰ.append_right (collect_endpoint ch model inbound x)
        (mem-collect_endpoints ch eps ep entry m on found served)

  mem-collect_of :
      (cs : List Channel) (ch : Channel) (ep : ChannelEndpoint) (entry : ModelEntry)
      → Memᴰ ch cs
      → ch.enabled ≡ true
      → Memᴰ ep ch.endpoints
      → ep.enabled ≡ true
      → find_model ep model ≡ some entry
      → can_serve ep.transcode inbound ep.protocol ≡ true
      → Memᴰ (candidate_for ch ep inbound entry) (collect cs model inbound)
  unfolding collect
  mem-collect_of [] ch ep entry m e n on found served = elim m [ ]
  mem-collect_of (c ∷ cs) ch ep entry (Memᴰ.head q) e n on found served = rw (← q) (
      simp e (
        Memᴰ.append_left (collect cs model inbound)
          (mem-collect_endpoints ch ch.endpoints ep entry n on found served)))
  mem-collect_of (c ∷ cs) ch ep entry (Memᴰ.tail m) e n on found served =
      let rest = mem-collect_of cs ch ep entry m e n on found served in
      elim (Bool-cases c.enabled) [
        | inr off ↦ simp off rest
        | inl up ↦ simp up (Memᴰ.append_right (collect_endpoints c model inbound c.endpoints) rest)
      ]

-- Every endpoint that can serve the request is collected.
pub mem-collect :
    (channels : List Channel) (model : String) (inbound : Protocol) (c : Candidate)
    → Serves channels model inbound c
    → Memᴰ c (collect channels model inbound)
mem-collect channels model inbound c s =
    Memᴰ.cast (λ i. record c { rank = s.ranked i })
      (mem-collect_of model inbound channels c.channel c.endpoint c.model s.channel_listed
        s.channel_enabled s.endpoint_listed s.endpoint_enabled s.entry_found s.permitted)
