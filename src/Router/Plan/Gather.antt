-- ===== src/Router/Plan/Gather.antt =====
-- Collecting the candidates, the visible models, and the diagnosis of a request that has none
-- (crates/refract-router/src/plan.rs).
use text.Mathlib.Text.{◌==◌ as str_eq}
use Prim.Native.String.{compare as compare_text}
use refract.Base.{
  Bool, true, false, not, ◌||◌, List, [], ◌∷◌, ◌++◌, Option, none, some, String, if◌then◌else◌,
  is_none, any,
}
use refract.Base.Sort.{sort_by}
use refract.Core.Protocol.{
  Protocol, ProtocolSet, protocol_eq, contains, insert, empty_set, all_protocols,
}
use refract.Core.Channel.{Channel, ChannelEndpoint, ModelEntry, find_model, can_serve}
use refract.Router.Plan.Defs.{Candidate, Diagnosis, routable, unknown_model, protocol_not_permitted}

-- The candidate of an endpoint with the entry that it has for the model.
abbrev pub candidate_for : Channel → ChannelEndpoint → Protocol → ModelEntry → Candidate
candidate_for channel endpoint inbound entry = record {
  channel = channel;
  endpoint = endpoint;
  model = entry;
  rank = record {
    native = protocol_eq inbound endpoint.protocol;
    priority = channel.priority;
    endpoint_order = endpoint.order;
  };
}

-- An endpoint that has the model is a candidate, if it can serve the protocol.
unfoldable pub collect_entry :
    Channel → ChannelEndpoint → Protocol → Option ModelEntry → List Candidate
collect_entry channel endpoint inbound none = []
collect_entry channel endpoint inbound (some entry) =
    if can_serve endpoint.transcode inbound endpoint.protocol
    then candidate_for channel endpoint inbound entry ∷ []
    else []

unfoldable pub collect_endpoint : Channel → String → Protocol → ChannelEndpoint → List Candidate
unfolding collect_entry
collect_endpoint channel model inbound endpoint =
    if not endpoint.enabled
    then []
    else collect_entry channel endpoint inbound (find_model endpoint model)

-- The inner loop of `collect`.
unfoldable pub collect_endpoints :
    Channel → String → Protocol → List ChannelEndpoint → List Candidate
collect_endpoints channel model inbound [] = []
collect_endpoints channel model inbound (ep ∷ eps) =
    collect_endpoint channel model inbound ep ++ collect_endpoints channel model inbound eps

-- `RoutePlanner::collect`.
unfoldable pub collect : List Channel → String → Protocol → List Candidate
collect [] model inbound = []
collect (c ∷ cs) model inbound =
    let rest = collect cs model inbound in
    if not c.enabled then rest else collect_endpoints c model inbound c.endpoints ++ rest

-- The state of the loops of `diagnose`: whether the model was seen, and the protocols found.
pub record Survey : Type 0 where
  pub model_exists : Bool
  pub available : ProtocolSet

unfoldable pub add_served : ChannelEndpoint → List Protocol → ProtocolSet → ProtocolSet
add_served ep [] s = s
add_served ep (p ∷ ps) s =
    add_served ep ps (if can_serve ep.transcode p ep.protocol then insert p s else s)

unfoldable pub survey_endpoints : String → List ChannelEndpoint → Survey → Survey
survey_endpoints model [] s = s
survey_endpoints model (ep ∷ eps) s = survey_endpoints model eps (
    if not ep.enabled || is_none (find_model ep model)
    then s
    else record { model_exists = true; available = add_served ep all_protocols s.available })

unfoldable pub survey : String → List Channel → Survey → Survey
survey model [] s = s
survey model (c ∷ cs) s =
    survey model cs (if not c.enabled then s else survey_endpoints model c.endpoints s)

-- `RoutePlanner::diagnose`.
unfoldable pub diagnose : List Channel → String → Protocol → Diagnosis
diagnose channels model inbound =
    let s = survey model channels (record { model_exists = false; available = empty_set }) in
    if not s.model_exists
    then unknown_model
    else if contains s.available inbound
    then routable
    else protocol_not_permitted s.available

unfoldable pub add_names : List ModelEntry → List String → List String
add_names [] names = names
add_names (m ∷ ms) names =
    add_names ms (if any (λ n. str_eq n m.name) names then names else names ++ m.name ∷ [])

unfoldable pub add_endpoints : List ChannelEndpoint → List String → List String
add_endpoints [] names = names
add_endpoints (ep ∷ eps) names =
    add_endpoints eps (if not ep.enabled then names else add_names ep.models names)

unfoldable pub add_channels : List Channel → List String → List String
add_channels [] names = names
add_channels (c ∷ cs) names =
    add_channels cs (if not c.enabled then names else add_endpoints c.endpoints names)

-- `RoutePlanner::visible_models`.
unfoldable pub visible_models : List Channel → List String
visible_models channels = sort_by compare_text (add_channels channels [])
