-- ===== src/Examples.antt =====
-- Concrete channels and candidates, on which the tests below run the code and apply the theorems.
mod Plan
mod Messages
mod Keys
mod Health
mod Rate
mod Channels
mod Execution
mod Streams
mod Affinity
mod Stores
use refract.Base.{ℕ, true, false, List, [], ◌∷◌, none, some, pos}
use refract.Core.Protocol.{Protocol, chat, messages, empty_set}
use refract.Core.Address.{UpstreamAddress}
use refract.Core.Routing.{default_policy, RoutingPolicy}
use refract.Core.Channel.{
  Channel, ChannelEndpoint, single_protocol, disabled_transcode, sticky, shared,
}
use refract.Router.Plan.{Candidate, Route}

abbrev pub official : UpstreamAddress
official = record {
  unofficial = false;
  full_address = false;
  base_url = none;
  version_prefix = none;
  path = none;
}

abbrev pub chat_endpoint : ChannelEndpoint
chat_endpoint = record {
  protocol = chat;
  order = 0;
  enabled = true;
  address = official;
  credential = none;
  models = record { name = "gpt"; upstream = some "gpt-4" } ∷ [];
  transcode = disabled_transcode;
}

-- A channel with the given number and priority, and three keys.
abbrev pub chat_channel : ℕ → ℕ → Channel
chat_channel id priority = record {
  id = id;
  name = "one";
  kind = single_protocol chat;
  enabled = true;
  priority = pos priority;
  weight = 1;
  credential = "sk-1";
  credentials = "sk-2" ∷ "sk-3" ∷ [];
  key_strategy = sticky;
  address = official;
  endpoints = chat_endpoint ∷ [];
  timeout_secs = 0;
  proxy = none;
  extra_headers = [];
  empty_response_retry = record { window_secs = none; max_retries = none };
  visibility = shared;
  user_id = none;
}

abbrev pub candidate : ℕ → ℕ → Candidate
candidate id priority = record {
  channel = chat_channel id priority;
  endpoint = chat_endpoint;
  model = record { name = "gpt"; upstream = some "gpt-4" };
  rank = record { native = true; priority = pos priority; endpoint_order = 0 };
}

abbrev pub candidates : List Candidate
candidates = candidate 1 0 ∷ candidate 2 5 ∷ candidate 1 0 ∷ []

abbrev pub channels : List Channel
channels = chat_channel 1 0 ∷ chat_channel 2 5 ∷ []

abbrev pub two_attempts : Route
two_attempts = record {
  inbound = chat;
  model = "gpt";
  attempts = candidate 2 5 ∷ candidate 1 0 ∷ [];
  attempt_cap = 3;
  max_upstream_calls = 8;
  identity = some 7;
}
