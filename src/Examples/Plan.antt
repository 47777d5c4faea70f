-- ===== src/Examples/Plan.antt =====
-- The planner's theorems at concrete channels.
use refract.Base.{
  ℕ, ◌∷◌, [], List, ◌≡◌, refl, ◌≢◌, some, not, is_empty, if◌then◌else◌, All, ◌⊎◌, ◌++◌, true, false,
  map, Perm, Mem,
}
use refract.Base.Sort.{AllPairs}
use mathlib.Core.List.{Nodup, Memᴰ}
use refract.Core.Protocol.{Protocol, ProtocolSet, chat, messages, contains}
use refract.Core.Channel.{find_model, can_serve}
use refract.Core.Routing.{default_policy}
use refract.Router.Plan.{
  Candidate, order, collect, diagnose, pin_channel, unknown_model, routable, protocol_not_permitted,
  one_per_channel,
}
use refract.Router.Plan.Tiers.{Ahead, order-Descends}
use refract.Router.Plan.Survivors.{Preferred, channel_id, order-Survivors}
use refract.Router.Plan.Collect.{Serves, mem-collect, collect-Serves}
use refract.Router.Plan.Diagnose.{model_listed, diagnose_lem}
use refract.Router.Plan.Pin.{pin_channel-cases}
use refract.Examples.{candidates, candidate, channels, two_attempts}

abbrev draw : ℕ → ℕ → ℕ
draw k n = 0

order-Descends_example :
    (out : List Candidate) × ((order default_policy draw [] candidates "gpt").0 ≡ some out)
    × Perm out (one_per_channel false candidates)
    × AllPairs (Ahead true) out
order-Descends_example = order-Descends default_policy draw [] candidates "gpt"

order-Survivors_example :
    (out : List Candidate) × ((order default_policy draw [] candidates "gpt").0 ≡ some out)
    × Nodup (map channel_id out)
    × ((c : Candidate)
        → Memᴰ c candidates
        → (s : Candidate) × Mem s out × (s.channel.id ≡ c.channel.id) × Preferred s c)
order-Survivors_example = order-Survivors default_policy draw [] candidates "gpt" refl

diagnose_example :
    (s : ProtocolSet) × ((p : Protocol) → contains s p ≡ not (is_empty (collect channels "gpt" p)))
    × (diagnose channels "gpt" messages ≡ (
        if not (model_listed "gpt" channels)
        then unknown_model
        else if not (is_empty (collect channels "gpt" messages))
        then routable
        else protocol_not_permitted s))
diagnose_example = diagnose_lem channels "gpt" messages

pin_channel_example :
    (All (λ d. d.channel.id ≢ 1) two_attempts.attempts
      × (pin_channel two_attempts 1 ≡ (two_attempts, false)))
    ⊎ ((pre : List Candidate) × (c : Candidate) × (post : List Candidate) × (two_attempts.attempts
          ≡ pre ++ c ∷ post)
        × All (λ d. d.channel.id ≢ 1) pre
        × (c.channel.id ≡ 1)
        × (pin_channel two_attempts 1 ≡ (record two_attempts { attempts = c ∷ pre ++ post }, true)))
pin_channel_example = pin_channel-cases two_attempts 1

second-Serves : Serves channels "gpt" chat (candidate 2 5)
unfolding find_model can_serve
second-Serves = record {
  channel_listed = Memᴰ.tail (Memᴰ.head refl);
  channel_enabled = refl;
  endpoint_listed = Memᴰ.head refl;
  endpoint_enabled = refl;
  entry_found = refl;
  permitted = refl;
  ranked = refl;
}

mem-collect_example : Memᴰ (candidate 2 5) (collect channels "gpt" chat)
mem-collect_example = mem-collect channels "gpt" chat (candidate 2 5) second-Serves

collect-Serves_example : All (Serves channels "gpt" chat) (collect channels "gpt" chat)
collect-Serves_example = collect-Serves channels "gpt" chat
