-- ===== src/Router/Plan/Survivors.antt =====
-- Without retries on one channel, `RoutePlanner::order` (crates/refract-router/src/plan.rs) keeps the
-- preferred endpoint of each channel.
use mathlib.Core.List.Perm
use mathlib.Core.List.{Nodup, Nodup-nil, Nodup-cons}
use mathlib.Core.HLevel.{⊥_prop}
use mathlib.Core.Logic.{∥∥₁_elim}
use refract.Base.{
  ℕ, ◌≤◌, ◌<◌, ◌≡◌, arith, true, false, List, [], ◌∷◌, some, String, map, Mem, Memᴰ, Perm, All,
  is_le, then_with, compare, compare_bool, subst,
}
use refract.Base.Sort.{IsPreorder, Below, sort_by, sort_by-AllPairs, AllPairs-mono, sort_by-Memᴰ}
use refract.Base.Dedup.{KeysAscend, Survivor, dedup_by_key-KeysAscend, dedup_by_key-Survivor}
use refract.Core.Routing.{RoutingPolicy}
use refract.Router.Plan.{Candidate, Draw, by_channel, one_per_channel, order}
use refract.Router.Plan.Tiers.{order-Descends}

-- The first endpoint is native where the second is not, or both agree in that and it has no larger
-- order.
abbrev pub Preferred : Candidate → Candidate → Type 0
Preferred s c =
    is_le (
      then_with (compare_bool c.rank.native s.rank.native)
        (compare s.rank.endpoint_order c.rank.endpoint_order))
    ≡ true

by_channel_total :
    (a b : Candidate) → is_le (by_channel a b) ≡ false → is_le (by_channel b a) ≡ true
by_channel_total a b h = ground arith

by_channel_trans :
    (a b c : Candidate)
    → is_le (by_channel a b) ≡ true
    → is_le (by_channel b c) ≡ true
    → is_le (by_channel a c) ≡ true
by_channel_trans a b c p q = ground arith

by_channel-IsPreorder : IsPreorder by_channel
by_channel-IsPreorder = record { total = by_channel_total; trans = by_channel_trans }

id_le-of_Below : (a b : Candidate) → Below by_channel a b → a.channel.id ≤ b.channel.id
id_le-of_Below a b h = ground arith

Preferred-of_Below :
    (a b : Candidate) → Below by_channel a b → a.channel.id ≡ b.channel.id → Preferred a b
Preferred-of_Below a b h e = ground arith

Preferred-refl : (a : Candidate) → Preferred a a
Preferred-refl a = ground arith

abbrev pub channel_id : Candidate → ℕ
channel_id c = c.channel.id

one_per_channel-KeysAscend :
    (cs : List Candidate) → KeysAscend channel_id (one_per_channel false cs)
unfolding one_per_channel
one_per_channel-KeysAscend cs = dedup_by_key-KeysAscend channel_id (sort_by by_channel cs) (
    AllPairs-mono (Below by_channel) (λ a b. channel_id a ≤ channel_id b) id_le-of_Below
      (sort_by by_channel cs) (sort_by-AllPairs by_channel cs by_channel-IsPreorder))

one_per_channel-Survivor :
    (cs : List Candidate) (c : Candidate)
    → Memᴰ c cs
    → Survivor channel_id Preferred c (one_per_channel false cs)
unfolding one_per_channel
one_per_channel-Survivor cs c m =
    dedup_by_key-Survivor channel_id Preferred (sort_by by_channel cs) c Preferred-refl
      (AllPairs-mono (Below by_channel) (λ a b. channel_id a ≡ channel_id b → Preferred a b)
        Preferred-of_Below (sort_by by_channel cs)
        (sort_by-AllPairs by_channel cs by_channel-IsPreorder))
      (sort_by-Memᴰ by_channel c cs m)

not-Mem-of_above :
    (n : ℕ) (cs : List Candidate) → All (λ c. n < channel_id c) cs → ¬ Mem n (map channel_id cs)
not-Mem-of_above n cs h m = ∥∥₁_elim m ⊥_prop (not-Memᴰ-of_above n cs h)
  where
    not-Memᴰ-of_above :
        (n : ℕ) (cs : List Candidate)
        → All (λ c. n < channel_id c) cs
        → ¬ Memᴰ n (map channel_id cs)
    not-Memᴰ-of_above n [] h m = elim m [ ]
    not-Memᴰ-of_above n (c ∷ cs) h (Memᴰ.head e) = absurd (omega arith)
    not-Memᴰ-of_above n (c ∷ cs) h (Memᴰ.tail m) = not-Memᴰ-of_above n cs h.1 m

Nodup-of_KeysAscend : (cs : List Candidate) → KeysAscend channel_id cs → Nodup (map channel_id cs)
Nodup-of_KeysAscend [] h = Nodup-nil
Nodup-of_KeysAscend (c ∷ cs) h =
    Nodup-cons.1 (not-Mem-of_above (channel_id c) cs h.0, Nodup-of_KeysAscend cs h.1)

-- If a channel is not retried, the attempts name each channel once, and every candidate has an
-- attempt on its channel whose endpoint is preferred to it.
pub order-Survivors :
    (policy : RoutingPolicy) (draw : Draw) (cursors : List (String × ℕ)) (cs : List Candidate)
    (model : String)
    → policy.retry_same_channel ≡ false
    → (out : List Candidate) × ((order policy draw cursors cs model).0 ≡ some out)
      × Nodup (map channel_id out)
      × ((c : Candidate)
          → Memᴰ c cs
          → (s : Candidate) × Mem s out × (s.channel.id ≡ c.channel.id) × Preferred s c)
order-Survivors policy draw cursors cs model off =
    let (out, e, p, d) = order-Descends policy draw cursors cs model in
    let p' : Perm out (one_per_channel false cs) =
      subst (λ b. Perm out (one_per_channel b cs)) off p in
    (
      out,
      e,
      Perm.nodup (Perm.symm (Perm.map channel_id p'))
          (Nodup-of_KeysAscend (one_per_channel false cs) (one_per_channel-KeysAscend cs)),
      λ c m.
          let (s, i, k, q) = one_per_channel-Survivor cs c m in
          (s, Perm.subset (Perm.symm p') s ∣ i ∣₁, k, q),
    )
