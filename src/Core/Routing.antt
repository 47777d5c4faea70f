-- ===== src/Core/Routing.antt =====
-- crates/refract-core/src/routing.rs: the routing policy, the rank of a candidate, and the weighted
-- choice. The random number of `weighted_pick` is an argument.
pub mod Rank
pub mod Weights
use refract.Base.{
  ℕ, zero, suc, ◌+◌, ◌-◌, max, Bool, true, false, ◌&&◌, List, [], ◌∷◌, Option, none, some, ltb,
  if◌then◌else◌, ℤ, pos, negate, compare, compare_ℤ, then_with, is_eq, Ordering, map, length,
  Result, ok, err, String,
}

pub data SelectionMode : Type 0 where
  weighted_random round_robin first : SelectionMode

pub record RoutingPolicy : Type 0 where
  pub native_first : Bool
  pub selection : SelectionMode
  pub max_attempts : ℕ
  pub retry_same_channel : Bool
  pub max_upstream_calls : ℕ

abbrev pub default_policy : RoutingPolicy
default_policy = record {
  native_first = true;
  selection = weighted_random;
  max_attempts = 3;
  retry_same_channel = false;
  max_upstream_calls = 8;
}

-- `RoutingPolicy::validate`; the error is the offending value, which the message shows.
unfoldable pub validate_policy : RoutingPolicy → Result (Unit {0}) ℕ
validate_policy p = if ltb 32 p.max_attempts then err p.max_attempts else ok tt

pub record RankKey : Type 0 where
  pub native : Bool
  pub priority : ℤ
  pub endpoint_order : ℕ

abbrev pub of_bool : Bool → ℕ
of_bool true = 1
of_bool false = 0

-- `RankKey::tier`: a larger tuple goes first.
abbrev pub tier : RankKey → Bool → ℕ × ℤ × ℤ
tier k native_first =
    (if native_first then of_bool k.native else 0, k.priority, negate k.endpoint_order)

unfoldable pub same_tier : RankKey → RankKey → Bool → Bool
same_tier a b native_first =
    let (a_native, a_prio, _) = tier a native_first in
    let (b_native, b_prio, _) = tier b native_first in
    is_eq (compare a_native b_native) && is_eq (compare_ℤ a_prio b_prio)

-- `Ord::cmp` on the tuples of `tier`.
abbrev pub compare_tier : ℕ × ℤ × ℤ → ℕ × ℤ × ℤ → Ordering
compare_tier (a, b, c) (x, y, z) =
    then_with (compare a x) (then_with (compare_ℤ b y) (compare_ℤ c z))

-- `weights.iter().map(|w| w.max(1))`.
abbrev pub effective : List ℕ → List ℕ
effective = map (λ w. max w 1)

abbrev pub sum : List ℕ → ℕ
sum [] = 0
sum (w ∷ ws) = w + sum ws

-- The loop over the weights; past the end the last index is taken.
unfoldable pub pick_from : ℕ → ℕ → List ℕ → Option ℕ
pick_from idx point [] = none
pick_from idx point (w ∷ ws) =
    let rest = pick_from (suc idx) (point - w) ws in if ltb point w then some idx else rest

abbrev or_last : Option ℕ → List ℕ → ℕ
or_last (some i) ws = i
or_last none ws = length ws - 1

-- `draw total` is the random number below `total`.
unfoldable pub weighted_pick : List ℕ → (ℕ → ℕ) → Option ℕ
unfolding pick_from
weighted_pick [] draw = none
weighted_pick (w ∷ ws) draw =
    let e = effective (w ∷ ws) in some (or_last (pick_from 0 (draw (sum e)) e) e)
