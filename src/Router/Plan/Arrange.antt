-- ===== src/Router/Plan/Arrange.antt =====
-- Ordering the candidates (crates/refract-router/src/plan.rs).
use refract.Base.{
  ℕ, zero, suc, ◌+◌, ◌%◌, ◌^◌, ◌-◌, Bool, true, false, ◌==◌, List, [], ◌∷◌, ◌++◌, Option, none,
  some, String, if◌then◌else◌, length, take, drop, compare, compare_bool, then_with, Ordering, map,
  unwrap_or, leb, get_elem?,
}
use refract.Base.Maps.{lookup, put, string_eq}
use refract.Base.Sort.{sort_by}
use refract.Base.Dedup.{dedup_by_key}
use refract.Base.SwapRemove.{swap_remove}
use refract.Core.Protocol.{Protocol}
use refract.Core.Routing.{
  SelectionMode, weighted_random, round_robin, first, RoutingPolicy, same_tier, weighted_pick,
}
use refract.Core.Routing.Rank.{by_tier}
use refract.Core.Channel.{Channel}
use refract.Router.Plan.Defs.{Candidate, Route}
use refract.Router.Plan.Gather.{collect}

-- `cursors.entry(model).or_insert(0)`, read and advanced with wrap-around.
unfoldable pub advance_cursor : List (String × ℕ) → String → ℕ × List (String × ℕ)
unfolding lookup put
advance_cursor cursors model =
    let seq = unwrap_or (lookup model cursors) 0 in (seq, put model ((seq + 1) % 2 ^ 64) cursors)

abbrev pub by_channel : Candidate → Candidate → Ordering
by_channel a b = then_with (compare a.channel.id b.channel.id) (
    then_with (compare_bool b.rank.native a.rank.native)
      (compare a.rank.endpoint_order b.rank.endpoint_order))

abbrev pub by_rank : Bool → Candidate → Candidate → Ordering
by_rank nf a b = then_with (by_tier nf a.rank b.rank) (compare a.channel.id b.channel.id)

-- One candidate for each channel, unless a channel may be retried.
unfoldable pub one_per_channel : Bool → List Candidate → List Candidate
one_per_channel retry_same_channel cs =
    let sorted = sort_by by_channel cs in
    if retry_same_channel then sorted else dedup_by_key (λ c. c.channel.id) sorted

-- `rotate_left`.
abbrev pub rotate_left : ℕ → List Candidate → List Candidate
rotate_left n cs = drop n cs ++ take n cs

-- `take_while` and `split_at`: the candidates of the head's tier, and those behind them.
unfoldable pub span_tier : Bool → Candidate → List Candidate → List Candidate × List Candidate
span_tier nf head [] = ([], [])
span_tier nf head (c ∷ cs) =
    let (tier, tail) = span_tier nf head cs in
    if same_tier c.rank head.rank nf then (c ∷ tier, tail) else ([], c ∷ cs)

abbrev pub Draw : Type 0
Draw = ℕ → ℕ → ℕ

-- The index that the weights of the pool and the draw give.
unfoldable pub pick_index : Draw → ℕ → List Candidate → ℕ
pick_index draw k pool = unwrap_or (weighted_pick (map (λ c. c.channel.weight) pool) (draw k)) 0

-- The weighted permutation of a tier; the first number is the length of the pool.
unfoldable pub arrange_weighted : Draw → ℕ → ℕ → List Candidate → Option (List Candidate × ℕ)
arrange_weighted draw n k [] = some ([], k)
arrange_weighted draw zero k (c ∷ cs) = none
arrange_weighted draw (suc n) k (c ∷ cs) =
    elim (swap_remove (c ∷ cs) (pick_index draw k (c ∷ cs))) [
      | none ↦ none
      | some (d, rest) ↦ elim (arrange_weighted draw n (suc k) rest) [
        | none ↦ none
        | some (out, k') ↦ some (d ∷ out, k')
      ]
    ]

-- `arrange_tier`, with the number of the next draw.
unfoldable pub arrange_tier :
    SelectionMode → Draw → Option ℕ → ℕ → List Candidate → Option (List Candidate × ℕ)
arrange_tier first draw seq k tier = some (tier, k)
arrange_tier round_robin draw seq k tier =
    some
      ((if leb (length tier) 1 then tier else rotate_left (unwrap_or seq 0 % length tier) tier), k)
arrange_tier weighted_random draw seq k tier = arrange_weighted draw (length tier) k tier

-- The loop over the tiers; the first number bounds the rounds.
unfoldable pub arrange_tiers :
    RoutingPolicy → Draw → Option ℕ → ℕ → ℕ → List Candidate → Option (List Candidate)
arrange_tiers policy draw seq n k [] = some []
arrange_tiers policy draw seq zero k (c ∷ cs) = none
arrange_tiers policy draw seq (suc n) k (c ∷ cs) =
    let (tier, tail) = span_tier policy.native_first c (c ∷ cs) in
    elim (arrange_tier policy.selection draw seq k tier) [
      | none ↦ none
      | some (out, k') ↦ elim (arrange_tiers policy draw seq n k' tail) [
        | none ↦ none
        | some more ↦ some (out ++ more)
      ]
    ]

-- The cursor moves only in round-robin mode.
unfoldable pub take_seq : SelectionMode → List (String × ℕ) → String → Option ℕ × List (String × ℕ)
take_seq round_robin cursors model =
    let (seq, cursors') = advance_cursor cursors model in (some seq, cursors')
take_seq weighted_random cursors model = (none, cursors)
take_seq first cursors model = (none, cursors)

-- The candidates before the selection within the tiers.
unfoldable pub rank_candidates : RoutingPolicy → List Candidate → List Candidate
rank_candidates policy cs =
    sort_by (by_rank policy.native_first) (one_per_channel policy.retry_same_channel cs)

-- `RoutePlanner::order`, with the shared cursors.
unfoldable pub order :
    RoutingPolicy
    → Draw
    → List (String × ℕ)
    → List Candidate
    → String
    → Option (List Candidate) × List (String × ℕ)
order policy draw cursors [] model = (some [], cursors)
order policy draw cursors (c ∷ cs) model =
    let (seq, cursors') = take_seq policy.selection cursors model in
    let ranked = rank_candidates policy (c ∷ cs) in
    (arrange_tiers policy draw seq (length ranked) 0 ranked, cursors')

abbrev pub usize_max : ℕ
usize_max = 2 ^ 64 - 1

-- `RoutePlanner::plan`.
unfoldable pub plan :
    RoutingPolicy
    → Draw
    → List (String × ℕ)
    → List Channel
    → String
    → Protocol
    → Option Route × List (String × ℕ)
plan policy draw cursors channels model inbound =
    let (ordered, cursors') = order policy draw cursors (collect channels model inbound) model in
    (
      elim ordered [
        | none ↦ none
        | some attempts ↦ some (record {
          inbound = inbound;
          model = model;
          attempts = attempts;
          attempt_cap = if policy.max_attempts == 0 then usize_max else policy.max_attempts;
          max_upstream_calls = policy.max_upstream_calls;
          identity = none;
        })
      ],
      cursors',
    )

-- The position of the first candidate of a channel, and the list without the item at a position.
unfoldable pub position : ℕ → List Candidate → Option ℕ
position id [] = none
position id (c ∷ cs) =
    if c.channel.id == id
    then some 0
    else elim (position id cs) [ none ↦ none | some i ↦ some (suc i) ]

unfoldable pub remove_at : List Candidate → ℕ → List Candidate
remove_at [] i = []
remove_at (x ∷ xs) zero = xs
remove_at (x ∷ xs) (suc i) = x ∷ remove_at xs i

unfoldable pub move_front : List Candidate → ℕ → List Candidate
unfolding remove_at
move_front cs pos = elim (get_elem? cs pos) [ none ↦ cs | some c ↦ c ∷ remove_at cs pos ]

-- `Route::pin_channel`.
unfoldable pub pin_channel : Route → ℕ → Route × Bool
unfolding position move_front
pin_channel r id = elim (position id r.attempts) [
  | none ↦ (r, false)
  | some pos ↦ ((if pos == 0 then r else record r { attempts = move_front r.attempts pos }), true)
]

-- `Route::pinned_only`.
unfoldable pub pinned_only : Route → Route
pinned_only r = record r { attempts = take 1 r.attempts; attempt_cap = 1 }
