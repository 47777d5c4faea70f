-- ===== src/Router/Plan/Arranged.antt =====
-- The selection within a tier (crates/refract-router/src/plan.rs) is total and rearranges the tier.
use mathlib.Core.List.Perm
use mathlib.Core.List.{perm_append_comm}
use refract.Base.{
  ℕ, zero, suc, ◌%◌, ◌≤◌, ◌≡◌, refl, arith, List, [], ◌∷◌, Option, some, subst, length, Perm,
  Bool-cases, inl, inr, take, drop, take-append-drop, map, unwrap_or, leb, ap, ◌<◌,
}
use refract.Base.SwapRemove.{swap_remove, swap_remove-Removed}
use refract.Core.Routing.{SelectionMode, weighted_random, round_robin, first}
use refract.Core.Routing.Weights.{weighted_pick-lt}
use refract.Router.Plan.{Candidate, Draw, rotate_left, pick_index, arrange_weighted, arrange_tier}

-- A result that rearranges the list.
abbrev pub Rearranges : List Candidate → Option (List Candidate × ℕ) → Type 0
Rearranges cs r = (out : List Candidate) × (k : ℕ) × (r ≡ some (out, k)) × Perm out cs

length-weights : (cs : List Candidate) → length (map (λ c. c.channel.weight) cs) ≡ length cs
length-weights [] = refl
length-weights (c ∷ cs) = ap suc (length-weights cs)

pick_index-lt :
    (draw : Draw) (k : ℕ) (c : Candidate) (cs : List Candidate)
    → pick_index draw k (c ∷ cs) < suc (length cs)
unfolding pick_index
pick_index-lt draw k c cs =
    let ws = map (λ d. d.channel.weight) cs in
    omega (arith, weighted_pick-lt c.channel.weight ws (draw k), length-weights cs)

arrange_weighted_step :
    (draw : Draw) (n k k' : ℕ) (c d : Candidate) (cs rest out : List Candidate)
    → swap_remove (c ∷ cs) (pick_index draw k (c ∷ cs)) ≡ some (d, rest)
    → arrange_weighted draw n (suc k) rest ≡ some (out, k')
    → arrange_weighted draw (suc n) k (c ∷ cs) ≡ some (d ∷ out, k')
unfolding arrange_weighted
arrange_weighted_step draw n k k' c d cs rest out e f = ground arith

arrange_weighted-Rearranges :
    (draw : Draw) (n k : ℕ) (cs : List Candidate)
    → length cs ≤ n
    → Rearranges cs (arrange_weighted draw n k cs)
unfolding arrange_weighted
arrange_weighted-Rearranges draw zero k [] h = ([], k, refl, Perm.rfl)
arrange_weighted-Rearranges draw (suc n) k [] h = ([], k, refl, Perm.rfl)
arrange_weighted-Rearranges draw zero k (c ∷ cs) h = absurd (omega arith)
arrange_weighted-Rearranges draw (suc n) k (c ∷ cs) h =
    let (d, rest, e, p, l) =
      swap_remove-Removed c cs (pick_index draw k (c ∷ cs)) (pick_index-lt draw k c cs) in
    let (out, k', f, q) = arrange_weighted-Rearranges draw n (suc k) rest (omega arith) in
    (
      d ∷ out,
      k',
      arrange_weighted_step draw n k k' c d cs rest out e f,
      Perm.trans (Perm.cons d q) p,
    )

rotate_left-perm : (n : ℕ) (cs : List Candidate) → Perm (rotate_left n cs) cs
rotate_left-perm n cs =
    subst (Perm (rotate_left n cs)) (take-append-drop n cs)
      (perm_append_comm (drop n cs) (take n cs))

-- In every selection mode, and for every sequence of draws, a tier is arranged to a permutation of
-- itself.
pub arrange_tier-Rearranges :
    (mode : SelectionMode) (draw : Draw) (seq : Option ℕ) (k : ℕ) (tier : List Candidate)
    → Rearranges tier (arrange_tier mode draw seq k tier)
unfolding arrange_tier
arrange_tier-Rearranges weighted_random draw seq k tier =
    arrange_weighted-Rearranges draw (length tier) k tier (omega arith)
arrange_tier-Rearranges first draw seq k tier = (tier, k, refl, Perm.rfl)
arrange_tier-Rearranges round_robin draw seq k tier = elim (Bool-cases (leb (length tier) 1)) [
  | inl short ↦ (tier, k, rw short, Perm.rfl)
  | inr long ↦
      let n = unwrap_or seq 0 % length tier in
      (rotate_left n tier, k, rw long, rotate_left-perm n tier)
]
