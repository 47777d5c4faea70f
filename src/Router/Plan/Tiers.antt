-- ===== src/Router/Plan/Tiers.antt =====
-- `RoutePlanner::order` (crates/refract-router/src/plan.rs) tries the tiers from the best down.
use mathlib.Core.Bool.{Bool-set}
use mathlib.Core.List.Perm
use refract.Base.{
  ℕ, zero, suc, ◌≤◌, ◌≡◌, refl, arith, Bool, true, false, List, [], ◌∷◌, ◌++◌, Option, some, String,
  length, length-append, Perm, Bool-cases, inl, inr, All, All-mono, All-perm, All-prop, is_le,
  then_with, compare, compare_ℤ, ap, subst, sym,
}
use refract.Base.Sort.{
  AllPairs, IsPreorder, Below, sort_by, sort_by-perm, sort_by-AllPairs, AllPairs-append,
  AllPairs-split, AllPairs-of_All, AllPairs-mono,
}
use refract.Base.Dedup.{dedup_by_key}
use refract.Core.Routing.{RoutingPolicy, tier, same_tier}
use refract.Router.Plan.{
  Candidate, Draw, by_rank, one_per_channel, span_tier, arrange_tier, arrange_tiers,
  rank_candidates, order, take_seq,
}
use refract.Router.Plan.Arranged.{arrange_tier-Rearranges}

-- The tier of the first candidate is not below that of the second: under native-first a native
-- candidate is above a transcoded one, and then the channel's priority decides.
abbrev pub Ahead : Bool → Candidate → Candidate → Type 0
Ahead nf a b =
    let (a_native, a_prio, _) = tier a.rank nf in
    let (b_native, b_prio, _) = tier b.rank nf in
    is_le (then_with (compare b_native a_native) (compare_ℤ b_prio a_prio)) ≡ true

by_rank_total :
    (nf : Bool) (a b : Candidate) → is_le (by_rank nf a b) ≡ false → is_le (by_rank nf b a) ≡ true
by_rank_total nf a b h = ground arith

by_rank_trans :
    (nf : Bool) (a b c : Candidate)
    → is_le (by_rank nf a b) ≡ true
    → is_le (by_rank nf b c) ≡ true
    → is_le (by_rank nf a c) ≡ true
by_rank_trans nf a b c p q = ground arith

by_rank-IsPreorder : (nf : Bool) → IsPreorder (by_rank nf)
by_rank-IsPreorder nf = record { total = by_rank_total nf; trans = by_rank_trans nf }

Ahead-of_by_rank : (nf : Bool) (a b : Candidate) → Below (by_rank nf) a b → Ahead nf a b
Ahead-of_by_rank nf a b h = ground arith

abbrev InTier : Bool → Candidate → Candidate → Type 0
InTier nf head c = same_tier c.rank head.rank nf ≡ true

Ahead-of_InTier :
    (nf : Bool) (head a b : Candidate) → InTier nf head a → InTier nf head b → Ahead nf a b
unfolding same_tier
Ahead-of_InTier nf head a b p q = ground arith

InTier-refl : (nf : Bool) (head : Candidate) → InTier nf head head
unfolding same_tier
InTier-refl nf head = ground arith

span_tier_lem :
    (nf : Bool) (head : Candidate) (cs : List Candidate)
    → (cs ≡ (span_tier nf head cs).0 ++ (span_tier nf head cs).1)
      × All (InTier nf head) (span_tier nf head cs).0
unfolding span_tier
span_tier_lem nf head [] = (refl, tt)
span_tier_lem nf head (c ∷ cs) = elim (Bool-cases (same_tier c.rank head.rank nf)) [
  | inl e ↦ let (p, q) = span_tier_lem nf head cs in simp e (ap (◌∷◌ c) p, (refl, q))
  | inr e ↦ simp e (refl, tt)
]

length-span_tier :
    (nf : Bool) (c : Candidate) (cs : List Candidate)
    → length (span_tier nf c (c ∷ cs)).1 ≤ length cs
unfolding span_tier
length-span_tier nf c cs =
    let (p, q) = span_tier_lem nf c cs in
    simp (InTier-refl nf c)
      (omega (arith, ap length p, length-append (span_tier nf c cs).0 (span_tier nf c cs).1))

Ahead-prop : (nf : Bool) (a b : Candidate) → IsProp (Ahead nf a b)
Ahead-prop nf a b = Bool-set _ _

-- A result that rearranges the candidates into descending tiers.
abbrev Descends : Bool → List Candidate → Option (List Candidate) → Type 0
Descends nf cs r = (out : List Candidate) × (r ≡ some out) × Perm out cs × AllPairs (Ahead nf) out

arrange_tiers_step :
    (policy : RoutingPolicy) (draw : Draw) (seq : Option ℕ) (n k k' : ℕ) (c : Candidate)
    (cs out more : List Candidate)
    → arrange_tier policy.selection draw seq k (span_tier policy.native_first c (c ∷ cs)).0
      ≡ some (out, k')
    → arrange_tiers policy draw seq n k' (span_tier policy.native_first c (c ∷ cs)).1 ≡ some more
    → arrange_tiers policy draw seq (suc n) k (c ∷ cs) ≡ some (out ++ more)
unfolding arrange_tiers
arrange_tiers_step policy draw seq n k k' c cs out more e f = ground arith

-- A tier arranged before a descending rest that it stands ahead of.
Ahead-append :
    (nf : Bool) (head : Candidate) (tier tail out more : List Candidate)
    → Perm out tier
    → Perm more tail
    → All (InTier nf head) tier
    → All (λ a. All (Ahead nf a) tail) tier
    → AllPairs (Ahead nf) more
    → AllPairs (Ahead nf) (out ++ more)
Ahead-append nf head tier tail out more p q same cross rest =
    let same' = All-perm (InTier nf head) (λ a. Bool-set _ _) (Perm.symm p) same in
    let cross' =
      All-mono (λ a. All (Ahead nf a) tail) (λ a. All (Ahead nf a) more)
        (λ a h. All-perm (Ahead nf a) (Ahead-prop nf a) (Perm.symm q) h) tier cross in
    AllPairs-append (Ahead nf) out more
      (AllPairs-of_All (Ahead nf) (InTier nf head) (Ahead-of_InTier nf head) out same') rest
      (All-perm (λ a. All (Ahead nf a) more) (λ a. All-prop (Ahead nf a) (Ahead-prop nf a) more)
        (Perm.symm p) cross')

arrange_tiers-Descends :
    (policy : RoutingPolicy) (draw : Draw) (seq : Option ℕ) (n k : ℕ) (cs : List Candidate)
    → length cs ≤ n
    → AllPairs (Ahead policy.native_first) cs
    → Descends policy.native_first cs (arrange_tiers policy draw seq n k cs)
unfolding arrange_tiers
arrange_tiers-Descends policy draw seq zero k [] h p = ([], refl, Perm.rfl, tt)
arrange_tiers-Descends policy draw seq (suc n) k [] h p = ([], refl, Perm.rfl, tt)
arrange_tiers-Descends policy draw seq zero k (c ∷ cs) h p = absurd (omega arith)
arrange_tiers-Descends policy draw seq (suc n) k (c ∷ cs) h p =
    let nf = policy.native_first in
    let tier = (span_tier nf c (c ∷ cs)).0 in
    let tail = (span_tier nf c (c ∷ cs)).1 in
    let (e, same) = span_tier_lem nf c (c ∷ cs) in
    let (below, cross) = AllPairs-split (Ahead nf) tier tail (subst (AllPairs (Ahead nf)) e p) in
    let (out, k', f, perm) = arrange_tier-Rearranges policy.selection draw seq k tier in
    let short : length tail ≤ n = omega (arith, length-span_tier nf c cs) in
    let (more, g, perm', rest) = arrange_tiers-Descends policy draw seq n k' tail short below in
    (
      out ++ more,
      arrange_tiers_step policy draw seq n k k' c cs out more f g,
      subst (Perm (out ++ more)) (sym e) (Perm.append perm perm'),
      Ahead-append nf c tier tail out more perm perm' same cross rest,
    )

rank_candidates-Ahead :
    (policy : RoutingPolicy) (cs : List Candidate)
    → AllPairs (Ahead policy.native_first) (rank_candidates policy cs)
unfolding rank_candidates
rank_candidates-Ahead policy cs =
    let nf = policy.native_first in
    let kept = one_per_channel policy.retry_same_channel cs in
    AllPairs-mono (Below (by_rank nf)) (Ahead nf) (Ahead-of_by_rank nf) (sort_by (by_rank nf) kept)
      (sort_by-AllPairs (by_rank nf) kept (by_rank-IsPreorder nf))

rank_candidates-perm :
    (policy : RoutingPolicy) (cs : List Candidate)
    → Perm (rank_candidates policy cs) (one_per_channel policy.retry_same_channel cs)
unfolding rank_candidates
rank_candidates-perm policy cs = sort_by-perm (by_rank policy.native_first) _

one_per_channel-nil : (b : Bool) → one_per_channel b [] ≡ []
unfolding one_per_channel sort_by dedup_by_key
one_per_channel-nil true = refl
one_per_channel-nil false = refl

-- `order` always returns, whatever the draws are. It returns the candidates that are kept for each
-- channel, each once, in descending tiers.
pub order-Descends :
    (policy : RoutingPolicy) (draw : Draw) (cursors : List (String × ℕ)) (cs : List Candidate)
    (model : String)
    → (out : List Candidate) × ((order policy draw cursors cs model).0 ≡ some out)
      × Perm out (one_per_channel policy.retry_same_channel cs)
      × AllPairs (Ahead policy.native_first) out
unfolding order
order-Descends policy draw cursors [] model =
    ([], refl, rw (one_per_channel-nil policy.retry_same_channel) Perm.rfl, tt)
order-Descends policy draw cursors (c ∷ cs) model =
    let ranked = rank_candidates policy (c ∷ cs) in
    let (out, e, p, d) =
      arrange_tiers-Descends policy draw (take_seq policy.selection cursors model).0 (length ranked)
        0 ranked (omega arith) (rank_candidates-Ahead policy (c ∷ cs)) in
    (out, e, Perm.trans p (rank_candidates-perm policy (c ∷ cs)), d)
