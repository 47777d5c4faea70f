-- ===== src/Core/Routing/Rank.antt =====
-- The order of candidates by `tier` (crates/refract-core/src/routing.rs).
use refract.Base.{◌≡◌, refl, arith, Bool, true, false, is_le, Ordering}
use refract.Core.Routing.{RankKey, tier, same_tier, compare_tier}

-- The comparison that the planner sorts by: descending tiers.
abbrev pub by_tier : Bool → RankKey → RankKey → Ordering
by_tier native_first a b = compare_tier (tier b native_first) (tier a native_first)

by_tier_total :
    (nf : Bool) (a b : RankKey) → is_le (by_tier nf a b) ≡ false → is_le (by_tier nf b a) ≡ true
by_tier_total nf a b h = ground arith

by_tier_trans :
    (nf : Bool) (a b c : RankKey)
    → is_le (by_tier nf a b) ≡ true
    → is_le (by_tier nf b c) ≡ true
    → is_le (by_tier nf a c) ≡ true
by_tier_trans nf a b c p q = ground arith

-- With native-first off, whether a candidate is native does not change its tier.
pub tier-native_irrelevant :
    (k : RankKey) (n : Bool) → tier (record k { native = n }) false ≡ tier k false
tier-native_irrelevant k n = refl

-- With native-first on, a native candidate goes strictly before a transcoded one, whatever their
-- priorities and endpoint orders are.
pub native_first_wins :
    (a b : RankKey) → a.native ≡ true → b.native ≡ false → by_tier true a b ≡ Ordering.lt
native_first_wins a b p q = ground arith

same_tier_refl : (a : RankKey) (nf : Bool) → same_tier a a nf ≡ true
unfolding same_tier
same_tier_refl a nf = ground arith
