-- ===== src/Core/Routing/Weights.antt =====
-- The share of each weight in `weighted_pick` (crates/refract-core/src/routing.rs).
use refract.Base.{
  ℕ, suc, ◌+◌, ◌-◌, ◌<◌, max, ◌≡◌, ap, arith, List, [], ◌∷◌, ◌++◌, some, length, ltb, Bool-cases,
  inl, inr, ◌∙◌, refl, unwrap_or, Option-cases,
}
use refract.Core.Routing.{effective, sum, or_last, pick_from, weighted_pick}

pick_from_share :
    (idx : ℕ) (pre : List ℕ) (w : ℕ) (post : List ℕ) (o : ℕ)
    → o < max w 1
    → pick_from idx (sum (effective pre) + o) (effective (pre ++ w ∷ post))
      ≡ some (idx + length pre)
unfolding pick_from
pick_from_share idx [] w post o h = ground arith
pick_from_share idx (v ∷ pre) w post o h = ground (arith, pick_from_share (suc idx) pre w post o)

weighted_pick_of_pick_from :
    (ws : List ℕ) (draw : ℕ → ℕ) (i : ℕ)
    → pick_from 0 (draw (sum (effective ws))) (effective ws) ≡ some i
    → weighted_pick ws draw ≡ some i
unfolding weighted_pick
weighted_pick_of_pick_from [] draw i h = cc
weighted_pick_of_pick_from (w ∷ ws) draw i h = ap (λ r. some (or_last r (effective (w ∷ ws)))) h

-- The item behind `pre` is picked by every draw in an interval of as many numbers as its weight
-- says, a weight of zero counting as one. The intervals of a list lie one after another.
pub weighted_pick_share :
    (pre : List ℕ) (w : ℕ) (post : List ℕ) (o : ℕ)
    → o < max w 1
    → weighted_pick (pre ++ w ∷ post) (λ total. sum (effective pre) + o) ≡ some (length pre)
weighted_pick_share pre w post o h =
    weighted_pick_of_pick_from (pre ++ w ∷ post) _ (length pre)
      (pick_from_share 0 pre w post o h ∙ ap some (omega arith))

pick_from_total :
    (idx point : ℕ) (ws : List ℕ)
    → point < sum (effective ws)
    → (i : ℕ) × (pick_from idx point (effective ws) ≡ some i) × (i < idx + length ws)
unfolding pick_from
pick_from_total idx point [] h = absurd (omega arith)
pick_from_total idx point (w ∷ ws) h = elim (Bool-cases (ltb point (max w 1))) [
  | inl e ↦ (idx, rw e, omega arith)
  | inr e ↦
      let (i, p, q) = pick_from_total (suc idx) (point - max w 1) ws (ground arith) in
      (i, rw e p, omega arith)
]

-- A draw below the total picks an index of the list, so every non-empty list has a pick.
pub weighted_pick_total :
    (ws : List ℕ) (draw : ℕ → ℕ)
    → draw (sum (effective ws)) < sum (effective ws)
    → (i : ℕ) × (weighted_pick ws draw ≡ some i) × (i < length ws)
weighted_pick_total ws draw h =
    let (i, p, q) = pick_from_total 0 (draw (sum (effective ws))) ws h in
    (i, weighted_pick_of_pick_from ws draw i p, omega arith)

pick_from_bound :
    (idx point : ℕ) (ws : List ℕ) (i : ℕ) → pick_from idx point ws ≡ some i → i < idx + length ws
unfolding pick_from
pick_from_bound idx point [] i h = cc
pick_from_bound idx point (w ∷ ws) i h = ground (arith, pick_from_bound (suc idx) (point - w) ws i)

length-effective : (ws : List ℕ) → length (effective ws) ≡ length ws
length-effective [] = refl
length-effective (w ∷ ws) = ap suc (length-effective ws)

-- Whatever the draw is, the pick of a non-empty list is one of its indices.
pub weighted_pick-lt :
    (w : ℕ) (ws : List ℕ) (draw : ℕ → ℕ)
    → unwrap_or (weighted_pick (w ∷ ws) draw) 0 < length (w ∷ ws)
unfolding weighted_pick
weighted_pick-lt w ws draw =
    let e = effective (w ∷ ws) in
    elim (Option-cases (pick_from 0 (draw (sum e)) e)) [
      | inl missed ↦ rw missed (omega (arith, length-effective ws))
      | inr (i, picked) ↦
          rw picked
            (omega (arith, pick_from_bound 0 (draw (sum e)) e i picked, length-effective ws))
    ]
