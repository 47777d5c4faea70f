-- ===== src/Router/Plan/Pin.antt =====
-- Pinning a channel to the front of a route (crates/refract-router/src/plan.rs).
use refract.Base.{
  ℕ, ◌≡◌, refl, ap, arith, true, false, List, [], ◌∷◌, ◌++◌, none, some, ◌⊎◌, inl, inr, ◌≢◌, All,
  ◌==◌, ==_iff, Bool-cases, get_elem?, length, ◌∙◌, if◌then◌else◌,
}
use refract.Router.Plan.{Candidate, Route, position, remove_at, move_front, pin_channel}

-- The first candidate of the channel, with what stands before and behind it.
abbrev pub FirstOf : ℕ → List Candidate → Type 0
FirstOf id cs =
    (pre : List Candidate) × (c : Candidate) × (post : List Candidate) × (cs ≡ pre ++ c ∷ post)
    × All (λ d. d.channel.id ≢ id) pre
    × (c.channel.id ≡ id)
    × (position id cs ≡ some (length pre))

position-cases :
    (id : ℕ) (cs : List Candidate)
    → (All (λ d. d.channel.id ≢ id) cs × (position id cs ≡ none)) ⊎ FirstOf id cs
unfolding position
position-cases id [] = inl (tt, refl)
position-cases id (c ∷ cs) = elim (Bool-cases (c.channel.id == id)) [
  | inl here ↦ inr ([], c, cs, refl, tt, (==_iff _ _).0 here, rw here)
  | inr not_here ↦
      let other : c.channel.id ≢ id = ground arith in
      elim (position-cases id cs) [
        | inl (none_of, e) ↦ inl ((other, none_of), rw (not_here, e))
        | inr (pre, d, post, e, before, hit, found) ↦
            inr (c ∷ pre, d, post, ap (◌∷◌ c) e, (other, before), hit, rw (not_here, found))
      ]
]

get_elem?-middle :
    (pre : List Candidate) (c : Candidate) (post : List Candidate)
    → get_elem? (pre ++ c ∷ post) (length pre) ≡ some c
get_elem?-middle [] c post = refl
get_elem?-middle (d ∷ pre) c post = get_elem?-middle pre c post

remove_at-middle :
    (pre : List Candidate) (c : Candidate) (post : List Candidate)
    → remove_at (pre ++ c ∷ post) (length pre) ≡ pre ++ post
unfolding remove_at
remove_at-middle [] c post = refl
remove_at-middle (d ∷ pre) c post = ap (◌∷◌ d) (remove_at-middle pre c post)

move_front-middle :
    (pre : List Candidate) (c : Candidate) (post : List Candidate)
    → move_front (pre ++ c ∷ post) (length pre) ≡ c ∷ pre ++ post
unfolding move_front
move_front-middle pre c post =
    ground (arith, get_elem?-middle pre c post, remove_at-middle pre c post)

pinned :
    (r : Route) (id n : ℕ)
    → position id r.attempts ≡ some n
    → pin_channel r id
      ≡ ((if n == 0 then r else record r { attempts = move_front r.attempts n }), true)
unfolding pin_channel
pinned r id n e = ground (arith, e)

-- The pinned route, when the first candidate of the channel is known.
moved :
    (r : Route) (pre : List Candidate) (c : Candidate) (post : List Candidate)
    → r.attempts ≡ pre ++ c ∷ post
    → (if length pre == 0 then r else record r { attempts = move_front r.attempts (length pre) })
      ≡ record r { attempts = c ∷ pre ++ post }
moved r [] c post e = ap (λ cs. record r { attempts = cs }) e
moved r (d ∷ pre) c post e =
    let apart : (length (d ∷ pre) == 0) ≡ false = ground arith in
    rw apart (
      ap (λ cs. record r { attempts = cs })
        (ap (λ cs. move_front cs (length (d ∷ pre))) e ∙ move_front-middle (d ∷ pre) c post))

-- If the channel has no candidate, pinning reports that and leaves the route as it is. Otherwise the
-- first candidate of the channel moves to the front, and all the others keep their order.
pub pin_channel-cases :
    (r : Route) (id : ℕ)
    → (All (λ d. d.channel.id ≢ id) r.attempts × (pin_channel r id ≡ (r, false)))
      ⊎ ((pre : List Candidate) × (c : Candidate) × (post : List Candidate) × (r.attempts
            ≡ pre ++ c ∷ post)
          × All (λ d. d.channel.id ≢ id) pre
          × (c.channel.id ≡ id)
          × (pin_channel r id ≡ (record r { attempts = c ∷ pre ++ post }, true)))
unfolding pin_channel
pin_channel-cases r id = elim (position-cases id r.attempts) [
  | inl (absent, e) ↦ inl (absent, ground (arith, e))
  | inr (pre, c, post, e, before, hit, found) ↦ inr (
    pre,
    c,
    post,
    e,
    before,
    hit,
    pinned r id (length pre) found ∙ ap (λ x. (x, true)) (moved r pre c post e),
  )
]
