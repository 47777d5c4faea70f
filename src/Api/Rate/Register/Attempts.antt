-- ===== src/Api/Rate/Register/Attempts.antt =====
-- How many registrations of one address are let through (crates/refract-api/src/rate.rs, and the calls
-- of the limiter in crates/refract-api/src/accounts.rs).
use refract.Base.{
  ℕ, ◌+◌, ◌*◌, ◌≤◌, ◌<◌, ◌≡◌, arith, List, [], ◌∷◌, Option, none, some, Bool, true, false,
  if◌then◌else◌, refl, ◌⊎◌, Bool-cases, ap, ◌∙◌, subst, sym, inl, inr,
}
use refract.Base.Maps.{Eq, lookup, beq_refl}
use refract.Api.Rate.Register.{
  second, hour, Counted, AuthRateLimiter, new_limiter, check_register, record_register_attempt,
  record_register_success,
}
use refract.Api.Rate.Register.Hourly.{
  open_slots, IsKept, IsKept-later, open_slots-le, still, counted, IsOpen, still-slots,
  counted-slots, window-IsOpen, check-IsOpen, checked-lookup, attempt-lookup, success-hourly,
}

-- A registration that is tried, and one that comes to an account.
pub data Event {ℓ} (K : Type ℓ) : Type ℓ where
  tried : K → ℕ → Event K
  succeeded : K → ℕ → Event K

abbrev pub time_of {ℓ} : {K : Type ℓ} → Event K → ℕ
time_of (tried ip now) = now
time_of (succeeded ip now) = now

-- The times go up, from the first one on, and stay before the end.
abbrev pub IsTimed {ℓ} : {K : Type ℓ} → ℕ → ℕ → List (Event K) → Type 0
IsTimed from end [] = Unit
IsTimed from end (v ∷ vs) = (from ≤ time_of v) × (time_of v < end) × IsTimed (time_of v) end vs

module _ {ℓ} {K : Type ℓ} ⦃e : Eq K⦄ where
  -- A registration goes on if there is no time to wait, and is recorded then.
  abbrev go_on : Option ℕ → AuthRateLimiter K → AuthRateLimiter K → Bool × AuthRateLimiter K
  go_on none l l' = (true, l')
  go_on (some w) l l' = (false, l)

  -- A registration: it is looked at, and recorded if it may go on.
  unfoldable pub try_register : AuthRateLimiter K → K → ℕ → Bool × AuthRateLimiter K
  unfolding check_register record_register_attempt
  try_register l ip now =
      let (wait, l') = check_register l ip now in go_on wait l' (record_register_attempt l' ip now)

  -- The registrations of an address that go on.
  unfoldable pub let_through : K → AuthRateLimiter K → List (Event K) → ℕ
  unfolding try_register
  let_through k l [] = 0
  let_through k l (tried ip now ∷ vs) =
      let (passed, l') = try_register l ip now in
      (if passed then (if e.beq ip k then 1 else 0) else 0) + let_through k l' vs
  let_through k l (succeeded ip now ∷ vs) = let_through k (record_register_success l ip now) vs

  -- The limiter after a run.
  unfoldable pub run : AuthRateLimiter K → List (Event K) → AuthRateLimiter K
  unfolding try_register
  run l [] = l
  run l (tried ip now ∷ vs) = run (try_register l ip now).1 vs
  run l (succeeded ip now ∷ vs) = run (record_register_success l ip now) vs

  chosen :
      (o : Option ℕ) (l l' : AuthRateLimiter K)
      → (o ≡ none) × (go_on o l l' ≡ (true, l')) ⊎ (go_on o l l' ≡ (false, l))
  chosen none l l' = inl (refl, refl)
  chosen (some w) l l' = inr refl

  try-cases :
      (l : AuthRateLimiter K) (ip : K) (now : ℕ)
      → ((check_register l ip now).0 ≡ none)
          × (try_register l ip now
              ≡ (true, record_register_attempt (check_register l ip now).1 ip now))
        ⊎ (try_register l ip now ≡ (false, (check_register l ip now).1))
  unfolding try_register
  try-cases l ip now =
      chosen (check_register l ip now).0 (check_register l ip now).1
        (record_register_attempt (check_register l ip now).1 ip now)

  -- A registration changes the entries of its own address only.
  try-lookup :
      (l : AuthRateLimiter K) (ip k : K) (now : ℕ)
      → e.beq ip k ≡ false
      → lookup k (try_register l ip now).1.hourly ≡ lookup k l.hourly
  try-lookup l ip k now q =
      let same : lookup k (check_register l ip now).1.hourly ≡ lookup k l.hourly =
        ground (arith, checked-lookup l ip k now) in
      elim (try-cases l ip now) [
        | inl (o, p) ↦
            ap (λ r. lookup k r.1.hourly) p
            ∙ ground (arith, attempt-lookup (check_register l ip now).1 ip k now)
        | inr p ↦ ap (λ r. lookup k r.1.hourly) p ∙ same
      ]

  try-own :
      (l : AuthRateLimiter K) (k : K) (now : ℕ)
      → ((try_register l k now).0 ≡ true)
          × IsOpen (still (lookup k l.hourly) now) now
          × (lookup k (try_register l k now).1.hourly ≡ counted (still (lookup k l.hourly) now) now)
        ⊎ ((try_register l k now).0 ≡ false)
          × (lookup k (try_register l k now).1.hourly ≡ still (lookup k l.hourly) now)
  try-own l k now =
      let own = beq_refl k in
      let l' = (check_register l k now).1 in
      let same : lookup k l'.hourly ≡ still (lookup k l.hourly) now =
        ground (arith, checked-lookup l k k now) in
      let put_in : lookup k (record_register_attempt l' k now).hourly
          ≡ counted (lookup k l'.hourly) now =
        ground (arith, attempt-lookup l' k k now) in
      elim (try-cases l k now) [
        | inl (o, p) ↦ inl (
          ap (λ r. r.0) p,
          window-IsOpen l.hourly k now (check-IsOpen l k now o),
          ap (λ r. lookup k r.1.hourly) p ∙ put_in ∙ ap (λ x. counted x now) same,
        )
        | inr p ↦ inr (ap (λ r. r.0) p, ap (λ r. lookup k r.1.hourly) p ∙ same)
      ]

  own-IsKept :
      (l : AuthRateLimiter K) (k : K) (now end : ℕ)
      → now < end
      → end ≤ now + hour * second
      → IsKept (lookup k l.hourly) now
      → ((if (try_register l k now).0 then 1 else 0)
            + open_slots (lookup k (try_register l k now).1.hourly) end
          ≤ open_slots (lookup k l.hourly) end)
        × IsKept (lookup k (try_register l k now).1.hourly) now
  own-IsKept l k now end a b h =
      let o = lookup k l.hourly in
      let o' = lookup k (try_register l k now).1.hourly in
      let Kept : Bool → Option Counted → Type 0 =
        λ p x. ((if p then 1 else 0) + open_slots x end ≤ open_slots o end) × IsKept x now in
      elim (try-own l k now) [
        | inl (p, free, r) ↦
            subst (λ x. Kept x o') (sym p)
              (subst (Kept true) (sym r) (counted-slots o now end a b h free))
        | inr (p, r) ↦
            let (fewer, kept) = still-slots o now end a b h in
            subst (λ x. Kept x o') (sym p) (subst (Kept false) (sym r) (omega arith, kept))
      ]

  -- What one registration lets through for the address, it takes from what is left open.
  try-IsKept :
      (l : AuthRateLimiter K) (ip k : K) (now end : ℕ)
      → now < end
      → end ≤ now + hour * second
      → IsKept (lookup k l.hourly) now
      → ((if (try_register l ip now).0 then (if e.beq ip k then 1 else 0) else 0)
            + open_slots (lookup k (try_register l ip now).1.hourly) end
          ≤ open_slots (lookup k l.hourly) end)
        × IsKept (lookup k (try_register l ip now).1.hourly) now
  try-IsKept l ip k now end a b h =
      let Kept : Bool → K → Type 0 = λ p j.
        ((if (try_register l j now).0 then (if p then 1 else 0) else 0)
            + open_slots (lookup k (try_register l j now).1.hourly) end
          ≤ open_slots (lookup k l.hourly) end)
        × IsKept (lookup k (try_register l j now).1.hourly) now in
      elim (Bool-cases (e.beq ip k)) [
        | inl q ↦
            subst (λ p. Kept p ip) (sym q)
              (subst (Kept true) (sym ((e.beq_iff ip k).0 q)) (own-IsKept l k now end a b h))
        | inr q ↦
            let same = try-lookup l ip k now q in
            subst (λ p. Kept p ip) (sym q)
              (
                ground (arith, ap (λ x. open_slots x end) same),
                subst (λ x. IsKept x now) (sym same) h,
              )
      ]

  run-IsKept :
      (k : K) (l : AuthRateLimiter K) (vs : List (Event K)) (from now : ℕ)
      → IsTimed from (now + 1) vs
      → from ≤ now
      → IsKept (lookup k l.hourly) from
      → IsKept (lookup k (run l vs).hourly) now
  unfolding run
  run-IsKept k l [] from now t a h = IsKept-later (lookup k l.hourly) from now a h
  run-IsKept k l (tried ip at ∷ vs) from now (t, u, ts) a h =
      let kept = IsKept-later (lookup k l.hourly) from at t h in
      run-IsKept k (try_register l ip at).1 vs at now ts (omega arith)
        (try-IsKept l ip k at (at + 1) (omega arith) (omega arith) kept).1
  run-IsKept k l (succeeded ip at ∷ vs) from now (t, u, ts) a h =
      let l' = record_register_success l ip at in
      run-IsKept k l' vs at now ts (omega arith) (
        subst (λ m. IsKept (lookup k m) at) (sym (success-hourly l ip at))
          (IsKept-later (lookup k l.hourly) from at t h))

  through-slots :
      (k : K) (l : AuthRateLimiter K) (vs : List (Event K)) (from end : ℕ)
      → IsTimed from end vs
      → end ≤ from + hour * second
      → IsKept (lookup k l.hourly) from
      → let_through k l vs ≤ open_slots (lookup k l.hourly) end
  unfolding let_through
  through-slots k l [] from end t a h = omega arith
  through-slots k l (tried ip at ∷ vs) from end (t, u, ts) a h =
      let (now, kept) =
        try-IsKept l ip k at end u (omega arith) (IsKept-later (lookup k l.hourly) from at t h) in
      let later = through-slots k (try_register l ip at).1 vs at end ts (omega arith) kept in
      omega arith
  through-slots k l (succeeded ip at ∷ vs) from end (t, u, ts) a h =
      let l' = record_register_success l ip at in
      let same = success-hourly l ip at in
      let kept = IsKept-later (lookup k l.hourly) from at t h in
      let later =
        through-slots k l' vs at end ts (omega arith)
          (subst (λ m. IsKept (lookup k m) at) (sym same) kept) in
      subst (λ m. let_through k l' vs ≤ open_slots (lookup k m) end) same later

  new-IsKept : (k : K) → IsKept (lookup k (new_limiter {K = K}).hourly) 0
  unfolding lookup
  new-IsKept k = tt

  -- From a new limiter and after any registrations and successes before: of the registrations in one hour, at times
  -- that go up, at most nine of an address are let through, whatever comes from other addresses. A registration
  -- is here its look at the limits and its record, with no other call of the limiter between.
  pub let_through-le :
      (k : K) (us vs : List (Event K)) (from end : ℕ)
      → IsTimed 0 (from + 1) us
      → IsTimed from end vs
      → end ≤ from + hour * second
      → let_through k (run new_limiter us) vs ≤ 9
  let_through-le k us vs from end t u a =
      let l = run new_limiter us in
      let kept = run-IsKept k new_limiter us 0 from t (omega arith) (new-IsKept k) in
      let most : open_slots (lookup k l.hourly) end ≤ 9 =
        open_slots-le (lookup k l.hourly) end from kept in
      let got : let_through k l vs ≤ open_slots (lookup k l.hourly) end =
        through-slots k l vs from end u a kept in
      omega arith
