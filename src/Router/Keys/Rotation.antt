-- ===== src/Router/Keys/Rotation.antt =====
-- The keys that one request tries (crates/refract-router/src/keys.rs).
use native.Mathlib.Nat.{mod-eq_of_lt, add-mod_right, mod-add-mod, mod-lt, mod-eq-sub-mod}
use refract.Base.{
  ℕ, zero, suc, ◌+◌, ◌-◌, ◌<◌, ◌≤◌, ◌%◌, ◌≡◌, refl, arith, true, false, ◌≢◌, ◌⊎◌, inl, inr, sym,
  ◌∙◌, List, [], ◌∷◌, ◌++◌, length, All, ap, leb, ltb, length-append,
}
use refract.Core.Channel.{KeyPool, pool_len, is_single, single, pool}
use refract.Core.Error.{ErrorKind, is_key_failure}
use refract.Router.Keys.{KeyRotator, rotate}

-- The rotator after the failures of a list.
abbrev pub rotations : KeyRotator → List ErrorKind → KeyRotator
rotations r [] = r
rotations r (k ∷ ks) = rotations (rotate r k).0 ks

abbrev pub IsKeyFailure : ErrorKind → Type 0
IsKeyFailure k = is_key_failure k ≡ true

-- A rotator as `start` hands it out.
abbrev pub IsFresh : KeyRotator → Type 0
IsFresh r = (r.exhausted ≡ false) × (r.tried ≡ 1) × (r.index < pool_len r.pool)

abbrev moved_on : KeyRotator → ℕ → KeyRotator
moved_on r n = record r { index = (r.index + n) % pool_len r.pool; tried = r.tried + n }

add_zero : (n : ℕ) → n + 0 ≡ n
add_zero n = omega arith

single_len : (p : KeyPool) → 2 ≤ pool_len p → is_single p ≡ false
single_len (single k) h = ground arith
single_len (pool f rest s) h = refl

pub pool_len-positive : (p : KeyPool) → 0 < pool_len p
pool_len-positive (single k) = omega arith
pool_len-positive (pool f rest s) = omega arith

rotate_step :
    (r : KeyRotator) (k : ErrorKind)
    → r.exhausted ≡ false
    → IsKeyFailure k
    → 1 ≤ r.tried
    → r.tried < pool_len r.pool
    → rotate r k ≡ (moved_on r 1, true)
unfolding rotate
rotate_step r k live failed h t =
    let many : ltb (pool_len r.pool) 2 ≡ false = ground arith in
    let more : leb (pool_len r.pool) r.tried ≡ false = ground arith in
    simp (live, failed, single_len r.pool (omega arith), many, more)

rotate_last :
    (r : KeyRotator) (k : ErrorKind)
    → r.exhausted ≡ false
    → IsKeyFailure k
    → pool_len r.pool ≡ r.tried
    → rotate r k ≡ (record r { exhausted = true }, false)
unfolding rotate
rotate_last r k live failed h =
    let spent : leb (pool_len r.pool) r.tried ≡ true = ground arith in
    ground (arith, live, failed, spent)

moved_on_eq :
    (r : KeyRotator) (n i t : ℕ)
    → i ≡ (r.index + n) % pool_len r.pool
    → t ≡ r.tried + n
    → record r { index = i; tried = t } ≡ moved_on r n
moved_on_eq r n i t e f = cc

moved_twice : (r : KeyRotator) (n : ℕ) → moved_on (moved_on r 1) n ≡ moved_on r (suc n)
moved_twice r n =
    moved_on_eq r (suc n) (((r.index + 1) % pool_len r.pool + n) % pool_len r.pool)
      (r.tried + 1 + n)
      (mod-add-mod (r.index + 1) (pool_len r.pool) n ∙ ap (λ m. m % pool_len r.pool) (omega arith))
      (omega arith)

rotations_from :
    (r : KeyRotator) (ks : List ErrorKind)
    → r.exhausted ≡ false
    → All IsKeyFailure ks
    → 1 ≤ r.tried
    → r.index < pool_len r.pool
    → r.tried + length ks ≤ pool_len r.pool
    → rotations r ks ≡ moved_on r (length ks)
rotations_from r [] live h one i t =
    moved_on_eq r 0 r.index r.tried (rw (add_zero r.index) (sym (mod-eq_of_lt i))) (omega arith)
rotations_from r (k ∷ ks) live h one i t =
    let step = rotate_step r k live h.0 one (omega arith) in
    let rest =
      rotations_from (moved_on r 1) ks live h.1 (omega arith)
        (mod-lt (r.index + 1) (pool_len-positive r.pool)) (omega arith) in
    ap (λ x. rotations x.0 ks) step ∙ rest ∙ moved_twice r (length ks)

le_or_lt : (a b : ℕ) → (a ≤ b) ⊎ (b < a)
le_or_lt a b = omega arith

add_mod_cases :
    (a n d : ℕ)
    → a < d
    → n < d
    → ((a + n < d) × ((a + n) % d ≡ a + n)) ⊎ ((d ≤ a + n) × ((a + n) % d ≡ a + n - d))
add_mod_cases a n d h q = elim (le_or_lt d (a + n)) [
  | inl l ↦ inr (l, mod-eq-sub-mod l ∙ mod-eq_of_lt (omega arith))
  | inr l ↦ inl (l, mod-eq_of_lt l)
]

mod_apart : (a n d : ℕ) → a < d → 0 < n → n < d → (a + n) % d ≢ a
mod_apart a n d h p q = elim (add_mod_cases a n d h q) [
  | inl (l, e) ↦ ground arith
  | inr (l, e) ↦ ground arith
]

mod_reach : (a b d : ℕ) → a < d → b < d → (n : ℕ) × (n < d) × ((a + n) % d ≡ b)
mod_reach a b d p q = elim (le_or_lt a b) [
  | inl l ↦ (b - a, omega arith, ap (λ m. m % d) (omega arith) ∙ mod-eq_of_lt q)
  | inr l ↦
      (b + d - a, omega arith, ap (λ m. m % d) (omega arith) ∙ add-mod_right b d ∙ mod-eq_of_lt q)
]

fresh_rotations :
    (r : KeyRotator) (ks : List ErrorKind)
    → IsFresh r
    → All IsKeyFailure ks
    → length ks < pool_len r.pool
    → rotations r ks ≡ moved_on r (length ks)
fresh_rotations r ks (live, one, i) h q = rotations_from r ks live h (omega arith) i (omega arith)

rotations-append :
    (r : KeyRotator) (ks more : List ErrorKind)
    → rotations r (ks ++ more) ≡ rotations (rotations r ks) more
rotations-append r [] more = refl
rotations-append r (k ∷ ks) more = rotations-append (rotate r k).0 ks more

rotate-exhausted : (r : KeyRotator) (k : ErrorKind) → r.exhausted ≡ true → rotate r k ≡ (r, false)
unfolding rotate
rotate-exhausted r k h = ground (arith, h)

All-left : (ks more : List ErrorKind) → All IsKeyFailure (ks ++ more) → All IsKeyFailure ks
All-left [] more h = tt
All-left (k ∷ ks) more h = (h.0, All-left ks more h.1)

abbrev replicate : ℕ → ErrorKind → List ErrorKind
replicate zero k = []
replicate (suc n) k = k ∷ replicate n k

length-replicate : (n : ℕ) (k : ErrorKind) → length (replicate n k) ≡ n
length-replicate zero k = refl
length-replicate (suc n) k = ap suc (length-replicate n k)

All-replicate : (n : ℕ) (k : ErrorKind) → IsKeyFailure k → All IsKeyFailure (replicate n k)
All-replicate zero k h = tt
All-replicate (suc n) k h = (h, All-replicate n k h)

-- A fresh rotator tries another key after each key failure, as long as the pool has one left: after any
-- further failures of keys, fewer than the pool's keys in all, the key at hand is not the one it was.
rotations-apart :
    (r : KeyRotator) (ks more : List ErrorKind)
    → IsFresh r
    → All IsKeyFailure (ks ++ more)
    → 0 < length more
    → length (ks ++ more) < pool_len r.pool
    → (rotations r (ks ++ more)).index ≢ (rotations r ks).index
rotations-apart r ks more (live, one, i) h p q =
    let n = length ks in
    let d = pool_len r.pool in
    let len = length-append ks more in
    let before = fresh_rotations r ks (live, one, i) (All-left ks more h) (omega (arith, len)) in
    let after = fresh_rotations r (ks ++ more) (live, one, i) h q in
    let sum : (r.index + length (ks ++ more)) % d ≡ ((r.index + n) % d + length more) % d =
      ap (λ m. m % d) (omega (arith, len)) ∙ sym (mod-add-mod (r.index + n) d (length more)) in
    λ same.
      mod_apart ((r.index + n) % d) (length more) d
        (mod-lt (r.index + n) (pool_len-positive r.pool)) p (omega (arith, len))
        (sym sum ∙ sym (ap (λ x. x.index) after) ∙ same ∙ ap (λ x. x.index) before)

-- Every key of the pool is tried: the failures that lead to it are fewer than the keys.
pub rotations-reach :
    (r : KeyRotator) (k : ErrorKind) (i : ℕ)
    → IsFresh r
    → IsKeyFailure k
    → i < pool_len r.pool
    → (ks : List ErrorKind) × (length ks < pool_len r.pool)
      × ((rotations r ks).index ≡ i)
      × ((rotations r ks).exhausted ≡ false)
rotations-reach r k i (live, one, at) h q =
    let (n, l, e) = mod_reach r.index i (pool_len r.pool) at q in
    let len = length-replicate n k in
    let there =
      fresh_rotations r (replicate n k) (live, one, at) (All-replicate n k h)
        (omega (arith, len)) in
    (
      replicate n k,
      omega (arith, len),
      ap (λ x. x.index) there ∙ ap (λ m. (r.index + m) % pool_len r.pool) len ∙ e,
      ap (λ x. x.exhausted) there ∙ live,
    )

-- When as many keys have failed as the pool has, the rotator says that there is none left, and
-- from then on it stays as it is.
pub rotate-exhausts :
    (r : KeyRotator) (ks : List ErrorKind) (k j : ErrorKind)
    → IsFresh r
    → All IsKeyFailure ks
    → IsKeyFailure k
    → suc (length ks) ≡ pool_len r.pool
    → ((rotate (rotations r ks) k).1 ≡ false)
      × ((rotations r (ks ++ k ∷ [])).exhausted ≡ true)
      × (rotate (rotations r (ks ++ k ∷ [])) j ≡ (rotations r (ks ++ k ∷ []), false))
rotate-exhausts r ks k j (live, one, i) h g e =
    let s = rotations r ks in
    let there = fresh_rotations r ks (live, one, i) h (omega arith) in
    let count : pool_len r.pool ≡ r.tried + length ks = omega arith in
    let last =
      rotate_last s k (ap (λ x. x.exhausted) there ∙ live) g
        (ap (λ x. pool_len x.pool) there ∙ count ∙ sym (ap (λ x. x.tried) there)) in
    let over : rotations r (ks ++ k ∷ []) ≡ record s { exhausted = true } =
      rotations-append r ks (k ∷ []) ∙ ap (λ x. x.0) last in
    (
      ap (λ x. x.1) last,
      ap (λ x. x.exhausted) over,
      rw over (rotate-exhausted (record s { exhausted = true }) j refl),
    )

-- A failure that has nothing to do with the key leaves the rotator as it is.
pub rotate-other :
    (r : KeyRotator) (k : ErrorKind) → is_key_failure k ≡ false → rotate r k ≡ (r, false)
unfolding rotate
rotate-other r k h = ground (arith, h)
