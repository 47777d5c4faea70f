-- ===== src/Base/Lists.antt =====
-- Lists measured and indexed by native numbers, under the library's names.
use Prim.Native.Nat.{ℕ, zero, suc, ◌+◌, ◌-◌, ◌≤◌, min}
use mathlib.Core.Path.{◌≡◌, refl, ap, sym, subst}
use mathlib.Core.HLevel.{×_prop, Unit-prop}
use mathlib.Core.Logic.{∥∥₁_elim}
use mathlib.Core.List.Perm
use mathlib.Core.List.{List, [], ◌∷◌, ◌++◌, Memᴰ, Mem, Perm, mem-cons_self, mem-cons_of_mem}
use mathlib.Core.Bool.{Bool, true, false, ◌||◌, ◌&&◌}
use mathlib.Core.Option.{Option, none, some}
use native.Mathlib.Omega.{arith}
use refract.Base.Tests.{if◌then◌else◌}

module _ {ℓ} {A : Type ℓ} where
  abbrev pub length : List A → ℕ
  length [] = 0
  length (x ∷ xs) = suc (length xs)

  abbrev pub get_elem? : List A → ℕ → Option A
  get_elem? [] i = none
  get_elem? (x ∷ xs) zero = some x
  get_elem? (x ∷ xs) (suc i) = get_elem? xs i

  abbrev pub take : ℕ → List A → List A
  take zero xs = []
  take (suc n) [] = []
  take (suc n) (x ∷ xs) = x ∷ take n xs

  abbrev pub drop : ℕ → List A → List A
  drop zero xs = xs
  drop (suc n) [] = []
  drop (suc n) (x ∷ xs) = drop n xs

  abbrev pub is_empty : List A → Bool
  is_empty [] = true
  is_empty (x ∷ xs) = false

  -- `Iterator::any` and `Iterator::all`.
  unfoldable pub any : (A → Bool) → List A → Bool
  any p [] = false
  any p (x ∷ xs) = p x || any p xs

  unfoldable pub all : (A → Bool) → List A → Bool
  all p [] = true
  all p (x ∷ xs) = p x && all p xs

  -- `Iterator::filter` and `Vec::retain`, by a Boolean test.
  unfoldable pub retain : (A → Bool) → List A → List A
  retain p [] = []
  retain p (x ∷ xs) = let rest = retain p xs in if p x then x ∷ rest else rest

  -- A predicate by recursion computes to tuples.
  abbrev pub All {κ} : (A → Type κ) → List A → Type κ
  All P [] = Unit
  All P (x ∷ xs) = P x × All P xs

module _ {ℓ} {A : Type ℓ} where
  pub length-append : (xs ys : List A) → length (xs ++ ys) ≡ length xs + length ys
  length-append [] ys = omega arith
  length-append (x ∷ xs) ys = omega (arith, length-append xs ys)

  pub take-append-drop : (n : ℕ) (xs : List A) → take n xs ++ drop n xs ≡ xs
  take-append-drop zero xs = refl
  take-append-drop (suc n) [] = refl
  take-append-drop (suc n) (x ∷ xs) = ap (◌∷◌ x) (take-append-drop n xs)

  pub length-take : (n : ℕ) (xs : List A) → length (take n xs) ≡ min n (length xs)
  length-take zero xs = omega arith
  length-take (suc n) [] = omega arith
  length-take (suc n) (x ∷ xs) = omega (arith, length-take n xs)

  pub length-drop : (n : ℕ) (xs : List A) → length (drop n xs) ≡ length xs - n
  length-drop zero xs = omega arith
  length-drop (suc n) [] = omega arith
  length-drop (suc n) (x ∷ xs) = omega (arith, length-drop n xs)

  pub length-retain-le : (p : A → Bool) (xs : List A) → length (retain p xs) ≤ length xs
  unfolding retain
  length-retain-le p [] = omega arith
  length-retain-le p (x ∷ xs) = ground (arith, length-retain-le p xs)

  pub All-append {κ} :
      (P : A → Type κ) (front more : List A) → All P front → All P more → All P (front ++ more)
  All-append P [] more left right = right
  All-append P (x ∷ front) more left right = (left.0, All-append P front more left.1 right)

  pub All-mono {κ μ} :
      (P : A → Type κ) (Q : A → Type μ) (f : (x : A) → P x → Q x) (xs : List A)
      → All P xs
      → All Q xs
  All-mono P Q f [] h = tt
  All-mono P Q f (x ∷ xs) h = (f x h.0, All-mono P Q f xs h.1)

  pub All-take {κ} : (P : A → Type κ) (n : ℕ) (xs : List A) → All P xs → All P (take n xs)
  All-take P zero xs h = tt
  All-take P (suc n) [] h = tt
  All-take P (suc n) (x ∷ xs) h = (h.0, All-take P n xs h.1)

  pub All-drop {κ} : (P : A → Type κ) (n : ℕ) (xs : List A) → All P xs → All P (drop n xs)
  All-drop P zero xs h = h
  All-drop P (suc n) [] h = tt
  All-drop P (suc n) (x ∷ xs) h = All-drop P n xs h.1

  pub All-Memᴰ {κ} : (P : A → Type κ) (xs : List A) (a : A) → All P xs → Memᴰ a xs → P a
  All-Memᴰ P [] a h m = elim m [ ]
  All-Memᴰ P (x ∷ xs) a h (Memᴰ.head e) = subst P (sym e) h.0
  All-Memᴰ P (x ∷ xs) a h (Memᴰ.tail m) = All-Memᴰ P xs a h.1 m

  pub All-of_Memᴰ {κ} : (P : A → Type κ) (xs : List A) → ((a : A) → Memᴰ a xs → P a) → All P xs
  All-of_Memᴰ P [] f = tt
  All-of_Memᴰ P (x ∷ xs) f = (f x (Memᴰ.head refl), All-of_Memᴰ P xs (λ a m. f a (Memᴰ.tail m)))

module _ {ℓ} {A : Type ℓ} where
  All-of_Mem {κ} : (P : A → Type κ) (xs : List A) → ((a : A) → Mem a xs → P a) → All P xs
  All-of_Mem P [] f = tt
  All-of_Mem P (x ∷ xs) f = (f x mem-cons_self, All-of_Mem P xs (λ a m. f a (mem-cons_of_mem x m)))

  Mem-of_All {κ} :
      (P : A → Type κ)
      → ((a : A) → IsProp (P a))
      → (xs : List A) → All P xs
      → (a : A) → Mem a xs
      → P a
  Mem-of_All P prop xs h a m = ∥∥₁_elim m (prop a) (λ n. All-Memᴰ P xs a h n)

  -- A rearrangement keeps what holds of all items.
  pub All-perm {κ} :
      (P : A → Type κ)
      → ((a : A) → IsProp (P a))
      → {xs ys : List A} → Perm xs ys
      → All P xs
      → All P ys
  All-perm P prop {xs} {ys} p h =
      All-of_Mem P ys (λ a m. Mem-of_All P prop xs h a (Perm.subset (Perm.symm p) a m))

  pub All-prop {κ} : (P : A → Type κ) → ((a : A) → IsProp (P a)) → (xs : List A) → IsProp (All P xs)
  All-prop P prop [] = Unit-prop
  All-prop P prop (x ∷ xs) = ×_prop (prop x) (All-prop P prop xs)

  pub All-True {κ} : (P : A → Type κ) → ((a : A) → P a) → (xs : List A) → All P xs
  All-True P f [] = tt
  All-True P f (x ∷ xs) = (f x, All-True P f xs)
