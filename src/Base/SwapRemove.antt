-- ===== src/Base/SwapRemove.antt =====
-- `Vec::swap_remove`: the item at an index is handed out and the last item takes its place.
use mathlib.Core.List.Perm
use mathlib.Core.List.{List, [], ◌∷◌, ◌++◌, Perm, perm_append_singleton}
use Prim.Native.Nat.{ℕ, zero, suc, ◌<◌}
use mathlib.Core.Path.{◌≡◌, refl, ap, subst, sym, ◌∙◌}
use mathlib.Core.Bool.{false}
use mathlib.Core.Logic.{inl, inr}
use mathlib.Core.Option.{Option, none, some}
use native.Mathlib.Omega.{arith}
use refract.Base.Tests.{◌==◌, if◌then◌else◌, Bool-cases, ==_refl}
use refract.Base.Lists.{length, get_elem?}

module _ {ℓ} {A : Type ℓ} where
  replace_at : List A → ℕ → A → List A
  replace_at [] i v = []
  replace_at (x ∷ xs) zero v = v ∷ xs
  replace_at (x ∷ xs) (suc i) v = x ∷ replace_at xs i v

  split_last : A → List A → List A × A
  split_last x [] = ([], x)
  split_last x (y ∷ ys) = let (front, last) = split_last y ys in (x ∷ front, last)

  -- `none` is the panic of an index out of range.
  unfoldable pub swap_remove : List A → ℕ → Option (A × List A)
  unfolding replace_at split_last
  swap_remove [] i = none
  swap_remove (x ∷ xs) i =
      let (front, last) = split_last x xs in
      elim (get_elem? (x ∷ xs) i) [
        | none ↦ none
        | some c ↦ some (c, (if i == length xs then front else replace_at front i last))
      ]

  split_last_lem :
      (x : A) (xs : List A)
      → (x ∷ xs ≡ (split_last x xs).0 ++ (split_last x xs).1 ∷ [])
        × (length (split_last x xs).0 ≡ length xs)
  unfolding split_last
  split_last_lem x [] = (refl, refl)
  split_last_lem x (y ∷ ys) = let (e, n) = split_last_lem y ys in (ap (◌∷◌ x) e, ap suc n)

  get_elem?-append-lt :
      (xs ys : List A) (i : ℕ) → i < length xs → get_elem? (xs ++ ys) i ≡ get_elem? xs i
  get_elem?-append-lt [] ys i h = elim h [ ]
  get_elem?-append-lt (x ∷ xs) ys zero h = refl
  get_elem?-append-lt (x ∷ xs) ys (suc i) h = get_elem?-append-lt xs ys i (omega arith)

  get_elem?-append-length : (xs : List A) (y : A) → get_elem? (xs ++ y ∷ []) (length xs) ≡ some y
  get_elem?-append-length [] y = refl
  get_elem?-append-length (x ∷ xs) y = get_elem?-append-length xs y

  get_elem?-total : (xs : List A) (i : ℕ) → i < length xs → (c : A) × (get_elem? xs i ≡ some c)
  get_elem?-total [] i h = elim h [ ]
  get_elem?-total (x ∷ xs) zero h = (x, refl)
  get_elem?-total (x ∷ xs) (suc i) h = get_elem?-total xs i (omega arith)

  length-replace_at : (xs : List A) (i : ℕ) (v : A) → length (replace_at xs i v) ≡ length xs
  unfolding replace_at
  length-replace_at [] i v = refl
  length-replace_at (x ∷ xs) zero v = refl
  length-replace_at (x ∷ xs) (suc i) v = ap suc (length-replace_at xs i v)

  replace_at-perm :
      (xs : List A) (i : ℕ) (c v : A)
      → get_elem? xs i ≡ some c
      → Perm (c ∷ replace_at xs i v) (v ∷ xs)
  unfolding replace_at
  replace_at-perm [] i c v h = cc
  replace_at-perm (x ∷ xs) zero c v h =
      let e : x ≡ c = ground (arith, h) in
      subst (λ d. Perm (d ∷ v ∷ xs) (v ∷ x ∷ xs)) e (Perm.swap v x xs)
  replace_at-perm (x ∷ xs) (suc i) c v h =
      Perm.trans (Perm.swap x c (replace_at xs i v))
        (Perm.trans (Perm.cons x (replace_at-perm xs i c v h)) (Perm.swap v x xs))

  swap_remove_eq :
      (x : A) (xs : List A) (i : ℕ) (c : A)
      → get_elem? (x ∷ xs) i ≡ some c
      → swap_remove (x ∷ xs) i
        ≡ some (
          c,
          (if i == length xs
              then (split_last x xs).0
              else replace_at (split_last x xs).0 i (split_last x xs).1),
        )
  unfolding swap_remove
  swap_remove_eq x xs i c g = ground (arith, g)

  -- An item is handed out, and it and the rest make up the list.
  abbrev pub Removed : List A → Option (A × List A) → Type ℓ
  Removed xs r =
      (c : A) × (rest : List A) × (r ≡ some (c, rest))
      × Perm (c ∷ rest) xs
      × (suc (length rest) ≡ length xs)

  Removed-last :
      (x : A) (xs : List A) (i : ℕ) → i ≡ length xs → Removed (x ∷ xs) (swap_remove (x ∷ xs) i)
  Removed-last x xs i h =
      let (front, last) = split_last x xs in
      let (e, n) = split_last_lem x xs in
      let g : get_elem? (x ∷ xs) i ≡ some last =
        rw (e, h, ← n) (get_elem?-append-length front last) in
      (
        last,
        front,
        swap_remove_eq x xs i last g ∙ simp (h, ==_refl),
        subst (Perm (last ∷ front)) (sym e) (Perm.symm (perm_append_singleton last front)),
        ap suc n,
      )

  Removed-inside :
      (x : A) (xs : List A) (i : ℕ) → i < length xs → Removed (x ∷ xs) (swap_remove (x ∷ xs) i)
  Removed-inside x xs i h =
      let (front, last) = split_last x xs in
      let (e, n) = split_last_lem x xs in
      let (c, f) = get_elem?-total front i (omega arith) in
      let g : get_elem? (x ∷ xs) i ≡ some c =
        rw e (get_elem?-append-lt front (last ∷ []) i (omega arith) ∙ f) in
      let apart : (i == length xs) ≡ false = ground arith in
      (
        c,
        replace_at front i last,
        swap_remove_eq x xs i c g ∙ rw apart,
        subst (Perm (c ∷ replace_at front i last)) (sym e) (
            Perm.trans (replace_at-perm front i c last f)
              (Perm.symm (perm_append_singleton last front))),
        omega (arith, length-replace_at front i last),
      )

  -- Removing at an index of the list does not panic.
  pub swap_remove-Removed :
      (x : A) (xs : List A) (i : ℕ)
      → i < suc (length xs)
      → Removed (x ∷ xs) (swap_remove (x ∷ xs) i)
  swap_remove-Removed x xs i h = elim (Bool-cases (i == length xs)) [
    | inl e ↦ Removed-last x xs i (ground arith)
    | inr e ↦ Removed-inside x xs i (ground arith)
  ]
