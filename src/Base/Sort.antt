-- ===== src/Base/Sort.antt =====
-- `slice::sort_by`: the stable sort by a comparison, as insertion from the right.
use mathlib.Core.List.Perm
use refract.Base.Tests.{if◌then◌else◌, Bool-cases}
use refract.Base.Lists.{All, All-mono, All-append, length}
use refract.Base.Int.{is_le}
use Prim.Native.Nat.{Ordering, suc}
use native.Mathlib.Omega.{arith}
use mathlib.Core.Path.{◌≡◌, refl}
use mathlib.Core.Logic.{◌⊎◌, inl, inr}
use mathlib.Core.Bool.{true, false}
use mathlib.Core.List.Memᴰ
use mathlib.Core.List.{List, [], ◌∷◌, ◌++◌, Perm, Memᴰ}

module _ {ℓ} {A : Type ℓ} where
  unfoldable pub insert_sorted : (A → A → Ordering) → A → List A → List A
  insert_sorted cmp x [] = x ∷ []
  insert_sorted cmp x (y ∷ ys) =
      let rest = insert_sorted cmp x ys in if is_le (cmp x y) then x ∷ y ∷ ys else y ∷ rest

  unfoldable pub sort_by : (A → A → Ordering) → List A → List A
  unfolding insert_sorted
  sort_by cmp [] = []
  sort_by cmp (x ∷ xs) = insert_sorted cmp x (sort_by cmp xs)

  pub insert_sorted-perm :
      (cmp : A → A → Ordering) (x : A) (l : List A) → Perm (insert_sorted cmp x l) (x ∷ l)
  unfolding insert_sorted
  insert_sorted-perm cmp x [] = Perm.rfl
  insert_sorted-perm cmp x (y ∷ ys) = elim (Bool-cases (is_le (cmp x y))) [
    | inl e ↦ rw e Perm.rfl
    | inr e ↦ rw e (Perm.trans (Perm.cons y (insert_sorted-perm cmp x ys)) (Perm.swap x y ys))
  ]

  -- Sorting keeps the items, each as often as before.
  pub sort_by-perm : (cmp : A → A → Ordering) (l : List A) → Perm (sort_by cmp l) l
  unfolding sort_by
  sort_by-perm cmp [] = Perm.rfl
  sort_by-perm cmp (x ∷ xs) =
      Perm.trans (insert_sorted-perm cmp x (sort_by cmp xs)) (Perm.cons x (sort_by-perm cmp xs))

module _ {ℓ} {A : Type ℓ} where
  -- Each item stands in the relation to all that follow it.
  abbrev pub AllPairs {κ} : (A → A → Type κ) → List A → Type κ
  AllPairs R [] = Unit
  AllPairs R (x ∷ xs) = All (R x) xs × AllPairs R xs

  abbrev pub Below : (A → A → Ordering) → A → A → Type 0
  Below cmp a b = is_le (cmp a b) ≡ true

  -- What a comparison has to satisfy for a sort to be specified.
  pub record IsPreorder (cmp : A → A → Ordering) : Type ℓ where
    pub total : (a b : A) → is_le (cmp a b) ≡ false → is_le (cmp b a) ≡ true
    pub trans :
        (a b c : A) → is_le (cmp a b) ≡ true → is_le (cmp b c) ≡ true → is_le (cmp a c) ≡ true

  All-insert_sorted {κ} :
      (P : A → Type κ) (cmp : A → A → Ordering) (x : A) (l : List A)
      → P x
      → All P l
      → All P (insert_sorted cmp x l)
  unfolding insert_sorted
  All-insert_sorted P cmp x [] p h = (p, tt)
  All-insert_sorted P cmp x (y ∷ ys) p h = elim (Bool-cases (is_le (cmp x y))) [
    | inl e ↦ rw e (p, (h.0, h.1))
    | inr e ↦ rw e (h.0, All-insert_sorted P cmp x ys p h.1)
  ]

  pub All-sort_by {κ} :
      (P : A → Type κ) (cmp : A → A → Ordering) (l : List A) → All P l → All P (sort_by cmp l)
  unfolding sort_by
  All-sort_by P cmp [] h = tt
  All-sort_by P cmp (x ∷ xs) h =
      All-insert_sorted P cmp x (sort_by cmp xs) h.0 (All-sort_by P cmp xs h.1)

  insert_sorted-AllPairs :
      (cmp : A → A → Ordering) (x : A) (l : List A)
      → IsPreorder cmp
      → AllPairs (Below cmp) l
      → AllPairs (Below cmp) (insert_sorted cmp x l)
  unfolding insert_sorted
  insert_sorted-AllPairs cmp x [] o h = (tt, tt)
  insert_sorted-AllPairs cmp x (y ∷ ys) o h = elim (Bool-cases (is_le (cmp x y))) [
    | inl e ↦
        rw e ((e, All-mono (Below cmp y) (Below cmp x) (λ z. o.trans x y z e) ys h.0), (h.0, h.1))
    | inr e ↦ rw e (
      All-insert_sorted (Below cmp y) cmp x ys (o.total x y e) h.0,
      insert_sorted-AllPairs cmp x ys o h.1,
    )
  ]

  -- Sorting puts the items in order.
  pub sort_by-AllPairs :
      (cmp : A → A → Ordering) (l : List A) → IsPreorder cmp → AllPairs (Below cmp) (sort_by cmp l)
  unfolding sort_by
  sort_by-AllPairs cmp [] o = tt
  sort_by-AllPairs cmp (x ∷ xs) o =
      insert_sorted-AllPairs cmp x (sort_by cmp xs) o (sort_by-AllPairs cmp xs o)

module _ {ℓ κ} {A : Type ℓ} (R : A → A → Type κ) where
  pub AllPairs-append :
      (xs ys : List A)
      → AllPairs R xs
      → AllPairs R ys
      → All (λ x. All (R x) ys) xs
      → AllPairs R (xs ++ ys)
  AllPairs-append [] ys p q h = q
  AllPairs-append (x ∷ xs) ys p q h =
      (All-append (R x) xs ys p.0 h.0, AllPairs-append xs ys p.1 q h.1)

  All-split {μ} : (P : A → Type μ) (xs ys : List A) → All P (xs ++ ys) → All P xs × All P ys
  All-split P [] ys h = (tt, h)
  All-split P (x ∷ xs) ys h = let (a, b) = All-split P xs ys h.1 in ((h.0, a), b)

  pub AllPairs-split :
      (xs ys : List A) → AllPairs R (xs ++ ys) → AllPairs R ys × All (λ x. All (R x) ys) xs
  AllPairs-split [] ys h = (h, tt)
  AllPairs-split (x ∷ xs) ys h =
      let (b, c) = AllPairs-split xs ys h.1 in (b, ((All-split (R x) xs ys h.0).1, c))

  pub AllPairs-of_All {μ} :
      (P : A → Type μ) → ((a b : A) → P a → P b → R a b) → (xs : List A) → All P xs → AllPairs R xs
  AllPairs-of_All P f [] h = tt
  AllPairs-of_All P f (x ∷ xs) h =
      (All-mono P (R x) (λ b q. f x b h.0 q) xs h.1, AllPairs-of_All P f xs h.1)

pub AllPairs-mono {ℓ κ μ} :
    {A : Type ℓ} (R : A → A → Type κ) (S : A → A → Type μ)
    → ((a b : A) → R a b → S a b)
    → (xs : List A) → AllPairs R xs
    → AllPairs S xs
AllPairs-mono R S f [] h = tt
AllPairs-mono R S f (x ∷ xs) h = (All-mono (R x) (S x) (f x) xs h.0, AllPairs-mono R S f xs h.1)

module _ {ℓ} {A : Type ℓ} (cmp : A → A → Ordering) where
  insert_sorted-Memᴰ : (x c : A) (l : List A) → (c ≡ x) ⊎ Memᴰ c l → Memᴰ c (insert_sorted cmp x l)
  unfolding insert_sorted
  insert_sorted-Memᴰ x c [] (inl e) = Memᴰ.head e
  insert_sorted-Memᴰ x c [] (inr m) = elim m [ ]
  insert_sorted-Memᴰ x c (y ∷ ys) h = elim (Bool-cases (is_le (cmp x y))) [
    | inl e ↦ rw e (elim h [ inl q ↦ Memᴰ.head q | inr m ↦ Memᴰ.tail m ])
    | inr e ↦ rw e (elim h [
      | inl q ↦ Memᴰ.tail (insert_sorted-Memᴰ x c ys (inl q))
      | inr m ↦ elim (Memᴰ.cases_cons m) [
        | inl q ↦ Memᴰ.head q
        | inr n ↦ Memᴰ.tail (insert_sorted-Memᴰ x c ys (inr n))
      ]
    ])
  ]

  pub sort_by-Memᴰ : (c : A) (l : List A) → Memᴰ c l → Memᴰ c (sort_by cmp l)
  unfolding sort_by
  sort_by-Memᴰ c [] m = m
  sort_by-Memᴰ c (x ∷ xs) (Memᴰ.head e) = insert_sorted-Memᴰ x c (sort_by cmp xs) (inl e)
  sort_by-Memᴰ c (x ∷ xs) (Memᴰ.tail m) =
      insert_sorted-Memᴰ x c (sort_by cmp xs) (inr (sort_by-Memᴰ c xs m))

module _ {ℓ} {A : Type ℓ} where
  length-insert_sorted :
      (cmp : A → A → Ordering) (x : A) (xs : List A)
      → length (insert_sorted cmp x xs) ≡ suc (length xs)
  unfolding insert_sorted
  length-insert_sorted cmp x [] = refl
  length-insert_sorted cmp x (y ∷ ys) = ground (arith, length-insert_sorted cmp x ys)

  pub length-sort_by : (cmp : A → A → Ordering) (xs : List A) → length (sort_by cmp xs) ≡ length xs
  unfolding sort_by
  length-sort_by cmp [] = refl
  length-sort_by cmp (x ∷ xs) =
      omega (arith, length-insert_sorted cmp x (sort_by cmp xs), length-sort_by cmp xs)
