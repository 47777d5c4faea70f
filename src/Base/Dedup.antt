-- ===== src/Base/Dedup.antt =====
-- `Vec::dedup_by_key`: the removal of neighbours with the same key.
use refract.Base.Tests.{if◌then◌else◌, Bool-cases, ◌==◌}
use refract.Base.Lists.{All, All-mono}
use refract.Base.Sort.{AllPairs}
use Prim.Native.Nat.{ℕ, ◌≤◌, ◌<◌}
use mathlib.Core.Path.{◌≡◌, refl}
use mathlib.Core.Logic.{inl, inr}
use mathlib.Core.List.{List, [], ◌∷◌, Memᴰ}
use native.Mathlib.Omega.{arith}

module _ {ℓ} {A : Type ℓ} (key : A → ℕ) where
  unfoldable pub dedup_after : A → List A → List A
  dedup_after x [] = []
  dedup_after x (y ∷ ys) =
      let skip = dedup_after x ys in
      let keep = dedup_after y ys in if key y == key x then skip else y ∷ keep

  unfoldable pub dedup_by_key : List A → List A
  unfolding dedup_after
  dedup_by_key [] = []
  dedup_by_key (x ∷ xs) = x ∷ dedup_after x xs

  All-dedup_after {κ} : (P : A → Type κ) (x : A) (l : List A) → All P l → All P (dedup_after x l)
  unfolding dedup_after
  All-dedup_after P x [] h = tt
  All-dedup_after P x (y ∷ ys) h = elim (Bool-cases (key y == key x)) [
    | inl e ↦ rw e (All-dedup_after P x ys h.1)
    | inr e ↦ rw e (h.0, All-dedup_after P y ys h.1)
  ]

  pub All-dedup_by_key {κ} : (P : A → Type κ) (l : List A) → All P l → All P (dedup_by_key l)
  unfolding dedup_by_key
  All-dedup_by_key P [] h = tt
  All-dedup_by_key P (x ∷ xs) h = (h.0, All-dedup_after P x xs h.1)

  abbrev pub KeysAscend : List A → Type 0
  KeysAscend = AllPairs (λ a b. key a < key b)

  dedup_after-KeysAscend :
      (x : A) (l : List A)
      → All (λ a. key x ≤ key a) l
      → AllPairs (λ a b. key a ≤ key b) l
      → All (λ a. key x < key a) (dedup_after x l) × KeysAscend (dedup_after x l)
  unfolding dedup_after
  dedup_after-KeysAscend x [] h p = (tt, tt)
  dedup_after-KeysAscend x (y ∷ ys) h p = elim (Bool-cases (key y == key x)) [
    | inl e ↦ rw e (dedup_after-KeysAscend x ys h.1 p.1)
    | inr e ↦
        let rest = dedup_after-KeysAscend y ys p.0 p.1 in
        let above : key x < key y = ground (arith, h.0) in
        rw e (
          (
            above,
            All-mono (λ a. key y < key a) (λ a. key x < key a) (λ a q. omega arith)
                (dedup_after y ys) rest.0,
          ),
          rest,
        )
  ]

  -- Over a list sorted by the key, what is left has strictly ascending keys.
  pub dedup_by_key-KeysAscend :
      (l : List A) → AllPairs (λ a b. key a ≤ key b) l → KeysAscend (dedup_by_key l)
  unfolding dedup_by_key
  dedup_by_key-KeysAscend [] p = tt
  dedup_by_key-KeysAscend (x ∷ xs) p = dedup_after-KeysAscend x xs p.0 p.1

  -- A survivor with the key of `c` that stands in the relation to it.
  abbrev pub Survivor {κ} : (A → A → Type κ) → A → List A → Type (ℓ ⊔ κ)
  Survivor R c l = (s : A) × Memᴰ s l × (key s ≡ key c) × R s c

  dedup_after-Survivor {κ} :
      (R : A → A → Type κ) (x : A) (l : List A) (c : A)
      → ((a : A) → R a a)
      → All (λ a. key x ≡ key a → R x a) l
      → AllPairs (λ a b. key a ≡ key b → R a b) l
      → Memᴰ c l
      → Survivor R c (x ∷ dedup_after x l)
  unfolding dedup_after
  dedup_after-Survivor R x [] c r h p m = elim m [ ]
  dedup_after-Survivor R x (y ∷ ys) c r h p (Memᴰ.head e) = elim (Bool-cases (key y == key x)) [
    | inl k ↦ let same : key x ≡ key y = ground arith in rw e (x, Memᴰ.head refl, same, h.0 same)
    | inr k ↦ rw (e, k) (y, Memᴰ.tail (Memᴰ.head refl), refl, r y)
  ]
  dedup_after-Survivor R x (y ∷ ys) c r h p (Memᴰ.tail m) = elim (Bool-cases (key y == key x)) [
    | inl k ↦ rw k (dedup_after-Survivor R x ys c r h.1 p.1 m)
    | inr k ↦
        let (s, i, e, q) = dedup_after-Survivor R y ys c r p.0 p.1 m in rw k (s, Memᴰ.tail i, e, q)
  ]

  -- Every item has a survivor that stands before it.
  pub dedup_by_key-Survivor {κ} :
      (R : A → A → Type κ) (l : List A) (c : A)
      → ((a : A) → R a a)
      → AllPairs (λ a b. key a ≡ key b → R a b) l
      → Memᴰ c l
      → Survivor R c (dedup_by_key l)
  unfolding dedup_by_key
  dedup_by_key-Survivor R [] c r p m = elim m [ ]
  dedup_by_key-Survivor R (x ∷ xs) c r p (Memᴰ.head e) = rw e (x, Memᴰ.head refl, refl, r x)
  dedup_by_key-Survivor R (x ∷ xs) c r p (Memᴰ.tail m) = dedup_after-Survivor R x xs c r p.0 p.1 m
