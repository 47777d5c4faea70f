-- ===== src/Base/Maps.antt =====
-- `HashMap` as an association list under a Boolean equality of keys.
use text.Mathlib.Text.{◌==◌ as str_eq}
use text.Mathlib.TextEquality.{eq_iff}
use refract.Base.Tests.{if◌then◌else◌, ◌==◌ as nat_beq, ==_iff}
use refract.Base.Lists.{length}
use Prim.Native.Nat.{ℕ, ◌+◌, ◌≤◌}
use Prim.Native.String.{String}
use mathlib.Core.Path.{◌≡◌, refl}
use mathlib.Core.Logic.{◌↔◌}
use mathlib.Core.Bool.{Bool, true, ◌&&◌}
use mathlib.Core.Option.{Option, none, some}
use mathlib.Core.List.{List, [], ◌∷◌}
use native.Mathlib.Omega.{arith}

-- A type whose equality is a Boolean test.
pub record Eq {ℓ} (A : Type ℓ) : Type ℓ where
  pub beq : A → A → Bool
  pub beq_iff : (a b : A) → (beq a b ≡ true) ↔ (a ≡ b)

instance abbrev pub nat_eq : Eq ℕ
nat_eq = record { beq = nat_beq; beq_iff = ==_iff }

instance abbrev pub string_eq : Eq String
string_eq = record { beq = str_eq; beq_iff = eq_iff }

pub pair_beq_iff {ℓ κ} :
    {A : Type ℓ} {B : Type κ} ⦃a : Eq A⦄ ⦃b : Eq B⦄ (x y : A × B)
    → ((a.beq x.0 y.0 && b.beq x.1 y.1) ≡ true) ↔ (x ≡ y)
pair_beq_iff ⦃a⦄ ⦃b⦄ x y = ground (arith, a.beq_iff x.0 y.0, b.beq_iff x.1 y.1)

-- A pair as a key.
instance abbrev pub pair_eq {ℓ κ} : {A : Type ℓ} {B : Type κ} ⦃a : Eq A⦄ ⦃b : Eq B⦄ → Eq (A × B)
pair_eq ⦃a⦄ ⦃b⦄ = record { beq = λ x y. a.beq x.0 y.0 && b.beq x.1 y.1; beq_iff = pair_beq_iff }

pub beq_refl {ℓ} : {K : Type ℓ} ⦃e : Eq K⦄ (k : K) → e.beq k k ≡ true
beq_refl ⦃e⦄ k = (e.beq_iff k k).1 refl

module _ {ℓ κ} {K : Type ℓ} {V : Type κ} ⦃e : Eq K⦄ where
  unfoldable pub lookup : K → List (K × V) → Option V
  lookup k [] = none
  lookup k ((j, v) ∷ m) = if e.beq j k then some v else lookup k m

  unfoldable pub put : K → V → List (K × V) → List (K × V)
  put k v [] = (k, v) ∷ []
  put k v ((j, w) ∷ m) = if e.beq j k then (k, v) ∷ m else (j, w) ∷ put k v m

  unfoldable pub delete : K → List (K × V) → List (K × V)
  delete k [] = []
  delete k ((j, w) ∷ m) = let rest = delete k m in if e.beq j k then rest else (j, w) ∷ rest

  -- `HashMap::retain`.
  unfoldable pub retain_entries : (K → V → Bool) → List (K × V) → List (K × V)
  retain_entries p [] = []
  retain_entries p ((j, w) ∷ m) =
      let rest = retain_entries p m in if p j w then (j, w) ∷ rest else rest

  pub lookup-put :
      (k j : K) (v : V) (m : List (K × V))
      → lookup j (put k v m) ≡ (if e.beq k j then some v else lookup j m)
  unfolding lookup put
  lookup-put k j v [] = refl
  lookup-put k j v ((i, w) ∷ m) =
      ground (arith, e.beq_iff k j, e.beq_iff i k, e.beq_iff i j, lookup-put k j v m)

  pub lookup-delete :
      (k j : K) (m : List (K × V))
      → lookup j (delete k m) ≡ (if e.beq k j then none else lookup j m)
  unfolding lookup delete
  lookup-delete k j [] = ground arith
  lookup-delete k j ((i, w) ∷ m) =
      ground (arith, e.beq_iff k j, e.beq_iff i k, e.beq_iff i j, lookup-delete k j m)

  pub length-put-le : (k : K) (v : V) (m : List (K × V)) → length (put k v m) ≤ length m + 1
  unfolding put
  length-put-le k v [] = omega arith
  length-put-le k v ((j, w) ∷ m) = ground (arith, length-put-le k v m)

  -- An entry whose key and value pass the test is found as before.
  pub lookup-retain_entries_keep :
      (p : K → V → Bool) (k : K) (v : V) (m : List (K × V))
      → p k v ≡ true
      → lookup k m ≡ some v
      → lookup k (retain_entries p m) ≡ some v
  unfolding lookup retain_entries
  lookup-retain_entries_keep p k v [] t h = cc
  lookup-retain_entries_keep p k v ((j, w) ∷ m) t h =
      ground (arith, e.beq_iff j k, lookup-retain_entries_keep p k v m t)

  pub length-retain_entries-le :
      (p : K → V → Bool) (m : List (K × V)) → length (retain_entries p m) ≤ length m
  unfolding retain_entries
  length-retain_entries-le p [] = omega arith
  length-retain_entries-le p ((j, w) ∷ m) = ground (arith, length-retain_entries-le p m)
