-- ===== src/Base/Keyed.antt =====
-- Association lists whose keys are distinct.
use Prim.Native.Nat.{◌+◌}
use refract.Base.Tests.{if◌then◌else◌, is_some}
use refract.Base.Lists.{length}
use refract.Base.Maps.{Eq, lookup, put, delete, retain_entries, lookup-put, lookup-delete}
use mathlib.Core.Path.{◌≡◌, refl}
use mathlib.Core.Bool.{Bool}
use mathlib.Core.Option.{none, some}
use mathlib.Core.List.{List, [], ◌∷◌}
use native.Mathlib.Omega.{arith}

module _ {ℓ κ} {K : Type ℓ} {V : Type κ} ⦃e : Eq K⦄ where
  abbrev pub IsKeyed : List (K × V) → Type κ
  IsKeyed [] = Unit
  IsKeyed ((k, v) ∷ m) = (lookup k m ≡ none) × IsKeyed m

  pub put-IsKeyed : (k : K) (v : V) (m : List (K × V)) → IsKeyed m → IsKeyed (put k v m)
  unfolding put lookup
  put-IsKeyed k v [] d = (refl, tt)
  put-IsKeyed k v ((j, w) ∷ m) d =
      ground (arith, put-IsKeyed k v m, lookup-put k j v m, e.beq_iff j k, e.beq_iff k j)

  -- An entry is kept exactly if it passes the test.
  pub lookup-retain_entries :
      (p : K → V → Bool) (k : K) (m : List (K × V))
      → IsKeyed m
      → lookup k (retain_entries p m)
        ≡ elim (lookup k m) [ none ↦ none | some v ↦ if p k v then some v else none ]
  unfolding lookup retain_entries
  lookup-retain_entries p k [] d = refl
  lookup-retain_entries p k ((j, w) ∷ m) d =
      ground (arith, e.beq_iff j k, lookup-retain_entries p k m)

  pub retain_entries-IsKeyed :
      (p : K → V → Bool) (m : List (K × V)) → IsKeyed m → IsKeyed (retain_entries p m)
  unfolding retain_entries
  retain_entries-IsKeyed p [] d = tt
  retain_entries-IsKeyed p ((j, w) ∷ m) d =
      ground (arith, retain_entries-IsKeyed p m, lookup-retain_entries p j m)

  pub delete-IsKeyed : (k : K) (m : List (K × V)) → IsKeyed m → IsKeyed (delete k m)
  unfolding delete
  delete-IsKeyed k [] d = tt
  delete-IsKeyed k ((j, w) ∷ m) d =
      ground (arith, delete-IsKeyed k m, lookup-delete k j m, e.beq_iff j k, e.beq_iff k j)

  delete_missing : (k : K) (m : List (K × V)) → lookup k m ≡ none → length (delete k m) ≡ length m
  unfolding delete lookup
  delete_missing k [] h = refl
  delete_missing k ((j, w) ∷ m) h = ground (arith, delete_missing k m, h)

  -- A key that is there is the only one removed.
  pub length-delete :
      (k : K) (m : List (K × V))
      → IsKeyed m
      → length (delete k m) + (if is_some (lookup k m) then 1 else 0) ≡ length m
  unfolding delete lookup
  length-delete k [] d = refl
  length-delete k ((j, w) ∷ m) d =
      ground (arith, length-delete k m, delete_missing k m, e.beq_iff j k)

  pub length-put :
      (k : K) (v : V) (m : List (K × V))
      → length (put k v m) ≡ length m + (if is_some (lookup k m) then 0 else 1)
  unfolding put lookup
  length-put k v [] = refl
  length-put k v ((j, w) ∷ m) = ground (arith, length-put k v m)
