-- ===== src/Store/Wallet/Rows.antt =====
-- The rows of a statement of account (crates/refract-store/src/wallet_repo.rs): the conditions of the query and its
-- order, written out.
use refract.Base.{
  ℕ, zero, suc, ◌≤◌, ◌<◌, ◌≡◌, refl, arith, Bool, true, List, [], ◌∷◌, Option, none, some, retain,
  take, length, Bool-cases, inl, inr, ◌⊎◌, ◌↔◌, ap, subst, Ordering,
}
use refract.Base.Sort.{sort_by, Below, sort_by-Memᴰ, length-sort_by}
use mathlib.Core.List.{Memᴰ}
use refract.Store.Wallet.{
  Money, LedgerKind, topup, charge, refund, adjust, LedgerEntry, kind_eq, of_kind, at_least,
  at_most, is_selected, by_time, by_time_desc,
}

abbrev pub HasKind : Option LedgerKind → LedgerKind → Type 0
HasKind none k = Unit
HasKind (some j) k = k ≡ j

abbrev pub IsSince : Option ℕ → ℕ → Type 0
IsSince none t = Unit
IsSince (some s) t = s ≤ t

abbrev pub IsUntil : Option ℕ → ℕ → Type 0
IsUntil none t = Unit
IsUntil (some s) t = t ≤ s

kind_eq_iff : (a b : LedgerKind) → (kind_eq a b ≡ true) ↔ (a ≡ b)
unfolding kind_eq
kind_eq_iff topup topup = ground arith
kind_eq_iff topup charge = ground arith
kind_eq_iff topup refund = ground arith
kind_eq_iff topup adjust = ground arith
kind_eq_iff charge topup = ground arith
kind_eq_iff charge charge = ground arith
kind_eq_iff charge refund = ground arith
kind_eq_iff charge adjust = ground arith
kind_eq_iff refund topup = ground arith
kind_eq_iff refund charge = ground arith
kind_eq_iff refund refund = ground arith
kind_eq_iff refund adjust = ground arith
kind_eq_iff adjust topup = ground arith
kind_eq_iff adjust charge = ground arith
kind_eq_iff adjust refund = ground arith
kind_eq_iff adjust adjust = ground arith

of_kind_iff : (o : Option LedgerKind) (k : LedgerKind) → (of_kind o k ≡ true) ↔ HasKind o k
of_kind_iff none k = (λ h. tt, λ h. refl)
of_kind_iff (some j) k = kind_eq_iff k j

at_least_iff : (o : Option ℕ) (t : ℕ) → (at_least o t ≡ true) ↔ IsSince o t
at_least_iff none t = (λ h. tt, λ h. refl)
at_least_iff (some s) t = (λ h. ground arith, λ h. ground arith)

at_most_iff : (o : Option ℕ) (t : ℕ) → (at_most o t ≡ true) ↔ IsUntil o t
at_most_iff none t = (λ h. tt, λ h. refl)
at_most_iff (some s) t = (λ h. ground arith, λ h. ground arith)

module _ {ℓ} {A : Type ℓ} where
  take_all : (n : ℕ) (xs : List A) → length xs ≤ n → take n xs ≡ xs
  take_all zero [] h = refl
  take_all zero (x ∷ xs) h = elim h [ ]
  take_all (suc n) [] h = refl
  take_all (suc n) (x ∷ xs) h = ap (◌∷◌ x) (take_all n xs (omega arith))

  mem-retain : (p : A → Bool) (a : A) (xs : List A) → p a ≡ true → Memᴰ a xs → Memᴰ a (retain p xs)
  unfolding retain
  mem-retain p a [] h m = elim m [ ]
  mem-retain p a (x ∷ xs) h (Memᴰ.head e) =
      let q : p x ≡ true = subst (λ y. p y ≡ true) e h in rw q (Memᴰ.head e)
  mem-retain p a (x ∷ xs) h (Memᴰ.tail m) = elim (Bool-cases (p x)) [
    | inl e ↦ rw e (Memᴰ.tail (mem-retain p a xs h m))
    | inr e ↦ rw e (mem-retain p a xs h m)
  ]

  length-retain-le : (p : A → Bool) (xs : List A) → length (retain p xs) ≤ length xs
  unfolding retain
  length-retain-le p [] = omega arith
  length-retain-le p (x ∷ xs) = ground (arith, length-retain-le p xs)

  -- An item that passes the test is in the sorted list of the items that do, taken whole.
  pub mem-take-sort_by :
      (cmp : A → A → Ordering) (p : A → Bool) (n : ℕ) (a : A) (xs : List A)
      → p a ≡ true
      → length xs ≤ n
      → Memᴰ a xs
      → Memᴰ a (take n (sort_by cmp (retain p xs)))
  mem-take-sort_by cmp p n a xs h l m =
      let few : length (sort_by cmp (retain p xs)) ≤ n =
        omega (arith, length-sort_by cmp (retain p xs), length-retain-le p xs) in
      rw (take_all n (sort_by cmp (retain p xs)) few)
        (sort_by-Memᴰ cmp a (retain p xs) (mem-retain p a xs h m))

module _ (m : Money) where
  -- A row of the user, of the kind and between the times, as far as they are given.
  abbrev pub IsRowOf : ℕ → Option LedgerKind → Option ℕ → Option ℕ → LedgerEntry m → Type 0
  IsRowOf user kind since until e =
      (e.user_id ≡ user)
      × HasKind kind e.kind
      × IsSince since e.created_at
      × IsUntil until e.created_at

  -- The first row is the newer one; of rows of one second, the later number.
  abbrev pub IsNewer : LedgerEntry m → LedgerEntry m → Type 0
  IsNewer a b = (b.created_at < a.created_at) ⊎ ((a.created_at ≡ b.created_at) × (b.id ≤ a.id))

  pub is_selected_iff :
      (user : ℕ) (kind : Option LedgerKind) (since until : Option ℕ) (e : LedgerEntry m)
      → (is_selected m user kind since until e ≡ true) ↔ IsRowOf user kind since until e
  unfolding is_selected
  is_selected_iff user kind since until e = (
    λ h. (
      ground arith,
      (of_kind_iff kind e.kind).0 (ground arith),
      (at_least_iff since e.created_at).0 (ground arith),
      (at_most_iff until e.created_at).0 (ground arith),
    ),
    λ h. ground (
      arith,
      h.0,
      (of_kind_iff kind e.kind).1 h.1,
      (at_least_iff since e.created_at).1 h.2,
      (at_most_iff until e.created_at).1 h.3,
    ),
  )

  pub newer : (a b : LedgerEntry m) → Below (by_time_desc m) a b → IsNewer a b
  unfolding by_time
  newer a b h = ground (arith, h)
