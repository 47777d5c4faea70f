-- ===== src/Api/Rate/TtlCache.antt =====
-- The cache of users and balances (crates/refract-api/src/rate.rs, `TtlCache`). The clock is an argument; the
-- times and the life of an entry are in one unit.
use refract.Base.{◌≡◌, ◌<◌, arith, ℕ, ◌-◌, List, [], Option, none, some, leb, if◌then◌else◌}
use refract.Base.Maps.{Eq, lookup, put, delete, lookup-put, lookup-delete, beq_refl}

pub record TtlCache {ℓ κ} (K : Type ℓ) (V : Type κ) : Type (ℓ ⊔ κ) where
  pub entries : List (K × (V × ℕ))
  pub ttl : ℕ

abbrev pub new_cache {ℓ κ} : {K : Type ℓ} {V : Type κ} → ℕ → TtlCache K V
new_cache ttl = record { entries = []; ttl = ttl }

module _ {ℓ κ} {K : Type ℓ} {V : Type κ} ⦃e : Eq K⦄ where
  -- `TtlCache::get`: an entry whose time is over goes.
  unfoldable pub get : TtlCache K V → K → ℕ → Option V × TtlCache K V
  get c key now =
      let dropped = delete key c.entries in
      elim (lookup key c.entries) [
        | none ↦ (none, c)
        | some (value, at) ↦
            if leb c.ttl (now - at) then (none, record c { entries = dropped }) else (some value, c)
      ]

  -- `TtlCache::insert`.
  unfoldable pub insert : TtlCache K V → K → V → ℕ → TtlCache K V
  insert c key value now = record c { entries = put key (value, now) c.entries }

  -- `TtlCache::invalidate`.
  unfoldable pub invalidate : TtlCache K V → K → TtlCache K V
  invalidate c key = record c { entries = delete key c.entries }

  -- A value is read back as long as less time has gone by than the life of an entry.
  get-insert :
      (c : TtlCache K V) (key : K) (value : V) (at now : ℕ)
      → now - at < c.ttl
      → (get (insert c key value at) key now).0 ≡ some value
  unfolding get insert
  get-insert c key value at now h =
      ground (arith, lookup-put key key (value, at) c.entries, beq_refl key)

  -- An entry that is taken back is not read, at any time.
  get-invalidate :
      (c : TtlCache K V) (key : K) (now : ℕ) → (get (invalidate c key) key now).0 ≡ none
  unfolding get invalidate
  get-invalidate c key now = ground (arith, lookup-delete key key c.entries, beq_refl key)
