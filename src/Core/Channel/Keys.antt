-- ===== src/Core/Channel/Keys.antt =====
-- The keys of a channel's pool (crates/refract-core/src/channel.rs).
use refract.Base.{
  ℕ, zero, suc, ◌<◌, ◌%◌, ◌≡◌, refl, arith, false, List, [], ◌∷◌, String, some, get_elem?, length,
  ok, All, ◌⊎◌, ◌≢◌, subst, not, ◌&&◌, Option, none, Bool-cases, All-Memᴰ, inl, inr, unwrap_or,
  is_empty,
}
use mathlib.Core.List.{Memᴰ}
use refract.Core.Channel.{
  Channel, ChannelEndpoint, KeyPool, single, pool, pool_len, key_at, key_pool, is_blank, nth_key,
  KeyStrategy, own_key, pool_of, key_pool_of,
}
use refract.Core.Channel.Validation.{validate, has_own}
use refract.Core.Channel.Rules.{IsFilled}
use refract.Core.Channel.Validity.{EndpointIsValid, validate-IsValid}

-- The keys in the order of their indices.
abbrev pub keys_of : KeyPool → List String
keys_of (single k) = k ∷ []
keys_of (pool first rest s) = first ∷ rest

get_elem?-total {ℓ} :
    {A : Type ℓ} (xs : List A) (i : ℕ) (d : A)
    → i < length xs
    → get_elem? xs i ≡ some (unwrap_or (get_elem? xs i) d)
get_elem?-total [] i d h = elim h [ ]
get_elem?-total (x ∷ xs) zero d h = refl
get_elem?-total (x ∷ xs) (suc i) d h = get_elem?-total xs i d (omega arith)

nth_key-get_elem? :
    (first : String) (rest : List String) (i : ℕ)
    → i < suc (length rest)
    → get_elem? (first ∷ rest) i ≡ some (nth_key first rest i)
unfolding nth_key
nth_key-get_elem? first rest zero h = refl
nth_key-get_elem? first rest (suc i) h = get_elem?-total rest i first (omega arith)

zero_index : (k : String) (ks : List String) (i : ℕ) → i ≡ 0 → get_elem? (k ∷ ks) i ≡ some k
zero_index k ks i e = rw e

-- `key_at` hands out the key at the index modulo the pool's length, for every index.
pub key_at-get_elem? :
    (p : KeyPool) (i : ℕ) → get_elem? (keys_of p) (i % pool_len p) ≡ some (key_at p i)
unfolding key_at
key_at-get_elem? (single k) i = zero_index k [] (i % 1) (omega arith)
key_at-get_elem? (pool first [] s) i = zero_index first [] (i % 1) (omega arith)
key_at-get_elem? (pool first (k ∷ ks) s) i =
    nth_key-get_elem? first (k ∷ ks) (i % suc (length (k ∷ ks))) (omega arith)

abbrev Filled : String → Type 0
Filled k = is_blank k ≡ false

All-get_elem? {ℓ κ} :
    {A : Type ℓ} (P : A → Type κ) (xs : List A) (i : ℕ) (a : A)
    → All P xs
    → get_elem? xs i ≡ some a
    → P a
All-get_elem? P [] i a h e = cc
All-get_elem? P (x ∷ xs) zero a h e = subst P (ground arith) h.0
All-get_elem? P (x ∷ xs) (suc i) a h e = All-get_elem? P xs i a h.1 e

pool_of-Filled :
    (top : String) (ks : List String) (s : KeyStrategy)
    → (is_blank top && is_empty ks) ≡ false
    → All Filled ks
    → All Filled (keys_of (pool_of top ks s))
unfolding key_pool
pool_of-Filled top [] s h f = (ground arith, tt)
pool_of-Filled top (k ∷ ks) s h f = elim (Bool-cases (is_blank top)) [
  | inl e ↦ rw e f
  | inr e ↦ rw e (e, f)
]

key_pool_of-Filled :
    (own : Option String) (top : String) (ks : List String) (s : KeyStrategy)
    → (not (has_own own) && is_blank top && is_empty ks) ≡ false
    → All Filled ks
    → All Filled (keys_of (key_pool_of (own_key own) (pool_of top ks s)))
unfolding key_pool
key_pool_of-Filled none top ks s h f = pool_of-Filled top ks s (ground arith) f
key_pool_of-Filled (some k) top ks s h f = elim (Bool-cases (is_blank k)) [
  | inl e ↦ rw e (pool_of-Filled top ks s (ground arith) f)
  | inr e ↦ rw e (e, tt)
]

usable :
    (own : Option String) (top : String) (ks : List String)
    → ((IsFilled own ⊎ (is_blank top ≡ false)) ⊎ (ks ≢ []))
    → (not (has_own own) && is_blank top && is_empty ks) ≡ false
usable none top ks (inl (inl h)) = elim h [ ]
usable (some k) top ks (inl (inl h)) = ground arith
usable own top ks (inl (inr h)) = ground arith
usable own top [] (inr h) = elim (h refl) [ ]
usable own top (k ∷ ks) (inr h) = ground arith

-- Whatever key the pool of an endpoint of a validated channel hands out, it is not blank.
pub validate-key_at :
    (c : Channel) (ep : ChannelEndpoint) (i : ℕ)
    → validate c ≡ ok tt
    → Memᴰ ep c.endpoints
    → is_blank (key_at (key_pool c ep) i) ≡ false
unfolding key_pool
validate-key_at c ep i h m =
    let v = validate-IsValid c h in
    let e = All-Memᴰ (EndpointIsValid c) c.endpoints ep v.endpoints_valid m in
    All-get_elem? Filled (keys_of (key_pool c ep)) (i % pool_len (key_pool c ep))
      (key_at (key_pool c ep) i)
      (key_pool_of-Filled ep.credential c.credential c.credentials c.key_strategy
        (usable ep.credential c.credential c.credentials e.has_key) v.keys_filled)
      (key_at-get_elem? (key_pool c ep) i)
