-- ===== src/Store/ApiKeys/Owners.antt =====
-- Owners do not see each other (crates/refract-store/src/key_repo.rs).
use refract.Base.{
  ℕ, ◌≡◌, ◌≢◌, refl, ap, ◌∙◌, arith, Bool, true, false, not, List, [], ◌∷◌, All, retain, String,
  Bool-cases, inl, inr,
}
use refract.Base.Sort.{sort_by}
use refract.Store.ApiKeys.{
  Budget, ApiKey, ApiKeys, is_owned, is_key, is_key_of, update_rows, without_usage, reset_usage,
  reset_usage_for_user, set_enabled, set_enabled_for_user, delete, delete_for_user, delete_all,
  by_id_desc, list,
}

-- What an owner, or a user of one, asks to change in the keys that are there.
pub data KeyCall : Type 0 where
  resets : ℕ → ℕ → KeyCall
  resets_for_user : ℕ → ℕ → ℕ → KeyCall
  enables : ℕ → ℕ → Bool → KeyCall
  enables_for_user : ℕ → ℕ → ℕ → Bool → KeyCall
  deletes : ℕ → ℕ → KeyCall
  deletes_for_user : ℕ → ℕ → ℕ → KeyCall
  deletes_all : ℕ → KeyCall

abbrev pub caller : KeyCall → ℕ
caller (resets owner id) = owner
caller (resets_for_user owner user id) = owner
caller (enables owner id on) = owner
caller (enables_for_user owner user id on) = owner
caller (deletes owner id) = owner
caller (deletes_for_user owner user id) = owner
caller (deletes_all owner) = owner

module _ (m : Budget) where
  abbrev pub key_step : KeyCall → ApiKeys m → ApiKeys m
  key_step (resets owner id) t = (reset_usage m owner id t).1
  key_step (resets_for_user owner user id) t = (reset_usage_for_user m owner user id t).1
  key_step (enables owner id on) t = (set_enabled m owner id on t).1
  key_step (enables_for_user owner user id on) t = (set_enabled_for_user m owner user id on t).1
  key_step (deletes owner id) t = (delete m owner id t).1
  key_step (deletes_for_user owner user id) t = (delete_for_user m owner user id t).1
  key_step (deletes_all owner) t = delete_all m owner t

  abbrev pub key_steps : List KeyCall → ApiKeys m → ApiKeys m
  key_steps [] t = t
  key_steps (c ∷ cs) t = key_steps cs (key_step c t)

  -- A selection of rows of one owner.
  abbrev IsWithin : ℕ → (String × ApiKey m → Bool) → Type 0
  IsWithin other sel = (r : String × ApiKey m) → sel r ≡ true → is_owned m other r ≡ true

  owned_once :
      (owner other : ℕ) (r : String × ApiKey m)
      → other ≢ owner
      → is_owned m other r ≡ true
      → is_owned m owner r ≡ false
  unfolding is_owned
  owned_once owner other r h e = ground (arith, h, e)

  is_key-IsWithin : (other id : ℕ) → IsWithin other (is_key m other id)
  unfolding is_key is_owned
  is_key-IsWithin other id r e = ground (arith, e)

  is_key_of-IsWithin : (other user id : ℕ) → IsWithin other (is_key_of m other user id)
  unfolding is_key_of is_key is_owned
  is_key_of-IsWithin other user id r e = ground (arith, e)

  retain-update_rows :
      (owner other : ℕ) (sel : String × ApiKey m → Bool) (f : ApiKey m → ApiKey m)
      → other ≢ owner
      → IsWithin other sel
      → ((k : ApiKey m) → (f k).owner_id ≡ k.owner_id)
      → (t : ApiKeys m)
      → retain (is_owned m owner) (update_rows m sel f t) ≡ retain (is_owned m owner) t
  unfolding retain update_rows is_owned
  retain-update_rows owner other sel f h within kept [] = refl
  retain-update_rows owner other sel f h within kept (r ∷ t) =
      let more = retain-update_rows owner other sel f h within kept t in
      elim (Bool-cases (sel r)) [
        | inl e ↦ ground (arith, e, more, kept r.1, owned_once owner other r h (within r e))
        | inr e ↦ ground (arith, e, more)
      ]

  retain-removed :
      (owner other : ℕ) (sel : String × ApiKey m → Bool)
      → other ≢ owner
      → IsWithin other sel
      → (t : ApiKeys m)
      → retain (is_owned m owner) (retain (λ r. not (sel r)) t) ≡ retain (is_owned m owner) t
  unfolding retain is_owned
  retain-removed owner other sel h within [] = refl
  retain-removed owner other sel h within (r ∷ t) =
      let more = retain-removed owner other sel h within t in
      elim (Bool-cases (sel r)) [
        | inl e ↦ ground (arith, e, more, owned_once owner other r h (within r e))
        | inr e ↦ ground (arith, e, more)
      ]

  retain-key_step :
      (owner : ℕ) (c : KeyCall) (t : ApiKeys m)
      → caller c ≢ owner
      → retain (is_owned m owner) (key_step c t) ≡ retain (is_owned m owner) t
  unfolding reset_usage reset_usage_for_user set_enabled set_enabled_for_user delete delete_for_user
      delete_all
  retain-key_step owner (resets other id) t h =
      retain-update_rows owner other (is_key m other id) (without_usage m) h
        (is_key-IsWithin other id) (λ k. refl) t
  retain-key_step owner (resets_for_user other user id) t h =
      retain-update_rows owner other (is_key_of m other user id) (without_usage m) h
        (is_key_of-IsWithin other user id) (λ k. refl) t
  retain-key_step owner (enables other id on) t h =
      retain-update_rows owner other (is_key m other id) (λ k. record k { enabled = on }) h
        (is_key-IsWithin other id) (λ k. refl) t
  retain-key_step owner (enables_for_user other user id on) t h =
      retain-update_rows owner other (is_key_of m other user id) (λ k. record k { enabled = on }) h
        (is_key_of-IsWithin other user id) (λ k. refl) t
  retain-key_step owner (deletes other id) t h =
      retain-removed owner other (is_key m other id) h (is_key-IsWithin other id) t
  retain-key_step owner (deletes_for_user other user id) t h =
      retain-removed owner other (is_key_of m other user id) h (is_key_of-IsWithin other user id) t
  retain-key_step owner (deletes_all other) t h =
      retain-removed owner other (is_owned m other) h (λ r e. e) t

  retain-key_steps :
      (owner : ℕ) (cs : List KeyCall) (t : ApiKeys m)
      → All (λ c. caller c ≢ owner) cs
      → retain (is_owned m owner) (key_steps cs t) ≡ retain (is_owned m owner) t
  retain-key_steps owner [] t h = refl
  retain-key_steps owner (c ∷ cs) t h =
      retain-key_steps owner cs (key_step c t) h.1 ∙ retain-key_step owner c t h.0

  -- What others reset, enable or delete, for themselves or for one of their users, in whatever order, leaves the keys
  -- that an owner lists as they were, with their digests.
  pub list-key_steps :
      (owner : ℕ) (cs : List KeyCall) (t : ApiKeys m)
      → All (λ c. caller c ≢ owner) cs
      → list m owner (key_steps cs t) ≡ list m owner t
  unfolding list
  list-key_steps owner cs t h = ap (sort_by (by_id_desc m)) (retain-key_steps owner cs t h)
