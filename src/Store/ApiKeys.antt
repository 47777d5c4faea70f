-- ===== src/Store/ApiKeys.antt =====
-- The clients' keys (crates/refract-store/src/key_repo.rs): when one may be used, and the operations of the table on a
-- key that is there; Backup has those of a backup. Making and changing keys is not modelled. A budget is a number of the
-- interface `Budget`, the digest of a key's text is an argument, a time is a number of seconds.
pub mod Owners
pub mod Backup
pub mod Restored
use refract.Base.{
  ℕ, ◌+◌, Bool, true, false, not, ◌&&◌, ◌||◌, List, [], ◌∷◌, Option, none, some, String, ◌==◌, leb,
  ltb, if◌then◌else◌, compare, Ordering, any, is_empty, map, retain, Result, ok, err, ℤ, pos,
  pos_part, ◌+ℤ◌, compare_ℤ, is_le,
}
use refract.Base.Maps.{nat_eq, string_eq}
use refract.Base.Sort

pub record Budget : Type 1 where
  pub Amount : Type 0
  pub nothing : Amount
  pub plus : Amount → Amount → Amount
  pub at_least : Amount → Amount → Bool
  pub greater : Amount → Amount → Bool

pub data ApiKeyError : Type 0 where
  not_found : ℕ → ApiKeyError
  invalid : String → ApiKeyError
  foreign_key : ApiKeyError

-- `ensure_affected`: whether a row was.
abbrev pub ensure_affected : Bool → ℕ → Result {0, 0} Unit ApiKeyError
ensure_affected affected id = if affected then ok tt else err (not_found id)

abbrev pub is_user : ℕ → Option ℕ → Bool
is_user user none = false
is_user user (some u) = u == user

abbrev pub expired : Option ℕ → ℕ → Bool
expired none now = false
expired (some end) now = leb end now

module _ (m : Budget) where
  pub record ApiKey : Type 0 where
    pub id : ℕ
    pub owner_id : ℕ
    pub user_id : Option ℕ
    pub name : String
    pub key_prefix : String
    pub enabled : Bool
    pub allowed_models : List String
    pub allowed_tags : List String
    pub quota : ℤ
    pub used_quota : ℤ
    pub rpm_limit : ℤ
    pub tpm_limit : ℤ
    pub budget : m.Amount
    pub used_budget : m.Amount
    pub note : Option String
    pub expires_at : Option ℕ
    pub last_used_at : Option ℕ
    pub created_at : ℕ

  unfoldable pub is_usable : ApiKey → ℕ → Bool
  is_usable k now =
      if not k.enabled
      then false
      else if expired k.expires_at now
      then false
      else if ltb 0 (pos_part k.quota) && is_le (compare_ℤ k.quota k.used_quota)
      then false
      else if m.greater k.budget m.nothing && m.at_least k.used_budget k.budget
      then false
      else true

  unfoldable pub allows_model : ApiKey → String → Bool
  unfolding any
  allows_model k model =
      is_empty k.allowed_models || any (λ n. string_eq.beq n model) k.allowed_models

  -- The table `api_keys`: a key with the digest of its text.
  abbrev pub ApiKeys : Type 0
  ApiKeys = List (String × ApiKey)

  -- The `WHERE` of the statements.
  unfoldable pub is_owned : ℕ → String × ApiKey → Bool
  is_owned owner r = r.1.owner_id == owner

  unfoldable pub is_key : ℕ → ℕ → String × ApiKey → Bool
  unfolding is_owned
  is_key owner id r = r.1.id == id && is_owned owner r

  unfoldable pub is_key_of : ℕ → ℕ → ℕ → String × ApiKey → Bool
  unfolding is_key
  is_key_of owner user id r = is_key owner id r && is_user user r.1.user_id

  unfoldable pub update_rows : (String × ApiKey → Bool) → (ApiKey → ApiKey) → ApiKeys → ApiKeys
  update_rows sel f = map (λ r. if sel r then (r.0, f r.1) else r)

  abbrev pub without_usage : ApiKey → ApiKey
  without_usage k = record k { used_quota = pos 0; used_budget = m.nothing }

  unfoldable pub reset_usage : ℕ → ℕ → ApiKeys → Result {0, 0} Unit ApiKeyError × ApiKeys
  unfolding any is_key update_rows
  reset_usage owner id t =
      (ensure_affected (any (is_key owner id) t) id, update_rows (is_key owner id) without_usage t)

  unfoldable pub reset_usage_for_user :
      ℕ → ℕ → ℕ → ApiKeys → Result {0, 0} Unit ApiKeyError × ApiKeys
  unfolding any is_key_of update_rows
  reset_usage_for_user owner user id t = (
    ensure_affected (any (is_key_of owner user id) t) id,
    update_rows (is_key_of owner user id) without_usage t,
  )

  unfoldable pub set_enabled : ℕ → ℕ → Bool → ApiKeys → Result {0, 0} Unit ApiKeyError × ApiKeys
  unfolding any is_key update_rows
  set_enabled owner id on t = (
    ensure_affected (any (is_key owner id) t) id,
    update_rows (is_key owner id) (λ k. record k { enabled = on }) t,
  )

  unfoldable pub set_enabled_for_user :
      ℕ → ℕ → ℕ → Bool → ApiKeys → Result {0, 0} Unit ApiKeyError × ApiKeys
  unfolding any is_key_of update_rows
  set_enabled_for_user owner user id on t = (
    ensure_affected (any (is_key_of owner user id) t) id,
    update_rows (is_key_of owner user id) (λ k. record k { enabled = on }) t,
  )

  unfoldable pub delete : ℕ → ℕ → ApiKeys → Result {0, 0} Unit ApiKeyError × ApiKeys
  unfolding any is_key retain
  delete owner id t =
      (ensure_affected (any (is_key owner id) t) id, retain (λ r. not (is_key owner id r)) t)

  unfoldable pub delete_for_user : ℕ → ℕ → ℕ → ApiKeys → Result {0, 0} Unit ApiKeyError × ApiKeys
  unfolding any is_key_of retain
  delete_for_user owner user id t = (
    ensure_affected (any (is_key_of owner user id) t) id,
    retain (λ r. not (is_key_of owner user id r)) t,
  )

  unfoldable pub delete_all : ℕ → ApiKeys → ApiKeys
  unfolding is_owned retain
  delete_all owner t = retain (λ r. not (is_owned owner r)) t

  -- `max(0.0)`.
  unfoldable pub floor : m.Amount → m.Amount
  floor a = if m.at_least a m.nothing then a else m.nothing

  -- `record_usage`; a cost below zero counts as none.
  unfoldable pub record_usage : ℕ → ℕ → ℤ → m.Amount → ApiKeys → ApiKeys
  unfolding update_rows floor
  record_usage now id tokens cost t =
      update_rows (λ r. r.1.id == id)
        (λ k. record k {
          used_quota = k.used_quota +ℤ tokens;
          used_budget =
              m.plus k.used_budget (if m.at_least cost m.nothing then cost else m.nothing);
          last_used_at = some now;
        })
        t

  abbrev pub by_id_desc : String × ApiKey → String × ApiKey → Ordering
  by_id_desc a b = compare b.1.id a.1.id

  unfoldable pub list : ℕ → ApiKeys → List (String × ApiKey)
  unfolding is_owned retain Sort.sort_by
  list owner t = Sort.sort_by by_id_desc (retain (is_owned owner) t)

  unfoldable pub find_by_plaintext : (String → String) → String → ApiKeys → Option ApiKey
  find_by_plaintext hash text [] = none
  find_by_plaintext hash text ((digest, k) ∷ t) =
      let rest = find_by_plaintext hash text t in
      if string_eq.beq digest (hash text) then some k else rest

  unfoldable pub get : ℕ → ℕ → ApiKeys → Result ApiKey ApiKeyError
  unfolding is_key
  get owner id [] = err (not_found id)
  get owner id (r ∷ t) = let rest = get owner id t in if is_key owner id r then ok r.1 else rest

  unfoldable pub list_for_user : ℕ → ℕ → ApiKeys → List (String × ApiKey)
  unfolding is_owned retain Sort.sort_by
  list_for_user owner user t =
      Sort.sort_by by_id_desc (retain (λ r. is_owned owner r && is_user user r.1.user_id) t)

  unfoldable pub get_for_user : ℕ → ℕ → ℕ → ApiKeys → Result ApiKey ApiKeyError
  unfolding is_key_of
  get_for_user owner user id [] = err (not_found id)
  get_for_user owner user id (r ∷ t) =
      let rest = get_for_user owner user id t in if is_key_of owner user id r then ok r.1 else rest
