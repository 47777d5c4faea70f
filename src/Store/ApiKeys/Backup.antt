-- ===== src/Store/ApiKeys/Backup.antt =====
-- The keys of a backup (crates/refract-store/src/key_repo.rs, `export`, `restore` and `replace_all`). A key that the
-- database inserts takes the next number; its user has to be one, and its digest a new one. The columns that hold lists as
-- JSON are lists here.
use refract.Base.{
  ℕ, ◌+◌, Bool, true, false, ◌||◌, List, [], ◌∷◌, ◌++◌, Option, none, some, String, is_empty_text,
  trim, any, not, map, retain, compare, Ordering, if◌then◌else◌, Result, ok, err, ℤ, pos, pos_part,
  ◌==◌,
}
use refract.Base.Maps.{string_eq}
use refract.Base.Sort
use refract.Store.ApiKeys.{
  Budget, ApiKey, ApiKeyError, invalid, foreign_key, ApiKeys, is_owned, floor,
}

module _ (m : Budget) where
  pub record ExportedApiKey : Type 0 where
    pub name : String
    pub key_hash : String
    pub key_prefix : String
    pub enabled : Bool
    pub allowed_models : List String
    pub allowed_tags : List String
    pub quota : ℤ
    pub used_quota : ℤ
    pub rpm_limit : ℤ
    pub tpm_limit : ℤ
    pub budget : m.Amount
    pub used_budget : m.Amount
    pub note : Option String
    pub expires_at : Option ℕ
    pub user_id : Option ℕ

  -- The tables `users` and `api_keys`, with the next number of the latter.
  pub record KeyTables : Type 0 where
    pub users : List ℕ
    pub keys : ApiKeys m
    pub next_id : ℕ

  abbrev pub at_least_zero : ℤ → ℤ
  at_least_zero n = pos (pos_part n)

  unfoldable pub exported : String × ApiKey m → ExportedApiKey
  exported (digest, k) = record {
    name = k.name;
    key_hash = digest;
    key_prefix = k.key_prefix;
    enabled = k.enabled;
    allowed_models = k.allowed_models;
    allowed_tags = k.allowed_tags;
    quota = k.quota;
    used_quota = k.used_quota;
    rpm_limit = k.rpm_limit;
    tpm_limit = k.tpm_limit;
    budget = k.budget;
    used_budget = k.used_budget;
    note = k.note;
    expires_at = k.expires_at;
    user_id = k.user_id;
  }

  unfoldable pub restored : ℕ → ℕ → ℕ → ExportedApiKey → String × ApiKey m
  unfolding trim floor
  restored now id owner e = (
    e.key_hash,
    record {
      id = id;
      owner_id = owner;
      user_id = e.user_id;
      name = trim e.name;
      key_prefix = e.key_prefix;
      enabled = e.enabled;
      allowed_models = e.allowed_models;
      allowed_tags = e.allowed_tags;
      quota = e.quota;
      used_quota = e.used_quota;
      rpm_limit = at_least_zero e.rpm_limit;
      tpm_limit = at_least_zero e.tpm_limit;
      budget = floor m e.budget;
      used_budget = floor m e.used_budget;
      note = e.note;
      expires_at = e.expires_at;
      last_used_at = none;
      created_at = now;
    },
  )

  abbrev pub by_id : String × ApiKey m → String × ApiKey m → Ordering
  by_id a b = compare a.1.id b.1.id

  unfoldable pub export : ℕ → ApiKeys m → List ExportedApiKey
  unfolding exported is_owned retain Sort.sort_by
  export owner t = map exported (Sort.sort_by by_id (retain (is_owned m owner) t))

  abbrev pub is_known : List ℕ → Option ℕ → Bool
  is_known users none = true
  is_known users (some u) = any (λ v. v == u) users

  unfoldable pub has_digest : String → ApiKeys m → Bool
  unfolding any
  has_digest digest t = any (λ r. string_eq.beq r.0 digest) t

  -- `restore` and `insert_restored`, whether a row was inserted.
  unfoldable pub insert_restored :
      ℕ → ℕ → ExportedApiKey → KeyTables → Result {0, 0} (Bool × KeyTables) ApiKeyError
  unfolding restored has_digest trim any
  insert_restored now owner e t =
      if is_empty_text (trim e.name) || is_empty_text (trim e.key_hash)
      then err (invalid "restored api key needs both a name and a key_hash")
      else if has_digest e.key_hash t.keys
      then ok (false, t)
      else if not (is_known t.users e.user_id)
      then err foreign_key
      else ok (
        true,
        record t { keys = t.keys ++ restored now t.next_id owner e ∷ []; next_id = t.next_id + 1 },
      )

  -- The keys that were inserted, as a number, and the names of those that were skipped.
  unfoldable pub insert_all :
      ℕ
      → ℕ
      → List ExportedApiKey
      → KeyTables
      → Result {0, 0} (ℕ × List String × KeyTables) ApiKeyError
  unfolding insert_restored
  insert_all now owner [] t = ok (0, [], t)
  insert_all now owner (e ∷ es) t = elim (insert_restored now owner e t) [
    | err x ↦ err x
    | ok (inserted, t1) ↦ elim (insert_all now owner es t1) [
      | err x ↦ err x
      | ok (n, skipped, t2) ↦
          ok (if inserted then (n + 1, skipped, t2) else (n, e.name ∷ skipped, t2))
    ]
  ]

  -- `replace_all`: a transaction that is not committed leaves the tables as they were.
  unfoldable pub replace_all :
      ℕ
      → ℕ
      → List ExportedApiKey
      → KeyTables
      → Result {0, 0} (ℕ × List String) ApiKeyError × KeyTables
  unfolding insert_all is_owned retain
  replace_all now owner es t =
      elim (insert_all now owner es
        (record t { keys = retain (λ r. not (is_owned m owner r)) t.keys })) [
          | err x ↦ (err x, t)
          | ok (n, skipped, t') ↦ (ok (n, skipped), t')
        ]
