-- ===== src/Store/ApiKeys/Restored.antt =====
-- A backup that replaces the keys of an owner is what an export gives again (crates/refract-store/src/key_repo.rs,
-- `replace_all` and `export`).
use mathlib.Core.List.{append_assoc, append-nil}
use refract.Base.{
  ℕ, suc, ◌+◌, ◌≡◌, ◌≢◌, refl, sym, ap, ap₂, ◌∙◌, arith, true, false, not, ◌||◌, List, [], ◌∷◌,
  ◌++◌, String, All, any, retain, map, length, trim, is_empty_text, Result, ok,
}
use refract.Base.Maps.{string_eq}
use refract.Base.Sort.{sort_by, insert_sorted, AllPairs}
use refract.Store.ApiKeys.{Budget, ApiKey, ApiKeyError, ApiKeys, is_owned, floor}
use refract.Store.ApiKeys.Backup.{
  ExportedApiKey, KeyTables, at_least_zero, exported, restored, by_id, export, is_known, has_digest,
  insert_restored, insert_all, replace_all,
}

module _ (m : Budget) where
  -- A key of a backup that the database takes as it is.
  pub record IsRestorable (users : List ℕ) (e : ExportedApiKey m) : Type 0 where
    pub trimmed : trim e.name ≡ e.name
    pub named : is_empty_text (trim e.name) ≡ false
    pub hashed : is_empty_text (trim e.key_hash) ≡ false
    pub rpm_kept : at_least_zero m e.rpm_limit ≡ e.rpm_limit
    pub tpm_kept : at_least_zero m e.tpm_limit ≡ e.tpm_limit
    pub budget_kept : floor m e.budget ≡ e.budget
    pub used_budget_kept : floor m e.used_budget ≡ e.used_budget
    pub known : is_known m users e.user_id ≡ true

  abbrev rows : ℕ → ℕ → ℕ → List (ExportedApiKey m) → ApiKeys m
  rows now id owner [] = []
  rows now id owner (e ∷ es) = restored m now id owner e ∷ rows now (id + 1) owner es

  abbrev with_rows : ℕ → ℕ → List (ExportedApiKey m) → KeyTables m → KeyTables m
  with_rows now owner es t = record t {
    keys = t.keys ++ rows now t.next_id owner es;
    next_id = t.next_id + length es;
  }

  insert_restored-eq :
      (now owner : ℕ) (e : ExportedApiKey m) (t : KeyTables m)
      → IsRestorable t.users e
      → has_digest m e.key_hash t.keys ≡ false
      → insert_restored m now owner e t ≡ ok (true, with_rows now owner (e ∷ []) t)
  unfolding insert_restored
  insert_restored-eq now owner e t h d = ground (arith, h.named, h.hashed, h.known, d)

  has_digest-append :
      (digest : String) (ks : ApiKeys m) (r : String × ApiKey m)
      → has_digest m digest (ks ++ r ∷ []) ≡ has_digest m digest ks || string_eq.beq r.0 digest
  unfolding has_digest any
  has_digest-append digest [] r = ground arith
  has_digest-append digest (k ∷ ks) r = ground (arith, has_digest-append digest ks r)

  still_new :
      (now id owner : ℕ) (e : ExportedApiKey m) (ks : ApiKeys m) (es : List (ExportedApiKey m))
      → All (λ f. has_digest m f.key_hash ks ≡ false) es
      → All (λ f. e.key_hash ≢ f.key_hash) es
      → All (λ f. has_digest m f.key_hash (ks ++ restored m now id owner e ∷ []) ≡ false) es
  unfolding restored
  still_new now id owner e ks [] h d = tt
  still_new now id owner e ks (f ∷ fs) h d = (
    has_digest-append f.key_hash ks (restored m now id owner e)
        ∙ ground (arith, h.0, d.0, string_eq.beq_iff e.key_hash f.key_hash),
    still_new now id owner e ks fs h.1 d.1,
  )

  inserted-eq :
      (now owner : ℕ) (e : ExportedApiKey m) (es : List (ExportedApiKey m)) (t t1 t2 : KeyTables m)
      (n : ℕ)
      → insert_restored m now owner e t ≡ ok (true, t1)
      → insert_all m now owner es t1 ≡ ok (n, [], t2)
      → insert_all m now owner (e ∷ es) t ≡ ok (suc n, [], t2)
  unfolding insert_all
  inserted-eq now owner e es t t1 t2 n h k = ground (arith, h, k)

  abbrev done :
      KeyTables m → ℕ → ApiKeys m → ℕ → Result {0, 0} (ℕ × List String × KeyTables m) ApiKeyError
  done t n ks next = ok (n, [], record t { keys = ks; next_id = next })

  insert_all-eq :
      (now owner : ℕ) (es : List (ExportedApiKey m)) (t : KeyTables m)
      → All (IsRestorable t.users) es
      → AllPairs (λ a b. a.key_hash ≢ b.key_hash) es
      → All (λ e. has_digest m e.key_hash t.keys ≡ false) es
      → insert_all m now owner es t ≡ ok (length es, [], with_rows now owner es t)
  unfolding insert_all
  insert_all-eq now owner [] t h d n =
      ap₂ (done t 0) (sym (append-nil t.keys))
        (let g : t.next_id ≡ t.next_id + 0 = omega arith in g)
  insert_all-eq now owner (e ∷ es) t h d n =
      let t1 = with_rows now owner (e ∷ []) t in
      let rest =
        insert_all-eq now owner es t1 h.1 d.1 (still_new now t.next_id owner e t.keys es n.1 d.0) in
      inserted-eq now owner e es t t1 (with_rows now owner es t1) (length es)
        (insert_restored-eq now owner e t h.0 n.0) rest
      ∙ ap₂ (done t (suc (length es)))
          (append_assoc t.keys (restored m now t.next_id owner e ∷ [])
            (rows now (t.next_id + 1) owner es))
          (let g : t.next_id + 1 + length es ≡ t.next_id + suc (length es) = omega arith in g)

  replaced-eq :
      (now owner : ℕ) (es : List (ExportedApiKey m)) (t : KeyTables m) (n : ℕ) (t' : KeyTables m)
      → insert_all m now owner es
          (record t { keys = retain (λ r. not (is_owned m owner r)) t.keys })
        ≡ ok (n, [], t')
      → replace_all m now owner es t ≡ (ok (n, []), t')
  unfolding replace_all
  replaced-eq now owner es t n t' h = ground (arith, h)

  exported-restored :
      (now id owner : ℕ) (users : List ℕ) (e : ExportedApiKey m)
      → IsRestorable users e
      → exported m (restored m now id owner e) ≡ e
  unfolding exported restored
  exported-restored now id owner users e h =
      ground (arith, h.trimmed, h.rpm_kept, h.tpm_kept, h.budget_kept, h.used_budget_kept)

  exported-rows :
      (now id owner : ℕ) (users : List ℕ) (es : List (ExportedApiKey m))
      → All (IsRestorable users) es
      → map (exported m) (rows now id owner es) ≡ es
  exported-rows now id owner users [] h = refl
  exported-rows now id owner users (e ∷ es) h =
      ap₂ ◌∷◌ (exported-restored now id owner users e h.0)
        (exported-rows now (id + 1) owner users es h.1)

  sort_by-rows :
      (now id owner : ℕ) (es : List (ExportedApiKey m))
      → sort_by (by_id m) (rows now id owner es) ≡ rows now id owner es
  unfolding sort_by insert_sorted restored
  sort_by-rows now id owner [] = refl
  sort_by-rows now id owner (e ∷ []) = refl
  sort_by-rows now id owner (e ∷ f ∷ es) =
      ap (insert_sorted (by_id m) (restored m now id owner e))
        (sort_by-rows now (id + 1) owner (f ∷ es))
      ∙ ground arith

  owned_rows :
      (now id owner : ℕ) (ks : ApiKeys m) (es : List (ExportedApiKey m))
      → retain
          (is_owned m owner)
          (retain (λ r. not (is_owned m owner r)) ks ++ rows now id owner es)
        ≡ rows now id owner es
  unfolding retain is_owned restored
  owned_rows now id owner [] [] = refl
  owned_rows now id owner [] (e ∷ es) = ground (arith, owned_rows now (id + 1) owner [] es)
  owned_rows now id owner (k ∷ ks) es = ground (arith, owned_rows now id owner ks es)

  -- A backup of restorable keys with digests of their own, none of them in another owner's hands, replaces the keys of an owner
  -- whole: all are inserted, none is skipped, and an export gives the backup again, in its order.
  pub export-replace_all :
      (now owner : ℕ) (es : List (ExportedApiKey m)) (t : KeyTables m)
      → All (IsRestorable t.users) es
      → AllPairs (λ a b. a.key_hash ≢ b.key_hash) es
      → All
          (λ e. has_digest m e.key_hash (retain (λ r. not (is_owned m owner r)) t.keys) ≡ false)
          es
      → ((replace_all m now owner es t).0 ≡ ok (length es, []))
        × (export m owner (replace_all m now owner es t).1.keys ≡ es)
  unfolding replace_all export
  export-replace_all now owner es t h d n =
      let kept = retain (λ r. not (is_owned m owner r)) t.keys in
      let t0 = record t { keys = kept } in
      let all = insert_all-eq now owner es t0 h d n in
      let replaced = replaced-eq now owner es t (length es) (with_rows now owner es t0) all in
      (
        ap (λ (x : Result {0, 0} (ℕ × List String) ApiKeyError × KeyTables m). x.0) replaced,
        ap
              (λ (x : Result {0, 0} (ℕ × List String) ApiKeyError × KeyTables m).
                export m owner x.1.keys)
              replaced
            ∙ ap (λ ks. map (exported m) (sort_by (by_id m) ks))
                (owned_rows now t.next_id owner t.keys es)
            ∙ ap (map (exported m)) (sort_by-rows now t.next_id owner es)
            ∙ exported-rows now t.next_id owner t.users es h,
      )
