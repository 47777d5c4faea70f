-- ===== src/Store/Wallet/Journal/Balances.antt =====
-- Stored balances and the sums of the journal (crates/refract-store/src/wallet_repo.rs, `ensure_row` and `apply`).
use refract.Base.{
  ℕ, ◌≡◌, refl, sym, ap, subst, ◌∙◌, arith, true, false, ◌||◌, List, [], ◌∷◌, ◌++◌, Option, none,
  some, String, ◌==◌, if◌then◌else◌, ==_refl, any, map, ok, err, Bool-cases, Option-cases, inl, inr,
}
use refract.Base.Maps.{nat_eq, lookup, put, lookup-put}
use refract.Store.Wallet.{
  Money, LedgerKind, foreign_key, is_member, Wallet, LedgerEntry, Tables, ensure_row, is_posted,
}
use refract.Store.Wallet.Journal.{
  Posting, total_from, total, same_posting, as_posting, WalletAgrees, Refines,
}

module _ {m : Money} where
  total_from_snoc :
      (a : m.Amount) (user : ℕ) (ps : List (Posting m)) (p : Posting m)
      → total_from m a user (ps ++ p ∷ []) ≡ (
          if p.user_id == user
          then m.plus (total_from m a user ps) p.delta
          else total_from m a user ps)
  unfolding total_from
  total_from_snoc a user [] p = refl
  total_from_snoc a user (q ∷ ps) p =
      total_from_snoc (if q.user_id == user then m.plus a q.delta else a) user ps p

  pub is_posted_agrees :
      (user : ℕ) (kind : LedgerKind) (ref : Option String) (es : List (LedgerEntry m))
      → is_posted m user kind ref es ≡ any (same_posting m user kind ref) (map (as_posting m) es)
  unfolding is_posted any
  is_posted_agrees user kind ref [] = refl
  is_posted_agrees user kind ref (e ∷ es) =
      ap (λ b. same_posting m user kind ref (as_posting m e) || b)
        (is_posted_agrees user kind ref es)

  agrees_total :
      (users : List ℕ) (user : ℕ) (ps qs : List (Posting m)) (w : Option (Wallet m))
      → total m user ps ≡ total m user qs
      → WalletAgrees m users user ps w
      → WalletAgrees m users user qs w
  agrees_total users user ps qs none e h = sym e ∙ h
  agrees_total users user ps qs (some w) e h = (h.0 ∙ e, h.1)

  agrees_put :
      (users : List ℕ) (ps : List (Posting m)) (user other : ℕ) (w : Wallet m)
      (ws : List (ℕ × Wallet m))
      → (w.balance ≡ total m user ps) × (is_member user users ≡ true)
      → WalletAgrees m users other ps (lookup other ws)
      → WalletAgrees m users other ps (lookup other (put user w ws))
  agrees_put users ps user other w ws good h = elim (Bool-cases (user == other)) [
    | inl e ↦
        let same : user ≡ other = ground (arith, e) in
        subst (WalletAgrees m users other ps)
          (sym (lookup-put user other w ws ∙ ap (λ b. if b then some w else lookup other ws) e))
          (good.0 ∙ ap (λ v. total m v ps) same, ap (λ v. is_member v users) (sym same) ∙ good.1)
    | inr e ↦
        subst (WalletAgrees m users other ps)
          (sym (lookup-put user other w ws ∙ ap (λ b. if b then some w else lookup other ws) e)) h
  ]

  pub ensure_row_missing :
      (now user : ℕ) (t : Tables m) (ps : List (Posting m))
      → Refines m t ps
      → is_member user t.users ≡ false
      → ensure_row m now user t ≡ err (foreign_key user)
  unfolding ensure_row
  ensure_row_missing now user t ps r h = elim (Option-cases (lookup user t.wallets)) [
    | inl f ↦ ground (arith, h, f)
    | inr (w, f) ↦ cc (h, (subst (WalletAgrees m t.users user ps) f (r.1 user)).1)
  ]

  -- A wallet for a user, with the rest as before.
  abbrev pub Ensured : ℕ → Tables m → List (Posting m) → Tables m → Type 0
  Ensured user t ps t' =
      Refines m t' ps × (t'.users ≡ t.users) × ((w : Wallet m) × (lookup user t'.wallets ≡ some w))

  pub ensure_row_member :
      (now user : ℕ) (t : Tables m) (ps : List (Posting m))
      → Refines m t ps
      → is_member user t.users ≡ true
      → (t' : Tables m) × (ensure_row m now user t ≡ ok t') × Ensured user t ps t'
  unfolding ensure_row
  ensure_row_member now user t ps r h = elim (Option-cases (lookup user t.wallets)) [
    | inl f ↦
        let w : Wallet m = record { balance = m.nothing; currency = "USD"; updated_at = now } in
        let empty = subst (WalletAgrees m t.users user ps) f (r.1 user) in
        let found =
          lookup-put user user w t.wallets
          ∙ ap (λ b. if b then some w else lookup user t.wallets) (==_refl user) in
        (
          record t { wallets = put user w t.wallets },
          ground (arith, f, h),
          (
            (r.0, λ v. agrees_put t.users ps user v w t.wallets (sym empty, h) (r.1 v)),
            refl,
            (w, found),
          ),
        )
    | inr (w, f) ↦ (t, ground (arith, f), (r, refl, (w, f)))
  ]

  pub map_snoc :
      (es : List (LedgerEntry m)) (e : LedgerEntry m)
      → map (as_posting m) (es ++ e ∷ []) ≡ map (as_posting m) es ++ as_posting m e ∷ []
  map_snoc [] e = refl
  map_snoc (x ∷ es) e = ap (◌∷◌ (as_posting m x)) (map_snoc es e)

  abbrev pub paid : ℕ → LedgerEntry m → Wallet m → Wallet m
  paid now e w = record w { balance = m.plus w.balance e.delta; updated_at = now }

  pub posted_agrees :
      (users : List ℕ) (ps : List (Posting m)) (now user : ℕ) (w : Wallet m)
      (ws : List (ℕ × Wallet m)) (e : LedgerEntry m)
      → (w.balance ≡ total m e.user_id ps) × (is_member e.user_id users ≡ true)
      → WalletAgrees m users user ps (lookup user ws)
      → WalletAgrees m users user
          (ps ++ as_posting m e ∷ [])
          (lookup user (put e.user_id (paid now e w) ws))
  unfolding total
  posted_agrees users ps now user w ws e good h =
      let qs = ps ++ as_posting m e ∷ [] in
      let summed = λ (v : ℕ). total_from_snoc m.nothing v ps (as_posting m e) in
      elim (Bool-cases (e.user_id == user)) [
        | inl x ↦
            let own : e.user_id ≡ user = ground (arith, x) in
            let sums =
              ap (λ a. m.plus a e.delta) (good.0 ∙ ap (λ v. total m v ps) own)
              ∙ sym (
                  summed user
                  ∙ ap (λ b. if b then m.plus (total m user ps) e.delta else total m user ps) x) in
            subst (WalletAgrees m users user qs)
              (sym (
                lookup-put e.user_id user (paid now e w) ws
                ∙ ap (λ b. if b then some (paid now e w) else lookup user ws) x))
              (sums, ap (λ v. is_member v users) (sym own) ∙ good.1)
        | inr x ↦
            let same =
              summed user
              ∙ ap (λ b. if b then m.plus (total m user ps) e.delta else total m user ps) x in
            subst (WalletAgrees m users user qs)
              (sym (
                lookup-put e.user_id user (paid now e w) ws
                ∙ ap (λ b. if b then some (paid now e w) else lookup user ws) x))
              (agrees_total users user ps qs (lookup user ws) (sym same) h)
      ]
