-- ===== src/Store/Wallet/Journal/Answers.antt =====
-- The wallets answer as the journal does (crates/refract-store/src/wallet_repo.rs, `apply` and `balance`).
use refract.Base.{
  ℕ, ◌+◌, ◌≡◌, refl, sym, ap, ap₂, subst, ◌∙◌, arith, true, false, List, [], ◌∷◌, ◌++◌, Option,
  some, String, if◌then◌else◌, any, ok, err, Bool-cases, inl, inr,
}
use refract.Base.Maps.{nat_eq, lookup, put}
use refract.Store.Wallet.{
  Money, LedgerKind, foreign_key, is_member, Wallet, LedgerEntry, Tables, ensure_row, wallet,
  balance, is_posted, apply,
}
use refract.Store.Wallet.Journal.{
  Posting, total, same_posting, Request, post, read_balance, Answer, posted, amount, refused,
  journal_step, post_answer, balance_answer, table_step, journal_run, table_run, as_posting,
  WalletAgrees, Refines,
}
use refract.Store.Wallet.Journal.Balances.{
  is_posted_agrees, ensure_row_missing, ensure_row_member, map_snoc, paid, posted_agrees,
}

module _ (m : Money) where
  abbrev new_entry :
      ℕ → ℕ → m.Amount → LedgerKind → Option String → String → Tables m → Wallet m → LedgerEntry m
  new_entry now user delta kind ref note t w = record {
    id = t.next_id;
    user_id = user;
    delta = delta;
    balance_after = m.plus w.balance delta;
    kind = kind;
    ref_id = ref;
    note = note;
    created_at = now;
  }

  abbrev posted_tables : ℕ → LedgerEntry m → Tables m → Wallet m → Tables m
  posted_tables now e t w = record t {
    wallets = put e.user_id (paid now e w) t.wallets;
    ledger = t.ledger ++ e ∷ [];
    next_id = t.next_id + 1;
  }

  apply_step :
      (now user : ℕ) (delta : m.Amount) (kind : LedgerKind) (ref : Option String) (note : String)
      (t t' : Tables m) (w : Wallet m)
      → ensure_row m now user t ≡ ok t'
      → lookup user t'.wallets ≡ some w
      → apply m now user delta kind ref note t ≡ (
          if is_posted m user kind ref t'.ledger
          then (ok false, t)
          else (ok true, posted_tables now (new_entry now user delta kind ref note t' w) t' w))
  unfolding apply
  apply_step now user delta kind ref note t t' w a b = ground (arith, a, b)

  apply_missing :
      (now user : ℕ) (delta : m.Amount) (kind : LedgerKind) (ref : Option String) (note : String)
      (t : Tables m)
      → ensure_row m now user t ≡ err (foreign_key user)
      → apply m now user delta kind ref note t ≡ (err (foreign_key user), t)
  unfolding apply
  apply_missing now user delta kind ref note t a = ground (arith, a)

  balance_step :
      (now user : ℕ) (t t' : Tables m) (w : Wallet m)
      → ensure_row m now user t ≡ ok t'
      → lookup user t'.wallets ≡ some w
      → balance m now user t ≡ (ok w.balance, t')
  unfolding balance wallet
  balance_step now user t t' w a b = ground (arith, a, b)

  balance_missing :
      (now user : ℕ) (t : Tables m)
      → ensure_row m now user t ≡ err (foreign_key user)
      → balance m now user t ≡ (err (foreign_key user), t)
  unfolding balance wallet
  balance_missing now user t a = ground (arith, a)

  posted-Refines :
      (now : ℕ) (e : LedgerEntry m) (t : Tables m) (ps : List (Posting m)) (w : Wallet m)
      → Refines m t ps
      → lookup e.user_id t.wallets ≡ some w
      → Refines m (posted_tables now e t w) (ps ++ as_posting m e ∷ [])
  posted-Refines now e t ps w r f = (
    map_snoc t.ledger e ∙ ap (λ x. x ++ as_posting m e ∷ []) r.0,
    λ v.
        posted_agrees t.users ps now v w t.wallets e
          (subst (WalletAgrees m t.users e.user_id ps) f (r.1 e.user_id)) (r.1 v),
  )

  -- The answers are equal, the relation holds behind them, and the users stay.
  abbrev Simulates : Tables m → Answer m × Tables m → Answer m × List (Posting m) → Type 0
  Simulates t x y = (x.0 ≡ y.0) × Refines m x.1 y.1 × (x.1.users ≡ t.users)

  Simulates-from :
      (t : Tables m) (x x' : Answer m × Tables m) (y y' : Answer m × List (Posting m))
      → x ≡ x'
      → y ≡ y'
      → Simulates t x' y'
      → Simulates t x y
  Simulates-from t x x' y y' a b s =
      subst (λ z. Simulates t z y) (sym a) (subst (λ z. Simulates t x' z) (sym b) s)

  missing-Simulates :
      (r : Request m) (t : Tables m) (ps : List (Posting m)) (user : ℕ)
      → Refines m t ps
      → table_step m r t ≡ (refused (foreign_key user), t)
      → journal_step m t.users r ps ≡ (refused (foreign_key user), ps)
      → Simulates t (table_step m r t) (journal_step m t.users r ps)
  missing-Simulates r t ps user h a b =
      Simulates-from t (table_step m r t) (refused (foreign_key user), t)
        (journal_step m t.users r ps) (refused (foreign_key user), ps) a b (refl, h, refl)

  post-Simulates :
      (now user : ℕ) (delta : m.Amount) (kind : LedgerKind) (ref : Option String) (note : String)
      (t : Tables m) (ps : List (Posting m))
      → Refines m t ps
      → Simulates t
          (table_step m (post now user delta kind ref note) t)
          (journal_step m t.users (post now user delta kind ref note) ps)
  unfolding table_step journal_step
  post-Simulates now user delta kind ref note t ps h = elim (Bool-cases (is_member user t.users)) [
    | inr f ↦
        let a =
          apply_missing now user delta kind ref note t (ensure_row_missing now user t ps h f) in
        missing-Simulates (post now user delta kind ref note) t ps user h
          (ap (λ z. (post_answer m z.0, z.1)) a) (ground (arith, f))
    | inl f ↦
        let (t', e, (g, us, (w, l))) = ensure_row_member now user t ps h f in
        let a = apply_step now user delta kind ref note t t' w e l in
        let seen =
          is_posted_agrees user kind ref t'.ledger ∙ ap (any (same_posting m user kind ref)) g.0 in
        let x = new_entry now user delta kind ref note t' w in
        let p = posted-Refines now x t' ps w g l in
        elim (Bool-cases (any (same_posting m user kind ref) ps)) [
          | inl b ↦
              Simulates-from t _ (posted false, t) _ (posted false, ps)
                (ap (λ z. (post_answer m z.0, z.1))
                  (a
                    ∙ ap (λ b. if b then (ok false, t) else (ok true, posted_tables now x t' w))
                        (seen ∙ b)))
                (ground (arith, f, b)) (refl, h, refl)
          | inr b ↦
              Simulates-from t _ (posted true, posted_tables now x t' w) _
                (posted true, ps ++ as_posting m x ∷ [])
                (ap (λ z. (post_answer m z.0, z.1))
                  (a
                    ∙ ap (λ b. if b then (ok false, t) else (ok true, posted_tables now x t' w))
                        (seen ∙ b)))
                (ground (arith, f, b)) (refl, p, us)
        ]
  ]

  balance-Simulates :
      (now user : ℕ) (t : Tables m) (ps : List (Posting m))
      → Refines m t ps
      → Simulates t
          (table_step m (read_balance now user) t)
          (journal_step m t.users (read_balance now user) ps)
  unfolding table_step journal_step
  balance-Simulates now user t ps h = elim (Bool-cases (is_member user t.users)) [
    | inr f ↦
        let a = balance_missing now user t (ensure_row_missing now user t ps h f) in
        missing-Simulates (read_balance now user) t ps user h
          (ap (λ z. (balance_answer m z.0, z.1)) a) (ground (arith, f))
    | inl f ↦
        let (t', e, (g, us, (w, l))) = ensure_row_member now user t ps h f in
        let agrees = subst (WalletAgrees m t'.users user ps) l (g.1 user) in
        Simulates-from t _ (amount w.balance, t') _ (amount (total m user ps), ps)
          (ap (λ z. (balance_answer m z.0, z.1)) (balance_step now user t t' w e l))
          (ground (arith, f)) (ap amount agrees.0, g, us)
  ]

  step-Simulates :
      (r : Request m) (t : Tables m) (ps : List (Posting m))
      → Refines m t ps
      → Simulates t (table_step m r t) (journal_step m t.users r ps)
  step-Simulates (post now user delta kind ref note) t ps h =
      post-Simulates now user delta kind ref note t ps h
  step-Simulates (read_balance now user) t ps h = balance-Simulates now user t ps h

  -- Tables that stand for a journal answer any requests as the journal does: each request in turn gets the answer of the
  -- journal, whose balances are sums of postings.
  pub run-Refines :
      (rs : List (Request m)) (t : Tables m) (ps : List (Posting m))
      → Refines m t ps
      → table_run m rs t ≡ journal_run m t.users rs ps
  unfolding table_run journal_run
  run-Refines [] t ps h = refl
  run-Refines (r ∷ rs) t ps h =
      let (a, b, c) = step-Simulates r t ps h in
      ap₂ ◌∷◌ a (
        run-Refines rs (table_step m r t).1 (journal_step m t.users r ps).1 b
        ∙ ap (λ us. journal_run m us rs (journal_step m t.users r ps).1) c)
