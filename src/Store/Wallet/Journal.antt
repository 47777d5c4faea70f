-- ===== src/Store/Wallet/Journal.antt =====
-- The wallets refine a journal of postings (crates/refract-store/src/wallet_repo.rs): no balance is stored in it, and a
-- balance is the sum of a user's postings.
pub mod Balances
pub mod Answers
use refract.Base.{
  ℕ, ◌+◌, ◌≡◌, refl, sym, ap, ap₂, subst, ◌∙◌, arith, Bool, true, false, ◌&&◌, ◌||◌, List, [], ◌∷◌,
  ◌++◌, Option, none, some, String, ◌==◌, if◌then◌else◌, ==_refl, any, map, Result, ok, err,
  Bool-cases, Option-cases, inl, inr,
}
use refract.Base.Maps.{nat_eq, lookup, put, lookup-put}
use refract.Store.Wallet.{
  Money, LedgerKind, kind_eq, StoreError, foreign_key, is_member, Wallet, LedgerEntry, Tables,
  ensure_row, wallet, balance, same_ref, is_posted, apply,
}

module _ (m : Money) where
  pub record Posting : Type 0 where
    pub user_id : ℕ
    pub delta : m.Amount
    pub kind : LedgerKind
    pub ref_id : Option String

  -- The sum of a user's postings from an amount, in their order.
  unfoldable pub total_from : m.Amount → ℕ → List Posting → m.Amount
  total_from a user [] = a
  total_from a user (p ∷ ps) =
      total_from (if p.user_id == user then m.plus a p.delta else a) user ps

  unfoldable pub total : ℕ → List Posting → m.Amount
  unfolding total_from
  total user ps = total_from m.nothing user ps

  abbrev pub same_posting : ℕ → LedgerKind → Option String → Posting → Bool
  same_posting user kind ref p = p.user_id == user && kind_eq p.kind kind && same_ref p.ref_id ref

  -- The requests to the wallets, and what they answer.
  pub data Request : Type 0 where
    post : ℕ → ℕ → m.Amount → LedgerKind → Option String → String → Request
    read_balance : ℕ → ℕ → Request

  pub data Answer : Type 0 where
    posted : Bool → Answer
    amount : m.Amount → Answer
    refused : StoreError → Answer

  -- The journal's answer: a user that does not exist is refused, a posting with the reference of an earlier one of the
  -- same user and kind is not made again, and a balance is a sum.
  unfoldable pub journal_step : List ℕ → Request → List Posting → Answer × List Posting
  unfolding total any
  journal_step users (post now user delta kind ref note) ps =
      if is_member user users
      then (if any (same_posting user kind ref) ps then (posted false, ps) else (
        posted true,
        ps ++ (record { user_id = user; delta = delta; kind = kind; ref_id = ref }) ∷ [],
      ))
      else (refused (foreign_key user), ps)
  journal_step users (read_balance now user) ps =
      if is_member user users
      then (amount (total user ps), ps)
      else (refused (foreign_key user), ps)

  abbrev pub post_answer : Result Bool StoreError → Answer
  post_answer (ok b) = posted b
  post_answer (err e) = refused e

  abbrev pub balance_answer : Result m.Amount StoreError → Answer
  balance_answer (ok a) = amount a
  balance_answer (err e) = refused e

  -- The code's answer.
  unfoldable pub table_step : Request → Tables m → Answer × Tables m
  unfolding apply balance
  table_step (post now user delta kind ref note) t =
      let (r, t') = apply m now user delta kind ref note t in (post_answer r, t')
  table_step (read_balance now user) t =
      let (r, t') = balance m now user t in (balance_answer r, t')

  unfoldable pub journal_run : List ℕ → List Request → List Posting → List Answer
  unfolding journal_step
  journal_run users [] ps = []
  journal_run users (r ∷ rs) ps =
      let (a, ps') = journal_step users r ps in a ∷ journal_run users rs ps'

  unfoldable pub table_run : List Request → Tables m → List Answer
  unfolding table_step
  table_run [] t = []
  table_run (r ∷ rs) t = let (a, t') = table_step r t in a ∷ table_run rs t'

  abbrev pub as_posting : LedgerEntry m → Posting
  as_posting e = record { user_id = e.user_id; delta = e.delta; kind = e.kind; ref_id = e.ref_id }

  -- A wallet holds the sum of its postings and has a user; without a wallet the sum is zero.
  abbrev pub WalletAgrees : List ℕ → ℕ → List Posting → Option (Wallet m) → Type 0
  WalletAgrees users user ps none = total user ps ≡ m.nothing
  WalletAgrees users user ps (some w) = (w.balance ≡ total user ps) × (is_member user users ≡ true)

  abbrev pub Refines : Tables m → List Posting → Type 0
  Refines t ps =
      (map as_posting t.ledger ≡ ps)
      × ((user : ℕ) → WalletAgrees t.users user ps (lookup user t.wallets))
