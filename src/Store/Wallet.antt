-- ===== src/Store/Wallet.antt =====
-- Wallets and their ledger (crates/refract-store/src/wallet_repo.rs). An amount is a floating-point number of the
-- interface `Money`; a time is a number of seconds, and the clock's reading is an argument. The ledger lists its rows in
-- the order of their insertion.
pub mod Journal
pub mod Rows
pub mod Statements
use refract.Base.{
  ℕ, zero, suc, ◌+◌, Bool, true, false, not, ◌&&◌, ◌||◌, List, [], ◌∷◌, ◌++◌, Option, none, some,
  String, ◌==◌, leb, ltb, if◌then◌else◌, compare, Ordering, any, is_some, retain, take, drop,
  Result, ok, err, ◌>>=◌,
}
use refract.Base.Maps.{nat_eq, string_eq, lookup, put}
use refract.Base.Sort

pub data LedgerKind : Type 0 where
  topup charge refund adjust : LedgerKind

-- `LedgerKind::as_str` and `from_str`.
unfoldable pub as_str : LedgerKind → String
as_str topup = "topup"
as_str charge = "charge"
as_str refund = "refund"
as_str adjust = "adjust"

unfoldable pub from_str : String → Option LedgerKind
from_str s =
    if string_eq.beq s "topup"
    then some topup
    else if string_eq.beq s "charge"
    then some charge
    else if string_eq.beq s "refund"
    then some refund
    else if string_eq.beq s "adjust"
    then some adjust
    else none

unfoldable pub kind_eq : LedgerKind → LedgerKind → Bool
unfolding as_str
kind_eq a b = string_eq.beq (as_str a) (as_str b)

-- The amounts of the wallets: a sum that is stored is a number.
pub record Money : Type 1 where
  pub Amount : Type 0
  pub nothing : Amount
  pub plus : Amount → Amount → Amount

-- What the database refuses: a row of a user that does not exist, and a row that is not there.
pub data StoreError : Type 0 where
  foreign_key : ℕ → StoreError
  not_found : ℕ → StoreError

abbrev pub is_member : ℕ → List ℕ → Bool
is_member u us = any (λ v. u == v) us

abbrev pub same_ref : Option String → Option String → Bool
same_ref none r = false
same_ref (some a) none = false
same_ref (some a) (some b) = string_eq.beq a b

abbrev pub at_least : Option ℕ → ℕ → Bool
at_least none n = true
at_least (some s) n = leb s n

abbrev pub at_most : Option ℕ → ℕ → Bool
at_most none n = true
at_most (some s) n = leb n s

abbrev pub of_kind : Option LedgerKind → LedgerKind → Bool
of_kind none k = true
of_kind (some j) k = kind_eq k j

abbrev pub export_limit : ℕ
export_limit = 50000

module _ (m : Money) where
  pub record Wallet : Type 0 where
    pub balance : m.Amount
    pub currency : String
    pub updated_at : ℕ

  pub record LedgerEntry : Type 0 where
    pub id : ℕ
    pub user_id : ℕ
    pub delta : m.Amount
    pub balance_after : m.Amount
    pub kind : LedgerKind
    pub ref_id : Option String
    pub note : String
    pub created_at : ℕ

  -- The tables `users`, `wallets` and `wallet_ledger`, with the next key of the last.
  pub record Tables : Type 0 where
    pub users : List ℕ
    pub wallets : List (ℕ × Wallet)
    pub ledger : List LedgerEntry
    pub next_id : ℕ

  -- `ensure_row`, an `INSERT OR IGNORE` with the defaults of the columns.
  unfoldable pub ensure_row : ℕ → ℕ → Tables → Result Tables StoreError
  unfolding lookup put any
  ensure_row now user t =
      if is_some (lookup user t.wallets)
      then ok t
      else if is_member user t.users
      then ok (record t {
        wallets =
            put user (record { balance = m.nothing; currency = "USD"; updated_at = now }) t.wallets;
      })
      else err (foreign_key user)

  -- `WalletRepo::wallet`; the row that it inserts stays.
  unfoldable pub wallet : ℕ → ℕ → Tables → Result Wallet StoreError × Tables
  unfolding ensure_row lookup
  wallet now user t = elim (ensure_row now user t) [
    | err e ↦ (err e, t)
    | ok t' ↦ elim (lookup user t'.wallets) [
      | none ↦ (err (not_found user), t')
      | some w ↦ (ok w, t')
    ]
  ]

  unfoldable pub balance : ℕ → ℕ → Tables → Result m.Amount StoreError × Tables
  unfolding wallet
  balance now user t =
      let (r, t') = wallet now user t in (elim r [ ok w ↦ ok w.balance | err e ↦ err e ], t')

  -- The index `idx_ledger_idem`: the user, the kind and a reference that is there.
  unfoldable pub is_posted : ℕ → LedgerKind → Option String → List LedgerEntry → Bool
  unfolding kind_eq any
  is_posted user kind ref entries =
      any (λ e. e.user_id == user && kind_eq e.kind kind && same_ref e.ref_id ref) entries

  -- `WalletRepo::apply`: a transaction that is not committed leaves the tables as they were.
  unfoldable pub apply :
      ℕ
      → ℕ
      → m.Amount
      → LedgerKind
      → Option String
      → String
      → Tables
      → Result Bool StoreError × Tables
  unfolding ensure_row lookup put is_posted
  apply now user delta kind ref note t = elim (ensure_row now user t) [
    | err e ↦ (err e, t)
    | ok t' ↦ elim (lookup user t'.wallets) [
      | none ↦ (err (not_found user), t)
      | some w ↦
          let after = m.plus w.balance delta in
          if is_posted user kind ref t'.ledger then (ok false, t) else (
            ok true,
            record t' {
              wallets = put user (record w { balance = after; updated_at = now }) t'.wallets;
              ledger =
                  t'.ledger
                  ++ (record {
                    id = t'.next_id;
                    user_id = user;
                    delta = delta;
                    balance_after = after;
                    kind = kind;
                    ref_id = ref;
                    note = note;
                    created_at = now;
                  })
                    ∷ [];
              next_id = t'.next_id + 1;
            },
          )
    ]
  ]

  -- The `WHERE` of a statement of account; the bounds are whole seconds, as they are bound.
  unfoldable pub is_selected : ℕ → Option LedgerKind → Option ℕ → Option ℕ → LedgerEntry → Bool
  unfolding kind_eq
  is_selected user kind since until e =
      e.user_id == user
      && of_kind kind e.kind
      && at_least since e.created_at
      && at_most until e.created_at

  unfoldable pub by_time : LedgerEntry → LedgerEntry → Ordering
  by_time a b = elim (compare a.created_at b.created_at) [
    | Ordering.eq ↦ compare a.id b.id
    | Ordering.lt ↦ Ordering.lt
    | Ordering.gt ↦ Ordering.gt
  ]

  abbrev pub by_time_desc : LedgerEntry → LedgerEntry → Ordering
  by_time_desc a b = by_time b a

  -- `WalletRepo::ledger` and `ledger_all_for_export`.
  unfoldable pub ledger :
      ℕ → ℕ → ℕ → Option LedgerKind → Option ℕ → Option ℕ → Tables → List LedgerEntry
  unfolding is_selected by_time Sort.sort_by retain
  ledger user limit offset kind since until t = take limit (
      drop offset (Sort.sort_by by_time_desc (retain (is_selected user kind since until) t.ledger)))

  unfoldable pub ledger_all_for_export :
      ℕ → Option LedgerKind → Option ℕ → Option ℕ → Tables → List LedgerEntry
  unfolding is_selected by_time Sort.sort_by retain
  ledger_all_for_export user kind since until t =
      take export_limit (Sort.sort_by by_time (retain (is_selected user kind since until) t.ledger))
