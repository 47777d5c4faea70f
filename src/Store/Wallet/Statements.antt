-- ===== src/Store/Wallet/Statements.antt =====
-- The statements of a user's ledger (crates/refract-store/src/wallet_repo.rs, `ledger` and `ledger_all_for_export`).
use refract.Base.{ℕ, arith, List, Option, All, retain}
use refract.Store.Wallet.Rows.{IsRowOf, IsNewer}
use refract.Base.Sort.{IsPreorder, AllPairs}
use refract.Store.Wallet.{Money, LedgerKind, LedgerEntry, Tables, is_selected, by_time, ledger}

module _ (m : Money) where
  by_time-IsPreorder : IsPreorder (by_time m)
  unfolding by_time
  by_time-IsPreorder = record {
    total = λ a b h. ground (arith, h);
    trans = λ a b c h k. ground (arith, h, k);
  }

  module _ (user : ℕ) (kind : Option LedgerKind) (since until : Option ℕ) (t : Tables m) where
    abbrev selected : List (LedgerEntry m)
    selected = retain (is_selected m user kind since until) t.ledger

    abbrev IsStatement : List (LedgerEntry m) → Type 0
    IsStatement es = All (IsRowOf m user kind since until) es × AllPairs (IsNewer m) es
