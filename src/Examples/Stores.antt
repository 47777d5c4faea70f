-- ===== src/Examples/Stores.antt =====
-- The theorems of the wallets and the codes at concrete tables.
use refract.Base.{ℕ, ◌+◌, ◌*◌, List, [], ◌∷◌, some, none, true, false, ◌≡◌, refl, arith, leb, ltb}
use refract.Base.Maps.{nat_eq, string_eq, lookup}
use refract.Store.Wallet.{Money, Tables, topup}
use refract.Store.Wallet.Journal.Answers.{run-Refines}
use refract.Store.Wallet.Journal.{
  Request, post, read_balance, table_run, journal_run, Refines, posted, amount, total,
}
use refract.Store.Wallet.{LedgerEntry, ledger}
use refract.Base.{All}
use refract.Store.Verification.{Codes, Digests, verify_email, hash_code, latest}
use refract.Store.Verification.Slots.Answers.{run-Refines_slots}
use refract.Store.Verification.Slots.{Slots, code_run, slot_run, issue_code, verify_code}
use refract.Store.Verification.Slots
use refract.Store.Verification.Guesses.{
  Attempt, IsWrong, attempts_then, answers_then, code_run_guesses,
}
use refract.Base.{pos, ◌≢◌}
use refract.Store.ApiKeys.{
  Budget, ApiKey, ApiKeys, list, delete_all, set_enabled_for_user, reset_usage,
}
use refract.Store.ApiKeys.Owners.{
  KeyCall, resets, enables_for_user, deletes_all, caller, key_steps, list-key_steps,
}
use refract.Base.{String, any, trim, retain, not, ok}
use refract.Store.ApiKeys.{floor, is_owned}
use refract.Store.ApiKeys.Backup.{ExportedApiKey, KeyTables, has_digest, export, replace_all}
use refract.Store.ApiKeys.Restored.{IsRestorable, export-replace_all}

abbrev cents : Money
cents = record { Amount = ℕ; nothing = 0; plus = λ a b. a + b }

abbrev no_wallets : Tables cents
no_wallets = record { users = 7 ∷ []; wallets = []; ledger = []; next_id = 1 }

abbrev requests : List (Request cents)
requests =
    post 100 7 50 topup (some "a") "first"
    ∷ post 101 7 50 topup (some "a") "again"
    ∷ read_balance 102 7
    ∷ []

no_wallets-Refines : Refines cents no_wallets []
unfolding lookup total
no_wallets-Refines = (refl, λ user. refl)

paid_once : table_run cents requests no_wallets ≡ posted true ∷ posted false ∷ amount 50 ∷ []
unfolding table_run
paid_once = refl

run-Refines_example : table_run cents requests no_wallets ≡ journal_run cents (7 ∷ []) requests []
run-Refines_example = run-Refines cents requests no_wallets [] no_wallets-Refines

abbrev digests : Digests
digests = record { sha256_hex = λ s. s; decimal = λ n. "7" }

abbrev no_codes : Codes
no_codes = record { rows = []; next_id = 1 }

abbrev empty_slots : Slots
empty_slots user purpose = none

no_codes-Refines : Slots.Refines no_codes empty_slots
unfolding latest
no_codes-Refines = (tt, tt, λ user purpose. refl)

abbrev wrong_code : Attempt
wrong_code = record { clock = 5; now = 5; code = "0000" }

wrong_code-IsWrong : IsWrong digests 7 verify_email "1234" (0 + 10 * 60) wrong_code
unfolding hash_code
wrong_code-IsWrong = (refl, omega arith)

run-Refines_slots_example :
    code_run digests (verify_code 5 5 7 verify_email "1234" ∷ []) no_codes
    ≡ slot_run digests (verify_code 5 5 7 verify_email "1234" ∷ []) empty_slots
run-Refines_slots_example =
    run-Refines_slots digests (verify_code 5 5 7 verify_email "1234" ∷ []) no_codes empty_slots
      no_codes-Refines

code_run_guesses_example :
    code_run digests
      (issue_code 0 7 verify_email "1234" 10
        ∷ attempts_then digests 7 verify_email "1234" (0 + 10 * 60) (wrong_code ∷ []) wrong_code)
      no_codes
    ≡ none ∷ answers_then digests 7 verify_email "1234" (0 + 10 * 60) 0 (wrong_code ∷ [])
code_run_guesses_example =
    code_run_guesses digests 0 7 verify_email "1234" 10 (wrong_code ∷ []) wrong_code no_codes
      empty_slots no_codes-Refines (wrong_code-IsWrong, tt) (omega arith)

abbrev entry : ℕ → LedgerEntry cents
entry n = record {
  id = n;
  user_id = 7;
  delta = 1;
  balance_after = n;
  kind = topup;
  ref_id = none;
  note = "";
  created_at = 100;
}

abbrev paid_thrice : Tables cents
paid_thrice = record no_wallets { ledger = entry 1 ∷ entry 2 ∷ entry 3 ∷ []; next_id = 4 }

abbrev page : List (LedgerEntry cents)
page = ledger cents 7 2 0 (some topup) (some 90) none paid_thrice

abbrev whole : Budget
whole = record {
  Amount = ℕ;
  nothing = 0;
  plus = λ a b. a + b;
  at_least = λ a b. leb b a;
  greater = λ a b. ltb b a;
}

abbrev key_of : ℕ → ℕ → ApiKey whole
key_of id owner = record {
  id = id;
  owner_id = owner;
  user_id = some 7;
  name = "laptop";
  key_prefix = "rk-ab";
  enabled = true;
  allowed_models = [];
  allowed_tags = [];
  quota = pos 100;
  used_quota = pos 40;
  rpm_limit = pos 0;
  tpm_limit = pos 0;
  budget = 0;
  used_budget = 0;
  note = none;
  expires_at = none;
  last_used_at = none;
  created_at = 5;
}

abbrev two_owners : ApiKeys whole
two_owners = ("a", key_of 1 1) ∷ ("b", key_of 2 2) ∷ ("c", key_of 3 1) ∷ []

abbrev calls : List KeyCall
calls = resets 2 1 ∷ enables_for_user 2 7 2 false ∷ deletes_all 2 ∷ []

others_call : All (λ c. caller c ≢ 1) calls
others_call = (omega arith, (omega arith, (omega arith, tt)))

list-key_steps_example : list whole 1 (key_steps whole calls two_owners) ≡ list whole 1 two_owners
list-key_steps_example = list-key_steps whole 1 calls two_owners others_call

both_are_listed :
    list whole 1 (key_steps whole calls two_owners) ≡ ("c", key_of 3 1) ∷ ("a", key_of 1 1) ∷ []
unfolding list delete_all set_enabled_for_user reset_usage
both_are_listed = refl

-- A backup of two keys, in place of the one that owner 1 has.
abbrev saved : String → String → ExportedApiKey whole
saved digest name = record {
  name = name;
  key_hash = digest;
  key_prefix = "rk-ab";
  enabled = true;
  allowed_models = "gpt" ∷ [];
  allowed_tags = [];
  quota = pos 100;
  used_quota = pos 40;
  rpm_limit = pos 60;
  tpm_limit = pos 0;
  budget = 5;
  used_budget = 2;
  note = none;
  expires_at = none;
  user_id = some 7;
}

abbrev backup : List (ExportedApiKey whole)
backup = saved "x" "laptop" ∷ saved "y" "phone" ∷ []

abbrev held : KeyTables whole
held = record { users = 7 ∷ []; keys = two_owners; next_id = 4 }

laptop-IsRestorable : IsRestorable whole (7 ∷ []) (saved "x" "laptop")
unfolding trim floor any
laptop-IsRestorable = record {
  trimmed = refl;
  named = refl;
  hashed = refl;
  rpm_kept = refl;
  tpm_kept = refl;
  budget_kept = refl;
  used_budget_kept = refl;
  known = refl;
}

phone-IsRestorable : IsRestorable whole (7 ∷ []) (saved "y" "phone")
unfolding trim floor any
phone-IsRestorable = record {
  trimmed = refl;
  named = refl;
  hashed = refl;
  rpm_kept = refl;
  tpm_kept = refl;
  budget_kept = refl;
  used_budget_kept = refl;
  known = refl;
}

x-ne-y : ◌≢◌ {A = String} "x" "y"
x-ne-y = ground (arith, (string_eq.beq_iff "x" "y").1)

both_are_new :
    All
      (λ e. has_digest whole e.key_hash (retain (λ r. not (is_owned whole 1 r)) two_owners) ≡ false)
      backup
unfolding has_digest is_owned retain
both_are_new = (refl, (refl, tt))

export-replace_all_example :
    ((replace_all whole 50 1 backup held).0 ≡ ok (2, []))
    × (export whole 1 (replace_all whole 50 1 backup held).1.keys ≡ backup)
export-replace_all_example =
    export-replace_all whole 50 1 backup held (laptop-IsRestorable, (phone-IsRestorable, tt))
      ((x-ne-y, tt), (tt, tt)) both_are_new
