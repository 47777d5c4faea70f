-- ===== src/Store/Verification.antt =====
-- Codes for the verification of mail and the reset of passwords (crates/refract-store/src/verification_repo.rs). The rows
-- of the table `verification_codes` are listed from the highest key on, a time is a number of seconds, and the clocks'
-- readings are arguments: one of the database and one of the caller.
pub mod Rows
pub mod Slots
pub mod Guesses
use Prim.Native.String.{◌++◌ as append_text}
use refract.Base.{
  ℕ, zero, suc, ◌+◌, ◌*◌, ◌≡◌, ◌↔◌, refl, arith, Bool, true, false, not, ◌&&◌, List, [], ◌∷◌,
  Option, none, some, String, ◌==◌, leb, ltb, if◌then◌else◌, is_none,
}
use refract.Base.Maps.{Eq, string_eq}

pub data CodePurpose : Type 0 where
  verify_email reset_password : CodePurpose

-- `CodePurpose::as_str` and `from_str`.
unfoldable pub as_str : CodePurpose → String
as_str verify_email = "verify_email"
as_str reset_password = "reset_password"

unfoldable pub from_str : String → Option CodePurpose
from_str s =
    if string_eq.beq s "verify_email"
    then some verify_email
    else if string_eq.beq s "reset_password"
    then some reset_password
    else none

pub data CodeVerifyOutcome : Type 0 where
  accepted invalid expired locked : CodeVerifyOutcome

pub record VerificationCode : Type 0 where
  pub id : ℕ
  pub user_id : ℕ
  pub purpose : CodePurpose
  pub code_hash : String
  pub attempts : ℕ
  pub expires_at : ℕ
  pub consumed_at : Option ℕ
  pub created_at : ℕ

pub record Codes : Type 0 where
  pub rows : List VerificationCode
  pub next_id : ℕ

-- SHA-256 in hexadecimal digits, and the decimal digits of a number.
pub record Digests : Type 0 where
  pub sha256_hex : String → String
  pub decimal : ℕ → String

abbrev pub purpose_eq : CodePurpose → CodePurpose → Bool
purpose_eq verify_email verify_email = true
purpose_eq verify_email reset_password = false
purpose_eq reset_password verify_email = false
purpose_eq reset_password reset_password = true

pub purpose_eq_iff : (a b : CodePurpose) → (purpose_eq a b ≡ true) ↔ (a ≡ b)
purpose_eq_iff verify_email verify_email = ground arith
purpose_eq_iff verify_email reset_password = ground arith
purpose_eq_iff reset_password verify_email = ground arith
purpose_eq_iff reset_password reset_password = ground arith

instance abbrev pub purpose_key : Eq CodePurpose
purpose_key = record { beq = purpose_eq; beq_iff = purpose_eq_iff }

-- Whether a row is the user's and for the purpose, and not consumed.
unfoldable pub is_of : ℕ → CodePurpose → VerificationCode → Bool
is_of user purpose r = r.user_id == user && purpose_eq r.purpose purpose

unfoldable pub is_open : ℕ → CodePurpose → VerificationCode → Bool
unfolding is_of
is_open user purpose r = is_of user purpose r && is_none r.consumed_at

-- The first `UPDATE` of `issue`.
unfoldable pub consume_open : ℕ → ℕ → CodePurpose → List VerificationCode → List VerificationCode
unfolding is_open
consume_open clock user purpose [] = []
consume_open clock user purpose (r ∷ rs) =
    (if is_open user purpose r then record r { consumed_at = some clock } else r)
    ∷ consume_open clock user purpose rs

-- The row of the highest key that passes a test.
unfoldable pub latest : (VerificationCode → Bool) → List VerificationCode → Option VerificationCode
latest p [] = none
latest p (r ∷ rs) = let rest = latest p rs in if p r then some r else rest

-- `UPDATE … WHERE id = ?`.
unfoldable pub update_row :
    ℕ → (VerificationCode → VerificationCode) → List VerificationCode → List VerificationCode
update_row id f [] = []
update_row id f (r ∷ rs) = (if r.id == id then f r else r) ∷ update_row id f rs

unfoldable pub latest_created_at : ℕ → CodePurpose → Codes → Option ℕ
unfolding latest is_of
latest_created_at user purpose t = elim (latest (is_of user purpose) t.rows) [
  | none ↦ none
  | some r ↦ some r.created_at
]

unfoldable pub latest_code_hash_for_dev : ℕ → Codes → Option String
unfolding latest
latest_code_hash_for_dev user t =
    elim (latest (λ r. r.user_id == user && is_none r.consumed_at) t.rows) [
      | none ↦ none
      | some r ↦ some r.code_hash
    ]

abbrev pub max_attempts : ℕ
max_attempts = 5

abbrev pub bump : VerificationCode → VerificationCode
bump r = record r { attempts = r.attempts + 1 }

abbrev pub consume : ℕ → VerificationCode → VerificationCode
consume clock r = record r { consumed_at = some clock }

module _ (d : Digests) where
  unfoldable pub hash_code : ℕ → String → String
  hash_code user code = d.sha256_hex (append_text (d.decimal user) (append_text ":" code))

  -- `VerificationRepo::issue`: one transaction.
  unfoldable pub issue : ℕ → ℕ → CodePurpose → String → ℕ → Codes → Codes
  unfolding consume_open hash_code
  issue clock user purpose code ttl_minutes t = record {
    rows =
        (record {
          id = t.next_id;
          user_id = user;
          purpose = purpose;
          code_hash = hash_code user code;
          attempts = 0;
          expires_at = clock + ttl_minutes * 60;
          consumed_at = none;
          created_at = clock;
        })
        ∷ consume_open clock user purpose t.rows;
    next_id = t.next_id + 1;
  }

  -- What a row that is open answers to a code, and the rows behind it.
  unfoldable pub verify_row : ℕ → ℕ → String → VerificationCode → Codes → CodeVerifyOutcome × Codes
  unfolding update_row
  verify_row clock now hash r t =
      if leb max_attempts r.attempts
      then (locked, t)
      else if leb r.expires_at now
      then (expired, t)
      else if not (string_eq.beq r.code_hash hash)
      then (
        if leb max_attempts (r.attempts + 1) then locked else invalid,
        record t { rows = update_row r.id bump t.rows },
      )
      else (accepted, record t { rows = update_row r.id (consume clock) t.rows })

  -- `VerificationRepo::verify`.
  unfoldable pub verify : ℕ → ℕ → ℕ → CodePurpose → String → Codes → CodeVerifyOutcome × Codes
  unfolding latest is_open verify_row hash_code
  verify clock now user purpose code t = elim (latest (is_open user purpose) t.rows) [
    | none ↦ (invalid, t)
    | some r ↦ verify_row clock now (hash_code user code) r t
  ]
