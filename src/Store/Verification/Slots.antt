-- ===== src/Store/Verification/Slots.antt =====
-- The table of codes refines one slot for each user and purpose (crates/refract-store/src/verification_repo.rs).
pub mod Answers
use refract.Base.{
  ℕ, ◌+◌, ◌*◌, ◌≡◌, refl, sym, ap, ap₂, ◌∙◌, subst, arith, List, [], ◌∷◌, Option, none, some,
  String, leb, if◌then◌else◌, Bool-cases, Option-cases, inl, inr,
}
use refract.Base.Maps.{nat_eq, pair_eq, string_eq}
use refract.Store.Verification.{
  CodePurpose, purpose_key, purpose_eq_iff, CodeVerifyOutcome, accepted, invalid, expired, locked,
  VerificationCode, Codes, Digests, is_of, is_open, consume_open, latest, update_row, bump, consume,
  max_attempts, hash_code, issue, verify_row, verify,
}
use refract.Store.Verification.Rows.{
  open_row, KeysFall, IsSingle, same_key, consume_open-KeysFall, open_row-consume_open,
  consume_open-IsSingle, open_row-bump, open_row-consume, bump-Keeps, consume-Keeps,
  update_row-KeysFall, update_row-IsSingle,
}

-- The code that is open for a user and a purpose: its hash, the wrong guesses and its end.
pub record Slot : Type 0 where
  pub code_hash : String
  pub attempts : ℕ
  pub expires_at : ℕ

-- A guess: after five wrong ones the slot is locked, after its end it has expired, a wrong one is counted, and the right
-- one empties the slot.
unfoldable pub guess_slot : ℕ → String → Slot → CodeVerifyOutcome × Option Slot
guess_slot now hash s =
    if leb max_attempts s.attempts
    then (locked, some s)
    else if leb s.expires_at now
    then (expired, some s)
    else if string_eq.beq s.code_hash hash
    then (accepted, none)
    else (
      if leb max_attempts (s.attempts + 1) then locked else invalid,
      some (record s { attempts = s.attempts + 1 }),
    )

unfoldable pub guess : ℕ → String → Option Slot → CodeVerifyOutcome × Option Slot
unfolding guess_slot
guess now hash none = (invalid, none)
guess now hash (some s) = guess_slot now hash s

abbrev pub Slots : Type 0
Slots = ℕ → CodePurpose → Option Slot

-- One slot changed.
abbrev pub with_slot : ℕ → CodePurpose → Option Slot → Slots → Slots
with_slot user purpose s slots other other_purpose =
    if same_key user purpose other other_purpose then s else slots other other_purpose

-- The requests, with the clocks' readings.
pub data Request : Type 0 where
  issue_code : ℕ → ℕ → CodePurpose → String → ℕ → Request
  verify_code : ℕ → ℕ → ℕ → CodePurpose → String → Request

abbrev pub slot_of : VerificationCode → Slot
slot_of r = record { code_hash = r.code_hash; attempts = r.attempts; expires_at = r.expires_at }

abbrev pub slot_if : Option VerificationCode → Option Slot
slot_if none = none
slot_if (some r) = some (slot_of r)

-- The slots that the rows stand for.
abbrev pub view : List VerificationCode → Slots
view rows user purpose = slot_if (open_row user purpose rows)

abbrev pub Refines : Codes → Slots → Type 0
Refines t slots =
    KeysFall t.next_id t.rows
    × IsSingle t.rows
    × ((user : ℕ) (purpose : CodePurpose) → view t.rows user purpose ≡ slots user purpose)

module _ (d : Digests) where
  unfoldable pub slot_step : Request → Slots → Option CodeVerifyOutcome × Slots
  unfolding guess hash_code
  slot_step (issue_code clock user purpose code ttl) slots = (
    none,
    with_slot user purpose
        (some (record {
          code_hash = hash_code d user code;
          attempts = 0;
          expires_at = clock + ttl * 60;
        }))
        slots,
  )
  slot_step (verify_code clock now user purpose code) slots =
      let (answer, s) = guess now (hash_code d user code) (slots user purpose) in
      (some answer, with_slot user purpose s slots)

  unfoldable pub code_step : Request → Codes → Option CodeVerifyOutcome × Codes
  unfolding issue verify
  code_step (issue_code clock user purpose code ttl) t =
      (none, issue d clock user purpose code ttl t)
  code_step (verify_code clock now user purpose code) t =
      let (answer, t') = verify d clock now user purpose code t in (some answer, t')

  unfoldable pub slot_run : List Request → Slots → List (Option CodeVerifyOutcome)
  unfolding slot_step
  slot_run [] slots = []
  slot_run (r ∷ rs) slots = let (a, slots') = slot_step r slots in a ∷ slot_run rs slots'

  unfoldable pub code_run : List Request → Codes → List (Option CodeVerifyOutcome)
  unfolding code_step
  code_run [] t = []
  code_run (r ∷ rs) t = let (a, t') = code_step r t in a ∷ code_run rs t'
