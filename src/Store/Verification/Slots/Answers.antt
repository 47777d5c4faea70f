-- ===== src/Store/Verification/Slots/Answers.antt =====
-- The table of codes answers as the slots do (crates/refract-store/src/verification_repo.rs, `issue` and `verify`).
use refract.Base.{
  ℕ, ◌+◌, ◌*◌, ◌≡◌, refl, sym, ap, ap₂, ◌∙◌, subst, arith, List, [], ◌∷◌, Option, none, some,
  String, leb, if◌then◌else◌, Bool-cases, Option-cases, inl, inr,
}
use refract.Base.Maps.{nat_eq, pair_eq, string_eq}
use refract.Store.Verification.{
  CodePurpose, purpose_key, purpose_eq_iff, CodeVerifyOutcome, accepted, invalid, expired, locked,
  VerificationCode, Codes, Digests, is_of, is_open, consume_open, latest, update_row, bump, consume,
  max_attempts, hash_code, issue, verify_row, verify,
}
use refract.Store.Verification.Rows.{
  open_row, same_key, consume_open-KeysFall, open_row-consume_open, consume_open-IsSingle,
  open_row-bump, open_row-consume, bump-Keeps, consume-Keeps, update_row-KeysFall,
  update_row-IsSingle,
}
use refract.Store.Verification.Slots.{
  Slot, guess_slot, guess, Slots, with_slot, Request, issue_code, verify_code, slot_of, slot_if,
  view, Refines, slot_step, code_step, slot_run, code_run,
}

with_slot_cong :
    (user other : ℕ) (purpose other_purpose : CodePurpose) (s : Option Slot) (slots : Slots)
    (x : Option VerificationCode) (rows : List VerificationCode) (y : Option VerificationCode)
    → x
      ≡ (if same_key user purpose other other_purpose then y else open_row other other_purpose rows)
    → slot_if y ≡ s
    → view rows other other_purpose ≡ slots other other_purpose
    → slot_if x ≡ with_slot user purpose s slots other other_purpose
with_slot_cong user other purpose other_purpose s slots x rows y a b c =
    elim (Bool-cases (same_key user purpose other other_purpose)) [
      | inl e ↦
          ap slot_if (a ∙ ap (λ z. if z then y else open_row other other_purpose rows) e)
          ∙ b
          ∙ sym (ap (λ z. if z then s else slots other other_purpose) e)
      | inr e ↦
          ap slot_if (a ∙ ap (λ z. if z then y else open_row other other_purpose rows) e)
          ∙ c
          ∙ sym (ap (λ z. if z then s else slots other other_purpose) e)
    ]

-- The row that is found, as the rows behind an update show it.
kept_row :
    (user other : ℕ) (purpose other_purpose : CodePurpose) (rows : List VerificationCode)
    (x : Option VerificationCode)
    → open_row user purpose rows ≡ x
    → open_row other other_purpose rows
      ≡ (if same_key user purpose other other_purpose then x else open_row other other_purpose rows)
kept_row user other purpose other_purpose rows x f =
    ground (arith, f, purpose_eq_iff purpose other_purpose)

-- An answer and the rows behind it agree with an answer and the slot behind it.
abbrev Agrees :
    ℕ → CodePurpose → Slots → CodeVerifyOutcome × Codes → CodeVerifyOutcome × Option Slot → Type 0
Agrees user purpose slots x y = (x.0 ≡ y.0) × Refines x.1 (with_slot user purpose y.1 slots)

Agrees-from :
    (user : ℕ) (purpose : CodePurpose) (slots : Slots) (x x' : CodeVerifyOutcome × Codes)
    (y y' : CodeVerifyOutcome × Option Slot)
    → x ≡ x'
    → y ≡ y'
    → Agrees user purpose slots x' y'
    → Agrees user purpose slots x y
Agrees-from user purpose slots x x' y y' a b h =
    subst (λ z. Agrees user purpose slots z y) (sym a)
      (subst (λ z. Agrees user purpose slots x' z) (sym b) h)

-- What each update of the open row leaves of the slots.
module _ (user : ℕ) (purpose : CodePurpose) (r : VerificationCode) (t : Codes) (slots : Slots)
    (h : Refines t slots) (f : open_row user purpose t.rows ≡ some r) where
  kept-Refines : Refines t (with_slot user purpose (some (slot_of r)) slots)
  kept-Refines = (
    h.0,
    h.1,
    λ u q.
        with_slot_cong user u purpose q (some (slot_of r)) slots (open_row u q t.rows) t.rows
          (some r) (kept_row user u purpose q t.rows (some r) f) refl (h.2 u q),
  )

  bump-Refines :
      Refines
        (record t { rows = update_row r.id bump t.rows })
        (with_slot user purpose (some (slot_of (bump r))) slots)
  bump-Refines = (
    update_row-KeysFall r.id t.next_id bump t.rows bump-Keeps h.0,
    update_row-IsSingle r.id bump t.rows bump-Keeps h.1,
    λ u q.
        with_slot_cong user u purpose q (some (slot_of (bump r))) slots
          (open_row u q (update_row r.id bump t.rows)) t.rows (some (bump r))
          (open_row-bump user u purpose q t.next_id t.rows r h.0 f) refl (h.2 u q),
  )

  consume-Refines :
      (clock : ℕ)
      → Refines
          (record t { rows = update_row r.id (consume clock) t.rows })
          (with_slot user purpose none slots)
  consume-Refines clock = (
    update_row-KeysFall r.id t.next_id (consume clock) t.rows (consume-Keeps clock) h.0,
    update_row-IsSingle r.id (consume clock) t.rows (consume-Keeps clock) h.1,
    λ u q.
        with_slot_cong user u purpose q none slots
          (open_row u q (update_row r.id (consume clock) t.rows)) t.rows none
          (open_row-consume clock user u purpose q t.next_id t.rows r h.0 h.1 f) refl (h.2 u q),
  )

module _ (d : Digests) where
  issue-Refines :
      (clock user : ℕ) (purpose : CodePurpose) (code : String) (ttl : ℕ) (t : Codes) (slots : Slots)
      → Refines t slots
      → Refines
          (code_step d (issue_code clock user purpose code ttl) t).1
          (slot_step d (issue_code clock user purpose code ttl) slots).1
  unfolding code_step slot_step issue latest is_open is_of
  issue-Refines clock user purpose code ttl t slots (k, s, v) =
      let closed =
        λ (u : ℕ) (q : CodePurpose). open_row-consume_open clock user u purpose q t.rows in
      let new : VerificationCode = record {
        id = t.next_id;
        user_id = user;
        purpose = purpose;
        code_hash = hash_code d user code;
        attempts = 0;
        expires_at = clock + ttl * 60;
        consumed_at = none;
        created_at = clock;
      } in
      let rest = consume_open clock user purpose t.rows in
      (
        (omega arith, consume_open-KeysFall clock user purpose t.next_id t.rows k),
        (
          (λ h. ground (arith, closed user purpose, purpose_eq_iff purpose purpose)),
          consume_open-IsSingle clock user purpose t.rows s,
        ),
        λ u q.
            with_slot_cong user u purpose q (some (slot_of new)) slots (open_row u q (new ∷ rest))
              t.rows (some new) (ground (arith, closed u q)) refl (v u q),
      )

  -- The verification of a row, whatever it answers.
  verify_row-Agrees :
      (clock now user : ℕ) (purpose : CodePurpose) (hash : String) (r : VerificationCode)
      (t : Codes) (slots : Slots)
      → Refines t slots
      → open_row user purpose t.rows ≡ some r
      → Agrees user purpose slots
          (verify_row d clock now hash r t)
          (guess_slot now hash (slot_of r))
  unfolding verify_row guess_slot
  verify_row-Agrees clock now user purpose hash r t slots h f =
      let agree = Agrees-from user purpose slots (verify_row d clock now hash r t) in
      let guessed = guess_slot now hash (slot_of r) in
      let kept = kept-Refines user purpose r t slots h f in
      let late = if leb max_attempts (r.attempts + 1) then locked else invalid in
      elim (Bool-cases (leb max_attempts r.attempts)) [
        | inl a ↦
            agree (locked, t) guessed (locked, some (slot_of r)) (ground (arith, a))
              (ground (arith, a)) (refl, kept)
        | inr a ↦ elim (Bool-cases (leb r.expires_at now)) [
          | inl b ↦
              agree (expired, t) guessed (expired, some (slot_of r)) (ground (arith, a, b))
                (ground (arith, a, b)) (refl, kept)
          | inr b ↦ elim (Bool-cases (string_eq.beq r.code_hash hash)) [
            | inl c ↦
                agree (accepted, record t { rows = update_row r.id (consume clock) t.rows }) guessed
                  (accepted, none) (ground (arith, a, b, c)) (ground (arith, a, b, c))
                  (refl, consume-Refines user purpose r t slots h f clock)
            | inr c ↦
                agree (late, record t { rows = update_row r.id bump t.rows }) guessed
                  (late, some (slot_of (bump r))) (ground (arith, a, b, c))
                  (ground (arith, a, b, c)) (refl, bump-Refines user purpose r t slots h f)
          ]
        ]
      ]

  verify-Agrees :
      (clock now user : ℕ) (purpose : CodePurpose) (code : String) (t : Codes) (slots : Slots)
      → Refines t slots
      → Agrees user purpose slots
          (verify d clock now user purpose code t)
          (guess now (hash_code d user code) (slots user purpose))
  unfolding verify guess
  verify-Agrees clock now user purpose code t slots h =
      let hash = hash_code d user code in
      let seen = h.2 user purpose in
      elim (Option-cases (open_row user purpose t.rows)) [
        | inl f ↦
            let empty : slots user purpose ≡ none = sym seen ∙ ap slot_if f in
            Agrees-from user purpose slots (verify d clock now user purpose code t) (invalid, t)
              (guess now hash (slots user purpose)) (invalid, none) (ground (arith, f))
              (ap (guess now hash) empty)
              (
                refl,
                (
                  h.0,
                  h.1,
                  λ u q.
                      with_slot_cong user u purpose q none slots (open_row u q t.rows) t.rows none
                        (kept_row user u purpose q t.rows none f) refl (h.2 u q),
                ),
              )
        | inr (r, f) ↦
            let full : slots user purpose ≡ some (slot_of r) = sym seen ∙ ap slot_if f in
            Agrees-from user purpose slots (verify d clock now user purpose code t)
              (verify_row d clock now hash r t) (guess now hash (slots user purpose))
              (guess_slot now hash (slot_of r)) (ground (arith, f)) (ap (guess now hash) full)
              (verify_row-Agrees clock now user purpose hash r t slots h f)
      ]

  step-Refines :
      (r : Request) (t : Codes) (slots : Slots)
      → Refines t slots
      → ((code_step d r t).0 ≡ (slot_step d r slots).0)
        × Refines (code_step d r t).1 (slot_step d r slots).1
  unfolding code_step slot_step
  step-Refines (issue_code clock user purpose code ttl) t slots h =
      (refl, issue-Refines clock user purpose code ttl t slots h)
  step-Refines (verify_code clock now user purpose code) t slots h =
      let (a, b) = verify-Agrees clock now user purpose code t slots h in (ap some a, b)

  -- A table of codes that stands for some slots answers any requests as the slots do: each issue fills the slot of
  -- its user and purpose, and each verification is a guess at that slot.
  pub run-Refines_slots :
      (rs : List Request) (t : Codes) (slots : Slots)
      → Refines t slots
      → code_run d rs t ≡ slot_run d rs slots
  unfolding code_run slot_run
  run-Refines_slots [] t slots h = refl
  run-Refines_slots (r ∷ rs) t slots h =
      let (a, b) = step-Refines r t slots h in
      ap₂ ◌∷◌ a (run-Refines_slots rs (code_step d r t).1 (slot_step d r slots).1 b)
