-- ===== src/Store/Verification/Guesses.antt =====
-- Five wrong guesses lock a code (crates/refract-store/src/verification_repo.rs).
use refract.Base.{
  ℕ, suc, ◌+◌, ◌*◌, ◌<◌, ◌≡◌, refl, ap, ap₂, ◌∙◌, arith, false, List, [], ◌∷◌, ◌++◌, Option, none,
  some, String, ltb, leb, if◌then◌else◌, length, All, min, ==_refl,
}
use refract.Base.Maps.{string_eq, beq_refl}
use refract.Store.Verification.{
  CodePurpose, purpose_key, purpose_eq_iff, CodeVerifyOutcome, accepted, invalid, locked, Codes,
  Digests, max_attempts, hash_code,
}
use refract.Store.Verification.Slots.Answers.{run-Refines_slots}
use refract.Store.Verification.Slots.{
  Slot, Slots, Refines, Request, issue_code, verify_code, guess, guess_slot, with_slot, slot_step,
  slot_run, code_run,
}

-- A guess with the clocks' readings.
pub record Attempt : Type 0 where
  pub clock : ℕ
  pub now : ℕ
  pub code : String

-- What wrong guesses are answered, after a number of them.
unfoldable pub wrong_answers : ℕ → List Attempt → List (Option CodeVerifyOutcome)
wrong_answers n [] = []
wrong_answers n (g ∷ gs) =
    some (if leb max_attempts (n + 1) then locked else invalid) ∷ wrong_answers (n + 1) gs

module _ (d : Digests) (user : ℕ) (purpose : CodePurpose) (right : String) (end_at : ℕ) where
  -- A guess with another hash, before the end.
  abbrev pub IsWrong : Attempt → Type 0
  IsWrong g =
      (string_eq.beq (hash_code d user right) (hash_code d user g.code) ≡ false) × g.now < end_at

  abbrev pub attempts_then : List Attempt → Attempt → List Request
  attempts_then [] g = verify_code g.clock g.now user purpose right ∷ []
  attempts_then (w ∷ ws) g = verify_code w.clock w.now user purpose w.code ∷ attempts_then ws g

  -- All wrong guesses, and then the right one.
  abbrev pub answers_then : ℕ → List Attempt → List (Option CodeVerifyOutcome)
  answers_then n ws =
      wrong_answers n ws
      ++ some (if ltb (n + length ws) max_attempts then accepted else locked) ∷ []

  abbrev slot_after : ℕ → Slot
  slot_after n = record { code_hash = hash_code d user right; attempts = n; expires_at = end_at }

  guess_right :
      (now n : ℕ)
      → now < end_at
      → (guess now (hash_code d user right) (some (slot_after n))).0
        ≡ (if ltb n max_attempts then accepted else locked)
  unfolding guess guess_slot
  guess_right now n soon = ground (arith, soon, beq_refl (hash_code d user right))

  -- The count behind a wrong guess.
  abbrev counted : ℕ → ℕ
  counted n = if leb max_attempts n then n else n + 1

  guess_wrong :
      (w : Attempt) (n : ℕ)
      → IsWrong w
      → guess w.now (hash_code d user w.code) (some (slot_after n))
        ≡ (if leb max_attempts (n + 1) then locked else invalid, some (slot_after (counted n)))
  unfolding guess guess_slot
  guess_wrong w n wrong = ground (arith, wrong)

  same_slot : (s : Option Slot) (slots : Slots) → with_slot user purpose s slots user purpose ≡ s
  same_slot s slots = ground (arith, ==_refl user, purpose_eq_iff purpose purpose)

  slot_run_guesses :
      (ws : List Attempt) (g : Attempt) (slots : Slots) (n m : ℕ)
      → All IsWrong ws
      → g.now < end_at
      → slots user purpose ≡ some (slot_after n)
      → min n max_attempts ≡ min m max_attempts
      → slot_run d (attempts_then ws g) slots ≡ answers_then m ws
  unfolding slot_run slot_step wrong_answers
  slot_run_guesses [] g slots n m wrong soon e same =
      let answer =
        ap (λ s. (guess g.now (hash_code d user right) s).0) e ∙ guess_right g.now n soon in
      let fewer : ltb n max_attempts ≡ ltb (m + 0) max_attempts = ground (arith, same) in
      ap (λ a. some a ∷ []) (answer ∙ ap (λ b. if b then accepted else locked) fewer)
  slot_run_guesses (w ∷ ws) g slots n m wrong soon e same =
      let next = ap (guess w.now (hash_code d user w.code)) e ∙ guess_wrong w n wrong.0 in
      let slots' =
        with_slot user purpose (guess w.now (hash_code d user w.code) (slots user purpose)).1
          slots in
      let filled =
        same_slot (guess w.now (hash_code d user w.code) (slots user purpose)).1 slots
        ∙ ap (λ x. x.1) next in
      let more =
        slot_run_guesses ws g slots' (counted n) (m + 1) wrong.1 soon filled
          (ground (arith, same)) in
      let late : leb max_attempts (n + 1) ≡ leb max_attempts (m + 1) = ground (arith, same) in
      let longer : m + 1 + length ws ≡ m + suc (length ws) = omega arith in
      ap₂ ◌∷◌ (ap (λ x. some x.0) next ∙ ap (λ b. some (if b then locked else invalid)) late) (
        more
        ∙ ap
            (λ k.
              wrong_answers (m + 1) ws
              ++ some (if ltb k max_attempts then accepted else locked) ∷ [])
            longer)

-- After a code is issued, wrong guesses before its end are answered in turn: the first four are invalid and every later
-- one is locked. The right guess behind them, before the end, is accepted exactly if fewer than five were wrong. The
-- table may hold any codes before, with the slots it stands for.
pub code_run_guesses :
    (d : Digests) (clock user : ℕ) (purpose : CodePurpose) (right : String) (ttl : ℕ)
    (ws : List Attempt) (g : Attempt) (t : Codes) (slots : Slots)
    → Refines t slots
    → All (IsWrong d user purpose right (clock + ttl * 60)) ws
    → g.now < clock + ttl * 60
    → code_run d
        (issue_code clock user purpose right ttl
          ∷ attempts_then d user purpose right (clock + ttl * 60) ws g)
        t
      ≡ none ∷ answers_then d user purpose right (clock + ttl * 60) 0 ws
unfolding slot_run slot_step
code_run_guesses d clock user purpose right ttl ws g t slots h wrong soon =
    let end_at = clock + ttl * 60 in
    let rs = attempts_then d user purpose right end_at ws g in
    let fresh = some (slot_after d user purpose right end_at 0) in
    run-Refines_slots d (issue_code clock user purpose right ttl ∷ rs) t slots h
    ∙ ap (◌∷◌ none) (
        slot_run_guesses d user purpose right end_at ws g (with_slot user purpose fresh slots) 0 0
          wrong soon (same_slot d user purpose right end_at fresh slots) refl)
