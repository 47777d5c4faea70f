-- ===== src/Store/Verification/Rows.antt =====
-- What the updates of the table of codes do to the open rows (crates/refract-store/src/verification_repo.rs).
use refract.Base.{
  ℕ, ◌<◌, ◌≤◌, ◌≡◌, refl, sym, ap₂, ◌∙◌, subst, arith, Bool, true, false, ◌&&◌, List, [], ◌∷◌,
  Option, none, some, ◌==◌, if◌then◌else◌, is_none, Bool-cases, inl, inr,
}
use refract.Store.Verification.{
  CodePurpose, VerificationCode, purpose_eq, purpose_eq_iff, is_of, is_open, consume_open, latest,
  update_row, bump, consume,
}

-- The open row of a user and a purpose.
abbrev pub open_row : ℕ → CodePurpose → List VerificationCode → Option VerificationCode
open_row user purpose rows = latest (is_open user purpose) rows

-- The keys fall from row to row, below a bound.
abbrev pub KeysFall : ℕ → List VerificationCode → Type 0
KeysFall bound [] = Unit
KeysFall bound (r ∷ rs) = r.id < bound × KeysFall r.id rs

-- No user has two open rows for one purpose.
abbrev pub IsSingle : List VerificationCode → Type 0
IsSingle [] = Unit
IsSingle (r ∷ rs) =
    ((is_none r.consumed_at ≡ true) → open_row r.user_id r.purpose rs ≡ none) × IsSingle rs

abbrev pub same_key : ℕ → CodePurpose → ℕ → CodePurpose → Bool
same_key user purpose other other_purpose = user == other && purpose_eq purpose other_purpose

pub KeysFall-mono :
    (a b : ℕ) (rows : List VerificationCode) → a ≤ b → KeysFall a rows → KeysFall b rows
KeysFall-mono a b [] h k = tt
KeysFall-mono a b (r ∷ rs) h k = (omega (arith, h, k.0), k.1)

pub consume_open-KeysFall :
    (clock user : ℕ) (purpose : CodePurpose) (bound : ℕ) (rows : List VerificationCode)
    → KeysFall bound rows
    → KeysFall bound (consume_open clock user purpose rows)
unfolding consume_open
consume_open-KeysFall clock user purpose bound [] k = tt
consume_open-KeysFall clock user purpose bound (r ∷ rs) k =
    ground (arith, k, consume_open-KeysFall clock user purpose r.id rs k.1)

-- Only the rows of the user and the purpose are closed.
pub open_row-consume_open :
    (clock user other : ℕ) (purpose other_purpose : CodePurpose) (rows : List VerificationCode)
    → open_row other other_purpose (consume_open clock user purpose rows) ≡ (
        if same_key user purpose other other_purpose
        then none
        else open_row other other_purpose rows)
unfolding consume_open latest is_open is_of
open_row-consume_open clock user other purpose other_purpose [] = ground arith
open_row-consume_open clock user other purpose other_purpose (r ∷ rs) = ground (
  arith,
  open_row-consume_open clock user other purpose other_purpose rs,
  purpose_eq_iff r.purpose purpose,
  purpose_eq_iff r.purpose other_purpose,
  purpose_eq_iff purpose other_purpose,
)

pub consume_open-IsSingle :
    (clock user : ℕ) (purpose : CodePurpose) (rows : List VerificationCode)
    → IsSingle rows
    → IsSingle (consume_open clock user purpose rows)
unfolding consume_open is_open is_of
consume_open-IsSingle clock user purpose [] s = tt
consume_open-IsSingle clock user purpose (r ∷ rs) s = ground (
  arith,
  s,
  consume_open-IsSingle clock user purpose rs s.1,
  open_row-consume_open clock user r.user_id purpose r.purpose rs,
)

-- The row found is open and has a key below the bound.
pub open_row-key :
    (user : ℕ) (purpose : CodePurpose) (bound : ℕ) (rows : List VerificationCode)
    (r : VerificationCode)
    → KeysFall bound rows
    → open_row user purpose rows ≡ some r
    → (r.id < bound) × (is_open user purpose r ≡ true)
unfolding latest
open_row-key user purpose bound [] r k h = cc
open_row-key user purpose bound (x ∷ xs) r k h = elim (Bool-cases (is_open user purpose x)) [
  | inl e ↦ ground (arith, e, h, k)
  | inr e ↦ ground (arith, e, h, k, open_row-key user purpose x.id xs r k.1)
]

-- A key that no row has is not updated.
pub update_row_above :
    (id bound : ℕ) (f : VerificationCode → VerificationCode) (rows : List VerificationCode)
    → KeysFall bound rows
    → bound ≤ id
    → update_row id f rows ≡ rows
unfolding update_row
update_row_above id bound f [] k h = refl
update_row_above id bound f (r ∷ rs) k h = ground (arith, k, h, update_row_above id r.id f rs k.1)

-- Only the open row with the key is updated.
pub open_row-bump :
    (user other : ℕ) (purpose other_purpose : CodePurpose) (bound : ℕ)
    (rows : List VerificationCode) (r : VerificationCode)
    → KeysFall bound rows
    → open_row user purpose rows ≡ some r
    → open_row other other_purpose (update_row r.id bump rows) ≡ (
        if same_key user purpose other other_purpose
        then some (bump r)
        else open_row other other_purpose rows)
unfolding update_row latest is_open is_of
open_row-bump user other purpose other_purpose bound [] r k h = cc
open_row-bump user other purpose other_purpose bound (x ∷ xs) r k h =
    elim (Bool-cases (is_open user purpose x)) [
      | inl e ↦
          let same : r ≡ x = ground (arith, e, h) in
          ground (
            arith,
            e,
            k,
            same,
            update_row_above r.id x.id bump xs k.1 (ground (arith, same)),
            purpose_eq_iff x.purpose purpose,
            purpose_eq_iff x.purpose other_purpose,
            purpose_eq_iff purpose other_purpose,
          )
      | inr e ↦
          let found : open_row user purpose xs ≡ some r = ground (arith, e, h) in
          ground (
            arith,
            e,
            k,
            open_row-key user purpose x.id xs r k.1 found,
            open_row-bump user other purpose other_purpose x.id xs r k.1 found,
            purpose_eq_iff x.purpose purpose,
            purpose_eq_iff x.purpose other_purpose,
            purpose_eq_iff purpose other_purpose,
          )
    ]

pub open_row-consume :
    (clock user other : ℕ) (purpose other_purpose : CodePurpose) (bound : ℕ)
    (rows : List VerificationCode) (r : VerificationCode)
    → KeysFall bound rows
    → IsSingle rows
    → open_row user purpose rows ≡ some r
    → open_row other other_purpose (update_row r.id (consume clock) rows) ≡ (
        if same_key user purpose other other_purpose
        then none
        else open_row other other_purpose rows)
unfolding update_row latest is_open is_of
open_row-consume clock user other purpose other_purpose bound [] r k s h = cc
open_row-consume clock user other purpose other_purpose bound (x ∷ xs) r k s h =
    elim (Bool-cases (is_open user purpose x)) [
      | inl e ↦
          let same : r ≡ x = ground (arith, e, h) in
          ground (
            arith,
            e,
            k,
            s,
            same,
            update_row_above r.id x.id (consume clock) xs k.1 (ground (arith, same)),
            purpose_eq_iff x.purpose purpose,
            purpose_eq_iff x.purpose other_purpose,
            purpose_eq_iff purpose other_purpose,
          )
      | inr e ↦
          let found : open_row user purpose xs ≡ some r = ground (arith, e, h) in
          ground (
            arith,
            e,
            k,
            open_row-key user purpose x.id xs r k.1 found,
            open_row-consume clock user other purpose other_purpose x.id xs r k.1 s.1 found,
            purpose_eq_iff x.purpose purpose,
            purpose_eq_iff x.purpose other_purpose,
            purpose_eq_iff purpose other_purpose,
          )
    ]

-- A change of a row that keeps its keys and opens nothing.
abbrev pub Keeps : (VerificationCode → VerificationCode) → Type 0
Keeps f =
    (r : VerificationCode)
    → ((f r).id ≡ r.id)
      × ((f r).user_id ≡ r.user_id)
      × ((f r).purpose ≡ r.purpose)
      × ((is_none (f r).consumed_at ≡ true) → is_none r.consumed_at ≡ true)

pub bump-Keeps : Keeps bump
bump-Keeps r = (refl, refl, refl, λ h. h)

pub consume-Keeps : (clock : ℕ) → Keeps (consume clock)
consume-Keeps clock r = (refl, refl, refl, λ h. cc)

update_row-none :
    (id user : ℕ) (purpose : CodePurpose) (f : VerificationCode → VerificationCode)
    (rows : List VerificationCode)
    → Keeps f
    → open_row user purpose rows ≡ none
    → open_row user purpose (update_row id f rows) ≡ none
unfolding update_row latest is_open is_of
update_row-none id user purpose f [] p h = refl
update_row-none id user purpose f (r ∷ rs) p h =
    ground (arith, h, p r, update_row-none id user purpose f rs p)

Keeps-if :
    (b : Bool) (f : VerificationCode → VerificationCode)
    → Keeps f
    → Keeps (λ r. if b then f r else r)
Keeps-if true f p r = p r
Keeps-if false f p r = (refl, refl, refl, λ h. h)

pub update_row-KeysFall :
    (id bound : ℕ) (f : VerificationCode → VerificationCode) (rows : List VerificationCode)
    → Keeps f
    → KeysFall bound rows
    → KeysFall bound (update_row id f rows)
unfolding update_row
update_row-KeysFall id bound f [] p k = tt
update_row-KeysFall id bound f (r ∷ rs) p k =
    let same = (Keeps-if (r.id == id) f p r).0 in
    (
      subst (λ i. i < bound) (sym same) k.0,
      subst (λ i. KeysFall i (update_row id f rs)) (sym same)
          (update_row-KeysFall id r.id f rs p k.1),
    )

pub update_row-IsSingle :
    (id : ℕ) (f : VerificationCode → VerificationCode) (rows : List VerificationCode)
    → Keeps f
    → IsSingle rows
    → IsSingle (update_row id f rows)
unfolding update_row
update_row-IsSingle id f [] p s = tt
update_row-IsSingle id f (r ∷ rs) p s =
    let (key, user, purpose, opened) = Keeps-if (r.id == id) f p r in
    (
      (λ h.
          ap₂ (λ u q. open_row u q (update_row id f rs)) user purpose
          ∙ update_row-none id r.user_id r.purpose f rs p (s.0 (opened h))),
      update_row-IsSingle id f rs p s.1,
    )
