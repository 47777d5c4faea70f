-- ===== src/Api/Rate/Limit.antt =====
-- The limit of requests over a minute (crates/refract-api/src/rate.rs).
use refract.Base.{
  ℕ, ◌+◌, ◌*◌, ◌/◌, ◌^◌, ◌≤◌, ◌<◌, ◌≡◌, arith, true, false, List, [], ◌∷◌, if◌then◌else◌, Result,
  ok, err, ℤ, pos_part, ◌⊎◌, ◌↔◌, sym, All, subst,
}
use refract.Base.Maps.{Eq}
use refract.Base.Keyed.{IsKeyed}
use refract.Api.Rate.{Window, RateExceeded, admit_window, admit, add_tokens}
use refract.Api.Rate.Windows.{
  used_at, passes, admit_at-verdict, admit_at-used, admit_at-IsKeyed, add_tokens_at-used,
  add_tokens_at-IsKeyed,
}

-- A refused request is told to come back at the start of the next minute, in 1 to 60 seconds.
exceeded-retry_after :
    (w : Window) (rpm tpm : ℤ) (now : ℕ) (x : RateExceeded)
    → (admit_window w rpm tpm now).0 ≡ err x
    → (1 ≤ x.retry_after_secs)
      × (x.retry_after_secs ≤ 60)
      × (now + x.retry_after_secs ≡ (now / 60 + 1) * 60)
unfolding admit_window
exceeded-retry_after w rpm tpm now x h = ground arith

pub data Event {ℓ} (K : Type ℓ) : Type ℓ where
  requested : K → ℤ → ℤ → ℕ → Event K
  reported : K → ℕ → ℕ → Event K

abbrev passed : Result {0, 0} Unit RateExceeded → ℕ
passed (ok u) = 1
passed (err x) = 0

module _ {ℓ} {K : Type ℓ} ⦃e : Eq K⦄ where
  -- The requests of a key that pass in a run.
  unfoldable pub admitted : K → List (K × Window) → List (Event K) → ℕ
  admitted k ws [] = 0
  admitted k ws (requested j rpm tpm now ∷ es) =
      let (verdict, ws') = admit ws j rpm tpm now in
      (if e.beq j k then passed verdict else 0) + admitted k ws' es
  admitted k ws (reported j tokens now ∷ es) = admitted k (add_tokens ws j tokens now) es

  -- All the events are in one minute, and the requests of the key carry one limit.
  abbrev pub InMinute : K → ℤ → ℕ → Event K → Type 0
  InMinute k rpm minute (requested j r tpm now) =
      (now / 60 ≡ minute) × ((e.beq j k ≡ false) ⊎ (r ≡ rpm))
  InMinute k rpm minute (reported j tokens now) = now / 60 ≡ minute

  admit_other :
      (ws : List (K × Window)) (k j : K) (rpm tpm : ℤ) (now : ℕ)
      → IsKeyed ws
      → e.beq j k ≡ false
      → used_at (admit ws j rpm tpm now).1 k (now / 60) ≡ used_at ws k (now / 60)
  unfolding admit
  admit_other ws k j rpm tpm now d h = ground (arith, admit_at-used ws j k rpm tpm now d)

  admit-IsKeyed :
      (ws : List (K × Window)) (k : K) (rpm tpm : ℤ) (now : ℕ)
      → IsKeyed ws
      → IsKeyed (admit ws k rpm tpm now).1
  unfolding admit
  admit-IsKeyed ws k rpm tpm now d = ground (arith, admit_at-IsKeyed ws k rpm tpm now d)

  add_tokens-requests :
      (ws : List (K × Window)) (k j : K) (tokens now : ℕ)
      → IsKeyed ws
      → (used_at (add_tokens ws j tokens now) k (now / 60)).0 ≡ (used_at ws k (now / 60)).0
  unfolding add_tokens
  add_tokens-requests ws k j tokens now d =
      ground (arith, add_tokens_at-used ws j k tokens now d, e.beq_iff j k)

  add_tokens-IsKeyed :
      (ws : List (K × Window)) (k : K) (tokens now : ℕ)
      → IsKeyed ws
      → IsKeyed (add_tokens ws k tokens now)
  unfolding add_tokens
  add_tokens-IsKeyed ws k tokens now d = ground (arith, add_tokens_at-IsKeyed ws k tokens now d)

  -- A request of the key itself: one more counts if it passes, and then the limit was not reached.
  admit_own :
      (ws : List (K × Window)) (k j : K) (rpm tpm : ℤ) (now : ℕ)
      → IsKeyed ws
      → e.beq j k ≡ true
      → 0 < pos_part rpm
      → pos_part rpm < 2 ^ 63
      → ((admit ws j rpm tpm now).0 ≡ ok tt)
          × ((used_at ws k (now / 60)).0 < pos_part rpm)
          × ((used_at (admit ws j rpm tpm now).1 k (now / 60)).0 ≡ (used_at ws k (now / 60)).0 + 1)
        ⊎ ((x : RateExceeded) × ((admit ws j rpm tpm now).0 ≡ err x)
            × ((used_at (admit ws j rpm tpm now).1 k (now / 60)).0 ≡ (used_at ws k (now / 60)).0))
  unfolding admit
  admit_own ws k j rpm tpm now d h p q = ground (
    arith,
    admit_at-used ws j k rpm tpm now d,
    admit_at-verdict ws j rpm tpm now d,
    e.beq_iff j k,
  )

  -- What a request adds to the passed ones is what it adds to the count.
  request_step :
      (ws : List (K × Window)) (k j : K) (rpm r tpm : ℤ) (now : ℕ)
      → IsKeyed ws
      → (e.beq j k ≡ false) ⊎ (r ≡ rpm)
      → 0 < pos_part rpm
      → pos_part rpm < 2 ^ 63
      → (used_at ws k (now / 60)).0 ≤ pos_part rpm
      → ((if e.beq j k then passed (admit ws j r tpm now).0 else 0) + (used_at ws k (now / 60)).0
          ≡ (used_at (admit ws j r tpm now).1 k (now / 60)).0)
        × ((used_at (admit ws j r tpm now).1 k (now / 60)).0 ≤ pos_part rpm)
  request_step ws k j rpm r tpm now d own p q h =
      ground (arith, admit_own ws k j r tpm now d, admit_other ws k j r tpm now d)

  -- Within one minute, for a key whose requests all carry one positive limit below 2^63, and from any
  -- state in which no more requests count than the limit: the requests that pass and those that had
  -- counted before are never more than the limit, however the requests of the key are mixed with those
  -- of others and with reports of tokens, and whatever windows are dropped.
  pub admitted-le :
      (k : K) (rpm : ℤ) (minute : ℕ) (ws : List (K × Window)) (es : List (Event K))
      → 0 < pos_part rpm
      → pos_part rpm < 2 ^ 63
      → IsKeyed ws
      → (used_at ws k minute).0 ≤ pos_part rpm
      → All (InMinute k rpm minute) es
      → admitted k ws es + (used_at ws k minute).0 ≤ pos_part rpm
  unfolding admitted
  admitted-le k rpm minute ws [] p q d h a = omega arith
  admitted-le k rpm minute ws (reported j tokens now ∷ es) p q d h a =
      let ws' = add_tokens ws j tokens now in
      let same : (used_at ws' k minute).0 ≡ (used_at ws k minute).0 =
        subst (λ m. (used_at ws' k m).0 ≡ (used_at ws k m).0) a.0
          (add_tokens-requests ws k j tokens now d) in
      let rest =
        admitted-le k rpm minute ws' es p q (add_tokens-IsKeyed ws j tokens now d) (omega arith)
          a.1 in
      omega arith
  admitted-le k rpm minute ws (requested j r tpm now ∷ es) p q d h (a, more) =
      let ws' = (admit ws j r tpm now).1 in
      let (c, l) =
        subst
          (λ m.
            ((if e.beq j k then passed (admit ws j r tpm now).0 else 0) + (used_at ws k m).0
              ≡ (used_at ws' k m).0)
            × ((used_at ws' k m).0 ≤ pos_part rpm))
          a.0
          (request_step ws k j rpm r tpm now d a.1 p q
            (subst (λ m. (used_at ws k m).0 ≤ pos_part rpm) (sym a.0) h)) in
      let rest = admitted-le k rpm minute ws' es p q (admit-IsKeyed ws j r tpm now d) l more in
      omega arith

  -- A request passes exactly if neither of its limits is reached by what counts for its key in the minute; a limit
  -- that is not positive is never reached.
  pub admit_iff :
      (ws : List (K × Window)) (k : K) (rpm tpm : ℤ) (now : ℕ)
      → IsKeyed ws
      → ((admit ws k rpm tpm now).0 ≡ ok tt) ↔ (passes (used_at ws k (now / 60)) rpm tpm ≡ true)
  unfolding admit
  admit_iff ws k rpm tpm now d = ground (arith, admit_at-verdict ws k rpm tpm now d)
