-- ===== src/Api/Rate/Windows.antt =====
-- The windows of the keys (crates/refract-api/src/rate.rs): what one request and one report of tokens change.
use refract.Base.{
  ℕ, ◌+◌, ◌/◌, ◌%◌, ◌^◌, min, ◌≡◌, refl, arith, Bool, not, ◌&&◌, List, Option, none, some, leb,
  ◌==◌, if◌then◌else◌, Result, ok, err, ℤ, pos_part, ap, ◌∙◌,
}
use refract.Base.Maps.{Eq, lookup, lookup-put}
use refract.Base.Keyed.{IsKeyed, put-IsKeyed, lookup-retain_entries, retain_entries-IsKeyed}
use refract.Api.Rate.{
  Window, RateExceeded, of_requests, of_tokens, exceeded, is_limit, open_window, admit_window,
  prune_stale_windows, admit_at, add_tokens_at, u64_max,
}

-- What counts for a key in a minute.
abbrev pub used : Option Window → ℕ → ℕ × ℕ
used none minute = (0, 0)
used (some w) minute = if w.minute == minute then (w.requests, w.tokens) else (0, 0)

module _ {ℓ} {K : Type ℓ} ⦃e : Eq K⦄ where
  abbrev pub used_at : List (K × Window) → K → ℕ → ℕ × ℕ
  used_at ws k minute = used (lookup k ws) minute

  pub prune-used :
      (ws : List (K × Window)) (k : K) (minute : ℕ)
      → IsKeyed ws
      → used_at (prune_stale_windows ws minute) k minute ≡ used_at ws k minute
  unfolding prune_stale_windows
  prune-used ws k minute d =
      ground (arith, lookup-retain_entries (λ j w. w.minute == minute) k ws d)

  pub prune-IsKeyed :
      (ws : List (K × Window)) (minute : ℕ) → IsKeyed ws → IsKeyed (prune_stale_windows ws minute)
  unfolding prune_stale_windows
  prune-IsKeyed ws minute d =
      ground (arith, retain_entries-IsKeyed (λ j w. w.minute == minute) ws d)

opened :
    (o : Option Window) (minute : ℕ)
    → ((open_window o minute).requests, (open_window o minute).tokens) ≡ used o minute
unfolding open_window
opened none minute = refl
opened (some w) minute = ground arith

opened_minute : (o : Option Window) (minute : ℕ) → (open_window o minute).minute ≡ minute
unfolding open_window
opened_minute none minute = refl
opened_minute (some w) minute = ground arith

-- Whether a request passes, by what counts.
abbrev pub passes : ℕ × ℕ → ℤ → ℤ → Bool
passes (requests, tokens) rpm tpm =
    not (is_limit rpm && leb (pos_part rpm) requests)
    && not (is_limit tpm && leb (pos_part tpm) tokens)

-- The verdict on what counts, with the limit of requests looked at first.
abbrev pub verdict_on : ℕ × ℕ → ℤ → ℤ → ℕ → Result {0, 0} Unit RateExceeded
verdict_on (requests, tokens) rpm tpm now =
    if is_limit rpm && leb (pos_part rpm) requests
    then err (exceeded of_requests now)
    else if is_limit tpm && leb (pos_part tpm) tokens
    then err (exceeded of_tokens now)
    else ok tt

-- What counts after the verdict.
abbrev pub count_on : ℕ × ℕ → ℤ → ℤ → ℕ × ℕ
count_on (requests, tokens) rpm tpm =
    if passes (requests, tokens) rpm tpm
    then ((requests + 1) % 2 ^ 64, tokens)
    else (requests, tokens)

window_verdict :
    (w : Window) (rpm tpm : ℤ) (now : ℕ)
    → (admit_window w rpm tpm now).0 ≡ verdict_on (w.requests, w.tokens) rpm tpm now
unfolding admit_window
window_verdict w rpm tpm now = ground arith

window_count :
    (w : Window) (rpm tpm : ℤ) (now minute : ℕ)
    → w.minute ≡ minute
    → used (some (admit_window w rpm tpm now).1) minute ≡ count_on (w.requests, w.tokens) rpm tpm
unfolding admit_window
window_count w rpm tpm now minute e = ground arith

module _ {ℓ} {K : Type ℓ} ⦃e : Eq K⦄ where
  -- A request is judged by what counts for its key in the current minute, the requests first.
  pub admit_at-verdict :
      (ws : List (K × Window)) (k : K) (rpm tpm : ℤ) (now : ℕ)
      → IsKeyed ws
      → (admit_at ws k rpm tpm now).0 ≡ verdict_on (used_at ws k (now / 60)) rpm tpm now
  unfolding admit_at
  admit_at-verdict ws k rpm tpm now d =
      let minute = now / 60 in
      let kept = prune_stale_windows ws minute in
      window_verdict (open_window (lookup k kept) minute) rpm tpm now
      ∙ ap (λ u. verdict_on u rpm tpm now)
          (opened (lookup k kept) minute ∙ prune-used ws k minute d)

  -- After a request, what counts for its key is one more exactly if it passed; nothing changes for the other keys.
  pub admit_at-used :
      (ws : List (K × Window)) (k j : K) (rpm tpm : ℤ) (now : ℕ)
      → IsKeyed ws
      → used_at (admit_at ws k rpm tpm now).1 j (now / 60) ≡ (
          if e.beq k j then count_on (used_at ws k (now / 60)) rpm tpm else used_at ws j (now / 60))
  unfolding admit_at
  admit_at-used ws k j rpm tpm now d =
      let minute = now / 60 in
      let kept = prune_stale_windows ws minute in
      let w = open_window (lookup k kept) minute in
      let own =
        window_count w rpm tpm now minute (opened_minute (lookup k kept) minute)
        ∙ ap (λ u. count_on u rpm tpm) (opened (lookup k kept) minute ∙ prune-used ws k minute d) in
      ground
        (arith, own, prune-used ws j minute d, lookup-put k j (admit_window w rpm tpm now).1 kept)

  pub admit_at-IsKeyed :
      (ws : List (K × Window)) (k : K) (rpm tpm : ℤ) (now : ℕ)
      → IsKeyed ws
      → IsKeyed (admit_at ws k rpm tpm now).1
  unfolding admit_at
  admit_at-IsKeyed ws k rpm tpm now d =
      let minute = now / 60 in
      let kept = prune_stale_windows ws minute in
      put-IsKeyed k (admit_window (open_window (lookup k kept) minute) rpm tpm now).1 kept
        (prune-IsKeyed ws minute d)

  pub add_tokens_at-used :
      (ws : List (K × Window)) (k j : K) (tokens now : ℕ)
      → IsKeyed ws
      → used_at (add_tokens_at ws k tokens now) j (now / 60) ≡ (
          if e.beq k j
          then ((used_at ws k (now / 60)).0, min ((used_at ws k (now / 60)).1 + tokens) u64_max)
          else used_at ws j (now / 60))
  unfolding add_tokens_at
  add_tokens_at-used ws k j tokens now d =
      let minute = now / 60 in
      let kept = prune_stale_windows ws minute in
      let w = open_window (lookup k kept) minute in
      let own = opened (lookup k kept) minute ∙ prune-used ws k minute d in
      ground (
        arith,
        own,
        prune-used ws j minute d,
        opened_minute (lookup k kept) minute,
        lookup-put k j (record w { tokens = min (w.tokens + tokens) u64_max }) kept,
      )

  pub add_tokens_at-IsKeyed :
      (ws : List (K × Window)) (k : K) (tokens now : ℕ)
      → IsKeyed ws
      → IsKeyed (add_tokens_at ws k tokens now)
  unfolding add_tokens_at
  add_tokens_at-IsKeyed ws k tokens now d =
      let minute = now / 60 in
      let kept = prune_stale_windows ws minute in
      let w = open_window (lookup k kept) minute in
      put-IsKeyed k (record w { tokens = min (w.tokens + tokens) u64_max }) kept
        (prune-IsKeyed ws minute d)
