-- ===== src/Core/Error/Classes.antt =====
-- How the classifications of an error (crates/refract-core/src/error.rs) relate.
use refract.Base.{◌≡◌, ◌⊎◌, arith, true, false}
use refract.Core.Error.{ErrorKind, status, is_retryable, is_key_failure}

-- A failure of a key may be retried elsewhere.
pub is_key_failure-is_retryable : (k : ErrorKind) → is_key_failure k ≡ true → is_retryable k ≡ true
unfolding is_key_failure is_retryable
is_key_failure-is_retryable k h = ground arith

-- A kind that is retried elsewhere has one of the statuses 401, 403, 429, 502 and 504, and any other kind
-- has one of 400, 404, 413, 500 and 503.
status_classes :
    (k : ErrorKind)
    → ((is_retryable k ≡ true)
        × ((status k ≡ 401)
            ⊎ (status k ≡ 403)
            ⊎ (status k ≡ 429)
            ⊎ (status k ≡ 502)
            ⊎ (status k ≡ 504)))
      ⊎ ((is_retryable k ≡ false)
          × ((status k ≡ 400)
              ⊎ (status k ≡ 404)
              ⊎ (status k ≡ 413)
              ⊎ (status k ≡ 500)
              ⊎ (status k ≡ 503)))
unfolding status is_retryable
status_classes k = ground arith
