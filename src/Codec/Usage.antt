-- ===== src/Codec/Usage.antt =====
-- The tokens that a request used (crates/refract-protocol/src/ir.rs, `Usage`): numbers of 64 bits, whose plain sum wraps
-- and whose saturating sum stops at the largest.
use refract.Base.{ℕ, ◌+◌, ◌-◌, ◌%◌, ◌^◌, min, max, Bool, ◌&&◌, ◌==◌, if◌then◌else◌}
use refract.Core.Protocol.{Protocol, messages}
use refract.Core.Protocol.{protocol_eq}

pub record Usage : Type 0 where
  pub input_tokens : ℕ
  pub output_tokens : ℕ
  pub cached_input_tokens : ℕ
  pub cache_write_tokens : ℕ
  pub reasoning_tokens : ℕ

abbrev pub no_usage : Usage
no_usage = record {
  input_tokens = 0;
  output_tokens = 0;
  cached_input_tokens = 0;
  cache_write_tokens = 0;
  reasoning_tokens = 0;
}

-- `u64::saturating_add`.
unfoldable pub saturating_add : ℕ → ℕ → ℕ
saturating_add a b = min (a + b) (2 ^ 64 - 1)

unfoldable pub total_tokens : Usage → ℕ
total_tokens u = (u.input_tokens + u.output_tokens) % (2 ^ 64)

unfoldable pub is_unused : Usage → Bool
is_unused u = u.input_tokens == 0 && u.output_tokens == 0

unfoldable pub billing_normalized : Usage → Protocol → Usage
unfolding saturating_add
billing_normalized u upstream =
    if protocol_eq upstream messages
    then record u {
      input_tokens =
          saturating_add (saturating_add u.input_tokens u.cached_input_tokens) u.cache_write_tokens;
    }
    else u

-- `Usage::merge_max` and `Usage::merge_sum`.
unfoldable pub merge_max : Usage → Usage → Usage
merge_max u v = record {
  input_tokens = max u.input_tokens v.input_tokens;
  output_tokens = max u.output_tokens v.output_tokens;
  cached_input_tokens = max u.cached_input_tokens v.cached_input_tokens;
  cache_write_tokens = max u.cache_write_tokens v.cache_write_tokens;
  reasoning_tokens = max u.reasoning_tokens v.reasoning_tokens;
}

unfoldable pub merge_sum : Usage → Usage → Usage
unfolding saturating_add
merge_sum u v = record {
  input_tokens = saturating_add u.input_tokens v.input_tokens;
  output_tokens = saturating_add u.output_tokens v.output_tokens;
  cached_input_tokens = saturating_add u.cached_input_tokens v.cached_input_tokens;
  cache_write_tokens = saturating_add u.cache_write_tokens v.cache_write_tokens;
  reasoning_tokens = saturating_add u.reasoning_tokens v.reasoning_tokens;
}
