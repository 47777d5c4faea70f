-- ===== src/Router/Keys.antt =====
-- The schedule of a channel's keys (crates/refract-router/src/keys.rs): `KeySelector` with its cursors and
-- sticky bindings, and the `KeyRotator` of one request. A random draw from a range is an argument.
pub mod Rotation
pub mod Start
use Prim.Native.String.{◌++◌ as append_text}
use refract.Base.{
  ℕ, ◌+◌, ◌%◌, ◌^◌, Bool, true, false, ◌||◌, not, List, [], Option, none, some, String, ltb, leb,
  ◌==◌, if◌then◌else◌, unwrap_or,
}
use refract.Base.Maps.{lookup, put, delete, retain_entries, nat_eq, pair_eq}
use refract.Core.Channel.{
  KeyPool, pool_len, pool_strategy, is_single, key_at, masked, KeyStrategy, sticky, round_robin,
  random,
}
use refract.Core.Error.{ErrorKind, GatewayError, new_error, is_key_failure}

-- `KeySelector`: the next key of a channel, and the keys bound to a channel and an identity.
pub record KeySelector : Type 0 where
  pub cursors : List (ℕ × ℕ)
  pub bindings : List ((ℕ × ℕ) × ℕ)

abbrev pub new_selector : KeySelector
new_selector = record { cursors = []; bindings = [] }

-- `KeyRotator`, less its handle of the shared selector, which the operations take and return.
pub record KeyRotator : Type 0 where
  pub channel_id : ℕ
  pub pool : KeyPool
  pub identity : Option ℕ
  pub index : ℕ
  pub tried : ℕ
  pub exhausted : Bool

unfoldable pub forget_channel : KeySelector → ℕ → KeySelector
forget_channel s ch = record {
  cursors = delete ch s.cursors;
  bindings = retain_entries (λ k v. not (k.0 == ch)) s.bindings;
}

-- The cursor of a channel wraps at 64 bits.
unfoldable pub next_cursor : KeySelector → ℕ → ℕ → ℕ × KeySelector
next_cursor s ch len =
    let cursor = unwrap_or (lookup ch s.cursors) 0 in
    (cursor % len, record s { cursors = put ch ((cursor + 1) % 2 ^ 64) s.cursors })

-- The binding of a channel and an identity.
unfoldable pub bound_key : KeySelector → ℕ → Option ℕ → Option ℕ
bound_key s ch none = none
bound_key s ch (some id) = lookup (ch, id) s.bindings

unbind : KeySelector → ℕ → Option ℕ → KeySelector
unbind s ch none = s
unbind s ch (some id) = record s { bindings = delete (ch, id) s.bindings }

-- A binding from before the pool shrank is dropped.
sticky_index : KeySelector → ℕ → ℕ → Option ℕ → ℕ × KeySelector
unfolding next_cursor bound_key unbind
sticky_index s ch len identity = elim (bound_key s ch identity) [
  | none ↦ next_cursor s ch len
  | some i ↦ if ltb i len then (i, s) else next_cursor (unbind s ch identity) ch len
]

index_by : KeyStrategy → (ℕ → ℕ) → KeySelector → ℕ → ℕ → Option ℕ → ℕ × KeySelector
index_by sticky draw s ch len identity = sticky_index s ch len identity
index_by random draw s ch len identity = (draw len, s)
index_by round_robin draw s ch len identity = next_cursor s ch len

unfoldable pub first_index : (ℕ → ℕ) → KeySelector → ℕ → KeyPool → Option ℕ → ℕ × KeySelector
unfolding index_by sticky_index
first_index draw s ch p identity = index_by (pool_strategy p) draw s ch (pool_len p) identity

-- `KeySelector::start`.
unfoldable pub start : (ℕ → ℕ) → KeySelector → ℕ → KeyPool → Option ℕ → KeyRotator × KeySelector
start draw s ch p identity =
    let (i, s') = first_index draw s ch p identity in
    (
      record {
        channel_id = ch;
        pool = p;
        identity = identity;
        index = i;
        tried = 1;
        exhausted = false;
      },
      s',
    )

unfoldable pub commit_sticky : KeySelector → ℕ → Option ℕ → ℕ → KeySelector
commit_sticky s ch none i = s
commit_sticky s ch (some id) i = record s { bindings = put (ch, id) i s.bindings }

unfoldable pub current : KeyRotator → String
current r = key_at r.pool r.index

unfoldable pub hint : KeyRotator → String
unfolding current
hint r = masked (current r)

-- The rotation of a key failure, when the pool is not exhausted yet.
rotate_key : KeyRotator → KeyRotator × Bool
rotate_key r =
    if is_single r.pool || ltb (pool_len r.pool) 2
    then (record r { exhausted = true }, false)
    else if leb (pool_len r.pool) r.tried
    then (record r { exhausted = true }, false)
    else (record r { index = (r.index + 1) % pool_len r.pool; tried = r.tried + 1 }, true)

-- `KeyRotator::rotate`: whether there is another key to try.
unfoldable pub rotate : KeyRotator → ErrorKind → KeyRotator × Bool
unfolding rotate_key
rotate r kind =
    if r.exhausted
    then (r, false)
    else if not (is_key_failure kind)
    then (r, false)
    else rotate_key r

-- `KeyRotator::exhausted_error`; the first argument prints a number.
unfoldable pub exhausted_error : (ℕ → String) → KeyRotator → GatewayError → GatewayError
exhausted_error decimal r last =
    if not r.exhausted || ltb (pool_len r.pool) 2
    then last
    else record (new_error last.kind (
        append_text "all " (
          append_text (decimal (pool_len r.pool))
            (append_text " keys in channel credential pool failed: " last.message)))) {
              retry_after = last.retry_after;
            }

commit_by : KeyStrategy → KeySelector → KeyRotator → KeySelector
commit_by sticky s r = commit_sticky s r.channel_id r.identity r.index
commit_by round_robin s r = s
commit_by random s r = s

-- `KeyRotator::commit`.
unfoldable pub commit : KeySelector → KeyRotator → KeySelector
unfolding commit_by commit_sticky
commit s r = commit_by (pool_strategy r.pool) s r
