-- ===== src/Router/Keys/Start.antt =====
-- The key that a request starts with (crates/refract-router/src/keys.rs).
use native.Mathlib.Nat.{mod-lt}
use refract.Base.{
  ℕ, zero, suc, refl, ◌+◌, ◌<◌, ◌%◌, ◌^◌, ◌≡◌, ◌≢◌, arith, List, [], ◌∷◌, Option, none, some, ◌⊎◌,
  ◌==◌, unwrap_or, not, ◌∙◌, ap, All, subst, sym, ==_refl,
}
use refract.Base.Maps.{
  lookup, lookup-put, lookup-delete, nat_eq, pair_eq, lookup-retain_entries_keep,
}
use refract.Core.Channel.{
  KeyPool, pool_len, pool_strategy, key_at, KeyStrategy, sticky, round_robin, random,
}
use refract.Router.Keys.{
  KeySelector, KeyRotator, start, first_index, index_by, sticky_index, next_cursor, bound_key,
  unbind, commit_sticky, commit, commit_by, forget_channel, current,
}

next_cursor-lt : (s : KeySelector) (ch len : ℕ) → 0 < len → (next_cursor s ch len).0 < len
unfolding next_cursor
next_cursor-lt s ch len h = mod-lt _ h

sticky_index-lt :
    (s : KeySelector) (ch len : ℕ) (id : Option ℕ) → 0 < len → (sticky_index s ch len id).0 < len
unfolding sticky_index
sticky_index-lt s ch len id h =
    ground (arith, next_cursor-lt s ch len, next_cursor-lt (unbind s ch id) ch len)

index_by-lt :
    (k : KeyStrategy) (draw : ℕ → ℕ) (s : KeySelector) (ch len : ℕ) (id : Option ℕ)
    → draw len < len
    → (index_by k draw s ch len id).0 < len
unfolding index_by
index_by-lt sticky draw s ch len id h = sticky_index-lt s ch len id (omega arith)
index_by-lt round_robin draw s ch len id h = next_cursor-lt s ch len (omega arith)
index_by-lt random draw s ch len id h = h

-- Whatever the strategy and the state, a request starts with a key of the pool, provided that the random
-- draw from the pool's range lies in it.
pub start-lt :
    (draw : ℕ → ℕ) (s : KeySelector) (ch : ℕ) (p : KeyPool) (id : Option ℕ)
    → draw (pool_len p) < pool_len p
    → (start draw s ch p id).0.index < pool_len p
unfolding start first_index
start-lt draw s ch p id h = index_by-lt (pool_strategy p) draw s ch (pool_len p) id h

-- What other requests and the administration do to the shared selector.
pub data Event : Type 0 where
  started : (ℕ → ℕ) → ℕ → KeyPool → Option ℕ → Event
  committed : ℕ → Option ℕ → ℕ → Event
  forgotten : ℕ → Event

unfoldable pub after : KeySelector → List Event → KeySelector
after s [] = s
after s (started draw ch p id ∷ es) = after (start draw s ch p id).1 es
after s (committed ch id i ∷ es) = after (commit_sticky s ch id i) es
after s (forgotten ch ∷ es) = after (forget_channel s ch) es

-- Events that leave the binding of a channel and an identity alone.
abbrev pub Elsewhere : ℕ → ℕ → ℕ → Event → Type 0
Elsewhere ch id i (started draw c p d) = ((c ≢ ch) ⊎ (d ≢ some id)) ⊎ (i < pool_len p)
Elsewhere ch id i (committed c d j) = (c ≢ ch) ⊎ (d ≢ some id)
Elsewhere ch id i (forgotten c) = c ≢ ch

abbrev Bound : ℕ → ℕ → ℕ → KeySelector → Type 0
Bound ch id i s = lookup (ch, id) s.bindings ≡ some i

next_cursor-Bound :
    (ch id i : ℕ) (s : KeySelector) (c len : ℕ)
    → Bound ch id i s
    → Bound ch id i (next_cursor s c len).1
unfolding next_cursor
next_cursor-Bound ch id i s c len b = b

commit-Bound :
    (ch id i : ℕ) (s : KeySelector) (c : ℕ) (d : Option ℕ) (j : ℕ)
    → ((c ≢ ch) ⊎ (d ≢ some id))
    → Bound ch id i s
    → Bound ch id i (commit_sticky s c d j)
unfolding commit_sticky
commit-Bound ch id i s c none j h b = b
commit-Bound ch id i s c (some d) j h b = ground (arith, lookup-put (c, d) (ch, id) j s.bindings)

forget-Bound :
    (ch id i : ℕ) (s : KeySelector) (c : ℕ)
    → c ≢ ch
    → Bound ch id i s
    → Bound ch id i (forget_channel s c)
unfolding forget_channel
forget-Bound ch id i s c h b =
    lookup-retain_entries_keep (λ k v. not (k.0 == c)) (ch, id) i s.bindings (ground arith) b

unbind-Bound :
    (ch id i : ℕ) (s : KeySelector) (c : ℕ) (d : Option ℕ)
    → ((c ≢ ch) ⊎ (d ≢ some id))
    → Bound ch id i s
    → Bound ch id i (unbind s c d)
unfolding unbind
unbind-Bound ch id i s c none h b = b
unbind-Bound ch id i s c (some d) h b = ground (arith, lookup-delete (c, d) (ch, id) s.bindings)

sticky_index-Bound :
    (ch id i : ℕ) (s : KeySelector) (c len : ℕ) (d : Option ℕ)
    → (((c ≢ ch) ⊎ (d ≢ some id)) ⊎ (i < len))
    → Bound ch id i s
    → Bound ch id i (sticky_index s c len d).1
unfolding sticky_index bound_key
sticky_index-Bound ch id i s c len none h b = next_cursor-Bound ch id i s c len b
sticky_index-Bound ch id i s c len (some d) h b = ground (
  arith,
  next_cursor-Bound ch id i s c len b,
  next_cursor-Bound ch id i (unbind s c (some d)) c len,
  unbind-Bound ch id i s c (some d),
)

index_by-Bound :
    (k : KeyStrategy) (draw : ℕ → ℕ) (ch id i : ℕ) (s : KeySelector) (c len : ℕ) (d : Option ℕ)
    → (((c ≢ ch) ⊎ (d ≢ some id)) ⊎ (i < len))
    → Bound ch id i s
    → Bound ch id i (index_by k draw s c len d).1
unfolding index_by
index_by-Bound sticky draw ch id i s c len d h b = sticky_index-Bound ch id i s c len d h b
index_by-Bound round_robin draw ch id i s c len d h b = next_cursor-Bound ch id i s c len b
index_by-Bound random draw ch id i s c len d h b = b

after-Bound :
    (ch id i : ℕ) (s : KeySelector) (es : List Event)
    → All (Elsewhere ch id i) es
    → Bound ch id i s
    → Bound ch id i (after s es)
unfolding after start first_index
after-Bound ch id i s [] h b = b
after-Bound ch id i s (started draw c p d ∷ es) h b =
    after-Bound ch id i (start draw s c p d).1 es h.1
      (index_by-Bound (pool_strategy p) draw ch id i s c (pool_len p) d h.0 b)
after-Bound ch id i s (committed c d j ∷ es) h b =
    after-Bound ch id i (commit_sticky s c d j) es h.1 (commit-Bound ch id i s c d j h.0 b)
after-Bound ch id i s (forgotten c ∷ es) h b =
    after-Bound ch id i (forget_channel s c) es h.1 (forget-Bound ch id i s c h.0 b)

sticky_step :
    (s : KeySelector) (ch id i len : ℕ)
    → Bound ch id i s
    → i < len
    → sticky_index s ch len (some id) ≡ (i, s)
unfolding sticky_index bound_key
sticky_step s ch id i len b h = ground (arith, b)

commit_step :
    (s : KeySelector) (r : KeyRotator) (id : ℕ)
    → pool_strategy r.pool ≡ sticky
    → r.identity ≡ some id
    → commit s r ≡ commit_sticky s r.channel_id (some id) r.index
unfolding commit commit_by
commit_step s r id sr e =
    ap (λ k. commit_by k s r) sr ∙ ap (λ d. commit_sticky s r.channel_id d r.index) e

commit_sticky-Bound :
    (s : KeySelector) (ch id i : ℕ) → Bound ch id i (commit_sticky s ch (some id) i)
unfolding commit_sticky
commit_sticky-Bound s ch id i = ground (arith, lookup-put (ch, id) (ch, id) i s.bindings)

start_step :
    (draw : ℕ → ℕ) (s : KeySelector) (ch id i : ℕ) (p : KeyPool)
    → pool_strategy p ≡ sticky
    → Bound ch id i s
    → i < pool_len p
    → (start draw s ch p (some id)).0.index ≡ i
unfolding start first_index index_by
start_step draw s ch id i p sp b l =
    ap (λ k. (index_by k draw s ch (pool_len p) (some id)).0) sp
    ∙ ap (λ x. x.0) (sticky_step s ch id i (pool_len p) b l)

start_key :
    (draw : ℕ → ℕ) (s : KeySelector) (ch : ℕ) (p : KeyPool) (id : Option ℕ)
    → current (start draw s ch p id).0 ≡ key_at p (start draw s ch p id).0.index
unfolding current start
start_key draw s ch p id = refl

-- Under the sticky strategy, the key of a request that succeeded is the one that the next request of
-- the same identity starts with, at the same index, provided that the next pool has that key at that index still.
-- Between the two anything may happen that does not commit a key for the same channel and identity,
-- forget the channel, or start the channel for that identity with a pool too short for the index.
pub start-after-commit :
    (draw : ℕ → ℕ) (s : KeySelector) (r : KeyRotator) (id : ℕ) (es : List Event) (p : KeyPool)
    → pool_strategy r.pool ≡ sticky
    → r.identity ≡ some id
    → All (Elsewhere r.channel_id id r.index) es
    → pool_strategy p ≡ sticky
    → r.index < pool_len p
    → key_at p r.index ≡ current r
    → (current (start draw (after (commit s r) es) r.channel_id p (some id)).0 ≡ current r)
      × ((start draw (after (commit s r) es) r.channel_id p (some id)).0.index ≡ r.index)
start-after-commit draw s r id es p sr e h sp l k =
    let here : Bound r.channel_id id r.index (commit s r) =
      subst (Bound r.channel_id id r.index) (sym (commit_step s r id sr e))
        (commit_sticky-Bound s r.channel_id id r.index) in
    let later = after (commit s r) es in
    let same =
      start_step draw later r.channel_id id r.index p sp
        (after-Bound r.channel_id id r.index (commit s r) es h here) l in
    (start_key draw later r.channel_id p (some id) ∙ ap (key_at p) same ∙ k, same)

-- The selector after `n` requests of a channel.
abbrev pub in_turn : (ℕ → ℕ) → ℕ → KeyPool → Option ℕ → KeySelector → ℕ → KeySelector
in_turn draw ch p id s zero = s
in_turn draw ch p id s (suc n) = (start draw (in_turn draw ch p id s n) ch p id).1

abbrev pub cursor_of : KeySelector → ℕ → ℕ
cursor_of s ch = unwrap_or (lookup ch s.cursors) 0

cursor_step :
    (s : KeySelector) (ch len : ℕ)
    → cursor_of (next_cursor s ch len).1 ch ≡ (cursor_of s ch + 1) % 2 ^ 64
unfolding next_cursor
cursor_step s ch len = rw (lookup-put ch ch ((cursor_of s ch + 1) % 2 ^ 64) s.cursors, ==_refl ch)

start_in_turn :
    (draw : ℕ → ℕ) (s : KeySelector) (ch : ℕ) (p : KeyPool) (id : Option ℕ)
    → pool_strategy p ≡ round_robin
    → ((start draw s ch p id).0.index, (start draw s ch p id).1) ≡ next_cursor s ch (pool_len p)
unfolding start first_index index_by
start_in_turn draw s ch p id h = ap (λ k. index_by k draw s ch (pool_len p) id) h

in_turn-cursor :
    (draw : ℕ → ℕ) (s : KeySelector) (ch : ℕ) (p : KeyPool) (id : Option ℕ) (n : ℕ)
    → pool_strategy p ≡ round_robin
    → cursor_of s ch < 2 ^ 64
    → cursor_of (in_turn draw ch p id s n) ch ≡ (cursor_of s ch + n) % 2 ^ 64
in_turn-cursor draw s ch p id zero h b = omega arith
in_turn-cursor draw s ch p id (suc n) h b =
    let before = in_turn draw ch p id s n in
    ap (λ x. cursor_of x.1 ch) (start_in_turn draw before ch p id h)
    ∙ cursor_step before ch (pool_len p)
    ∙ omega (arith, in_turn-cursor draw s ch p id n h b)

-- Under the round-robin strategy the requests of a channel go through its pool in turn: after `n` requests the
-- next one starts with the key at the channel's cursor plus `n`, wrapped at 64 bits, modulo the
-- pool's length.
pub start-in_turn :
    (draw : ℕ → ℕ) (s : KeySelector) (ch : ℕ) (p : KeyPool) (id : Option ℕ) (n : ℕ)
    → pool_strategy p ≡ round_robin
    → cursor_of s ch < 2 ^ 64
    → (start draw (in_turn draw ch p id s n) ch p id).0.index
      ≡ (cursor_of s ch + n) % 2 ^ 64 % pool_len p
unfolding next_cursor
start-in_turn draw s ch p id n h b =
    ap (λ x. x.0) (start_in_turn draw (in_turn draw ch p id s n) ch p id h)
    ∙ ap (λ c. c % pool_len p) (in_turn-cursor draw s ch p id n h b)
