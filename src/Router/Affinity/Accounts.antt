-- ===== src/Router/Affinity/Accounts.antt =====
-- Every run of the affinity engine keeps its bindings distinct and its counts sound
-- (crates/refract-router/src/affinity.rs).
use refract.Base.{
  ℕ, ◌+◌, ◌≤◌, ◌≡◌, arith, true, List, [], ◌∷◌, some, String, length, is_some, Option-cases, inl,
  inr,
}
use refract.Base.Maps.{string_eq, lookup, length-retain_entries-le}
use refract.Base.Keyed.{
  IsKeyed, put-IsKeyed, delete-IsKeyed, retain_entries-IsKeyed, length-delete, length-put,
}
use refract.Core.Affinity.{AffinitySettings}
use refract.Router.Affinity.{
  Outside, Entry, AffinityDecision, AffinityEngine, AffinityContext, new_engine, load,
}
use refract.Router.Affinity.Match.{find_match}
use refract.Router.Affinity.Cache.{
  oldest, older, look_up, resolve, evict_expired, evict_oldest, evict_expired_or_oldest, make_room,
  bind, record_winner, forget, forget_if_bound_to, forget_channel, clear, take_stats, is_live,
  is_elsewhere,
}

-- The entry that goes has a key of the bindings.
pub oldest-lookup :
    (m : List (String × Entry)) (k : String) (x : Entry)
    → oldest m ≡ some (k, x)
    → is_some (lookup k m) ≡ true
unfolding oldest lookup older
oldest-lookup [] k x h = cc
oldest-lookup ((j, y) ∷ m) k x h = elim (Option-cases (oldest m)) [
  | inl f ↦ ground (arith, h, f, string_eq.beq_iff j k)
  | inr ((i, z), f) ↦ ground (arith, h, f, string_eq.beq_iff j k, oldest-lookup m i z f)
]

module _ {o : Outside} where
  -- The keys are distinct, and what is bound, was forgotten or was evicted had been recorded.
  abbrev pub IsSound : AffinityEngine o → Type 0
  IsSound e =
      IsKeyed e.bindings × length e.bindings + e.stats.forgets + e.stats.evictions ≤ e.stats.records

  look_up-IsSound :
      (now : ℕ) (d : AffinityDecision) (e : AffinityEngine o)
      → IsSound e
      → IsSound (look_up now d e).1
  unfolding look_up
  look_up-IsSound now d e h = elim (Option-cases (lookup d.cache_key e.bindings)) [
    | inl f ↦ ground (arith, h, f)
    | inr (x, f) ↦ ground (
      arith,
      h,
      f,
      delete-IsKeyed d.cache_key e.bindings,
      length-delete d.cache_key e.bindings,
      put-IsKeyed d.cache_key (record x { expires_at = now + d.ttl_secs; last_used = now })
          e.bindings,
      length-put d.cache_key (record x { expires_at = now + d.ttl_secs; last_used = now })
          e.bindings,
    )
  ]

  pub evict_expired-IsSound :
      (now : ℕ) (e : AffinityEngine o) → IsSound e → IsSound (evict_expired now e)
  unfolding evict_expired
  evict_expired-IsSound now e h = (
    retain_entries-IsKeyed (is_live now) e.bindings h.0,
    omega (arith, h.1, length-retain_entries-le (is_live now) e.bindings),
  )

  evict_oldest-IsSound : (e : AffinityEngine o) → IsSound e → IsSound (evict_oldest e)
  unfolding evict_oldest
  evict_oldest-IsSound e h = elim (Option-cases (oldest e.bindings)) [
    | inl f ↦ ground (arith, h, f)
    | inr ((k, x), f) ↦ ground (
      arith,
      h,
      f,
      oldest-lookup e.bindings k x f,
      delete-IsKeyed k e.bindings,
      length-delete k e.bindings,
    )
  ]

  make_room-IsSound : (now : ℕ) (e : AffinityEngine o) → IsSound e → IsSound (make_room now e)
  unfolding make_room evict_expired_or_oldest
  make_room-IsSound now e h =
      ground (arith, h, evict_oldest-IsSound (evict_expired now e) (evict_expired-IsSound now e h))

  bind-IsSound :
      (now : ℕ) (d : AffinityDecision) (winner : ℕ) (e : AffinityEngine o)
      → IsSound e
      → IsSound (bind now d winner e)
  unfolding bind
  bind-IsSound now d winner e h =
      let x : Entry = record {
        channel_id = winner;
        expires_at = now + d.ttl_secs;
        last_used = now;
      } in
      (
        put-IsKeyed d.cache_key x e.bindings h.0,
        ground (arith, h, length-put d.cache_key x e.bindings),
      )

  record_winner-IsSound :
      (now : ℕ) (d : AffinityDecision) (winner : ℕ) (e : AffinityEngine o)
      → IsSound e
      → IsSound (record_winner now d winner e)
  unfolding record_winner
  record_winner-IsSound now d winner e h =
      ground (arith, h, bind-IsSound now d winner (make_room now e) (make_room-IsSound now e h))

  forget-IsSound : (key : String) (e : AffinityEngine o) → IsSound e → IsSound (forget key e)
  unfolding forget
  forget-IsSound key e h =
      ground (arith, h, delete-IsKeyed key e.bindings, length-delete key e.bindings)

  forget_if_bound_to-IsSound :
      (key : String) (channel : ℕ) (e : AffinityEngine o)
      → IsSound e
      → IsSound (forget_if_bound_to key channel e)
  unfolding forget_if_bound_to
  forget_if_bound_to-IsSound key channel e h = elim (Option-cases (lookup key e.bindings)) [
    | inl f ↦ ground (arith, h, f)
    | inr (x, f) ↦ ground (arith, h, f, forget-IsSound key e h)
  ]

  forget_channel-IsSound :
      (channel : ℕ) (e : AffinityEngine o) → IsSound e → IsSound (forget_channel channel e)
  unfolding forget_channel
  forget_channel-IsSound channel e h = (
    retain_entries-IsKeyed (is_elsewhere channel) e.bindings h.0,
    omega (arith, h.1, length-retain_entries-le (is_elsewhere channel) e.bindings),
  )

  resolve-IsSound :
      (now : ℕ) (ctx : AffinityContext o) (e : AffinityEngine o)
      → IsSound e
      → IsSound (resolve now ctx e).1
  unfolding resolve
  resolve-IsSound now ctx e h = elim (Option-cases (find_match o ctx e.rules)) [
    | inl f ↦ ground (arith, h, f)
    | inr (m, f) ↦ ground (arith, h, f, look_up-IsSound now m e h)
  ]

module _ (o : Outside) where
  -- The calls of the engine, with the clock's reading where they read it.
  pub data Call : Type 0 where
    load_rules : AffinitySettings → Call
    resolve_at : ℕ → AffinityContext o → Call
    record_at : ℕ → AffinityDecision → ℕ → Call
    forget_key : String → Call
    forget_bound : String → ℕ → Call
    forget_all_of : ℕ → Call
    clear_all : Call
    stats_at : ℕ → Call

  unfoldable pub apply : Call → AffinityEngine o → AffinityEngine o
  unfolding load resolve record_winner forget forget_if_bound_to forget_channel clear take_stats
  apply (load_rules s) e = load o s e
  apply (resolve_at now ctx) e = (resolve now ctx e).1
  apply (record_at now d winner) e = record_winner now d winner e
  apply (forget_key key) e = forget key e
  apply (forget_bound key channel) e = forget_if_bound_to key channel e
  apply (forget_all_of channel) e = forget_channel channel e
  apply clear_all e = (clear e).1
  apply (stats_at now) e = (take_stats now e).1

  unfoldable pub run : List Call → AffinityEngine o → AffinityEngine o
  unfolding apply
  run [] e = e
  run (c ∷ cs) e = run cs (apply c e)

  apply-IsSound : (c : Call) (e : AffinityEngine o) → IsSound e → IsSound (apply c e)
  unfolding apply load clear take_stats
  apply-IsSound (load_rules s) e h = h
  apply-IsSound (resolve_at now ctx) e h = resolve-IsSound now ctx e h
  apply-IsSound (record_at now d winner) e h = record_winner-IsSound now d winner e h
  apply-IsSound (forget_key key) e h = forget-IsSound key e h
  apply-IsSound (forget_bound key channel) e h = forget_if_bound_to-IsSound key channel e h
  apply-IsSound (forget_all_of channel) e h = forget_channel-IsSound channel e h
  apply-IsSound clear_all e h = (tt, omega (arith, h.1))
  apply-IsSound (stats_at now) e h = evict_expired-IsSound now e h

  run-IsSound_from : (cs : List Call) (e : AffinityEngine o) → IsSound e → IsSound (run cs e)
  unfolding run
  run-IsSound_from [] e h = h
  run-IsSound_from (c ∷ cs) e h = run-IsSound_from cs (apply c e) (apply-IsSound c e h)

  -- After any calls of a new engine, no key is bound twice, and the bindings it holds together with the forgotten and
  -- the evicted ones that it counted are at most the bindings recorded.
  pub run-IsSound : (cs : List Call) → IsSound (run cs (new_engine o))
  run-IsSound cs = run-IsSound_from cs (new_engine o) (tt, omega arith)
