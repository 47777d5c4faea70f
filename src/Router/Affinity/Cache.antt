-- ===== src/Router/Affinity/Cache.antt =====
-- The bindings under the engine's methods (crates/refract-router/src/affinity.rs).
use refract.Base.{
  ℕ, ◌+◌, ◌-◌, Bool, true, not, ◌||◌, List, [], ◌∷◌, Option, none, some, String, ◌==◌, leb, ltb,
  if◌then◌else◌, is_some, length,
}
use refract.Base.Maps.{string_eq, lookup, put, delete, retain_entries}
use refract.Router.Affinity.{
  Outside, Entry, AffinityStats, AffinityDecision, AffinityEngine, AffinityContext,
}
use refract.Router.Affinity.Match.{find_match}

-- The entry that was used first, the front one of several.
unfoldable pub older : String × Entry → Option (String × Entry) → Option (String × Entry)
older x none = some x
older x (some y) = if leb x.1.last_used y.1.last_used then some x else some y

unfoldable pub oldest : List (String × Entry) → Option (String × Entry)
unfolding older
oldest [] = none
oldest (x ∷ xs) = older x (oldest xs)

abbrev pub is_live : ℕ → String → Entry → Bool
is_live now key e = ltb now e.expires_at

abbrev pub count_hit : AffinityStats → AffinityStats
count_hit s = record s { hits = s.hits + 1 }

abbrev pub count_miss : AffinityStats → AffinityStats
count_miss s = record s { misses = s.misses + 1 }

abbrev pub count_evictions : ℕ → AffinityStats → AffinityStats
count_evictions n s = record s { evictions = s.evictions + n }

abbrev pub count_forgets : ℕ → AffinityStats → AffinityStats
count_forgets n s = record s { forgets = s.forgets + n }

abbrev pub is_elsewhere : ℕ → String → Entry → Bool
is_elsewhere channel key x = not (x.channel_id == channel)

module _ {o : Outside} where
  -- The second part of `resolve`: the binding of the rule's key, which lives on, has expired or does not exist.
  unfoldable pub look_up :
      ℕ → AffinityDecision → AffinityEngine o → AffinityDecision × AffinityEngine o
  unfolding lookup put delete
  look_up now d e = elim (lookup d.cache_key e.bindings) [
    | none ↦ (d, record e { stats = count_miss e.stats })
    | some x ↦
        if ltb now x.expires_at
        then (
          record d { binding = some x.channel_id },
          record e {
            bindings =
                put d.cache_key (record x { expires_at = now + d.ttl_secs; last_used = now })
                  e.bindings;
            stats = count_hit e.stats;
          },
        )
        else (
          d,
          record e {
            bindings = delete d.cache_key e.bindings;
            stats = count_miss (count_evictions 1 e.stats);
          },
        )
  ]

  unfoldable pub resolve :
      ℕ → AffinityContext o → AffinityEngine o → Option AffinityDecision × AffinityEngine o
  unfolding find_match look_up
  resolve now ctx e = if not e.enabled then (none, e) else elim (find_match o ctx e.rules) [
    | none ↦ (none, e)
    | some m ↦ let (d, e') = look_up now m e in (some d, e')
  ]

  unfoldable pub evict_expired : ℕ → AffinityEngine o → AffinityEngine o
  unfolding retain_entries
  evict_expired now e =
      let kept = retain_entries (is_live now) e.bindings in
      record e {
        bindings = kept;
        stats = count_evictions (length e.bindings - length kept) e.stats;
      }

  unfoldable pub evict_oldest : AffinityEngine o → AffinityEngine o
  unfolding oldest delete
  evict_oldest e = if ltb (length e.bindings) e.max_entries then e else elim (oldest e.bindings) [
    | none ↦ e
    | some (k, x) ↦ record e { bindings = delete k e.bindings; stats = count_evictions 1 e.stats }
  ]

  unfoldable pub evict_expired_or_oldest : ℕ → AffinityEngine o → AffinityEngine o
  unfolding evict_expired evict_oldest
  evict_expired_or_oldest now e = evict_oldest (evict_expired now e)

  -- Whether `record` may bind the key to the winner.
  unfoldable pub may_bind : AffinityEngine o → String → ℕ → Bool
  unfolding lookup
  may_bind e key winner = elim (lookup key e.bindings) [
    | none ↦ true
    | some x ↦ x.channel_id == winner || e.switch_on_success
  ]

  unfoldable pub make_room : ℕ → AffinityEngine o → AffinityEngine o
  unfolding evict_expired_or_oldest
  make_room now e =
      if leb e.max_entries (length e.bindings) then evict_expired_or_oldest now e else e

  unfoldable pub bind : ℕ → AffinityDecision → ℕ → AffinityEngine o → AffinityEngine o
  unfolding put
  bind now d winner e = record e {
    bindings =
        put d.cache_key
          (record { channel_id = winner; expires_at = now + d.ttl_secs; last_used = now })
          e.bindings;
    stats = record e.stats { records = e.stats.records + 1 };
  }

  -- `AffinityEngine::record`.
  unfoldable pub record_winner : ℕ → AffinityDecision → ℕ → AffinityEngine o → AffinityEngine o
  unfolding may_bind make_room bind
  record_winner now d winner e =
      if may_bind e d.cache_key winner then bind now d winner (make_room now e) else e

  unfoldable pub forget : String → AffinityEngine o → AffinityEngine o
  unfolding lookup delete
  forget key e =
      if is_some (lookup key e.bindings)
      then record e { bindings = delete key e.bindings; stats = count_forgets 1 e.stats }
      else e

  unfoldable pub forget_if_bound_to : String → ℕ → AffinityEngine o → AffinityEngine o
  unfolding lookup forget
  forget_if_bound_to key channel e = elim (lookup key e.bindings) [
    | none ↦ e
    | some x ↦ if x.channel_id == channel then forget key e else e
  ]

  unfoldable pub forget_channel : ℕ → AffinityEngine o → AffinityEngine o
  unfolding retain_entries
  forget_channel channel e =
      let kept = retain_entries (is_elsewhere channel) e.bindings in
      record e { bindings = kept; stats = count_forgets (length e.bindings - length kept) e.stats }

  unfoldable pub clear : AffinityEngine o → ℕ × AffinityEngine o
  clear e =
      let n = length e.bindings in (n, record e { bindings = []; stats = count_forgets n e.stats })

  -- `AffinityEngine::stats`.
  unfoldable pub take_stats : ℕ → AffinityEngine o → AffinityStats × AffinityEngine o
  unfolding evict_expired
  take_stats now e =
      let swept = evict_expired now e in
      let s = record swept.stats { entries = length swept.bindings } in
      (s, record swept { stats = s })
