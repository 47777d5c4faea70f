-- ===== src/Router/Affinity/Capacity.antt =====
-- The number of bindings stays within the capacity (crates/refract-router/src/affinity.rs, `record` and
-- `evict_expired_or_oldest`).
use refract.Base.{
  ℕ, ◌+◌, ◌≤◌, ◌≡◌, max, refl, arith, List, [], ◌∷◌, none, String, length, Option-cases, inl, inr,
}
use refract.Base.Maps.{string_eq, length-retain_entries-le, length-put-le}
use refract.Base.Keyed.{length-delete}
use refract.Router.Affinity.{Outside, Entry, AffinityDecision, AffinityEngine}
use refract.Router.Affinity.Cache.{
  oldest, older, evict_expired, evict_oldest, evict_expired_or_oldest, make_room, bind,
  record_winner, is_live,
}
use refract.Router.Affinity.Accounts.{IsSound, oldest-lookup, evict_expired-IsSound}

-- Some entry is the oldest unless there is none.
oldest-none : (m : List (String × Entry)) → oldest m ≡ none → length m ≡ 0
unfolding oldest older
oldest-none [] h = refl
oldest-none (x ∷ m) h = elim (Option-cases (oldest m)) [
  | inl f ↦ ground (arith, h, f)
  | inr (y, f) ↦ ground (arith, h, f)
]

module _ {o : Outside} where
  evict_oldest-length :
      (e : AffinityEngine o)
      → IsSound e
      → 1 ≤ e.max_entries
      → length (evict_oldest e).bindings + 1 ≤ max e.max_entries (length e.bindings)
  unfolding evict_oldest
  evict_oldest-length e h room = elim (Option-cases (oldest e.bindings)) [
    | inl f ↦ ground (arith, f, room, oldest-none e.bindings f)
    | inr ((k, x), f) ↦
        ground (arith, h, f, oldest-lookup e.bindings k x f, length-delete k e.bindings)
  ]

  make_room-length :
      (now : ℕ) (e : AffinityEngine o)
      → IsSound e
      → 1 ≤ e.max_entries
      → length (make_room now e).bindings + 1 ≤ max e.max_entries (length e.bindings)
  unfolding make_room evict_expired_or_oldest evict_expired
  make_room-length now e h room = ground (
    arith,
    evict_oldest-length (evict_expired now e) (evict_expired-IsSound now e h) room,
    length-retain_entries-le (is_live now) e.bindings,
  )

  -- Recording a winner leaves no more bindings than the larger of the capacity and the number before: an engine within
  -- its capacity stays within it, and one above it does not grow. The capacity is at least 1 and the engine is sound.
  pub record_winner-length :
      (now : ℕ) (d : AffinityDecision) (winner : ℕ) (e : AffinityEngine o)
      → IsSound e
      → 1 ≤ e.max_entries
      → length (record_winner now d winner e).bindings ≤ max e.max_entries (length e.bindings)
  unfolding record_winner bind
  record_winner-length now d winner e h room =
      let x : Entry = record {
        channel_id = winner;
        expires_at = now + d.ttl_secs;
        last_used = now;
      } in
      ground (
        arith,
        make_room-length now e h room,
        length-put-le d.cache_key x (make_room now e).bindings,
      )
