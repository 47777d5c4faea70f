-- ===== src/Router/Affinity/Kept.antt =====
-- How long a caller stays bound (crates/refract-router/src/affinity.rs): a binding under the calls that other
-- requests and the administration make in between.
use refract.Base.{
  ℕ, ◌+◌, ◌<◌, ◌≡◌, ◌≢◌, refl, sym, ap, ◌∙◌, arith, true, List, [], ◌∷◌, some, String, ◌⊎◌, length,
}
use refract.Base.Maps.{string_eq, lookup}
use refract.Router.Affinity.{Outside, Entry, AffinityDecision, AffinityEngine, AffinityContext}
use refract.Router.Affinity.Match.{find_match}
use refract.Router.Affinity.Cache.{resolve, may_bind, record_winner}
use refract.Router.Affinity.Accounts.{
  Call, load_rules, resolve_at, record_at, forget_key, forget_bound, forget_all_of, clear_all,
  stats_at, apply, run,
}
use refract.Router.Affinity.Bindings.{
  HasRulesOf, record_winner-HasRulesOf, look_up-HasRulesOf, record_winner-lookup, resolve_inv,
  resolve_match, look_up_fields, look_up_live,
}
use refract.Router.Affinity.Lives.{
  Renews, Lives, record-Lives, forget-Lives, bound-Lives, channel-Lives, swept-Lives, resolve-Lives,
  resolve-HasRulesOf, forget-HasRulesOf, forget_bound-HasRulesOf, channel-HasRulesOf,
  swept-HasRulesOf,
}

module _ {o : Outside} where
  -- Calls that leave the binding of a key to a channel alone until a time: requests before the time, which renew the
  -- binding, if at all, until the time at least; winners of other keys, while the map is not full; the removal of other
  -- keys and of other channels; and the statistics before the time.
  unfoldable pub Leaves : String → ℕ → ℕ → AffinityEngine o → Call o → Type 0
  Leaves key channel until e (load_rules s) = ⊥
  Leaves key channel until e (resolve_at now ctx) =
      (now < until) × Renews key until now (find_match o ctx e.rules)
  Leaves key channel until e (record_at now d winner) =
      (d.cache_key ≢ key) × (length e.bindings < e.max_entries)
  Leaves key channel until e (forget_key k) = k ≢ key
  Leaves key channel until e (forget_bound k c) = (k ≢ key) ⊎ (c ≢ channel)
  Leaves key channel until e (forget_all_of c) = c ≢ channel
  Leaves key channel until e clear_all = ⊥
  Leaves key channel until e (stats_at now) = now < until

  -- The calls in turn leave the binding alone, each in the engine that it meets.
  unfoldable pub AllLeave : String → ℕ → ℕ → AffinityEngine o → List (Call o) → Type 0
  unfolding Leaves
  AllLeave key channel until e [] = Unit
  AllLeave key channel until e (c ∷ cs) =
      Leaves key channel until e c × AllLeave key channel until (apply o c e) cs

  apply-Lives :
      (key : String) (channel until : ℕ) (c : Call o) (e : AffinityEngine o)
      → Leaves key channel until e c
      → Lives key channel until e
      → Lives key channel until (apply o c e)
  unfolding apply Leaves
  apply-Lives key channel until (load_rules s) e l h = elim l [ ]
  apply-Lives key channel until (resolve_at now ctx) e l h =
      resolve-Lives key channel until now ctx e l.0 l.1 h
  apply-Lives key channel until (record_at now d winner) e l h =
      record-Lives key channel until now d winner e l.0 l.1 h
  apply-Lives key channel until (forget_key k) e l h = forget-Lives key k channel until e l h
  apply-Lives key channel until (forget_bound k c) e l h = bound-Lives key k channel c until e l h
  apply-Lives key channel until (forget_all_of c) e l h = channel-Lives key channel c until e l h
  apply-Lives key channel until clear_all e l h = elim l [ ]
  apply-Lives key channel until (stats_at now) e l h = swept-Lives key channel until now e l h

  apply-HasRulesOf :
      (key : String) (channel until : ℕ) (c : Call o) (e : AffinityEngine o)
      → Leaves key channel until e c
      → HasRulesOf (apply o c e) e
  unfolding apply Leaves
  apply-HasRulesOf key channel until (load_rules s) e l = elim l [ ]
  apply-HasRulesOf key channel until (resolve_at now ctx) e l = resolve-HasRulesOf now ctx e
  apply-HasRulesOf key channel until (record_at now d winner) e l =
      record_winner-HasRulesOf now d winner e
  apply-HasRulesOf key channel until (forget_key k) e l = forget-HasRulesOf k e
  apply-HasRulesOf key channel until (forget_bound k c) e l = forget_bound-HasRulesOf k c e
  apply-HasRulesOf key channel until (forget_all_of c) e l = channel-HasRulesOf c e
  apply-HasRulesOf key channel until clear_all e l = elim l [ ]
  apply-HasRulesOf key channel until (stats_at now) e l = swept-HasRulesOf now e

  run-Lives :
      (key : String) (channel until : ℕ) (cs : List (Call o)) (e : AffinityEngine o)
      → AllLeave key channel until e cs
      → Lives key channel until e
      → Lives key channel until (run o cs e) × HasRulesOf (run o cs e) e
  unfolding run AllLeave
  run-Lives key channel until [] e l h = (h, (refl, refl, refl))
  run-Lives key channel until (c ∷ cs) e (l, ls) h =
      let (live, later) =
        run-Lives key channel until cs (apply o c e) ls (apply-Lives key channel until c e l h) in
      let now = apply-HasRulesOf key channel until c e l in
      (live, (later.0 ∙ now.0, later.1 ∙ now.1, later.2 ∙ now.2))

  -- Once a winner is recorded for a decision, and the engine binds winners of its key, the same request finds the winner
  -- at any time before the time to live has passed, after any calls in between of these kinds: requests before that
  -- time, which renew the binding, if at all, until that time at least; winners of other keys, while the map is not
  -- full; the removal of other keys and of other channels; and the statistics before that time.
  pub resolve-record_winner :
      (now stamp later : ℕ) (ctx : AffinityContext o) (e : AffinityEngine o) (d : AffinityDecision)
      (e' : AffinityEngine o) (winner : ℕ) (cs : List (Call o))
      → resolve now ctx e ≡ (some d, e')
      → may_bind e' d.cache_key winner ≡ true
      → AllLeave d.cache_key winner (stamp + d.ttl_secs) (record_winner stamp d winner e') cs
      → later < stamp + d.ttl_secs
      → (resolve later ctx (run o cs (record_winner stamp d winner e'))).0
        ≡ some (record d { binding = some winner })
  resolve-record_winner now stamp later ctx e d e' winner cs h free alone soon =
      let (m, a, f, l) = resolve_inv now ctx e d e' h in
      let until = stamp + d.ttl_secs in
      let bound = record_winner stamp d winner e' in
      let x : Entry = record { channel_id = winner; expires_at = until; last_used = stamp } in
      let ((y, g, c, u), after) =
        run-Lives d.cache_key winner until cs bound alone
          (x, record_winner-lookup stamp d winner e' free, refl, omega arith) in
      let kept = record_winner-HasRulesOf stamp d winner e' in
      let before = look_up-HasRulesOf now m e in
      let same : ◌≡◌ {A = AffinityDecision} (record d { binding = some y.channel_id })
          (record m { binding = some y.channel_id }) =
        sym (ap (λ z. record z.0 { binding = some y.channel_id }) l)
        ∙ look_up_fields now m e (some y.channel_id) in
      let found =
        ap (λ k. lookup k (run o cs bound).bindings) (sym (ap (λ z. z.cache_key) same)) ∙ g in
      let back = ap (λ z. z.1) l in
      resolve_match later ctx (run o cs bound) m
        (after.0 ∙ kept.0 ∙ ap (λ z. z.enabled) (sym back) ∙ before.0 ∙ a)
        (ap (find_match o ctx) (after.1 ∙ kept.1 ∙ ap (λ z. z.rules) (sym back) ∙ before.1) ∙ f)
      ∙ ap some (
          look_up_live later m (run o cs bound) y found (omega arith)
          ∙ sym same
          ∙ ap (λ z. record d { binding = some z }) c)
