-- ===== src/Router/Affinity/Bindings.antt =====
-- What a caller is bound to (crates/refract-router/src/affinity.rs, `resolve`, `record` and the removals).
use refract.Base.{
  ℕ, ◌+◌, ◌<◌, ◌≡◌, sym, ap, ◌∙◌, arith, true, false, Option, none, some, String, Option-cases,
  Bool-cases, inl, inr, if◌then◌else◌,
}
use refract.Base.Maps.{string_eq, lookup, beq_refl, lookup-put}
use refract.Base.Keyed.{IsKeyed, lookup-retain_entries}
use refract.Router.Affinity.{Outside, Entry, AffinityDecision, AffinityEngine, AffinityContext}
use refract.Router.Affinity.Match.{find_match}
use refract.Router.Affinity.Cache.{
  oldest, look_up, resolve, evict_expired, evict_oldest, evict_expired_or_oldest, may_bind,
  make_room, bind, record_winner, forget_channel, is_elsewhere,
}

abbrev pub channel_of : Option Entry → Option ℕ
channel_of none = none
channel_of (some x) = some x.channel_id

module _ {o : Outside} where
  -- The rules and the switches are those of the other engine.
  abbrev pub HasRulesOf : AffinityEngine o → AffinityEngine o → Type 0
  HasRulesOf e e' =
      (e.enabled ≡ e'.enabled) × (e.rules ≡ e'.rules) × (e.switch_on_success ≡ e'.switch_on_success)

  evict_oldest-HasRulesOf : (e : AffinityEngine o) → HasRulesOf (evict_oldest e) e
  unfolding evict_oldest
  evict_oldest-HasRulesOf e = elim (Option-cases (oldest e.bindings)) [
    | inl f ↦ ground (arith, f)
    | inr (x, f) ↦ ground (arith, f)
  ]

  pub record_winner-HasRulesOf :
      (now : ℕ) (d : AffinityDecision) (winner : ℕ) (e : AffinityEngine o)
      → HasRulesOf (record_winner now d winner e) e
  unfolding record_winner bind make_room evict_expired_or_oldest evict_expired
  record_winner-HasRulesOf now d winner e =
      ground (arith, evict_oldest-HasRulesOf (evict_expired now e))

  pub look_up-HasRulesOf :
      (now : ℕ) (d : AffinityDecision) (e : AffinityEngine o) → HasRulesOf (look_up now d e).1 e
  unfolding look_up
  look_up-HasRulesOf now d e = elim (Option-cases (lookup d.cache_key e.bindings)) [
    | inl f ↦ ground (arith, f)
    | inr (x, f) ↦ ground (arith, f)
  ]

  -- The winner, or the channel that stays.
  unfoldable pub bound_channel : AffinityEngine o → String → ℕ → ℕ
  bound_channel e key winner = elim (lookup key e.bindings) [
    | none ↦ winner
    | some x ↦ if e.switch_on_success then winner else x.channel_id
  ]

  bind-lookup :
      (now : ℕ) (d : AffinityDecision) (winner : ℕ) (e : AffinityEngine o)
      → lookup d.cache_key (bind now d winner e).bindings
        ≡ some (record { channel_id = winner; expires_at = now + d.ttl_secs; last_used = now })
  unfolding bind
  bind-lookup now d winner e =
      let x : Entry = record {
        channel_id = winner;
        expires_at = now + d.ttl_secs;
        last_used = now;
      } in
      lookup-put d.cache_key d.cache_key x e.bindings
      ∙ ap (λ b. if b then some x else lookup d.cache_key e.bindings) (beq_refl d.cache_key)

  record_winner_binds :
      (now : ℕ) (d : AffinityDecision) (winner : ℕ) (e : AffinityEngine o)
      → may_bind e d.cache_key winner ≡ true
      → record_winner now d winner e ≡ bind now d winner (make_room now e)
  unfolding record_winner
  record_winner_binds now d winner e h =
      ap (λ b. if b then bind now d winner (make_room now e) else e) h

  record_winner_keeps :
      (now : ℕ) (d : AffinityDecision) (winner : ℕ) (e : AffinityEngine o)
      → may_bind e d.cache_key winner ≡ false
      → record_winner now d winner e ≡ e
  unfolding record_winner
  record_winner_keeps now d winner e h =
      ap (λ b. if b then bind now d winner (make_room now e) else e) h

  pub record_winner-lookup :
      (now : ℕ) (d : AffinityDecision) (winner : ℕ) (e : AffinityEngine o)
      → may_bind e d.cache_key winner ≡ true
      → lookup d.cache_key (record_winner now d winner e).bindings
        ≡ some (record { channel_id = winner; expires_at = now + d.ttl_secs; last_used = now })
  record_winner-lookup now d winner e h =
      ap (λ x. lookup d.cache_key x.bindings) (record_winner_binds now d winner e h)
      ∙ bind-lookup now d winner (make_room now e)

  bound_channel_bind :
      (e : AffinityEngine o) (key : String) (winner : ℕ)
      → may_bind e key winner ≡ true
      → bound_channel e key winner ≡ winner
  unfolding may_bind bound_channel
  bound_channel_bind e key winner h = elim (Option-cases (lookup key e.bindings)) [
    | inl f ↦ ground (arith, h, f)
    | inr (x, f) ↦ ground (arith, h, f)
  ]

  bound_channel_keep :
      (e : AffinityEngine o) (key : String) (winner : ℕ)
      → may_bind e key winner ≡ false
      → channel_of (lookup key e.bindings) ≡ some (bound_channel e key winner)
  unfolding may_bind bound_channel
  bound_channel_keep e key winner h = elim (Option-cases (lookup key e.bindings)) [
    | inl f ↦ ground (arith, h, f)
    | inr (x, f) ↦ ground (arith, h, f)
  ]

  -- After a winner is recorded its key is bound: to the winner when nothing was bound before or winners take over, and
  -- to the same channel as before when they do not.
  pub record_winner-bound_channel :
      (now : ℕ) (d : AffinityDecision) (winner : ℕ) (e : AffinityEngine o)
      → channel_of (lookup d.cache_key (record_winner now d winner e).bindings)
        ≡ some (bound_channel e d.cache_key winner)
  record_winner-bound_channel now d winner e = elim (Bool-cases (may_bind e d.cache_key winner)) [
    | inl h ↦
        ap channel_of (record_winner-lookup now d winner e h)
        ∙ ap some (sym (bound_channel_bind e d.cache_key winner h))
    | inr h ↦
        ap (λ x. channel_of (lookup d.cache_key x.bindings)) (record_winner_keeps now d winner e h)
        ∙ bound_channel_keep e d.cache_key winner h
  ]

  -- Exactly the bindings to the channel go: every other key is found as before. The keys are distinct.
  pub forget_channel-lookup :
      (channel : ℕ) (key : String) (e : AffinityEngine o)
      → IsKeyed e.bindings
      → lookup key (forget_channel channel e).bindings ≡ elim (lookup key e.bindings) [
        | none ↦ none
        | some x ↦ if is_elsewhere channel key x then some x else none
      ]
  unfolding forget_channel
  forget_channel-lookup channel key e d =
      lookup-retain_entries (is_elsewhere channel) key e.bindings d

  -- The rule's match behind a decision.
  pub resolve_inv :
      (now : ℕ) (ctx : AffinityContext o) (e : AffinityEngine o) (d : AffinityDecision)
      (e' : AffinityEngine o)
      → resolve now ctx e ≡ (some d, e')
      → (m : AffinityDecision) × (e.enabled ≡ true)
        × (find_match o ctx e.rules ≡ some m)
        × (look_up now m e ≡ (d, e'))
  unfolding resolve
  resolve_inv now ctx e d e' h = elim (Option-cases (find_match o ctx e.rules)) [
    | inl f ↦ ground (arith, h, f)
    | inr (m, f) ↦ (m, ground (arith, h, f), ground (arith, h, f), ground (arith, h, f))
  ]

  pub resolve_match :
      (now : ℕ) (ctx : AffinityContext o) (e : AffinityEngine o) (m : AffinityDecision)
      → e.enabled ≡ true
      → find_match o ctx e.rules ≡ some m
      → (resolve now ctx e).0 ≡ some (look_up now m e).0
  unfolding resolve
  resolve_match now ctx e m a f = ground (arith, a, f)

  pub look_up_fields :
      (now : ℕ) (m : AffinityDecision) (e : AffinityEngine o) (b : Option ℕ)
      → ◌≡◌ {A = AffinityDecision}
          (record (look_up now m e).0 { binding = b })
          (record m { binding = b })
  unfolding look_up
  look_up_fields now m e b = elim (Option-cases (lookup m.cache_key e.bindings)) [
    | inl f ↦ ground (arith, f)
    | inr (x, f) ↦ ground (arith, f)
  ]

  pub look_up_live :
      (now : ℕ) (m : AffinityDecision) (e : AffinityEngine o) (x : Entry)
      → lookup m.cache_key e.bindings ≡ some x
      → now < x.expires_at
      → (look_up now m e).0 ≡ record m { binding = some x.channel_id }
  unfolding look_up
  look_up_live now m e x f h = ground (arith, f, h)
