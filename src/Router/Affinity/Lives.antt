-- ===== src/Router/Affinity/Lives.antt =====
-- A binding under each method of the engine (crates/refract-router/src/affinity.rs): when it stays, and that the rules
-- and the switches do.
use refract.Base.{
  Option, none, ℕ, ◌+◌, ◌≤◌, ◌<◌, ◌≡◌, ◌≢◌, refl, sym, ◌∙◌, arith, false, some, String,
  Option-cases, Bool-cases, inl, inr, ◌⊎◌, length, subst,
}
use refract.Base.Maps.{
  string_eq, beq_refl, lookup, lookup-put, lookup-delete, lookup-retain_entries_keep,
}
use refract.Router.Affinity.{Outside, Entry, AffinityDecision, AffinityEngine, AffinityContext}
use refract.Router.Affinity.Match.{find_match}
use refract.Router.Affinity.Cache.{
  look_up, resolve, evict_expired, make_room, bind, record_winner, forget, forget_if_bound_to,
  forget_channel, is_elsewhere, is_live, take_stats,
}
use refract.Router.Affinity.Bindings.{HasRulesOf, look_up-HasRulesOf}

-- A decision is for another key, or binds until the time at least.
abbrev pub Renews : String → ℕ → ℕ → Option AffinityDecision → Type 0
Renews key until now none = Unit
Renews key until now (some m) = (m.cache_key ≢ key) ⊎ (until ≤ now + m.ttl_secs)

module _ {o : Outside} where
  -- The key is bound to the channel, at least until the time.
  abbrev pub Lives : String → ℕ → ℕ → AffinityEngine o → Type 0
  Lives key channel until e =
      (x : Entry) × (lookup key e.bindings ≡ some x)
      × (x.channel_id ≡ channel)
      × (until ≤ x.expires_at)

  look_up_own :
      (channel until now : ℕ) (m : AffinityDecision) (e : AffinityEngine o)
      → now < until
      → until ≤ now + m.ttl_secs
      → Lives m.cache_key channel until e
      → Lives m.cache_key channel until (look_up now m e).1
  unfolding look_up
  look_up_own channel until now m e t far (x, f, c, u) =
      let x' : Entry = record x { expires_at = now + m.ttl_secs; last_used = now } in
      (
        x',
        ground (arith, f, lookup-put m.cache_key m.cache_key x' e.bindings, beq_refl m.cache_key),
        c,
        far,
      )

  look_up_other :
      (key : String) (now : ℕ) (m : AffinityDecision) (e : AffinityEngine o)
      → m.cache_key ≢ key
      → lookup key (look_up now m e).1.bindings ≡ lookup key e.bindings
  unfolding look_up
  look_up_other key now m e n =
      let off : string_eq.beq m.cache_key key ≡ false =
        ground (arith, string_eq.beq_iff m.cache_key key) in
      elim (Option-cases (lookup m.cache_key e.bindings)) [
        | inl f ↦ ground (arith, f)
        | inr (x, f) ↦ ground (
          arith,
          f,
          lookup-put m.cache_key key (record x { expires_at = now + m.ttl_secs; last_used = now })
              e.bindings,
          lookup-delete m.cache_key key e.bindings,
        )
      ]

  pub look_up-Lives :
      (key : String) (channel until now : ℕ) (m : AffinityDecision) (e : AffinityEngine o)
      → now < until
      → ((m.cache_key ≢ key) ⊎ (until ≤ now + m.ttl_secs))
      → Lives key channel until e
      → Lives key channel until (look_up now m e).1
  look_up-Lives key channel until now m e t far (x, f, c, u) =
      elim (Bool-cases (string_eq.beq m.cache_key key)) [
        | inl q ↦
            let same = (string_eq.beq_iff m.cache_key key).0 q in
            subst (λ k. Lives k channel until (look_up now m e).1) same
              (look_up_own channel until now m e t
                (elim far [ inl n ↦ elim (n same) [ ] | inr l ↦ l ])
                (subst (λ k. Lives k channel until e) (sym same) (x, f, c, u)))
        | inr q ↦ (
          x,
          look_up_other key now m e (λ same. ground (arith, string_eq.beq_iff m.cache_key key)) ∙ f,
          c,
          u,
        )
      ]

  pub record-Lives :
      (key : String) (channel until now : ℕ) (d : AffinityDecision) (winner : ℕ)
      (e : AffinityEngine o)
      → d.cache_key ≢ key
      → length e.bindings < e.max_entries
      → Lives key channel until e
      → Lives key channel until (record_winner now d winner e)
  unfolding record_winner make_room bind
  record-Lives key channel until now d winner e k l (x, f, c, u) =
      let y : Entry = record {
        channel_id = winner;
        expires_at = now + d.ttl_secs;
        last_used = now;
      } in
      (
        x,
        ground
            (arith, f, lookup-put d.cache_key key y e.bindings, string_eq.beq_iff d.cache_key key),
        c,
        u,
      )

  pub forget-Lives :
      (key k : String) (channel until : ℕ) (e : AffinityEngine o)
      → k ≢ key
      → Lives key channel until e
      → Lives key channel until (forget k e)
  unfolding forget
  forget-Lives key k channel until e n (x, f, c, u) =
      (x, ground (arith, f, lookup-delete k key e.bindings, string_eq.beq_iff k key), c, u)

  pub bound-Lives :
      (key k : String) (channel from until : ℕ) (e : AffinityEngine o)
      → ((k ≢ key) ⊎ (from ≢ channel))
      → Lives key channel until e
      → Lives key channel until (forget_if_bound_to k from e)
  unfolding forget_if_bound_to forget
  bound-Lives key k channel from until e n (x, f, c, u) = (
    x,
    elim (Option-cases (lookup k e.bindings)) [
      | inl g ↦ ground (arith, f, g)
      | inr (y, g) ↦ ground (arith, f, g, lookup-delete k key e.bindings, string_eq.beq_iff k key)
    ],
    c,
    u,
  )

  pub channel-Lives :
      (key : String) (channel gone until : ℕ) (e : AffinityEngine o)
      → gone ≢ channel
      → Lives key channel until e
      → Lives key channel until (forget_channel gone e)
  unfolding forget_channel
  channel-Lives key channel gone until e n (x, f, c, u) =
      (x, lookup-retain_entries_keep (is_elsewhere gone) key x e.bindings (ground arith) f, c, u)

  pub swept-Lives :
      (key : String) (channel until now : ℕ) (e : AffinityEngine o)
      → now < until
      → Lives key channel until e
      → Lives key channel until (take_stats now e).1
  unfolding take_stats evict_expired
  swept-Lives key channel until now e t (x, f, c, u) =
      (x, lookup-retain_entries_keep (is_live now) key x e.bindings (ground arith) f, c, u)

  -- A request leaves the engine as it is, or looks up the key of its match.
  resolve_engine :
      (now : ℕ) (ctx : AffinityContext o) (e : AffinityEngine o)
      → ((resolve now ctx e).1 ≡ e)
        ⊎ ((m : AffinityDecision) × (find_match o ctx e.rules ≡ some m)
            × ((resolve now ctx e).1 ≡ (look_up now m e).1))
  unfolding resolve
  resolve_engine now ctx e = elim (Bool-cases e.enabled) [
    | inr a ↦ inl (ground (arith, a))
    | inl a ↦ elim (Option-cases (find_match o ctx e.rules)) [
      | inl f ↦ inl (ground (arith, a, f))
      | inr (m, f) ↦ inr (m, f, ground (arith, a, f))
    ]
  ]

  pub resolve-Lives :
      (key : String) (channel until now : ℕ) (ctx : AffinityContext o) (e : AffinityEngine o)
      → now < until
      → Renews key until now (find_match o ctx e.rules)
      → Lives key channel until e
      → Lives key channel until (resolve now ctx e).1
  resolve-Lives key channel until now ctx e t far h = elim (resolve_engine now ctx e) [
    | inl same ↦ subst (Lives key channel until) (sym same) h
    | inr (m, f, same) ↦
        subst (Lives key channel until) (sym same)
          (look_up-Lives key channel until now m e t (subst (Renews key until now) f far) h)
  ]

  pub resolve-HasRulesOf :
      (now : ℕ) (ctx : AffinityContext o) (e : AffinityEngine o)
      → HasRulesOf (resolve now ctx e).1 e
  unfolding resolve
  resolve-HasRulesOf now ctx e = elim (Option-cases (find_match o ctx e.rules)) [
    | inl f ↦ ground (arith, f)
    | inr (m, f) ↦ ground (arith, f, look_up-HasRulesOf now m e)
  ]

  pub forget-HasRulesOf : (k : String) (e : AffinityEngine o) → HasRulesOf (forget k e) e
  unfolding forget
  forget-HasRulesOf k e = ground arith

  pub forget_bound-HasRulesOf :
      (k : String) (c : ℕ) (e : AffinityEngine o) → HasRulesOf (forget_if_bound_to k c e) e
  unfolding forget_if_bound_to
  forget_bound-HasRulesOf k c e = elim (Option-cases (lookup k e.bindings)) [
    | inl f ↦ ground (arith, f)
    | inr (x, f) ↦ ground (arith, f, forget-HasRulesOf k e)
  ]

  pub channel-HasRulesOf : (c : ℕ) (e : AffinityEngine o) → HasRulesOf (forget_channel c e) e
  unfolding forget_channel
  channel-HasRulesOf c e = (refl, refl, refl)

  pub swept-HasRulesOf : (now : ℕ) (e : AffinityEngine o) → HasRulesOf (take_stats now e).1 e
  unfolding take_stats evict_expired
  swept-HasRulesOf now e = (refl, refl, refl)
