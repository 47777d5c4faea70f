-- ===== src/Router/Executor/Loop/Budget.antt =====
-- The rounds of one candidate end, and the calls stay within the budget (crates/refract-router/src/executor.rs).
use refract.Base.{
  ℕ, zero, suc, ◌+◌, ◌-◌, ◌≤◌, ◌<◌, ◌^◌, min, ◌≡◌, arith, true, ◌&&◌, Option, none, some,
  if◌then◌else◌, Result, ok, err, List, ◌∷◌, length, String,
}
use refract.Core.Error.{GatewayError, ErrorKind}
use refract.Core.Channel.{EmptyResponseRetryPolicy, pool_len, retry_enabled}
use refract.Router.Keys.{KeyRotator, rotate, current}
use refract.Router.Plan.{Candidate, Route}
use refract.Router.Executor.{should_retry_empty, check_budget}
use refract.Router.Executor.Loop.{
  Services, Reply, Verdict, again, move_on, finished, LoopState, on_failure, on_payload, on_decoded,
  on_reply, round, rounds,
}

-- The keys that a rotator may still go to.
abbrev pub keys_left : KeyRotator → ℕ
keys_left r = pool_len r.pool - r.tried

-- The rounds that may still follow.
abbrev pub rounds_left : EmptyResponseRetryPolicy → LoopState → ℕ
rounds_left policy st = keys_left st.rotator + (policy.max_retries - st.empty_retries)

rotate-left :
    (r : KeyRotator) (k : ErrorKind)
    → (rotate r k).1 ≡ true
    → keys_left (rotate r k).0 < keys_left r
unfolding rotate
rotate-left r k h = ground arith

retry-left :
    (p : EmptyResponseRetryPolicy) (t n : ℕ) → should_retry_empty p t n ≡ true → n < p.max_retries
unfolding should_retry_empty retry_enabled
retry-left p t n h = ground arith

-- A round that is repeated leaves fewer rounds.
abbrev Shrinks {ℓ} :
    {P : Type ℓ} → EmptyResponseRetryPolicy → LoopState → Verdict P × LoopState → Type 0
Shrinks policy st (again, st') = rounds_left policy st' < rounds_left policy st
Shrinks policy st (move_on e, st') = Unit
Shrinks policy st (finished r, st') = Unit

module _ {ℓ} {P : Type ℓ} (s : Services P) (route : Route) (c : Candidate)
    (policy : EmptyResponseRetryPolicy) where
  on_failure-Shrinks :
      (st : LoopState) (e : GatewayError) → Shrinks policy st (on_failure s route c policy st e)
  unfolding on_failure
  on_failure-Shrinks st e = ground (arith, rotate-left st.rotator e.kind)

  on_payload-Shrinks :
      (st : LoopState) (reply : Reply P) (payload : P)
      → Shrinks policy st (on_payload s route c policy st reply payload)
  unfolding on_payload
  on_payload-Shrinks st reply payload =
      ground (arith, retry-left policy reply.body_time st.empty_retries)

  on_decoded-Shrinks :
      (st : LoopState) (reply : Reply P) (d : Result P GatewayError)
      → Shrinks policy st (on_decoded s route c policy st reply d)
  unfolding on_decoded
  on_decoded-Shrinks st reply (ok payload) = on_payload-Shrinks st reply payload
  on_decoded-Shrinks st reply (err e) =
      on_failure-Shrinks st
        (if reply.is_200 && policy.reject_nonstandard_200 then s.invalid_200_error c reply else e)

  on_reply-Shrinks :
      (st : LoopState) (r : Result (Reply P) GatewayError)
      → Shrinks policy st (on_reply s route c policy st r)
  unfolding on_reply
  on_reply-Shrinks st (err e) =
      on_failure-Shrinks st (s.strict_200_error policy.reject_nonstandard_200 c e)
  on_reply-Shrinks st (ok reply) = ground (
    arith,
    retry-left policy reply.body_time st.empty_retries,
    on_decoded-Shrinks st reply reply.decoded,
  )

  round-Shrinks : (st : LoopState) → Shrinks policy st (round s route c policy st)
  unfolding round check_budget
  round-Shrinks st =
      let tried = record st {
        attempts = min (st.attempts + 1) 255;
        calls = min (st.calls + 1) (2 ^ 32 - 1);
        sent = (c, current st.rotator) ∷ st.sent;
      } in
      ground (arith, on_reply-Shrinks tried (s.send st.calls c (current st.rotator)))

  -- The last round is not one that is repeated.
  abbrev pub Ended : Option (Verdict P × LoopState) → Type 0
  Ended none = ⊥
  Ended (some (again, st)) = ⊥
  Ended (some (move_on e, st)) = Unit
  Ended (some (finished r, st)) = Unit

  ended :
      (st st' : LoopState) (v : Verdict P) (rest : Option (Verdict P × LoopState))
      → Shrinks policy st (v, st')
      → (rounds_left policy st' < rounds_left policy st → Ended rest)
      → Ended (elim v [
        | again ↦ rest
        | move_on e ↦ some (move_on e, st')
        | finished r ↦ some (finished r, st')
      ])
  ended st st' again rest l f = f l
  ended st st' (move_on e) rest l f = tt
  ended st st' (finished r) rest l f = tt

  pub rounds-Ended :
      (n : ℕ) (st : LoopState) → rounds_left policy st < n → Ended (rounds s route c policy n st)
  unfolding rounds
  rounds-Ended zero st h = elim h [ ]
  rounds-Ended (suc n) st h =
      let v = round s route c policy st in
      ended st v.1 v.0 (rounds s route c policy n v.1) (round-Shrinks st)
        (λ l. rounds-Ended n v.1 (omega arith))

  -- The calls that are logged are as many as the count says, and the count stays within the budget.
  abbrev pub Within : LoopState → Type 0
  Within st = (length st.sent ≡ st.calls) × (st.calls ≤ route.max_upstream_calls)

  -- What a reply does not change.
  abbrev paid : LoopState → ℕ × List (Candidate × String)
  paid st = (st.calls, st.sent)

  on_failure-paid :
      (st : LoopState) (e : GatewayError) → paid (on_failure s route c policy st e).1 ≡ paid st
  unfolding on_failure
  on_failure-paid st e = ground arith

  on_payload-paid :
      (st : LoopState) (reply : Reply P) (payload : P)
      → paid (on_payload s route c policy st reply payload).1 ≡ paid st
  unfolding on_payload
  on_payload-paid st reply payload = ground arith

  on_decoded-paid :
      (st : LoopState) (reply : Reply P) (d : Result P GatewayError)
      → paid (on_decoded s route c policy st reply d).1 ≡ paid st
  unfolding on_decoded
  on_decoded-paid st reply (ok payload) = on_payload-paid st reply payload
  on_decoded-paid st reply (err e) =
      on_failure-paid st
        (if reply.is_200 && policy.reject_nonstandard_200 then s.invalid_200_error c reply else e)

  on_reply-paid :
      (st : LoopState) (r : Result (Reply P) GatewayError)
      → paid (on_reply s route c policy st r).1 ≡ paid st
  unfolding on_reply
  on_reply-paid st (err e) =
      on_failure-paid st (s.strict_200_error policy.reject_nonstandard_200 c e)
  on_reply-paid st (ok reply) = ground (arith, on_decoded-paid st reply reply.decoded)

  round-Within :
      (st : LoopState)
      → 0 < route.max_upstream_calls
      → route.max_upstream_calls < 2 ^ 32
      → Within st
      → Within (round s route c policy st).1
  unfolding round check_budget
  round-Within st p q h =
      let tried = record st {
        attempts = min (st.attempts + 1) 255;
        calls = min (st.calls + 1) (2 ^ 32 - 1);
        sent = (c, current st.rotator) ∷ st.sent;
      } in
      ground (arith, on_reply-paid tried (s.send st.calls c (current st.rotator)))

  abbrev pub AllWithin : Option (Verdict P × LoopState) → Type 0
  AllWithin none = Unit
  AllWithin (some (v, st)) = Within st

  pub rounds-Within :
      (n : ℕ) (st : LoopState)
      → 0 < route.max_upstream_calls
      → route.max_upstream_calls < 2 ^ 32
      → Within st
      → AllWithin (rounds s route c policy n st)
  unfolding rounds
  rounds-Within zero st p q h = tt
  rounds-Within (suc n) st p q h =
      let v = round s route c policy st in
      let now = round-Within st p q h in ground (arith, now, rounds-Within n v.1 p q now)
