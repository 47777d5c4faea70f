-- ===== src/Codec/Aggregate/Texts.antt =====
-- The aggregator keeps every delta (crates/refract-protocol/src/stream.rs, `StreamAggregator::absorb`).
use refract.Base.{
  ℕ, ◌≡◌, refl, sym, ap, ◌∙◌, arith, Bool, true, false, ◌||◌, List, [], ◌∷◌, Option, none, some,
  String, if◌then◌else◌, unwrap_or, any, Bool-cases, inl, inr,
}
use refract.Codec.Aggregate.{
  PartKind, text, thinking, tool_use, refusal, StreamEvent, start, content_start, text_delta,
  thinking_delta, thinking_signature, refusal_delta, tool_call_start, tool_call_args_delta,
  content_stop, usage_update, stop_event, done, error_event, ping, text_block, thinking_block,
  tool_block, refusal_block, StreamAggregator, new_aggregator, matches_kind, push_text,
  push_thinking, sign_thinking, push_refusal, start_call, push_args, absorb, absorb_all,
}
use refract.Codec.Aggregate.Blocks.{
  text_at, is_about, extend, Extends, text_at-update_block, set_block_lem,
}

-- The index and the kind of block that an event is about.
unfoldable pub subject : StreamEvent → Option (ℕ × PartKind)
subject (content_start i k) = some (i, k)
subject (text_delta i d) = some (i, text)
subject (thinking_delta i d) = some (i, thinking)
subject (thinking_signature i s) = some (i, thinking)
subject (refusal_delta i d) = some (i, refusal)
subject (tool_call_start i id name s) = some (i, tool_use)
subject (tool_call_args_delta i d) = some (i, tool_use)
subject _ = none

-- The text that an event adds.
unfoldable pub delta : StreamEvent → Option String
delta (text_delta i d) = some d
delta (thinking_delta i d) = some d
delta (refusal_delta i d) = some d
delta (tool_call_args_delta i d) = some d
delta _ = none

-- All the deltas of an index and a kind behind a text, in their order.
unfoldable pub joined : ℕ → PartKind → String → List StreamEvent → String
unfolding subject delta
joined index kind t [] = t
joined index kind t (e ∷ es) =
    joined index kind (if is_about index kind (subject e) then extend t (delta e) else t) es

unfoldable pub is_touched : ℕ → PartKind → List StreamEvent → Bool
unfolding any subject
is_touched index kind es = any (λ e. is_about index kind (subject e)) es

push_text-Extends : (d : String) → Extends text (some d) (push_text d)
unfolding push_text matches_kind
push_text-Extends d (text_block t) = ((λ k. ground arith), λ e. refl)
push_text-Extends d (thinking_block t s) = ((λ k. refl), λ e. cc e)
push_text-Extends d (tool_block i n a s) = ((λ k. refl), λ e. cc e)
push_text-Extends d (refusal_block t) = ((λ k. refl), λ e. cc e)

push_thinking-Extends : (d : String) → Extends thinking (some d) (push_thinking d)
unfolding push_thinking matches_kind
push_thinking-Extends d (text_block t) = ((λ k. refl), λ e. cc e)
push_thinking-Extends d (thinking_block t s) = ((λ k. ground arith), λ e. refl)
push_thinking-Extends d (tool_block i n a s) = ((λ k. refl), λ e. cc e)
push_thinking-Extends d (refusal_block t) = ((λ k. refl), λ e. cc e)

sign_thinking-Extends : (d : String) → Extends thinking none (sign_thinking d)
unfolding sign_thinking matches_kind
sign_thinking-Extends d (text_block t) = ((λ k. refl), λ e. refl)
sign_thinking-Extends d (thinking_block t s) = ((λ k. ground arith), λ e. refl)
sign_thinking-Extends d (tool_block i n a s) = ((λ k. refl), λ e. refl)
sign_thinking-Extends d (refusal_block t) = ((λ k. refl), λ e. refl)

push_refusal-Extends : (d : String) → Extends refusal (some d) (push_refusal d)
unfolding push_refusal matches_kind
push_refusal-Extends d (text_block t) = ((λ k. refl), λ e. cc e)
push_refusal-Extends d (thinking_block t s) = ((λ k. refl), λ e. cc e)
push_refusal-Extends d (tool_block i n a s) = ((λ k. refl), λ e. cc e)
push_refusal-Extends d (refusal_block t) = ((λ k. ground arith), λ e. refl)

start_call-Extends :
    (x : String) (y : String) (z : Option String) → Extends tool_use none (start_call x y z)
unfolding start_call matches_kind
start_call-Extends x y z (text_block t) = ((λ k. refl), λ e. refl)
start_call-Extends x y z (thinking_block t s) = ((λ k. refl), λ e. refl)
start_call-Extends x y z (tool_block i n a s) = ((λ k. ground arith), λ e. refl)
start_call-Extends x y z (refusal_block t) = ((λ k. refl), λ e. refl)

push_args-Extends : (d : String) → Extends tool_use (some d) (push_args d)
unfolding push_args matches_kind
push_args-Extends d (text_block t) = ((λ k. refl), λ e. cc e)
push_args-Extends d (thinking_block t s) = ((λ k. refl), λ e. cc e)
push_args-Extends d (tool_block i n a s) = ((λ k. ground arith), λ e. refl)
push_args-Extends d (refusal_block t) = ((λ k. refl), λ e. cc e)

absorb-text_at :
    (index : ℕ) (kind : PartKind) (e : StreamEvent) (a : StreamAggregator)
    → text_at index kind (absorb e a).blocks ≡ (
        if is_about index kind (subject e)
        then some (extend (unwrap_or (text_at index kind a.blocks) "") (delta e))
        else text_at index kind a.blocks)
unfolding absorb subject delta
absorb-text_at index kind (start i m u) a = refl
absorb-text_at index kind (content_start i k) a =
    ap (text_at index kind) (set_block_lem i k a.blocks)
    ∙ text_at-update_block i index k kind none (λ b. b) a.blocks (λ b. ((λ h. refl), λ e. refl))
absorb-text_at index kind (text_delta i d) a =
    text_at-update_block i index text kind (some d) (push_text d) a.blocks (push_text-Extends d)
absorb-text_at index kind (thinking_delta i d) a =
    text_at-update_block i index thinking kind (some d) (push_thinking d) a.blocks
      (push_thinking-Extends d)
absorb-text_at index kind (thinking_signature i d) a =
    text_at-update_block i index thinking kind none (sign_thinking d) a.blocks
      (sign_thinking-Extends d)
absorb-text_at index kind (refusal_delta i d) a =
    text_at-update_block i index refusal kind (some d) (push_refusal d) a.blocks
      (push_refusal-Extends d)
absorb-text_at index kind (tool_call_start i x y z) a =
    text_at-update_block i index tool_use kind none (start_call x y z) a.blocks
      (start_call-Extends x y z)
absorb-text_at index kind (tool_call_args_delta i d) a =
    text_at-update_block i index tool_use kind (some d) (push_args d) a.blocks (push_args-Extends d)
absorb-text_at index kind (content_stop i) a = refl
absorb-text_at index kind (usage_update u) a = refl
absorb-text_at index kind (stop_event r s) a = refl
absorb-text_at index kind done a = refl
absorb-text_at index kind (error_event m k) a = refl
absorb-text_at index kind ping a = refl

joined_untouched :
    (index : ℕ) (kind : PartKind) (t : String) (es : List StreamEvent)
    → is_touched index kind es ≡ false
    → joined index kind t es ≡ t
unfolding joined is_touched any
joined_untouched index kind t [] h = refl
joined_untouched index kind t (e ∷ es) h = elim (Bool-cases (is_about index kind (subject e))) [
  | inl x ↦ cc (sym (ap (λ c. c || is_touched index kind es) x) ∙ h)
  | inr x ↦
      ap (λ c. joined index kind (if c then extend t (delta e) else t) es) x
      ∙ joined_untouched index kind t es (sym (ap (λ c. c || is_touched index kind es) x) ∙ h)
]

-- The text under an index and a kind behind a text that may be there before.
abbrev gathered : ℕ → PartKind → Option String → List StreamEvent → Option String
gathered index kind old es =
    if is_touched index kind es then some (joined index kind (unwrap_or old "") es) else old

gathered-some :
    (index : ℕ) (kind : PartKind) (t : String) (es : List StreamEvent)
    → gathered index kind (some t) es ≡ some (joined index kind t es)
gathered-some index kind t es = elim (Bool-cases (is_touched index kind es)) [
  | inl x ↦ ap (λ c. if c then some (joined index kind t es) else some t) x
  | inr x ↦
      ap (λ c. if c then some (joined index kind t es) else some t) x
      ∙ ap some (sym (joined_untouched index kind t es x))
]

gathered_if :
    (index : ℕ) (kind : PartKind) (c : Bool) (old d : Option String) (es : List StreamEvent)
    → gathered index kind (if c then some (extend (unwrap_or old "") d) else old) es ≡ (
        if c || is_touched index kind es
        then some
            (joined index kind (if c then extend (unwrap_or old "") d else unwrap_or old "") es)
        else old)
gathered_if index kind true old d es = gathered-some index kind (extend (unwrap_or old "") d) es
gathered_if index kind false old d es = refl

gathered_cons :
    (index : ℕ) (kind : PartKind) (old : Option String) (e : StreamEvent) (es : List StreamEvent)
    → gathered index kind
        (if is_about index kind (subject e)
          then some (extend (unwrap_or old "") (delta e))
          else old)
        es
      ≡ gathered index kind old (e ∷ es)
unfolding joined is_touched any
gathered_cons index kind old e es =
    gathered_if index kind (is_about index kind (subject e)) old (delta e) es

absorb_all-gathered :
    (index : ℕ) (kind : PartKind) (es : List StreamEvent) (a : StreamAggregator)
    → text_at index kind (absorb_all es a).blocks
      ≡ gathered index kind (text_at index kind a.blocks) es
unfolding absorb_all is_touched any
absorb_all-gathered index kind [] a = refl
absorb_all-gathered index kind (e ∷ es) a =
    absorb_all-gathered index kind es (absorb e a)
    ∙ ap (λ o. gathered index kind o es) (absorb-text_at index kind e a)
    ∙ gathered_cons index kind (text_at index kind a.blocks) e es

-- What a stream has under an index and a kind is the deltas of that index and kind, one behind the other in the order of
-- the events: nothing of another index or kind is in it and no delta is lost. There is no such block exactly if no event
-- was about it.
pub absorb_all-text_at :
    (index : ℕ) (kind : PartKind) (es : List StreamEvent)
    → text_at index kind (absorb_all es new_aggregator).blocks
      ≡ (if is_touched index kind es then some (joined index kind "" es) else none)
unfolding text_at
absorb_all-text_at index kind es = absorb_all-gathered index kind es new_aggregator
