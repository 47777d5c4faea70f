-- ===== src/Codec/Aggregate.antt =====
-- The events of a stream and their aggregation to a response (crates/refract-protocol/src/stream.rs, `StreamEvent` and
-- `StreamAggregator`). A change of the block that `ensure` gives is a function on blocks.
pub mod Blocks
pub mod Texts
use Prim.Native.String.{◌++◌ as append_text}
use refract.Base.{
  ℕ, zero, suc, Bool, true, false, not, ◌&&◌, List, [], ◌∷◌, ◌++◌, Option, none, some, String, ◌==◌,
  compare, Ordering, if◌then◌else◌, is_none, is_some, is_empty_text, trim, option_or, any,
}
use refract.Base.Sort
use refract.Codec.Usage.{Usage, no_usage, merge_max}

pub data PartKind : Type 0 where
  text thinking tool_use refusal : PartKind

pub data StopReason : Type 0 where
  stop max_tokens stop_sequence call_tool content_filter refused pause_turn other : StopReason

pub data StreamEvent : Type 0 where
  start : String → String → Option Usage → StreamEvent
  content_start : ℕ → PartKind → StreamEvent
  text_delta : ℕ → String → StreamEvent
  thinking_delta : ℕ → String → StreamEvent
  thinking_signature : ℕ → String → StreamEvent
  refusal_delta : ℕ → String → StreamEvent
  tool_call_start : ℕ → String → String → Option String → StreamEvent
  tool_call_args_delta : ℕ → String → StreamEvent
  content_stop : ℕ → StreamEvent
  usage_update : Usage → StreamEvent
  stop_event : StopReason → Option String → StreamEvent
  done : StreamEvent
  error_event : String → String → StreamEvent
  ping : StreamEvent

-- `StreamEvent::is_terminal` and `index`.
unfoldable pub is_terminal : StreamEvent → Bool
is_terminal done = true
is_terminal (error_event m k) = true
is_terminal _ = false

unfoldable pub event_index : StreamEvent → Option ℕ
event_index (content_start i k) = some i
event_index (text_delta i t) = some i
event_index (thinking_delta i t) = some i
event_index (thinking_signature i s) = some i
event_index (refusal_delta i t) = some i
event_index (tool_call_start i id n s) = some i
event_index (tool_call_args_delta i f) = some i
event_index (content_stop i) = some i
event_index _ = none

pub data BlockAccum : Type 0 where
  text_block : String → BlockAccum
  thinking_block : String → Option String → BlockAccum
  tool_block : String → String → String → Option String → BlockAccum
  refusal_block : String → BlockAccum

pub record StreamAggregator : Type 0 where
  pub id : String
  pub model : String
  pub stop_reason : Option StopReason
  pub stop_text : Option String
  pub usage : Usage
  pub blocks : List (ℕ × BlockAccum)

abbrev pub new_aggregator : StreamAggregator
new_aggregator = record {
  id = "";
  model = "";
  stop_reason = none;
  stop_text = none;
  usage = no_usage;
  blocks = [];
}

unfoldable pub fresh : PartKind → BlockAccum
fresh text = text_block ""
fresh thinking = thinking_block "" none
fresh tool_use = tool_block "" "" "" none
fresh refusal = refusal_block ""

unfoldable pub matches_kind : BlockAccum → PartKind → Bool
matches_kind (text_block t) text = true
matches_kind (thinking_block t s) thinking = true
matches_kind (tool_block i n a s) tool_use = true
matches_kind (refusal_block t) refusal = true
matches_kind _ _ = false

abbrev pub is_block : ℕ → PartKind → ℕ × BlockAccum → Bool
is_block index kind (i, b) = i == index && matches_kind b kind

-- `set_block`, which finds a block or adds an empty one.
unfoldable pub set_block : ℕ → PartKind → List (ℕ × BlockAccum) → List (ℕ × BlockAccum)
unfolding any matches_kind fresh
set_block index kind bs =
    if any (is_block index kind) bs then bs else bs ++ (index, fresh kind) ∷ []

-- `ensure` and a change of the block that it gives.
unfoldable pub update_block :
    ℕ → PartKind → (BlockAccum → BlockAccum) → List (ℕ × BlockAccum) → List (ℕ × BlockAccum)
unfolding matches_kind fresh
update_block index kind f [] = (index, f (fresh kind)) ∷ []
update_block index kind f ((i, b) ∷ bs) =
    let rest = update_block index kind f bs in
    if is_block index kind (i, b) then (i, f b) ∷ bs else (i, b) ∷ rest

-- The changes of `absorb`, each of the kind that its event asks for.
unfoldable pub push_text : String → BlockAccum → BlockAccum
push_text d (text_block t) = text_block (append_text t d)
push_text d b = b

unfoldable pub push_thinking : String → BlockAccum → BlockAccum
push_thinking d (thinking_block t s) = thinking_block (append_text t d) s
push_thinking d b = b

unfoldable pub sign_thinking : String → BlockAccum → BlockAccum
sign_thinking signature (thinking_block t s) = thinking_block t (some signature)
sign_thinking signature b = b

unfoldable pub push_refusal : String → BlockAccum → BlockAccum
push_refusal d (refusal_block t) = refusal_block (append_text t d)
push_refusal d b = b

abbrev pub nonempty_or : String → String → String
nonempty_or new old = if is_empty_text new then old else new

unfoldable pub start_call : String → String → Option String → BlockAccum → BlockAccum
start_call id name signature (tool_block i n a s) =
    tool_block (nonempty_or id i) (nonempty_or name n) a (option_or signature s)
start_call id name signature b = b

unfoldable pub push_args : String → BlockAccum → BlockAccum
push_args d (tool_block i n a s) = tool_block i n (append_text a d) s
push_args d b = b

abbrev pub with_blocks : StreamAggregator → List (ℕ × BlockAccum) → StreamAggregator
with_blocks a bs = record a { blocks = bs }

abbrev pub merged : Usage → Option Usage → Usage
merged u none = u
merged u (some v) = merge_max u v

-- `StreamAggregator::absorb`.
unfoldable pub absorb : StreamEvent → StreamAggregator → StreamAggregator
unfolding set_block update_block push_text push_thinking sign_thinking push_refusal start_call
    push_args merge_max
absorb (start id model usage) a = record a { id = id; model = model; usage = merged a.usage usage }
absorb (content_start i kind) a = with_blocks a (set_block i kind a.blocks)
absorb (text_delta i d) a = with_blocks a (update_block i text (push_text d) a.blocks)
absorb (thinking_delta i d) a = with_blocks a (update_block i thinking (push_thinking d) a.blocks)
absorb (thinking_signature i s) a =
    with_blocks a (update_block i thinking (sign_thinking s) a.blocks)
absorb (refusal_delta i d) a = with_blocks a (update_block i refusal (push_refusal d) a.blocks)
absorb (tool_call_start i id name s) a =
    with_blocks a (update_block i tool_use (start_call id name s) a.blocks)
absorb (tool_call_args_delta i d) a = with_blocks a (update_block i tool_use (push_args d) a.blocks)
absorb (content_stop i) a = a
absorb (usage_update u) a = record a { usage = merge_max a.usage u }
absorb (stop_event reason sequence) a = record a {
  stop_reason = some reason;
  stop_text = option_or sequence a.stop_text;
}
absorb done a = a
absorb (error_event m k) a = a
absorb ping a = a

unfoldable pub absorb_all : List StreamEvent → StreamAggregator → StreamAggregator
unfolding absorb
absorb_all [] a = a
absorb_all (e ∷ es) a = absorb_all es (absorb e a)

-- `text_preview`: the blocks under their titles, with an empty line between them.
unfoldable pub preview_block : BlockAccum → String
preview_block (text_block t) = t
preview_block (thinking_block t s) = append_text "[thinking]\n" t
preview_block (tool_block i name args s) =
    append_text "[tool_call " (append_text name (append_text "]\n" args))
preview_block (refusal_block t) = append_text "[refusal]\n" t

unfoldable pub preview_from : String → List (ℕ × BlockAccum) → String
unfolding preview_block
preview_from out [] = out
preview_from out ((i, b) ∷ bs) =
    let spaced = if is_empty_text out then out else append_text out "\n\n" in
    preview_from (append_text spaced (preview_block b)) bs

unfoldable pub text_preview : StreamAggregator → String
unfolding preview_from
text_preview a = preview_from "" a.blocks

-- `serde_json::from_str`, an empty object and a text as values.
pub record Json : Type 1 where
  pub Value : Type 0
  pub parse : String → Option Value
  pub empty_object : Value
  pub of_text : String → Value

module _ (j : Json) where
  -- The parts of a content that blocks become.
  pub data ContentPart : Type 0 where
    text_part : String → ContentPart
    thinking_part : String → Option String → ContentPart
    tool_part : String → String → j.Value → Option String → ContentPart
    refusal_part : String → ContentPart

  unfoldable pub tool_input : String → j.Value
  unfolding trim
  tool_input args =
      if is_empty_text (trim args)
      then j.empty_object
      else elim (j.parse args) [ some v ↦ v | none ↦ j.of_text args ]

  -- What a block adds to the content.
  unfoldable pub block_content : BlockAccum → List ContentPart
  unfolding tool_input
  block_content (text_block t) = if is_empty_text t then [] else text_part t ∷ []
  block_content (thinking_block t s) =
      if is_empty_text t && is_none s then [] else thinking_part t s ∷ []
  block_content (tool_block id name args s) = tool_part id name (tool_input args) s ∷ []
  block_content (refusal_block t) = if is_empty_text t then [] else refusal_part t ∷ []

  unfoldable pub blocks_content : List (ℕ × BlockAccum) → List ContentPart
  unfolding block_content
  blocks_content [] = []
  blocks_content ((i, b) ∷ bs) = block_content b ++ blocks_content bs

  abbrev by_index : ℕ × BlockAccum → ℕ × BlockAccum → Ordering
  by_index a b = compare a.0 b.0

  -- `StreamAggregator::into_content`.
  unfoldable pub into_content : StreamAggregator → List ContentPart
  unfolding blocks_content Sort.sort_by
  into_content a = blocks_content (Sort.sort_by by_index a.blocks)
