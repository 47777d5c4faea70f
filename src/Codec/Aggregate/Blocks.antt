-- ===== src/Codec/Aggregate/Blocks.antt =====
-- The texts of the blocks under an update (crates/refract-protocol/src/stream.rs, `ensure` and `set_block`).
use Prim.Native.String.{◌++◌ as append_text}
use refract.Base.{
  ℕ, ◌≡◌, refl, sym, ap, subst, ◌∙◌, arith, Bool, true, false, ◌&&◌, List, [], ◌∷◌, Option, none,
  some, String, ◌==◌, if◌then◌else◌, unwrap_or, any, Bool-cases, inl, inr,
}
use refract.Codec.Aggregate.{
  PartKind, text, thinking, tool_use, refusal, BlockAccum, text_block, thinking_block, tool_block,
  refusal_block, fresh, matches_kind, is_block, set_block, update_block,
}

-- The text that a block has gathered; the arguments of a tool's call.
abbrev pub text_of : BlockAccum → String
text_of (text_block t) = t
text_of (thinking_block t s) = t
text_of (tool_block i n args s) = args
text_of (refusal_block t) = t

-- The text under an index and a kind.
unfoldable pub text_at : ℕ → PartKind → List (ℕ × BlockAccum) → Option String
unfolding matches_kind
text_at index kind [] = none
text_at index kind ((i, b) ∷ bs) =
    if is_block index kind (i, b) then some (text_of b) else text_at index kind bs

abbrev pub is_about : ℕ → PartKind → Option (ℕ × PartKind) → Bool
is_about index kind none = false
is_about index kind (some (i, k)) = i == index && matches_kind (fresh k) kind

abbrev pub extend : String → Option String → String
extend t none = t
extend t (some d) = append_text t d

-- A change that keeps the kind and adds a text to the blocks of one kind.
abbrev pub Extends : PartKind → Option String → (BlockAccum → BlockAccum) → Type 0
Extends kind d f =
    (b : BlockAccum)
    → ((k : PartKind) → matches_kind (f b) k ≡ matches_kind b k)
      × ((matches_kind b kind ≡ true) → text_of (f b) ≡ extend (text_of b) d)

fresh_matches : (h : PartKind) → matches_kind (fresh h) h ≡ true
unfolding fresh matches_kind
fresh_matches text = refl
fresh_matches thinking = refl
fresh_matches tool_use = refl
fresh_matches refusal = refl

fresh_text : (h : PartKind) → text_of (fresh h) ≡ ""
unfolding fresh
fresh_text text = refl
fresh_text thinking = refl
fresh_text tool_use = refl
fresh_text refusal = refl

kind_same : (h kind : PartKind) → matches_kind (fresh h) kind ≡ true → h ≡ kind
unfolding fresh matches_kind
kind_same text kind e = ground (arith, e)
kind_same thinking kind e = ground (arith, e)
kind_same tool_use kind e = ground (arith, e)
kind_same refusal kind e = ground (arith, e)

matches_same :
    (b : BlockAccum) (h kind : PartKind)
    → matches_kind b h ≡ true
    → matches_kind b kind ≡ matches_kind (fresh h) kind
unfolding fresh matches_kind
matches_same (text_block t) h kind e = ground (arith, e)
matches_same (thinking_block t s) h kind e = ground (arith, e)
matches_same (tool_block i n a s) h kind e = ground (arith, e)
matches_same (refusal_block t) h kind e = ground (arith, e)

update_hit :
    (j : ℕ) (h : PartKind) (f : BlockAccum → BlockAccum) (i : ℕ) (b : BlockAccum)
    (bs : List (ℕ × BlockAccum))
    → is_block j h (i, b) ≡ true
    → update_block j h f ((i, b) ∷ bs) ≡ (i, f b) ∷ bs
unfolding update_block
update_hit j h f i b bs e = ap (λ c. if c then (i, f b) ∷ bs else (i, b) ∷ update_block j h f bs) e

update_miss :
    (j : ℕ) (h : PartKind) (f : BlockAccum → BlockAccum) (i : ℕ) (b : BlockAccum)
    (bs : List (ℕ × BlockAccum))
    → is_block j h (i, b) ≡ false
    → update_block j h f ((i, b) ∷ bs) ≡ (i, b) ∷ update_block j h f bs
unfolding update_block
update_miss j h f i b bs e = ap (λ c. if c then (i, f b) ∷ bs else (i, b) ∷ update_block j h f bs) e

text_hit :
    (index : ℕ) (kind : PartKind) (i : ℕ) (b : BlockAccum) (bs : List (ℕ × BlockAccum))
    → is_block index kind (i, b) ≡ true
    → text_at index kind ((i, b) ∷ bs) ≡ some (text_of b)
unfolding text_at
text_hit index kind i b bs e = ap (λ c. if c then some (text_of b) else text_at index kind bs) e

text_miss :
    (index : ℕ) (kind : PartKind) (i : ℕ) (b : BlockAccum) (bs : List (ℕ × BlockAccum))
    → is_block index kind (i, b) ≡ false
    → text_at index kind ((i, b) ∷ bs) ≡ text_at index kind bs
unfolding text_at
text_miss index kind i b bs e = ap (λ c. if c then some (text_of b) else text_at index kind bs) e

-- A block that is found by one index and kind is about another exactly if the two agree.
about_hit :
    (j index : ℕ) (h kind : PartKind) (i : ℕ) (b : BlockAccum)
    → is_block j h (i, b) ≡ true
    → is_block index kind (i, b) ≡ is_about index kind (some (j, h))
about_hit j index h kind i b e = ground (arith, e, matches_same b h kind)

about_miss :
    (j index : ℕ) (h kind : PartKind) (i : ℕ) (b : BlockAccum)
    → is_block j h (i, b) ≡ false
    → is_block index kind (i, b) ≡ true
    → is_about index kind (some (j, h)) ≡ false
about_miss j index h kind i b e g = elim (Bool-cases (matches_kind (fresh h) kind)) [
  | inl x ↦
      let same = kind_same h kind x in
      ground (arith, g, subst (λ k. is_block j k (i, b) ≡ false) same e)
  | inr x ↦ ground (arith, x)
]

abbrev updated_text : ℕ → ℕ → PartKind → PartKind → Option String → Option String → Option String
updated_text j index h kind d old =
    if is_about index kind (some (j, h)) then some (extend (unwrap_or old "") d) else old

updated_in :
    (j index : ℕ) (h kind : PartKind) (d old : Option String)
    → is_about index kind (some (j, h)) ≡ true
    → updated_text j index h kind d old ≡ some (extend (unwrap_or old "") d)
updated_in j index h kind d old e =
    ap (λ c. if c then some (extend (unwrap_or old "") d) else old) e

updated_out :
    (j index : ℕ) (h kind : PartKind) (d old : Option String)
    → is_about index kind (some (j, h)) ≡ false
    → updated_text j index h kind d old ≡ old
updated_out j index h kind d old e =
    ap (λ c. if c then some (extend (unwrap_or old "") d) else old) e

update_none :
    (j index : ℕ) (h kind : PartKind) (d : Option String) (f : BlockAccum → BlockAccum)
    → Extends h d f
    → text_at index kind (update_block j h f [])
      ≡ updated_text j index h kind d (text_at index kind [])
unfolding text_at update_block
update_none j index h kind d f e =
    let (kept, more) = e (fresh h) in
    let added = more (fresh_matches h) ∙ ap (λ t. extend t d) (fresh_text h) in
    ap (λ c. if j == index && c then some (text_of (f (fresh h))) else none) (kept kind)
    ∙ ap (λ t. if j == index && matches_kind (fresh h) kind then some t else none) added

pub text_at-update_block :
    (j index : ℕ) (h kind : PartKind) (d : Option String) (f : BlockAccum → BlockAccum)
    (bs : List (ℕ × BlockAccum))
    → Extends h d f
    → text_at index kind (update_block j h f bs)
      ≡ updated_text j index h kind d (text_at index kind bs)
text_at-update_block j index h kind d f [] e = update_none j index h kind d f e
text_at-update_block j index h kind d f ((i, b) ∷ bs) e = elim (Bool-cases (is_block j h (i, b))) [
  | inl x ↦
      let (kept, more) = e b in
      let about = about_hit j index h kind i b x in
      let found : is_block index kind (i, f b) ≡ is_block index kind (i, b) =
        ap (λ c. i == index && c) (kept kind) in
      ap (text_at index kind) (update_hit j h f i b bs x)
      ∙ elim (Bool-cases (is_block index kind (i, b))) [
        | inl y ↦
            text_hit index kind i (f b) bs (found ∙ y)
            ∙ ap some (more (ground (arith, x)))
            ∙ sym (
                updated_in j index h kind d (text_at index kind ((i, b) ∷ bs)) (sym about ∙ y)
                ∙ ap (λ o. some (extend (unwrap_or o "") d)) (text_hit index kind i b bs y))
        | inr y ↦
            text_miss index kind i (f b) bs (found ∙ y)
            ∙ sym (
                updated_out j index h kind d (text_at index kind ((i, b) ∷ bs)) (sym about ∙ y)
                ∙ text_miss index kind i b bs y)
      ]
  | inr x ↦
      ap (text_at index kind) (update_miss j h f i b bs x)
      ∙ elim (Bool-cases (is_block index kind (i, b))) [
        | inl y ↦
            text_hit index kind i b (update_block j h f bs) y
            ∙ sym (
                updated_out j index h kind d (text_at index kind ((i, b) ∷ bs))
                  (about_miss j index h kind i b x y)
                ∙ text_hit index kind i b bs y)
        | inr y ↦
            text_miss index kind i b (update_block j h f bs) y
            ∙ text_at-update_block j index h kind d f bs e
            ∙ ap (updated_text j index h kind d) (sym (text_miss index kind i b bs y))
      ]
]

-- Opening a block is an update that changes nothing.
pub set_block_lem :
    (j : ℕ) (h : PartKind) (bs : List (ℕ × BlockAccum))
    → set_block j h bs ≡ update_block j h (λ b. b) bs
unfolding set_block update_block any
set_block_lem j h [] = refl
set_block_lem j h ((i, b) ∷ bs) = elim (Bool-cases (is_block j h (i, b))) [
  | inl x ↦ rw x refl
  | inr x ↦ ground (arith, x, set_block_lem j h bs)
]
