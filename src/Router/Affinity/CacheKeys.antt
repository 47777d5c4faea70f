-- ===== src/Router/Affinity/CacheKeys.antt =====
-- Different callers have different cache keys (crates/refract-router/src/affinity.rs, `build_cache_key`).
use Prim.Native.Char.{Char, code}
use Prim.Native.String.append.{nil, cons}
use Prim.Native.String.{◌++◌ as append_text}
use refract.Base.{◌≡◌, ◌≢◌, refl, ap, ap₂, sym, ◌∙◌, Bool, true, false, String}
use refract.Router.Affinity.Match.{nul, build_cache_key}

-- No character is NUL.
unfoldable pub HasNoNul : String → Type 0
HasNoNul String.[] = Unit
HasNoNul (String.◌∷◌ c s) = (code c ≢ 0) × HasNoNul s

-- The text, a NUL, and the text behind it.
abbrev joined : String → String → String
joined a b = append_text a (append_text nul b)

abbrev first : Char → String → Char
first c String.[] = c
first c (String.◌∷◌ d s) = d

abbrev rest : String → String
rest String.[] = String.[]
rest (String.◌∷◌ d s) = s

abbrev nul_char : Char
nul_char = "\0"

nul_cons : (b : String) → append_text nul b ≡ String.◌∷◌ nul_char b
nul_cons b = cons nul_char String.[] b ∙ ap (String.◌∷◌ nul_char) (nil b)

joined_nil : (b : String) → joined String.[] b ≡ String.◌∷◌ nul_char b
joined_nil b = nil (append_text nul b) ∙ nul_cons b

joined_cons : (c : Char) (a b : String) → joined (String.◌∷◌ c a) b ≡ String.◌∷◌ c (joined a b)
joined_cons c a b = cons c a (append_text nul b)

-- A text without NUL is told apart from what follows the first NUL.
joined_inj :
    (a b c d : String) → HasNoNul a → HasNoNul c → joined a b ≡ joined c d → (a ≡ c) × (b ≡ d)
unfolding HasNoNul
joined_inj String.[] b String.[] d p q h = (refl, ap rest (sym (joined_nil b) ∙ h ∙ joined_nil d))
joined_inj String.[] b (String.◌∷◌ x c) d p q h =
    let same = sym (joined_cons x c d) ∙ sym h ∙ joined_nil b in
    elim (q.0 (ap (λ s. code (first x s)) same)) [ ]
joined_inj (String.◌∷◌ x a) b String.[] d p q h =
    let same = sym (joined_cons x a b) ∙ h ∙ joined_nil d in
    elim (p.0 (ap (λ s. code (first x s)) same)) [ ]
joined_inj (String.◌∷◌ x a) b (String.◌∷◌ y c) d p q h =
    let same = sym (joined_cons x a b) ∙ h ∙ joined_cons y c d in
    let more = joined_inj a b c d p.1 q.1 (ap rest same) in
    (ap₂ String.◌∷◌ (ap (first x) same) more.0, more.1)

-- Two requests share a cache key of a rule that counts the model only if they have the same value and the same model,
-- and of one that does not only if they have the same value; keys of two rules of one kind differ. The names of the
-- rules and the models have no NUL.
pub build_cache_key_inj :
    (name other_name : String) (include_model : Bool) (model other_model value other_value : String)
    → HasNoNul name
    → HasNoNul other_name
    → HasNoNul model
    → HasNoNul other_model
    → build_cache_key name include_model model value
      ≡ build_cache_key other_name include_model other_model other_value
    → (name ≡ other_name) × (value ≡ other_value) × ((include_model ≡ true) → model ≡ other_model)
unfolding build_cache_key
build_cache_key_inj n n' true m m' v v' a b c d h =
    let outer = joined_inj n (joined m v) n' (joined m' v') a b h in
    let inner = joined_inj m v m' v' c d outer.1 in (outer.0, inner.1, λ t. inner.0)
build_cache_key_inj n n' false m m' v v' a b c d h =
    let outer = joined_inj n (append_text nul v) n' (append_text nul v') a b h in
    (outer.0, ap rest (sym (nul_cons v) ∙ outer.1 ∙ nul_cons v'), λ t. cc (t))
