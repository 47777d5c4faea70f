-- ===== src/Core/Address/Paths.antt =====
-- The texts of URLs (crates/refract-core/src/address.rs and protocol.rs): joining, placeholders and the shape of a path.
use Prim.Native.Char.{code}
use Prim.Native.String.{◌++◌ as append_text}
use refract.Base.{
  ℕ, zero, suc, ◌-◌, Bool, true, false, ◌&&◌, ◌||◌, List, [], ◌∷◌, String, ◌==◌, if◌then◌else◌,
  is_empty_text, trim, char_count,
}
use refract.Base.Maps.{string_eq}
use refract.Core.Protocol.{Protocol, chat, responses, messages, gemini}

abbrev pub slash : ℕ
slash = 47

-- `trim_end_matches('/')`.
unfoldable pub trim_slashes : String → String
trim_slashes String.[] = String.[]
trim_slashes (String.◌∷◌ c s) =
    let rest = trim_slashes s in
    if code c == slash && is_empty_text rest then String.[] else String.◌∷◌ c rest

unfoldable pub starts_with : String → String → Bool
starts_with s String.[] = true
starts_with String.[] (String.◌∷◌ d t) = false
starts_with (String.◌∷◌ c s) (String.◌∷◌ d t) = code c == code d && starts_with s t

unfoldable pub ends_with : String → String → Bool
ends_with String.[] t = is_empty_text t
ends_with (String.◌∷◌ c s) t = string_eq.beq (String.◌∷◌ c s) t || ends_with s t

unfoldable pub contains_text : String → String → Bool
unfolding starts_with
contains_text String.[] t = is_empty_text t
contains_text (String.◌∷◌ c s) t = starts_with (String.◌∷◌ c s) t || contains_text s t

-- `str::replace`: from the front on, without overlaps; the number counts the characters of a match that are passed.
unfoldable pub replace_from : ℕ → String → String → String → String
unfolding starts_with char_count
replace_from skip pattern new String.[] = String.[]
replace_from (suc skip) pattern new (String.◌∷◌ c s) = replace_from skip pattern new s
replace_from zero pattern new (String.◌∷◌ c s) =
    let hit = starts_with (String.◌∷◌ c s) pattern in
    let rest = replace_from (if hit then char_count pattern - 1 else 0) pattern new s in
    if hit then append_text new rest else String.◌∷◌ c rest

unfoldable pub replace_text : String → String → String → String
unfolding replace_from
replace_text pattern new s = replace_from 0 pattern new s

-- One segment behind a text.
unfoldable pub push_segment : String → String → String
unfolding trim trim_slashes
push_segment out segment =
    let seg = trim segment in
    let slashed = if starts_with seg "/" then out else append_text out "/" in
    if is_empty_text seg then out else append_text slashed (trim_slashes seg)

unfoldable pub push_segments : String → List String → String
unfolding push_segment
push_segments out [] = out
push_segments out (s ∷ ss) = push_segments (push_segment out s) ss

-- `join_segments`.
unfoldable pub join_segments : String → List String → String
unfolding push_segments trim_slashes
join_segments base segments = push_segments (trim_slashes base) segments

unfoldable pub default_models_path : Protocol → String
default_models_path chat = "/models"
default_models_path responses = "/models"
default_models_path messages = "/models"
default_models_path gemini = "/models"

unfoldable pub path_looks_native : Protocol → String → Bool
unfolding trim_slashes ends_with contains_text
path_looks_native chat p = ends_with (trim_slashes p) "/chat/completions"
path_looks_native responses p = ends_with (trim_slashes p) "/responses"
path_looks_native messages p = ends_with (trim_slashes p) "/messages"
path_looks_native gemini p =
    let path = trim_slashes p in
    contains_text path ":generateContent"
    || contains_text path ":streamGenerateContent"
    || contains_text path "/models/"
