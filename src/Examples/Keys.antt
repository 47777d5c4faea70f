-- ===== src/Examples/Keys.antt =====
-- The keys' theorems at a concrete pool.
use refract.Base.{
  ℕ, ◌∷◌, [], List, ◌≡◌, refl, ◌+◌, ◌<◌, ◌%◌, ◌^◌, none, some, inl, arith, true, false, length,
  ◌++◌,
}
use refract.Base.Maps.{nat_eq, lookup}
use refract.Core.Channel.{KeyPool, pool, key_at, sticky, round_robin}
use refract.Core.Error.{ErrorKind, rate_limited, unauthenticated, is_key_failure}
use refract.Router.Keys.{KeyRotator, new_selector, start, commit, rotate, current}
use refract.Router.Keys.Start.{
  start-after-commit, start-in_turn, after, committed, forgotten, in_turn, cursor_of,
}
use refract.Router.Keys.Rotation.{rotations, rotations-reach, rotate-exhausts}

abbrev three_keys : KeyPool
three_keys = pool "sk-1" ("sk-2" ∷ "sk-3" ∷ []) sticky

abbrev turns : KeyPool
turns = pool "sk-1" ("sk-2" ∷ "sk-3" ∷ []) round_robin

abbrev fresh : KeyRotator
fresh = record {
  channel_id = 1;
  pool = three_keys;
  identity = some 7;
  index = 2;
  tried = 1;
  exhausted = false;
}

abbrev draw : ℕ → ℕ
draw n = 0

fails_key : is_key_failure rate_limited ≡ true
unfolding is_key_failure
fails_key = refl

cursor_small : cursor_of new_selector 1 < 2 ^ 64
unfolding lookup
cursor_small = omega arith

-- The key of another place has changed since.
abbrev changed_keys : KeyPool
changed_keys = pool "sk-9" ("sk-2" ∷ "sk-3" ∷ "sk-4" ∷ []) sticky

same_key : key_at changed_keys 2 ≡ current fresh
unfolding key_at current
same_key = refl

abbrev next_start : KeyRotator
next_start =
    (start draw (after (commit new_selector fresh) (committed 2 (some 7) 0 ∷ forgotten 3 ∷ [])) 1
      changed_keys (some 7)).0

start-after-commit_example : (current next_start ≡ current fresh) × (next_start.index ≡ 2)
start-after-commit_example =
    start-after-commit draw new_selector fresh 7 (committed 2 (some 7) 0 ∷ forgotten 3 ∷ [])
      changed_keys refl refl (inl (omega arith), (omega arith, tt)) refl (omega arith) same_key

start-in_turn_example :
    (start draw (in_turn draw 1 turns none new_selector 4) 1 turns none).0.index
    ≡ (cursor_of new_selector 1 + 4) % 2 ^ 64 % 3
start-in_turn_example = start-in_turn draw new_selector 1 turns none 4 refl cursor_small

rotations-reach_example :
    (ks : List ErrorKind) × (length ks < 3)
    × ((rotations fresh ks).index ≡ 1)
    × ((rotations fresh ks).exhausted ≡ false)
rotations-reach_example =
    rotations-reach fresh rate_limited 1 (refl, refl, omega arith) fails_key (omega arith)

rotate-exhausts_example :
    ((rotate (rotations fresh (rate_limited ∷ rate_limited ∷ [])) rate_limited).1 ≡ false)
    × ((rotations fresh ((rate_limited ∷ rate_limited ∷ []) ++ rate_limited ∷ [])).exhausted ≡ true)
    × (rotate
          (rotations fresh ((rate_limited ∷ rate_limited ∷ []) ++ rate_limited ∷ []))
          unauthenticated
        ≡ (rotations fresh ((rate_limited ∷ rate_limited ∷ []) ++ rate_limited ∷ []), false))
rotate-exhausts_example =
    rotate-exhausts fresh (rate_limited ∷ rate_limited ∷ []) rate_limited unauthenticated
      (refl, refl, omega arith) (fails_key, (fails_key, tt)) fails_key refl
