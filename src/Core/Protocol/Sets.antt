-- ===== src/Core/Protocol/Sets.antt =====
-- The bitmap of protocols (crates/refract-core/src/protocol.rs) behaves as a set.
use refract.Base.{
  ℕ, ◌≡◌, refl, ◌<◌, arith, Bool, true, false, ◌||◌, ◌&&◌, not, List, [], ◌∷◌, zero, suc, any, ltb,
  ltb→lt, ◌∙◌,
}
use refract.Core.Protocol.{
  Protocol, chat, responses, messages, gemini, ProtocolSet, empty_set, protocol_eq, insert, remove,
  contains, members, from_iter_protocols, insert_all,
}

-- The test passes at every number below the bound.
passes_upto : (ℕ → Bool) → ℕ → Bool
passes_upto test zero = true
passes_upto test (suc bound) = let rest = passes_upto test bound in rest && test bound

passes_upto_at :
    (test : ℕ → Bool) (bound n : ℕ) → n < bound → passes_upto test bound ≡ true → test n ≡ true
unfolding passes_upto
passes_upto_at test zero n below all = elim below [ ]
passes_upto_at test (suc bound) n below all = ground (arith, passes_upto_at test bound n)

-- A set is one byte.
abbrev pub IsByte : ProtocolSet → Type 0
IsByte s = s.bits < 256

abbrev same : Bool → Bool → Bool
same true b = b
same false b = not b

same_sound : (a b : Bool) → same a b ≡ true → a ≡ b
same_sound a b h = ground arith

and_four :
    (a b c d : Bool) → (a && b && c && d) ≡ true → (a ≡ true) × (b ≡ true) × (c ≡ true) × (d ≡ true)
and_four a b c d h = ground arith

abbrev insert_test : Protocol → Protocol → ℕ → Bool
insert_test p q n =
    let s : ProtocolSet = record { bits = n } in
    same (contains (insert p s) q) (protocol_eq p q || contains s q)
    && same (contains (remove p s) q) (not (protocol_eq p q) && contains s q)
    && ltb (insert p s).bits 256
    && ltb (remove p s).bits 256

insert_table : (p q : Protocol) → passes_upto (insert_test p q) 256 ≡ true
unfolding passes_upto insert remove contains
insert_table chat chat = refl
insert_table chat responses = refl
insert_table chat messages = refl
insert_table chat gemini = refl
insert_table responses chat = refl
insert_table responses responses = refl
insert_table responses messages = refl
insert_table responses gemini = refl
insert_table messages chat = refl
insert_table messages responses = refl
insert_table messages messages = refl
insert_table messages gemini = refl
insert_table gemini chat = refl
insert_table gemini responses = refl
insert_table gemini messages = refl
insert_table gemini gemini = refl

insert_test_holds : (s : ProtocolSet) (p q : Protocol) → IsByte s → insert_test p q s.bits ≡ true
insert_test_holds s p q h = passes_upto_at (insert_test p q) 256 s.bits h (insert_table p q)

insert_facts :
    (s : ProtocolSet) (p q : Protocol)
    → IsByte s
    → (contains (insert p s) q ≡ (protocol_eq p q || contains s q))
      × (contains (remove p s) q ≡ (not (protocol_eq p q) && contains s q))
      × IsByte (insert p s)
      × IsByte (remove p s)
insert_facts s p q h =
    let t = insert_test_holds s p q h in
    let (a, b, c, d) = and_four _ _ _ _ t in
    (same_sound _ _ a, same_sound _ _ b, ltb→lt _ 256 c, ltb→lt _ 256 d)

-- After an insertion into a byte exactly the new protocol and the old members are found, and the
-- bits still fit a byte.
pub contains-insert :
    (s : ProtocolSet) (p q : Protocol)
    → IsByte s
    → (contains (insert p s) q ≡ (protocol_eq p q || contains s q)) × IsByte (insert p s)
contains-insert s p q h = let (a, b, c, d) = insert_facts s p q h in (a, c)

-- After a removal from a byte exactly the other members are found, and the bits still fit a byte.
pub contains-remove :
    (s : ProtocolSet) (p q : Protocol)
    → IsByte s
    → (contains (remove p s) q ≡ (not (protocol_eq p q) && contains s q)) × IsByte (remove p s)
contains-remove s p q h = let (a, b, c, d) = insert_facts s p q h in (b, d)

pub contains-empty : (q : Protocol) → contains empty_set q ≡ false
unfolding contains
contains-empty chat = refl
contains-empty responses = refl
contains-empty messages = refl
contains-empty gemini = refl

contains-insert_all :
    (s : ProtocolSet) (ps : List Protocol) (q : Protocol)
    → IsByte s
    → contains (insert_all s ps) q ≡ (any (λ p. protocol_eq p q) ps || contains s q)
unfolding insert_all any
contains-insert_all s [] q h = refl
contains-insert_all s (p ∷ ps) q h =
    let (e, b) = contains-insert s p q h in
    contains-insert_all (insert p s) ps q b ∙ ground (arith, e)

-- A set collected from a list holds exactly the protocols of the list.
pub contains-from_iter_protocols :
    (ps : List Protocol) (q : Protocol)
    → contains (from_iter_protocols ps) q ≡ any (λ p. protocol_eq p q) ps
unfolding from_iter_protocols
contains-from_iter_protocols ps q =
    contains-insert_all empty_set ps q (omega arith) ∙ ground (arith, contains-empty q)

-- A set is known by its members: what `iter` lists, collected again, finds the same protocols.
from_iter_protocols-members :
    (s : ProtocolSet) (q : Protocol) → contains (from_iter_protocols (members s)) q ≡ contains s q
unfolding members any
from_iter_protocols-members s q = contains-from_iter_protocols (members s) q ∙ any-members q
  where
    any-members : (q : Protocol) → any (λ p. protocol_eq p q) (members s) ≡ contains s q
    any-members chat = ground arith
    any-members responses = ground arith
    any-members messages = ground arith
    any-members gemini = ground arith
