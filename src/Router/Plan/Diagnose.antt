-- ===== src/Router/Plan/Diagnose.antt =====
-- `RoutePlanner::diagnose` (crates/refract-router/src/plan.rs) agrees with `collect`.
use refract.Base.{
  ◌≡◌, refl, arith, Bool, true, false, not, ◌&&◌, ◌||◌, List, [], ◌∷◌, ◌++◌, String, any, is_some,
  is_none, sym, is_empty, ◌∙◌, if◌then◌else◌, ap, Bool-cases, inl, inr,
}
use refract.Core.Protocol.{
  Protocol, chat, responses, messages, gemini, ProtocolSet, protocol_eq, contains, insert,
  all_protocols, empty_set,
}
use refract.Core.Protocol.Sets.{IsByte, contains-insert, contains-empty}
use refract.Core.Channel.{Channel, ChannelEndpoint, find_model, can_serve}
use refract.Core.Channel.Validity.{empty_set-IsByte}
use refract.Router.Plan.{
  Candidate, routable, unknown_model, protocol_not_permitted, collect_entry, collect_endpoint,
  collect_endpoints, collect, Survey, add_served, survey_endpoints, survey, diagnose,
}

-- Some enabled endpoint of an enabled channel has the model.
abbrev pub has_model : String → ChannelEndpoint → Bool
has_model model ep = ep.enabled && is_some (find_model ep model)

unfoldable pub model_listed : String → List Channel → Bool
model_listed model = any (λ c. c.enabled && any (has_model model) c.endpoints)

abbrev nonempty {ℓ} : {A : Type ℓ} → List A → Bool
nonempty xs = not (is_empty xs)

nonempty-append {ℓ} :
    {A : Type ℓ} (xs ys : List A) → nonempty (xs ++ ys) ≡ (nonempty xs || nonempty ys)
nonempty-append [] ys = refl
nonempty-append (x ∷ xs) ys = refl

-- The second set is the first with the protocols that pass the test, and is a byte.
abbrev Grows : ProtocolSet → ProtocolSet → (Protocol → Bool) → Type 0
Grows s t f = ((p : Protocol) → contains t p ≡ (contains s p || f p)) × IsByte t

or_assoc : (a b c : Bool) → ((a || b) || c) ≡ (a || (b || c))
or_assoc a b c = ground arith

or_false : (a : Bool) → (a || false) ≡ a
or_false a = ground arith

Grows-refl : (s : ProtocolSet) → IsByte s → Grows s s (λ p. false)
Grows-refl s b = (λ p. sym (or_false (contains s p)), b)

Grows-trans :
    (s t u : ProtocolSet) (f g h : Protocol → Bool)
    → Grows s t f
    → Grows t u g
    → ((p : Protocol) → (f p || g p) ≡ h p)
    → Grows s u h
Grows-trans s t u f g h a b e = (λ p. ground (arith, a.0 p, b.0 p, e p), b.1)

serves_one : ChannelEndpoint → Protocol → Protocol → Bool
serves_one ep p q = protocol_eq q p && can_serve ep.transcode q ep.protocol

add_one : ChannelEndpoint → Protocol → ProtocolSet → ProtocolSet
add_one ep q s = if can_serve ep.transcode q ep.protocol then insert q s else s

add_one-Grows :
    (ep : ChannelEndpoint) (q : Protocol) (s : ProtocolSet)
    → IsByte s
    → Grows s (add_one ep q s) (λ p. serves_one ep p q)
unfolding serves_one add_one
add_one-Grows ep q s b =
    (λ p. ground (arith, contains-insert s q p b), ground (arith, contains-insert s q q b))

add_served-Grows :
    (ep : ChannelEndpoint) (ps : List Protocol) (s : ProtocolSet)
    → IsByte s
    → Grows s (add_served ep ps s) (λ p. any (serves_one ep p) ps)
unfolding add_served any add_one
add_served-Grows ep [] s b = Grows-refl s b
add_served-Grows ep (q ∷ ps) s b =
    let one = add_one-Grows ep q s b in
    Grows-trans s (add_one ep q s) (add_served ep ps (add_one ep q s)) (λ p. serves_one ep p q)
      (λ p. any (serves_one ep p) ps) (λ p. any (serves_one ep p) (q ∷ ps)) one
      (add_served-Grows ep ps (add_one ep q s) one.1) (λ p. refl)

any-serves_one :
    (ep : ChannelEndpoint) (p : Protocol)
    → any (serves_one ep p) all_protocols ≡ can_serve ep.transcode p ep.protocol
unfolding any serves_one
any-serves_one ep chat = ground arith
any-serves_one ep responses = ground arith
any-serves_one ep messages = ground arith
any-serves_one ep gemini = ground arith

nonempty-collect_endpoint :
    (ch : Channel) (ep : ChannelEndpoint) (model : String) (p : Protocol)
    → nonempty (collect_endpoint ch model p ep)
      ≡ (has_model model ep && can_serve ep.transcode p ep.protocol)
unfolding collect_endpoint collect_entry
nonempty-collect_endpoint ch ep model p = ground arith

-- The survey of a part of the channels that collects `xs p` for each protocol.
record Surveys (s t : Survey) (found : Bool) (served : Protocol → Bool) : Type 0 where
  grows : Grows s.available t.available served
  exists : t.model_exists ≡ (s.model_exists || found)

Surveys-trans :
    (s t u : Survey) (a b c : Bool) (f g h : Protocol → Bool)
    → Surveys s t a f
    → Surveys t u b g
    → (a || b) ≡ c
    → ((p : Protocol) → (f p || g p) ≡ h p)
    → Surveys s u c h
Surveys-trans s t u a b c f g h x y e k = record {
  grows = Grows-trans s.available t.available u.available f g h x.grows y.grows k;
  exists = ground (arith, x.exists, y.exists);
}

Surveys-refl : (s : Survey) → IsByte s.available → Surveys s s false (λ p. false)
Surveys-refl s b = record {
  grows = Grows-refl s.available b;
  exists = sym (or_false s.model_exists);
}

survey_endpoint : String → ChannelEndpoint → Survey → Survey
survey_endpoint model ep s =
    if not ep.enabled || is_none (find_model ep model)
    then s
    else record { model_exists = true; available = add_served ep all_protocols s.available }

survey_endpoint-Surveys :
    (ch : Channel) (model : String) (ep : ChannelEndpoint) (s : Survey)
    → IsByte s.available
    → Surveys s
        (survey_endpoint model ep s)
        (has_model model ep)
        (λ p. nonempty (collect_endpoint ch model p ep))
unfolding survey_endpoint
survey_endpoint-Surveys ch model ep s b =
    let added = add_served-Grows ep all_protocols s.available b in
    record {
      grows = (
        λ p.
            ground (arith, added.0 p, any-serves_one ep p, nonempty-collect_endpoint ch ep model p),
        ground (arith, added.1),
      );
      exists = ground arith;
    }

survey_endpoints-Surveys :
    (ch : Channel) (model : String) (eps : List ChannelEndpoint) (s : Survey)
    → IsByte s.available
    → Surveys s
        (survey_endpoints model eps s)
        (any (has_model model) eps)
        (λ p. nonempty (collect_endpoints ch model p eps))
unfolding survey_endpoints any collect_endpoints survey_endpoint
survey_endpoints-Surveys ch model [] s b = Surveys-refl s b
survey_endpoints-Surveys ch model (ep ∷ eps) s b =
    let one = survey_endpoint-Surveys ch model ep s b in
    let t = survey_endpoint model ep s in
    Surveys-trans s t (survey_endpoints model eps t) (has_model model ep)
      (any (has_model model) eps) (any (has_model model) (ep ∷ eps))
      (λ p. nonempty (collect_endpoint ch model p ep))
      (λ p. nonempty (collect_endpoints ch model p eps))
      (λ p. nonempty (collect_endpoints ch model p (ep ∷ eps))) one
      (survey_endpoints-Surveys ch model eps t one.grows.1) refl
      (λ p. sym (nonempty-append (collect_endpoint ch model p ep) _))

survey_channel : String → Channel → Survey → Survey
survey_channel model c s = if not c.enabled then s else survey_endpoints model c.endpoints s

collect_channel : Channel → String → Protocol → List Candidate
collect_channel c model p = if not c.enabled then [] else collect_endpoints c model p c.endpoints

survey_channel-Surveys :
    (model : String) (c : Channel) (s : Survey)
    → IsByte s.available
    → Surveys s
        (survey_channel model c s)
        (c.enabled && any (has_model model) c.endpoints)
        (λ p. nonempty (collect_channel c model p))
unfolding survey_channel collect_channel
survey_channel-Surveys model c s b = elim (Bool-cases c.enabled) [
  | inl on ↦ simp on (survey_endpoints-Surveys c model c.endpoints s b)
  | inr off ↦ simp off (Surveys-refl s b)
]

nonempty-collect :
    (c : Channel) (cs : List Channel) (model : String) (p : Protocol)
    → (nonempty (collect_channel c model p) || nonempty (collect cs model p))
      ≡ nonempty (collect (c ∷ cs) model p)
unfolding collect collect_channel
nonempty-collect c cs model p =
    ground (arith, nonempty-append (collect_endpoints c model p c.endpoints) (collect cs model p))

survey-Surveys :
    (model : String) (cs : List Channel) (s : Survey)
    → IsByte s.available
    → Surveys s (survey model cs s) (model_listed model cs) (λ p. nonempty (collect cs model p))
unfolding survey model_listed any survey_channel
survey-Surveys model [] s b = unfold collect in Surveys-refl s b
survey-Surveys model (c ∷ cs) s b =
    let one = survey_channel-Surveys model c s b in
    let t = survey_channel model c s in
    Surveys-trans s t (survey model cs t) (c.enabled && any (has_model model) c.endpoints)
      (model_listed model cs) (model_listed model (c ∷ cs))
      (λ p. nonempty (collect_channel c model p)) (λ p. nonempty (collect cs model p))
      (λ p. nonempty (collect (c ∷ cs) model p)) one (survey-Surveys model cs t one.grows.1) refl
      (nonempty-collect c cs model)

-- The diagnosis says "unknown model" when no enabled endpoint of an enabled channel has the model,
-- "routable" when there is a candidate, and otherwise "not permitted", with the set of exactly the
-- protocols over which there is a candidate.
pub diagnose_lem :
    (channels : List Channel) (model : String) (inbound : Protocol)
    → (s : ProtocolSet) × ((p : Protocol)
        → contains s p ≡ not (is_empty (collect channels model p)))
      × (diagnose channels model inbound ≡ (
          if not (model_listed model channels)
          then unknown_model
          else if not (is_empty (collect channels model inbound))
          then routable
          else protocol_not_permitted s))
unfolding diagnose
diagnose_lem channels model inbound =
    let start : Survey = record { model_exists = false; available = empty_set } in
    let v = survey-Surveys model channels start empty_set-IsByte in
    let held = λ (p : Protocol).
      v.grows.0 p ∙ ap (λ b. b || nonempty (collect channels model p)) (contains-empty p) in
    ((survey model channels start).available, held, ground (arith, v.exists, held inbound))
