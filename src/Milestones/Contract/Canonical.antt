-- ===== src/Milestones/Contract/Canonical.antt =====
-- What a payload that decodes is, in cloudflare/room-milestone-contract.ts: each field in its range,
-- and one text for each payload.
use non_stop_talk.Prelude.{
  ℕ, ◌≤◌, ◌≡◌, refl, sym, ap, ◌∙◌, Bool, true, false, ◌&&◌, Option, none, some, List, [], ◌∷◌, ltb,
  length, ◌==◌, inl, inr, Bool-cases, arith,
}
use non_stop_talk.Text.{Text, same_text, utf8_length}
use non_stop_talk.Text.Laws.{same_text_iff}
use non_stop_talk.Js.{max_safe_integer}
use non_stop_talk.Room.{contains_text}
use non_stop_talk.Milestones.{
  Number, whole, ◌>>=◌, Value, text, valid, require, deliverable_milestones,
  max_room_milestone_payload_bytes,
}
use non_stop_talk.Milestones.Contract.{
  Json, Parsed, malformed, not_an_array, array, Fact, Payload, is_hex_256, lowercase_hex_256,
  enum_value, canonical_timestamp, integer_between, at_most, number_up_to, or_null,
  milestone_invariants, expected_analytics, same_metric, same_value, tuple, decode_fields,
  decode_parsed, decode_payload, encode_payload, phases, topic_pack_names, payload_domain,
  analytics_metrics,
}
use non_stop_talk.Milestones.Contract.Facts.{
  bound, lowercase_hex_256-valid, enum_value-valid, canonical_timestamp-valid,
  integer_between-valid, number_up_to-valid, text_or_null-valid, number_or_null-valid, IsMetric,
  IsValueUpTo, or_null-IsMetric, or_null-IsValueUpTo, same_metric-eq, same_value-eq,
}

abbrev pub IsBetween : ℕ → ℕ → Number → Type 0
IsBetween lo hi x = (n : ℕ) × (x ≡ whole n) × (lo ≤ n) × (n ≤ hi)

-- The fields of a payload, each of its type and in its range.
pub record IsPayload (json : Json) (p : Payload) : Type 0 where
  pub id : is_hex_256 p.room_instance_id ≡ true
  pub milestone : contains_text p.fact.milestone deliverable_milestones ≡ true
  pub observed : json.is_timestamp p.fact.observed_at ≡ true
  pub phase : contains_text p.fact.phase phases ≡ true
  pub pack : contains_text p.fact.topic_pack topic_pack_names ≡ true
  pub version : IsBetween 1 max_safe_integer p.fact.state_version
  pub players :
      (n : ℕ) × (p.fact.player_count ≡ whole n)
      × (n ≤ 12)
      × IsBetween 0 n p.fact.online_player_count
  pub rounds : IsBetween 1 10 p.fact.configured_rounds
  pub duration : IsBetween 10 300 p.fact.turn_duration_seconds
  pub turns : IsBetween 0 1200 p.fact.completed_turn_count
  pub games : IsBetween 0 21 p.fact.finished_game_count
  pub score : IsBetween 0 12000000 p.fact.total_score
  pub seconds : at_most 300 p.fact.last_turn_spoken_seconds ≡ true
  pub metric : IsMetric analytics_metrics p.analytics_metric
  pub value : IsValueUpTo 1200 p.analytics_value
  pub analytics :
      expected_analytics p.fact.milestone p.fact.completed_turn_count
        p.fact.last_turn_spoken_seconds
      ≡ valid (p.analytics_metric, p.analytics_value)
  pub coherent :
      (t g c : ℕ) × (p.fact.completed_turn_count ≡ whole t)
      × (p.fact.finished_game_count ≡ whole g)
      × (p.fact.total_score ≡ whole c)
      × (milestone_invariants p.fact.milestone p.fact.phase t g c p.fact.last_turn_spoken_seconds
          ≡ true)

cons-eq : {v w : Value} {vs ws : List Value} → v ≡ w → vs ≡ ws → v ∷ vs ≡ w ∷ ws
cons-eq e f = ground (arith, e, f)

only_domain : (s : Text) → contains_text s (payload_domain ∷ []) ≡ true → s ≡ payload_domain
only_domain s h = ground (arith, h, same_text_iff payload_domain s)

asserted : (b : Bool) (u : Unit {0}) → require b ≡ valid u → b ≡ true
asserted true u h = refl
asserted false u h = ground (arith, h)

and_true : (a b : Bool) → (a && b) ≡ true → (a ≡ true) × (b ≡ true)
and_true a b h = ground (arith, h)

pair-eq {ℓ κ} :
    {A : Type ℓ} {B : Type κ} (a : A) (b : B) (p : A × B) → a ≡ p.0 → b ≡ p.1 → (a, b) ≡ p
pair-eq a b (c, d) e f = rw (e, f) refl

-- The last two checks, of the fields together.
checks :
    (m ph : Text) (t g c : ℕ) (s : Number) (metric : Option Text) (value : Option Number)
    (q p : Payload)
    → (require (milestone_invariants m ph t g c s) >>= λ _.
        expected_analytics m (whole t) s >>= λ expected.
        require (same_metric metric expected.0 && same_value value expected.1) >>= λ _. valid q)
      ≡ valid p
    → (milestone_invariants m ph t g c s ≡ true)
      × (expected_analytics m (whole t) s ≡ valid (metric, value))
      × (q ≡ p)
checks m ph t g c s metric value q p h =
    let (u, e, h1) = bound (require (milestone_invariants m ph t g c s)) _ p h in
    let (x, f, h2) = bound (expected_analytics m (whole t) s) _ p h1 in
    let (v, k, h3) = bound (require (same_metric metric x.0 && same_value value x.1)) _ p h2 in
    let both = and_true (same_metric metric x.0) (same_value value x.1) (asserted _ v k) in
    let agreed =
      pair-eq metric value x (same_metric-eq metric x.0 both.0) (same_value-eq value x.1 both.1) in
    (asserted _ u e, f ∙ ap valid (sym agreed), ground (arith, h3))

module _ (json : Json) where
  -- Fields that decode: the list is the tuple of what they decode to.
  decode_fields-tuple :
      (vs : List Value) (p : Payload)
      → decode_fields json vs ≡ valid p
      → (vs ≡ tuple p.room_instance_id p.fact p.analytics_metric p.analytics_value)
        × IsPayload json p
  unfolding decode_fields tuple
  decode_fields-tuple
        (domain ∷ id ∷ milestone ∷ at ∷ version ∷ phase ∷ players ∷ online ∷ rounds ∷ duration
          ∷ pack ∷ turns ∷ games ∷ score ∷ seconds ∷ metric ∷ value ∷ [])
        p h =
      let (a0, e0, h0) = bound (enum_value (payload_domain ∷ []) domain) _ p h in
      let (a1, e1, h1) = bound (lowercase_hex_256 id) _ p h0 in
      let (a2, e2, h2) = bound (enum_value deliverable_milestones milestone) _ p h1 in
      let (a3, e3, h3) = bound (canonical_timestamp json at) _ p h2 in
      let (a4, e4, h4) = bound (integer_between 1 max_safe_integer version) _ p h3 in
      let (a5, e5, h5) = bound (enum_value phases phase) _ p h4 in
      let (a6, e6, h6) = bound (integer_between 0 12 players) _ p h5 in
      let (a7, e7, h7) = bound (integer_between 0 a6 online) _ p h6 in
      let (a8, e8, h8) = bound (integer_between 1 10 rounds) _ p h7 in
      let (a9, e9, h9) = bound (integer_between 10 300 duration) _ p h8 in
      let (b0, f0, k0) = bound (enum_value topic_pack_names pack) _ p h9 in
      let (b1, f1, k1) = bound (integer_between 0 1200 turns) _ p k0 in
      let (b2, f2, k2) = bound (integer_between 0 21 games) _ p k1 in
      let (b3, f3, k3) = bound (integer_between 0 12000000 score) _ p k2 in
      let (b4, f4, k4) = bound (number_up_to 300 seconds) _ p k3 in
      let (b5, f5, k5) = bound (or_null (enum_value analytics_metrics) metric) _ p k4 in
      let (b6, f6, k6) = bound (or_null (number_up_to 1200) value) _ p k5 in
      let (coh, exp, same) = checks a2 a5 b1 b2 b3 b4 b5 b6 _ p k6 in
      let x0 = enum_value-valid (payload_domain ∷ []) domain a0 e0 in
      let d0 : a0 ≡ payload_domain = only_domain a0 x0.1 in
      let x1 = lowercase_hex_256-valid id a1 e1 in
      let x2 = enum_value-valid deliverable_milestones milestone a2 e2 in
      let x3 = canonical_timestamp-valid json at a3 e3 in
      let x4 = integer_between-valid 1 max_safe_integer version a4 e4 in
      let x5 = enum_value-valid phases phase a5 e5 in
      let x6 = integer_between-valid 0 12 players a6 e6 in
      let x7 = integer_between-valid 0 a6 online a7 e7 in
      let x8 = integer_between-valid 1 10 rounds a8 e8 in
      let x9 = integer_between-valid 10 300 duration a9 e9 in
      let y0 = enum_value-valid topic_pack_names pack b0 f0 in
      let y1 = integer_between-valid 0 1200 turns b1 f1 in
      let y2 = integer_between-valid 0 21 games b2 f2 in
      let y3 = integer_between-valid 0 12000000 score b3 f3 in
      let y4 = number_up_to-valid 300 seconds b4 f4 in
      let y5 = text_or_null-valid analytics_metrics metric b5 f5 in
      let y6 = number_or_null-valid 1200 value b6 f6 in
      rw (sym same) (
        cons-eq (x0.0 ∙ ap text d0) (
            cons-eq x1.0 (
              cons-eq x2.0 (
                cons-eq x3.0 (
                  cons-eq x4.0 (
                    cons-eq x5.0 (
                      cons-eq x6.0 (
                        cons-eq x7.0 (
                          cons-eq x8.0 (
                            cons-eq x9.0 (
                              cons-eq y0.0 (
                                cons-eq y1.0 (
                                  cons-eq y2.0 (
                                    cons-eq y3.0
                                      (cons-eq y4.0 (cons-eq y5 (cons-eq y6 refl)))))))))))))))),
        record {
          id = x1.1;
          milestone = x2.1;
          observed = x3.2;
          phase = x5.1;
          pack = y0.1;
          version = (a4, refl, x4.1, x4.2);
          players = (a6, refl, x6.2, (a7, refl, x7.1, x7.2));
          rounds = (a8, refl, x8.1, x8.2);
          duration = (a9, refl, x9.1, x9.2);
          turns = (b1, refl, y1.1, y1.2);
          games = (b2, refl, y2.1, y2.2);
          score = (b3, refl, y3.1, y3.2);
          seconds = y4.1;
          metric = or_null-IsMetric analytics_metrics metric b5 f5;
          value = or_null-IsValueUpTo 1200 value b6 f6;
          analytics = exp;
          coherent = (b1, b2, b3, refl, refl, refl, coh);
        },
      )
  decode_fields-tuple _ p h = ground (arith, h)

  decode_parsed-array :
      (s : Text) (parsed : Parsed) (p : Payload)
      → decode_parsed json s parsed ≡ valid p
      → (vs : List Value) × (parsed ≡ array vs)
        × (json.stringify vs ≡ s)
        × (decode_fields json vs ≡ valid p)
  decode_parsed-array s malformed p h = ground (arith, h)
  decode_parsed-array s not_an_array p h = ground (arith, h)
  decode_parsed-array s (array vs) p h =
      elim (Bool-cases (length vs == 17 && same_text (json.stringify vs) s)) [
        | inl e ↦
            (vs, refl, ground (arith, e, same_text_iff (json.stringify vs) s), ground (arith, e, h))
        | inr e ↦ ground (arith, e, h)
      ]

  decode_payload-parsed :
      (s : Text) (p : Payload)
      → decode_payload json s ≡ valid p
      → (utf8_length s ≤ max_room_milestone_payload_bytes)
        × (decode_parsed json s (json.parse s) ≡ valid p)
  unfolding decode_payload
  decode_payload-parsed s p h =
      elim (Bool-cases (ltb max_room_milestone_payload_bytes (utf8_length s))) [
        | inl e ↦ ground (arith, e, h)
        | inr e ↦ (ground (arith, e), ground (arith, e, h))
      ]

  -- A text that decodes is at most 1024 bytes and the JSON of its payload's tuple, so that a payload
  -- has one text only; every field of the payload, the metric and the value included, has its type
  -- and its range; the metric and the value are those that the milestone asks for; and the phase and
  -- the counts are possible for the milestone.
  pub decode_payload-IsPayload :
      (s : Text) (p : Payload)
      → decode_payload json s ≡ valid p
      → (utf8_length s ≤ max_room_milestone_payload_bytes)
        × (s
            ≡ json.stringify (tuple p.room_instance_id p.fact p.analytics_metric p.analytics_value))
        × IsPayload json p
  decode_payload-IsPayload s p h =
      let (small, parsed) = decode_payload-parsed s p h in
      let (vs, found, text_of, fields) = decode_parsed-array s (json.parse s) p parsed in
      let x = decode_fields-tuple vs p fields in (small, sym text_of ∙ ap json.stringify x.0, x.1)

  tuple-injective :
      (id id' : Text) (f f' : Fact) (m m' : Option Text) (v v' : Option Number)
      → tuple id f m v ≡ tuple id' f' m' v'
      → (id ≡ id') × (f ≡ f') × (m ≡ m') × (v ≡ v')
  unfolding tuple
  tuple-injective id id' f f' none none none none h = ground (arith, h)
  tuple-injective id id' f f' none none none (some y) h = ground (arith, h)
  tuple-injective id id' f f' none none (some x) none h = ground (arith, h)
  tuple-injective id id' f f' none none (some x) (some y) h = ground (arith, h)
  tuple-injective id id' f f' none (some n) none v' h = ground (arith, h)
  tuple-injective id id' f f' none (some n) (some x) v' h = ground (arith, h)
  tuple-injective id id' f f' (some n) none none v' h = ground (arith, h)
  tuple-injective id id' f f' (some n) none (some x) v' h = ground (arith, h)
  tuple-injective id id' f f' (some n) (some m) none none h = ground (arith, h)
  tuple-injective id id' f f' (some n) (some m) none (some x) h = ground (arith, h)
  tuple-injective id id' f f' (some n) (some m) (some x) none h = ground (arith, h)
  tuple-injective id id' f f' (some n) (some m) (some x) (some y) h = ground (arith, h)

  -- What encodeRoomMilestonePayloadV1 writes decodes to the room instance, the fact and the
  -- analytics that it was given, if JSON reads back what it writes.
  pub decode_payload-encode :
      (id s : Text) (f : Fact)
      → ((vs : List Value) → json.parse (json.stringify vs) ≡ array vs)
      → encode_payload json id f ≡ valid s
      → (p : Payload) × (decode_payload json s ≡ valid p) × (p.room_instance_id ≡ id) × (p.fact ≡ f)
  unfolding encode_payload
  decode_payload-encode id s f reads h =
      let (a, e, h1) = bound (lowercase_hex_256 (text id)) _ s h in
      let (b, e2, h2) =
        bound (expected_analytics f.milestone f.completed_turn_count f.last_turn_spoken_seconds) _ s
          h1 in
      let written = json.stringify (tuple a f b.0 b.1) in
      let (p, e3, h3) = bound (decode_payload json written) _ s h2 in
      let is : written ≡ s = ground (arith, h3) in
      let (vs, found, text_of, fields) =
        decode_parsed-array written (json.parse written) p (decode_payload-parsed written p e3).1 in
      let list : vs ≡ tuple a f b.0 b.1 = ground (arith, found, reads (tuple a f b.0 b.1)) in
      let same =
        tuple-injective a p.room_instance_id f p.fact b.0 p.analytics_metric b.1 p.analytics_value
          (sym list ∙ (decode_fields-tuple vs p fields).0) in
      let named = lowercase_hex_256-valid (text id) a e in
      (p, rw (sym is) e3, ground (arith, same, named), sym same.1)
