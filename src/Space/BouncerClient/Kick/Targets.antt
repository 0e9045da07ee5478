-- ===== src/Space/BouncerClient/Kick/Targets.antt =====
-- When the watch calls `kickFn`.
use panaudia.Base.{
  ℕ, ◌+◌, ◌≤◌, ◌≡◌, ◌↔◌, ◌⊎◌, inl, inr, refl, subst, Bool, true, false, ◌||◌, Option, none, some,
  List, [], ◌∷◌, if◌then◌else◌, arith, Bool-cases, Option-cases, if_both, Some,
}
use panaudia.Base.Int.{ℤ}
use panaudia.Base.Keys.{Text, bytes, text_eq, ◌==◌}
use panaudia.Commands.{UuidLib}
use panaudia.StateCache.JsonOps.{JsonOp, JsonText}
use panaudia.Space.KickGate.{KickGate}
use panaudia.Space.BouncerClient.Kick.{
  KickWatch, is_target, tee_gate, inspect_ops, fire, ops_of, is_idle, inspect_parsed,
  inspect_incoming_envelope, watch_string, kicks,
}
use panaudia.Space.BouncerClient.Kick.Names.{Kicks, is_target_iff}

module _ (lib : UuidLib) where
  -- The operation kicks the client.
  abbrev pub IsKick : ℕ → List Text → Text → JsonOp × Text → Type 0
  IsKick my_uuid roles topic p = (p.0.tombstone ≡ false) × Kicks lib my_uuid roles topic p.0.key

  module _ (json : JsonText) (decode_millis : Text → Option ℤ) where
    inspect_ops_iff :
        (my_uuid : ℕ) (roles : List Text) (topic : Text) (ops : List (JsonOp × Text))
        (gate : Option KickGate) (found : Bool)
        → ((inspect_ops lib json decode_millis my_uuid roles topic ops gate found).1 ≡ true)
          ↔ ((found ≡ true) ⊎ Some (IsKick my_uuid roles topic) ops)
    unfolding inspect_ops
    inspect_ops_iff my_uuid roles topic [] gate found =
        (λ h. inl h, λ s. elim s [ inl h ↦ h | inr n ↦ absurd n ])
    inspect_ops_iff my_uuid roles topic ((op, raw) ∷ ops) gate true =
        let rest =
          inspect_ops_iff my_uuid roles topic ops
            (tee_gate lib json decode_millis gate topic (op, raw)) true in
        (λ h. inl refl, λ s. rest.1 (inl refl))
    inspect_ops_iff my_uuid roles topic ((op, raw) ∷ ops) gate false =
        let (there, back) =
          inspect_ops_iff my_uuid roles topic ops
            (tee_gate lib json decode_millis gate topic (op, raw))
            (if op.tombstone then false else is_target lib my_uuid roles topic op.key) in
        let target = is_target_iff lib my_uuid roles topic op.key in
        (
          λ h. elim (there h) [
            | inl n ↦ inr (inl (ground arith, target.0 (ground arith)))
            | inr s ↦ inr (inr s)
          ],
          λ s. elim s [
            | inl n ↦ ground (arith, n)
            | inr (inl (t, k)) ↦ back (inl (ground (arith, t, target.1 k)))
            | inr (inr s) ↦ back (inr s)
          ],
        )

    -- The envelope holds an operation that kicks the client.
    pub Carries : ℕ → List Text → Text → Text → Type 0
    Carries my_uuid roles topic payload =
        (ops : List (JsonOp × Text)) × ((ops_of lib json decode_millis payload ≡ some ops)
          × Some (IsKick my_uuid roles topic) ops)

    fire_iff :
        (fn fired : Bool) (gate : Option KickGate) (found : Bool)
        → ((fire (record { has_kick_fn = fn; kick_fired = fired; kick_gate = gate }) found).1
            ≡ true)
          ↔ ((fn ≡ true) × (fired ≡ false) × (found ≡ true))
    unfolding fire
    fire_iff fn fired gate found = ground arith

    parsed_iff :
        (my_uuid : ℕ) (roles : List Text) (watch : KickWatch) (topic : Text)
        (found : Option (List (JsonOp × Text)))
        → ((inspect_parsed lib json decode_millis my_uuid roles watch topic found).1 ≡ true) ↔ (
            (watch.has_kick_fn ≡ true)
            × (watch.kick_fired ≡ false)
            × ((ops : List (JsonOp × Text)) × ((found ≡ some ops)
                  × Some (IsKick my_uuid roles topic) ops)))
    unfolding inspect_parsed
    parsed_iff my_uuid roles watch topic none =
        (λ h. ground (arith, h), λ (f, d, (ops, (p, s))). ground (arith, p))
    parsed_iff my_uuid roles watch topic (some ops) =
        let (gate, found) =
          inspect_ops lib json decode_millis my_uuid roles topic ops watch.kick_gate false in
        let fires = fire_iff watch.has_kick_fn watch.kick_fired gate found in
        let finds = inspect_ops_iff my_uuid roles topic ops watch.kick_gate false in
        (
          λ h.
              let (f, d, k) = fires.0 h in
              (f, d, (ops, (refl, elim (finds.0 k) [ inl n ↦ ground (arith, n) | inr s ↦ s ]))),
          λ (f, d, (others, (p, s))).
              let same : others ≡ ops = ground (arith, p) in
              fires.1 (f, d, finds.1 (inr (subst (Some (IsKick my_uuid roles topic)) same s))),
        )

    -- The client is kicked by an envelope exactly when `kickFn` is there and has not been called, and
    -- the envelope parses to operations of which one sets a kick of its uuid, or of a role it has.
    pub inspect_incoming_envelope_iff :
        (my_uuid : ℕ) (roles : List Text) (watch : KickWatch) (topic payload : Text)
        → ((inspect_incoming_envelope lib json decode_millis my_uuid roles watch topic payload).1
            ≡ true)
          ↔ ((watch.has_kick_fn ≡ true)
              × (watch.kick_fired ≡ false)
              × Carries my_uuid roles topic payload)
    unfolding inspect_incoming_envelope is_idle Carries
    inspect_incoming_envelope_iff my_uuid roles watch topic payload =
        elim (Bool-cases (is_idle watch)) [
          | inl e ↦ rw e (λ h. ground (arith, h), λ (f, d, c). ground (arith, idle watch e f d))
          | inr e ↦
              rw e (parsed_iff my_uuid roles watch topic (ops_of lib json decode_millis payload))
        ]
      where
        idle :
            (watch : KickWatch)
            → is_idle watch ≡ true
            → watch.has_kick_fn ≡ true
            → watch.kick_fired ≡ false
            → ⊥
        idle watch e f d = elim (Option-cases watch.kick_gate) [
          | inl g ↦ ground (arith, e, f, d, g)
          | inr (gate, g) ↦ ground (arith, e, g)
        ]

    -- A message raises the flag when it calls `kickFn`, and only a flag that is down lets it.
    abbrev pub Raises : KickWatch → KickWatch × Bool → Type 0
    Raises watch r =
        (r.0.kick_fired ≡ (watch.kick_fired || r.1)) × (r.1 ≡ true → watch.kick_fired ≡ false)

    fire-Raises :
        (fn fired : Bool) (gate : Option KickGate) (found : Bool) (old : KickWatch)
        → old.kick_fired ≡ fired
        → Raises old
            (fire (record { has_kick_fn = fn; kick_fired = fired; kick_gate = gate }) found)
    unfolding fire
    fire-Raises fn fired gate found old h = ground arith

    quiet : (watch : KickWatch) → Raises watch (watch, false)
    quiet watch = ground arith

    parsed-Raises :
        (my_uuid : ℕ) (roles : List Text) (watch : KickWatch) (topic : Text)
        (found : Option (List (JsonOp × Text)))
        → Raises watch (inspect_parsed lib json decode_millis my_uuid roles watch topic found)
    unfolding inspect_parsed
    parsed-Raises my_uuid roles watch topic none = quiet watch
    parsed-Raises my_uuid roles watch topic (some ops) =
        let (gate, found) =
          inspect_ops lib json decode_millis my_uuid roles topic ops watch.kick_gate false in
        fire-Raises watch.has_kick_fn watch.kick_fired gate found watch refl

    pub watch_string-Raises :
        (my_uuid : ℕ) (roles : List Text) (watch : KickWatch) (topic payload : Text)
        → Raises watch (watch_string lib json decode_millis my_uuid roles watch topic payload)
    unfolding watch_string inspect_incoming_envelope
    watch_string-Raises my_uuid roles watch topic payload =
        if_both (Raises watch) (topic == bytes "entity" || topic == bytes "space")
          (if_both (Raises watch) (is_idle watch) (quiet watch)
            (parsed-Raises my_uuid roles watch topic (ops_of lib json decode_millis payload)))
          (quiet watch)

    -- Over any messages `kickFn` is called at most once, and not at all once it has been called.
    pub kicks_once :
        (my_uuid : ℕ) (roles : List Text) (watch : KickWatch) (ms : List (Text × Text))
        → kicks lib json decode_millis my_uuid roles watch ms ≤ (if watch.kick_fired then 0 else 1)
    unfolding kicks
    kicks_once my_uuid roles watch [] = ground arith
    kicks_once my_uuid roles watch ((topic, payload) ∷ ms) =
        let (next, fired) = watch_string lib json decode_millis my_uuid roles watch topic payload in
        let (after, before) = watch_string-Raises my_uuid roles watch topic payload in
        let rest = kicks_once my_uuid roles next ms in
        counted watch.kick_fired next.kick_fired fired
          (kicks lib json decode_millis my_uuid roles next ms) after before rest
      where
        counted :
            (old new fired : Bool) (n : ℕ)
            → new ≡ (old || fired)
            → (fired ≡ true → old ≡ false)
            → n ≤ (if new then 0 else 1)
            → (if fired then n + 1 else n) ≤ (if old then 0 else 1)
        counted old new fired n a b c = ground (arith, a, b, c)
