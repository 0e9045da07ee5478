-- ===== src/Space/BouncerClient/Kick.antt =====
-- core/space/bouncer_client.go: `inspectIncomingEnvelope`, the watch for a kick of this client, and the
-- tee into the kick gate.
pub mod Names
pub mod Targets
use panaudia.Base.{
  ℕ, ◌+◌, Bool, true, false, not, ◌||◌, Option, none, some, List, [], ◌∷◌, if◌then◌else◌, eqb, take,
  drop,
}
use panaudia.Base.Int.{ℤ}
use panaudia.Base.Keys.{Text, bytes, text_eq, ◌==◌}
use panaudia.Commands.{UuidLib}
use panaudia.StateCache.JsonOps.{JsonOp, JsonText, extract_op_value}
use panaudia.StateCache.Opened.{open_envelope}
use panaudia.Space.KickGate.{KickGate, split_entity_key, apply}

-- The fields that `kickMu` guards: whether `kickFn` is there, whether it has been called, and the gate.
pub record KickWatch : Type 0 where
  pub has_kick_fn : Bool
  pub kick_fired : Bool
  pub kick_gate : Option KickGate

-- `SetKickFn` and `SetKickGate`
abbrev pub set_kick_fn : KickWatch → Bool → KickWatch
set_kick_fn watch fn = record watch { has_kick_fn = fn }

abbrev pub set_kick_gate : KickWatch → Option KickGate → KickWatch
set_kick_gate watch gate = record watch { kick_gate = gate }

-- The loop over the roles of the client
unfoldable pub has_role : Text → List Text → Bool
has_role role [] = false
has_role role (r ∷ roles) = r == role || has_role role roles

-- What follows the loop: the watch, and whether `kickFn` is called.
unfoldable pub fire : KickWatch → Bool → KickWatch × Bool
fire watch should_kick =
    if not should_kick
    then (watch, false)
    else if watch.kick_fired || not watch.has_kick_fn
    then (watch, false)
    else (record watch { kick_fired = true }, true)

-- The check before an envelope is parsed: there is nothing to do.
unfoldable pub is_idle : KickWatch → Bool
is_idle watch = elim watch.kick_gate [
  | some gate ↦ false
  | none ↦ watch.kick_fired || not watch.has_kick_fn
]

module _ (lib : UuidLib) where
  -- The targeting rules, on an operation that is no tombstone
  unfoldable pub is_target : ℕ → List Text → Text → Text → Bool
  is_target my_uuid my_roles topic key =
      if topic == bytes "entity"
      then elim (split_entity_key lib key) [
        | none ↦ false
        | some (id, rest) ↦ if rest == bytes "kicked" then eqb id my_uuid else false
      ]
      else if topic == bytes "space"
      then if take 13 key == bytes "roles-kicked."
        then if drop 13 key == [] then false else has_role (drop 13 key) my_roles
        else false
      else false

module _ (lib : UuidLib) (json : JsonText) (decode_millis : Text → Option ℤ) where
  -- The tee of one operation into the gate
  unfoldable pub tee_gate : Option KickGate → Text → JsonOp × Text → Option KickGate
  tee_gate none topic (op, raw) = none
  tee_gate (some gate) topic (op, raw) = some (
      apply lib gate topic (record {
        key = op.key;
        tombstone = op.tombstone;
        deadline = decode_millis (if op.tombstone then [] else extract_op_value json raw);
      }))

  -- The loop over the operations: the gate, and `shouldKick`.
  unfoldable pub inspect_ops :
      ℕ → List Text → Text → List (JsonOp × Text) → Option KickGate → Bool → Option KickGate × Bool
  inspect_ops my_uuid my_roles topic [] gate should_kick = (gate, should_kick)
  inspect_ops my_uuid my_roles topic ((op, raw) ∷ ops) gate should_kick =
      inspect_ops my_uuid my_roles topic ops (tee_gate gate topic (op, raw)) (
        if should_kick || op.tombstone
        then should_kick
        else is_target lib my_uuid my_roles topic op.key)

  -- The operations of an envelope, `none` where it is none or does not decode or parse.
  unfoldable pub ops_of : Text → Option (List (JsonOp × Text))
  ops_of payload = elim (open_envelope json payload) [ none ↦ none | some (op, ops) ↦ some ops ]

  -- What is done with the operations
  unfoldable pub inspect_parsed :
      ℕ → List Text → KickWatch → Text → Option (List (JsonOp × Text)) → KickWatch × Bool
  inspect_parsed my_uuid my_roles watch topic none = (watch, false)
  inspect_parsed my_uuid my_roles watch topic (some ops) =
      let (gate, should_kick) = inspect_ops my_uuid my_roles topic ops watch.kick_gate false in
      fire (record watch { kick_gate = gate }) should_kick

  -- `inspectIncomingEnvelope`
  unfoldable pub inspect_incoming_envelope :
      ℕ → List Text → KickWatch → Text → Text → KickWatch × Bool
  inspect_incoming_envelope my_uuid my_roles watch topic payload =
      if is_idle watch
      then (watch, false)
      else inspect_parsed my_uuid my_roles watch topic (ops_of payload)

  -- The watch of `SendString`, on the two topics that carry kicks
  unfoldable pub watch_string : ℕ → List Text → KickWatch → Text → Text → KickWatch × Bool
  watch_string my_uuid my_roles watch topic payload =
      if topic == bytes "entity" || topic == bytes "space"
      then inspect_incoming_envelope my_uuid my_roles watch topic payload
      else (watch, false)

  -- The number of calls of `kickFn` over a sequence of messages, with their topics
  unfoldable pub kicks : ℕ → List Text → KickWatch → List (Text × Text) → ℕ
  kicks my_uuid my_roles watch [] = 0
  kicks my_uuid my_roles watch ((topic, payload) ∷ ms) =
      let (next, fired) = watch_string my_uuid my_roles watch topic payload in
      let rest = kicks my_uuid my_roles next ms in if fired then rest + 1 else rest
