-- ===== src/Direct.antt =====
-- direct/backend.go: the dispatcher of string messages. A message that is cached is split into its
-- operations; what a client may not write is dropped; the rest goes to the cache, to the space, to the
-- kick gate and, in one envelope, to every client. `Tracking` and `Ownership` hold the proofs.
pub mod Tracking
pub mod Ownership
pub mod Departure
pub mod Reconciler
use panaudia.Base.{
  ℕ, Bool, true, false, not, ◌&&◌, ◌||◌, Option, none, some, List, [], ◌∷◌, ◌++◌, if◌then◌else◌,
  eqb, ltb, length, map,
}
use panaudia.Base.Keys.{Text, bytes, text_eq, nat_eq, ◌==◌}
use panaudia.Base.Assoc.{Map, lookup, insert, delete}
use panaudia.StateCache.{Op, OpIdCounter, assign}
use panaudia.StateCache.JsonOps.{
  JsonOp, JsonText, parsed, failed, parse_ops, extract_op_value, build_batch, raw_messages,
}
use panaudia.StateCache.Wire.{ok, refused, encode}
use panaudia.Sessions.{Registry}
use panaudia.Commands.{UuidLib}
use panaudia.Commands.Scope.{KeyScope, connection, policy, classify_key}

-- `StringMessage`
pub record StringMessage : Type 0 where
  pub topic : Text
  pub msg : Text
  pub source_uuid : ℕ

-- The calls that the backend makes of the cache, of the space, of the kick gate, of its clients and
-- of its own queues.
pub data Call : Type 0 where
  cache_set : Text → Text → Text → ℕ → Call
  cache_tomb : Text → Text → ℕ → Call
  apply_entity_op : Op → Call
  apply_space_op : Op → Call
  gate_apply : Text → Op → Call
  deliver : ℕ → Text → Text → Call
  kill : ℕ → Text → Call
  quiesce : ℕ → Call
  stop_bouncer : ℕ → Call
  enqueue_string : Text → Text → Call
  enqueue_gone : ℕ → Call
  delete_node : ℕ → Call

-- `ConnectionHandler`, as far as a departure reads it: its registry entry may be nil.
pub record ConnectionHandler : Type 0 where
  pub registry_entry : Option ℕ
  pub is_active : Bool

-- `Bouncer`: whether its receive sender is a `BouncerClient`, and the keys which that has sent.
pub record Bouncer : Type 0 where
  pub has_client : Bool
  pub attribute_keys : List Text
  pub entity_keys : List Text

-- What the dispatcher and a departure read and write of `DirectBackend`; `calls` has the last call
-- first.
pub record DirectBackend : Type 0 where
  pub op_id_counter : OpIdCounter
  pub conn_keys_by_subject : Map ℕ (Map Text (Map Text Bool))
  pub bouncers : Map ℕ Bouncer
  pub handlers : Map ℕ ConnectionHandler
  pub pending_free : Map ℕ (List ConnectionHandler)
  pub sessions : Registry
  pub has_space : Bool
  pub has_kick_gate : Bool
  pub calls : List Call

abbrev pub or_empty {ℓ} : {K : Type 0} {V : Type ℓ} → Option (Map K V) → Map K V
or_empty none = []
or_empty (some m) = m

-- The loop over the bouncers
unfoldable pub deliver_all : Map ℕ Bouncer → Text → Text → List Call → List Call
deliver_all [] topic msg calls = calls
deliver_all ((b, bouncer) ∷ bouncers) topic msg calls =
    deliver_all bouncers topic msg (deliver b topic msg ∷ calls)

unfoldable pub broadcast : DirectBackend → Text → Text → DirectBackend
broadcast backend topic msg = record backend {
  calls = deliver_all backend.bouncers topic msg backend.calls;
}

-- The tees of one operation into the space and the gate
unfoldable pub tee : DirectBackend → Text → Op → DirectBackend
tee backend topic op =
    let to_space =
      if not backend.has_space
      then backend.calls
      else if topic == bytes "entity"
      then apply_entity_op op ∷ backend.calls
      else if topic == bytes "space"
      then apply_space_op op ∷ backend.calls
      else backend.calls in
    record backend {
      calls =
          if backend.has_kick_gate && (topic == bytes "entity" || topic == bytes "space")
          then gate_apply topic op ∷ to_space
          else to_space;
    }

module _ (lib : UuidLib) where
  -- The tracked keys of `backend` with `key` under its subject and topic
  unfoldable pub with_key :
      Map ℕ (Map Text (Map Text Bool)) → ℕ → Text → Text → Map ℕ (Map Text (Map Text Bool))
  with_key tracked subject topic key =
      let topics = or_empty (lookup subject tracked) in
      let keys = or_empty (lookup topic topics) in
      insert subject (insert topic (insert key true keys) topics) tracked

  -- `trackConnKey`
  unfoldable pub track_conn_key : DirectBackend → Text → Text → DirectBackend
  track_conn_key backend topic key =
      let (scope, subject) = classify_key lib topic key in
      elim scope [
        | connection ↦ if eqb subject 0 then backend else record backend {
          conn_keys_by_subject = with_key backend.conn_keys_by_subject subject topic key;
        }
        | policy ↦ backend
      ]

  unfoldable pub without_key :
      Map ℕ (Map Text (Map Text Bool)) → ℕ → Text → Text → Map ℕ (Map Text (Map Text Bool))
  without_key tracked subject topic key = elim (lookup subject tracked) [
    | none ↦ tracked
    | some topics ↦ elim (lookup topic topics) [
      | none ↦ tracked
      | some keys ↦ insert subject (insert topic (delete key keys) topics) tracked
    ]
  ]

  -- `untrackConnKey`
  unfoldable pub untrack_conn_key : DirectBackend → Text → Text → DirectBackend
  untrack_conn_key backend topic key =
      let subject = (classify_key lib topic key).1 in
      if eqb subject 0 then backend else record backend {
        conn_keys_by_subject = without_key backend.conn_keys_by_subject subject topic key;
      }

  -- A write to a key that goes with the connection of someone else
  unfoldable pub is_foreign : ℕ → Text → Text → Bool
  is_foreign source topic key =
      let (scope, subject) = classify_key lib topic key in
      elim scope [ connection ↦ not (eqb subject 0) && not (eqb subject source) | policy ↦ false ]

  -- The loop that drops them
  unfoldable pub own_ops : ℕ → Text → List (JsonOp × Text) → List (JsonOp × Text)
  own_ops source topic [] = []
  own_ops source topic ((op, raw) ∷ ops) =
      let rest = own_ops source topic ops in
      if is_foreign source topic op.key then rest else (op, raw) ∷ rest

  -- The payload without the dropped operations
  unfoldable pub rebuilt : Text → List (JsonOp × Text) → List (JsonOp × Text) → Option Text
  rebuilt msg ops kept =
      if ltb (length kept) (length ops)
      then elim kept [
        | [] ↦ build_batch []
        | p ∷ [] ↦ some p.1
        | p ∷ q ∷ more ↦ build_batch (raw_messages (p ∷ q ∷ more))
      ]
      else some msg

  module _ (json : JsonText) where
    -- One turn of the loop that stores the operations
    unfoldable pub store_op : Text → ℕ → DirectBackend → JsonOp × Text → DirectBackend
    store_op topic op_id backend (op, raw) =
        let stored =
          if op.tombstone
          then untrack_conn_key
              (record backend { calls = cache_tomb topic op.key op_id ∷ backend.calls }) topic
              op.key
          else track_conn_key
              (record backend { calls = cache_set topic op.key raw op_id ∷ backend.calls }) topic
              op.key in
        tee stored topic (record {
          topic = topic;
          key = op.key;
          value = if op.tombstone then [] else extract_op_value json raw;
          op_id = op_id;
          node_id = 0;
          tombstone = op.tombstone;
          created_at = 0;
        })

    unfoldable pub store_ops : Text → ℕ → DirectBackend → List (JsonOp × Text) → DirectBackend
    store_ops topic op_id backend [] = backend
    store_ops topic op_id backend (p ∷ ops) =
        store_ops topic op_id (store_op topic op_id backend p) ops

    -- The message that goes out for operations that were stored: one envelope with the first key, or
    -- the message as it came where it does not encode.
    unfoldable pub wrapped : StringMessage → Text → ℕ → JsonOp × Text → List (JsonOp × Text) → Text
    wrapped msg payload op_id (first, raw) more =
        elim (encode (record {
          topic = msg.topic;
          key = first.key;
          value = payload;
          op_id = op_id;
          node_id = 0;
          tombstone = first.tombstone && eqb (length more) 0;
          created_at = 0;
        })) [ ok encoded ↦ encoded | refused e ↦ msg.msg ]

    -- What `handleStringMessage` does with the operations that are left
    unfoldable pub handle_kept :
        DirectBackend → StringMessage → Option Text → List (JsonOp × Text) → DirectBackend
    handle_kept backend msg payload [] = backend
    handle_kept backend msg none (first ∷ more) = backend
    handle_kept backend msg (some payload) (first ∷ more) =
        let (op_id, counter) = assign backend.op_id_counter in
        let stored =
          store_ops msg.topic op_id (record backend { op_id_counter = counter }) (first ∷ more) in
        broadcast stored msg.topic (wrapped msg payload op_id first more)

    -- `handleStringMessage`
    unfoldable pub handle_string_message :
        (Text → Bool) → DirectBackend → StringMessage → DirectBackend
    handle_string_message cache_policy backend msg =
        if not (cache_policy msg.topic)
        then broadcast backend msg.topic msg.msg
        else elim (parse_ops json msg.msg) [
          | failed e ↦ broadcast backend msg.topic msg.msg
          | parsed ops ↦
              if eqb msg.source_uuid 0
              then handle_kept backend msg (some msg.msg) ops
              else handle_kept backend msg
                  (rebuilt msg.msg ops (own_ops msg.source_uuid msg.topic ops))
                  (own_ops msg.source_uuid msg.topic ops)
        ]
