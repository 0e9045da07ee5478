-- ===== src/Space/BouncerClient/Publish.antt =====
-- core/space/bouncer_client.go: what the client publishes of its node, and the keys that it keeps so
-- that they can be taken away: `sendEntity`, `sendAttributes`, `Republish`, `TakeSentKeys`,
-- `AnnounceDisappearance` and the loop of `sendInfo`.
pub mod Keys
pub mod Sweep
use panaudia.Base.{
  ℕ, ◌+◌, ◌-◌, Bool, true, false, not, Option, none, some, List, [], ◌∷◌, ◌++◌, map, if◌then◌else◌,
  eqb, ltb,
}
use panaudia.Base.Keys.{Text, bytes, text_eq, ◌==◌}
use panaudia.Base.Assoc.{Map, lookup, insert}
use panaudia.Commands.{UuidLib}
use panaudia.StateCache.JsonOps.{JsonText, build_tombstone_op, build_batch}

-- `json.Marshal` of an operation with a value; the values are a string, `true`, and the attributes of a
-- node. `none` is an error.
pub record WriteLib : Type 1 where
  pub Value : Type 0
  pub of_text : Text → Value
  pub of_true : Value
  pub write_op : Text → Value → Option Text

-- `math` on volumes, and the bytes of a `NodeInfo3`: its uuid, place, volume and `Gone`.
pub record InfoLib : Type 1 where
  pub Float : Type 0
  pub Place : Type 0
  pub zero_float : Float
  pub one_hundredth : Float
  pub add_float : Float → Float → Float
  pub sub_float : Float → Float → Float
  pub ltb_float : Float → Float → Bool
  pub mean : Float → ℕ → Float
  pub root_mean_square : List Float → Float
  pub write_info : ℕ → Place → Float → ℕ → Text

-- The fields of `common.NodeConfig` that the client publishes.
pub record NodeConfig (V : Type 0) : Type 0 where
  pub name : Text
  pub uuid : ℕ
  pub attrs : Map Text V
  pub roles : List Text
  pub sub_spaces : List ℕ

-- The calls that the client makes of its bouncer
pub data BouncerCall : Type 0 where
  send_string : Text → Text → BouncerCall
  send_data : Text → Text → BouncerCall

-- The fields of `BouncerClient` that `mu` guards, with `done`.
pub record Publisher (F : Type 0) (P : Type 0) : Type 0 where
  pub place : P
  pub volume_counter : ℕ
  pub volume_sum : F
  pub volume : F
  pub gone : ℕ
  pub done : Bool
  pub sent_keys : Map Text Bool
  pub sent_entity_keys : Map Text Bool

-- The loop that tracks the keys
unfoldable pub track_keys : List (Text × Text) → Map Text Bool → Map Text Bool
track_keys [] keys = keys
track_keys ((key, op) ∷ ops) keys = track_keys ops (insert key true keys)

-- The operations as one message: alone, or as a batch.
unfoldable pub message_of : List Text → Option Text
message_of [] = none
message_of (op ∷ []) = some op
message_of (op ∷ next ∷ ops) = build_batch (op ∷ next ∷ ops)

-- The call for a message that is not empty
unfoldable pub call_for : Text → Option Text → List BouncerCall
call_for topic none = []
call_for topic (some msg) = if msg == [] then [] else send_string topic msg ∷ []

abbrev pub keys_of : Map Text Bool → List Text
keys_of [] = []
keys_of ((key, sent) ∷ keys) = key ∷ keys_of keys

-- `v, ok := Attrs[name]`, with the field of that name
unfoldable pub attribute : {V : Type 0} → Text → Option V → List (Text × V)
attribute key none = []
attribute key (some v) = (key, v) ∷ []

module _ (uuids : UuidLib) (write : WriteLib) where
  -- `addOp` on each field: the operations that encode, with their keys.
  unfoldable pub add_ops : List (Text × write.Value) → List (Text × Text)
  add_ops [] = []
  add_ops ((key, v) ∷ fields) =
      let rest = add_ops fields in
      elim (write.write_op key v) [ none ↦ rest | some op ↦ (key, op) ∷ rest ]

  -- The loop over the roles
  unfoldable pub role_fields : Text → List Text → List (Text × write.Value)
  role_fields id [] = []
  role_fields id (role ∷ roles) =
      let rest = role_fields id roles in
      if role == [] then rest else (id ++ (bytes ".roles." ++ role), write.of_true) ∷ rest

  -- The fields of `sendEntity`
  unfoldable pub entity_fields : NodeConfig write.Value → List (Text × write.Value)
  entity_fields config =
      let id = uuids.to_text config.uuid in
      (id, write.of_true)
      ∷ (map (λ ss. (id ++ (bytes ".subspaces." ++ uuids.to_text ss), write.of_true))
            config.sub_spaces
          ++ role_fields id config.roles)

  -- The fields of `sendAttributes`
  unfoldable pub attribute_fields : NodeConfig write.Value → List (Text × write.Value)
  attribute_fields config =
      let id = uuids.to_text config.uuid in
      (id ++ bytes ".name", write.of_text config.name)
      ∷ (attribute (id ++ bytes ".ticket") (lookup (bytes "ticket") config.attrs)
          ++ attribute (id ++ bytes ".connection") (lookup (bytes "connection") config.attrs))

  module _ (json : JsonText) (info : InfoLib) (config : NodeConfig write.Value) where
    -- `sendEntity`
    unfoldable pub send_entity :
        Publisher info.Float info.Place → Publisher info.Float info.Place × List BouncerCall
    send_entity client =
        let ops = add_ops (entity_fields config) in
        (
          record client { sent_entity_keys = track_keys ops client.sent_entity_keys },
          elim (message_of (map (λ p. p.1) ops)) [
            | none ↦ []
            | some msg ↦ send_string (bytes "entity") msg ∷ []
          ],
        )

    -- `sendAttributes`
    unfoldable pub send_attributes :
        Publisher info.Float info.Place → Publisher info.Float info.Place × List BouncerCall
    send_attributes client =
        let ops = add_ops (attribute_fields config) in
        (
          record client { sent_keys = track_keys ops client.sent_keys },
          elim (message_of (map (λ p. p.1) ops)) [
            | none ↦ []
            | some msg ↦ send_string (bytes "attributes") msg ∷ []
          ],
        )

    -- One after the other, as `Republish` and `sendInfo` call them
    unfoldable pub send_both :
        Publisher info.Float info.Place → Publisher info.Float info.Place × List BouncerCall
    send_both client =
        let (client, entity) = send_entity client in
        let (client, attributes) = send_attributes client in (client, entity ++ attributes)

    -- `Republish`
    unfoldable pub republish :
        Publisher info.Float info.Place → Publisher info.Float info.Place × List BouncerCall
    republish client = if client.done then (client, []) else send_both client

    -- `TakeSentKeys`
    unfoldable pub take_sent_keys :
        Publisher info.Float info.Place → Publisher info.Float info.Place × (List Text × List Text)
    take_sent_keys client = (
      record client { sent_keys = []; sent_entity_keys = [] },
      (keys_of client.sent_keys, keys_of client.sent_entity_keys),
    )

    -- The tombstones of keys that encode
    unfoldable pub tombstones : List Text → List Text
    tombstones [] = []
    tombstones (key ∷ keys) =
        let rest = tombstones keys in
        elim (build_tombstone_op json key) [ none ↦ rest | some op ↦ op ∷ rest ]

    -- The bytes of the node's `NodeInfo3`
    abbrev pub info_of : Publisher info.Float info.Place → Text
    info_of client = info.write_info config.uuid client.place client.volume client.gone

    -- `AnnounceDisappearance`
    unfoldable pub announce_disappearance :
        Publisher info.Float info.Place → Publisher info.Float info.Place × List BouncerCall
    announce_disappearance client =
        let client = record client { gone = 1 } in
        (
          record client { sent_keys = []; sent_entity_keys = [] },
          call_for (bytes "attributes") (message_of (tombstones (keys_of client.sent_keys)))
              ++ (call_for (bytes "entity")
                    (message_of (tombstones (keys_of client.sent_entity_keys)))
                  ++ (send_data (bytes "state") (info_of client) ∷ [])),
        )

    -- `Quiesce` on this side
    abbrev pub quiesce : Publisher info.Float info.Place → Publisher info.Float info.Place
    quiesce client = record client { done = true }

    -- `SetVolume`
    abbrev pub set_volume :
        Publisher info.Float info.Place → List info.Float → Publisher info.Float info.Place
    set_volume client src = record client {
      volume_sum = info.add_float client.volume_sum (info.root_mean_square src);
      volume_counter = client.volume_counter + 1;
    }

    -- The volume of one turn of the loop: it rises at once and falls by a hundredth.
    unfoldable pub with_volume : Publisher info.Float info.Place → Publisher info.Float info.Place
    with_volume client =
        let vol =
          if eqb client.volume_counter 0
          then info.zero_float
          else info.mean client.volume_sum client.volume_counter in
        let client =
          if eqb client.volume_counter 0
          then client
          else record client { volume_sum = info.zero_float; volume_counter = 0 } in
        if info.ltb_float (info.sub_float client.volume info.one_hundredth) vol
        then record client { volume = vol }
        else record client { volume = info.sub_float client.volume info.one_hundredth }

    -- One turn of the loop of `sendInfo`, with its counter
    unfoldable pub send_info :
        Publisher info.Float info.Place
        → ℕ
        → Publisher info.Float info.Place × (ℕ × List BouncerCall)
    send_info client counter =
        let client = with_volume client in
        let state = send_data (bytes "state") (info_of client) in
        let (client, calls) = if eqb counter 0 then send_both client else (client, []) in
        (client, (if ltb 38 counter then 0 else counter + 1, state ∷ calls))
