-- ===== src/Writers/WebRtc.antt =====
-- core/panaudia_server/data_writer.go: the writer of a WebRTC connection, which sends on data channels
-- that open after the first messages have come.
pub mod Entities
use panaudia.Base.{
  ℕ, zero, suc, ◌+◌, ◌*◌, Bool, true, false, not, Option, none, some, List, [], ◌∷◌, if◌then◌else◌,
  ltb, eqb, length,
}
use panaudia.Base.Keys.{Text, bytes, text_eq, nat_eq, ◌==◌}
use panaudia.Base.Assoc.{Map}
use panaudia.Commands.{UuidLib}
use panaudia.StateCache.JsonOps.{JsonText}
use panaudia.StateCache.Wire.{get_be}
use panaudia.Space.Libraries.{SetLib}
use panaudia.Writers.{View, new_view, handle_entity, filter_entity}
use panaudia.Writers.Attributes.{Attributes, dropped, panics, forward, filter_attributes}
use panaudia.Writers.Channels.{Channel, new_channel, send_or_buffer, attach}

-- What is sent on the channels
pub data Sent : Type 0 where
  on_state on_source on_entity on_space : List Text → Sent
  text_on_source : Text → Sent
  dead_session : ℕ → Sent
  nothing : Sent

pub data Outcome (W : Type 0) : Type 0 where
  panicked : Outcome W
  returned : W → Sent → Outcome W

-- `DecodeUint64` of core/inout/encoding.go, on a machine with the low byte first
abbrev get_le : ℕ → Text → ℕ
get_le zero xs = 0
get_le (suc k) [] = 0
get_le (suc k) (x ∷ xs) = x + 256 * get_le k xs

abbrev pub decode_uint64 : Text → ℕ
decode_uint64 data_ = get_le 8 data_

module _ (ids : SetLib ℕ nat_eq) where
  -- `DataWriter`: its view, and the channels.
  pub record DataWriter : Type 0 where
    pub view : View ids
    pub state_open : Bool
    pub has_dead_session : Bool
    pub source : Channel
    pub entity : Channel
    pub space : Channel

  -- `NewDataWriter`
  unfoldable pub new_data_writer : ℕ → List ℕ → Map Text Bool → DataWriter
  new_data_writer my_node_id subspaces caps = record {
    view = new_view ids my_node_id subspaces caps;
    state_open = false;
    has_dead_session = false;
    source = new_channel;
    entity = new_channel;
    space = new_channel;
  }

  -- `sendOrBufferAttrs`, `sendOrBufferEntity` and `sendOrBufferSpace`
  unfoldable pub send_or_buffer_attrs : DataWriter → Text → DataWriter × Sent
  send_or_buffer_attrs writer payload =
      let (ch, sent) = send_or_buffer writer.source payload in
      (record writer { source = ch }, on_source sent)

  unfoldable pub send_or_buffer_entity : DataWriter → Text → DataWriter × Sent
  send_or_buffer_entity writer payload =
      let (ch, sent) = send_or_buffer writer.entity payload in
      (record writer { entity = ch }, on_entity sent)

  unfoldable pub send_or_buffer_space : DataWriter → Text → DataWriter × Sent
  send_or_buffer_space writer payload =
      let (ch, sent) = send_or_buffer writer.space payload in
      (record writer { space = ch }, on_space sent)

  -- `AttachAttributesChannel`, `AttachEntityChannel` and `AttachSpaceChannel`
  unfoldable pub attach_attributes_channel : DataWriter → DataWriter × Sent
  attach_attributes_channel writer =
      let (ch, sent) = attach writer.source in (record writer { source = ch }, on_source sent)

  unfoldable pub attach_entity_channel : DataWriter → DataWriter × Sent
  attach_entity_channel writer =
      let (ch, sent) = attach writer.entity in (record writer { entity = ch }, on_entity sent)

  unfoldable pub attach_space_channel : DataWriter → DataWriter × Sent
  attach_space_channel writer =
      let (ch, sent) = attach writer.space in (record writer { space = ch }, on_space sent)

  -- `sendSpace`
  unfoldable pub send_space : DataWriter → Text → DataWriter × Sent
  send_space writer payload =
      if not writer.view.space_read then (writer, nothing) else send_or_buffer_space writer payload

  -- `SendData`, `none` where it panics: `NodeInfo3FromBytes` reads eleven floats of four bytes, and
  -- `DecodeUint64` takes the address of the first byte. What it reads behind the end of 1 to 7 bytes
  -- counts as 0. The uuid of a state is its first 16 bytes.
  unfoldable pub send_data : DataWriter → Text → Text → Option Sent
  send_data writer topic data_ =
      if topic == bytes "state"
      then if writer.state_open
        then if ltb (length data_) 44
          then none
          else if ids.contains (get_be 16 data_) writer.view.members
          then some (on_state (data_ ∷ []))
          else some nothing
        else some nothing
      else if topic == bytes "session"
      then if eqb (length data_) 0
        then none
        else if writer.has_dead_session
        then some (dead_session (decode_uint64 data_))
        else some nothing
      else some nothing

  module _ (uuids : UuidLib) (json : JsonText) where
    -- `sendEntity`
    unfoldable pub send_entity : DataWriter → Text → DataWriter × Sent
    send_entity writer payload = elim (filter_entity ids uuids json writer.view payload) [
      | none ↦ (writer, nothing)
      | some out ↦ send_or_buffer_entity writer out
    ]

    module _ (read_attributes : Text → Option Attributes) where
      -- `sendAttributes`
      unfoldable pub send_attributes : DataWriter → Text → Outcome DataWriter
      send_attributes writer payload =
          elim (filter_attributes ids uuids json read_attributes writer.view payload) [
            | dropped ↦ returned writer nothing
            | panics ↦ panicked
            | forward view ↦
                let (next, sent) = send_or_buffer_attrs (record writer { view = view }) payload in
                returned next sent
          ]

      -- `SendString`; a topic of no other kind goes out as text.
      unfoldable pub send_string : DataWriter → Text → Text → Outcome DataWriter
      send_string writer topic payload =
          if topic == bytes "entity"
          then (let (next, sent) =
                send_entity
                  (record writer { view = handle_entity ids uuids json writer.view payload })
                  payload in
              returned next sent)
          else if topic == bytes "attributes"
          then send_attributes writer payload
          else if topic == bytes "space"
          then (let (next, sent) = send_space writer payload in returned next sent)
          else returned writer (if writer.source.is_open then text_on_source payload else nothing)
