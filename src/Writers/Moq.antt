-- ===== src/Writers/Moq.antt =====
-- core/moq/moq_data_writer.go: the writer of a MOQ session, which sends on the output tracks.
pub mod States
use panaudia.Base.{
  ℕ, Bool, true, false, not, ◌||◌, Option, none, some, List, [], ◌∷◌, if◌then◌else◌, take, ltb,
  length,
}
use panaudia.Base.Keys.{Text, bytes, text_eq, nat_eq, ◌==◌}
use panaudia.Base.Assoc.{Map}
use panaudia.Commands.{UuidLib}
use panaudia.StateCache.JsonOps.{JsonText}
use panaudia.StateCache.Wire.{get_be}
use panaudia.Space.Libraries.{SetLib}
use panaudia.Writers.{View, new_view, handle_entity, filter_entity}
use panaudia.Writers.Attributes.{Attributes, dropped, panics, forward, filter_attributes}

-- A sample on one of the output tracks. A sample that is not written is logged, and no more.
pub data Sample : Type 0 where
  to_state to_attributes to_entity to_space : Text → Sample

-- The writer after a call, with what it sent; a panic has neither.
pub data Outcome (W : Type 0) : Type 0 where
  panicked : Outcome W
  returned : W → List Sample → Outcome W

module _ (ids : SetLib ℕ nat_eq) where
  -- `MoqDataWriter`: its view, and which of its adapters are there.
  pub record MoqDataWriter : Type 0 where
    pub view : View ids
    pub has_state : Bool
    pub has_attributes : Bool
    pub has_entity : Bool
    pub has_space : Bool

  -- `NewMoqDataWriter`
  unfoldable pub new_moq_data_writer :
      Bool → Bool → Bool → Bool → ℕ → List ℕ → Map Text Bool → MoqDataWriter
  new_moq_data_writer has_state has_attributes has_entity has_space my_node_id subspaces caps =
      record {
        view = new_view ids my_node_id subspaces caps;
        has_state = has_state;
        has_attributes = has_attributes;
        has_entity = has_entity;
        has_space = has_space;
      }

  -- `sendSpace`
  unfoldable pub send_space : MoqDataWriter → Text → List Sample
  send_space w payload =
      if not w.view.space_read || not w.has_space then [] else to_space payload ∷ []

  -- `SendData`, `none` where it panics: `NodeInfo3FromBytes` reads eleven floats of four bytes. The uuid
  -- is the first 16 bytes.
  unfoldable pub send_data : MoqDataWriter → Text → Text → Option (List Sample)
  send_data w topic data_ =
      if topic == bytes "state"
      then if w.has_state
        then if ltb (length data_) 44
          then none
          else if ids.contains (get_be 16 data_) w.view.members
          then some (to_state data_ ∷ [])
          else some []
        else some []
      else some []

  module _ (uuids : UuidLib) (json : JsonText) (read_attributes : Text → Option Attributes) where
    -- `sendEntity`
    unfoldable pub send_entity : MoqDataWriter → Text → List Sample
    send_entity w payload =
        if not w.has_entity then [] else elim (filter_entity ids uuids json w.view payload) [
          | none ↦ []
          | some out ↦ to_entity out ∷ []
        ]

    -- `sendAttributes`
    unfoldable pub send_attributes : MoqDataWriter → Text → Outcome MoqDataWriter
    send_attributes w payload =
        elim (filter_attributes ids uuids json read_attributes w.view payload) [
          | dropped ↦ returned w []
          | panics ↦ panicked
          | forward view ↦ returned (record w { view = view }) (to_attributes payload ∷ [])
        ]

    -- `SendString`
    unfoldable pub send_string : MoqDataWriter → Text → Text → Outcome MoqDataWriter
    send_string w topic payload =
        if topic == bytes "entity"
        then (let next = record w { view = handle_entity ids uuids json w.view payload } in
            returned next (send_entity next payload))
        else if topic == bytes "attributes"
        then if not w.has_attributes then returned w [] else send_attributes w payload
        else if topic == bytes "space"
        then returned w (send_space w payload)
        else returned w []
