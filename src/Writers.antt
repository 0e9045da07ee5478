-- ===== src/Writers.antt =====
-- core/moq/moq_data_writer.go and core/panaudia_server/data_writer.go: what of the broadcasts reaches
-- one client. Both writers keep the same view of the other nodes, which this file has with the
-- filters on it; `Moq` and `WebRtc` send what passes them.
pub mod Known
pub mod Visible
pub mod Own
pub mod Attributes
pub mod Moq
pub mod Channels
pub mod WebRtc
use panaudia.Base.{
  ℕ, Bool, true, false, not, ◌&&◌, ◌||◌, Option, none, some, List, [], ◌∷◌, ◌++◌, if◌then◌else◌,
  eqb, ltb, take, drop, length, get_or,
}
use panaudia.Base.Keys.{Text, bytes, text_eq, nat_eq, ◌==◌}
use panaudia.Base.Assoc.{Map, lookup, insert, delete}
use panaudia.Commands.{UuidLib}
use panaudia.Commands.Scope.{cut}
use panaudia.StateCache.{Op}
use panaudia.StateCache.JsonOps.{JsonOp, JsonText, build_batch}
use panaudia.StateCache.Wire.{ok, refused, encode}
use panaudia.StateCache.Opened.{open_envelope}
use panaudia.Space.KickGate.{split_entity_key}
use panaudia.Space.Libraries.{SetLib}

-- `entityKeyVisible`, on the client's cap and its uuid
unfoldable pub key_visible : Bool → Text → Text → Bool
key_visible read_all id key =
    if read_all
    then true
    else if key == id
    then true
    else ltb (length id) (length key)
      && (eqb (get_or key (length id) 0) b'.' && take (length id) key == id)

module _ (ids : SetLib ℕ nat_eq) where
  -- The fields of a writer that its filters read.
  pub record View : Type 0 where
    pub my_node_id : ℕ
    pub sub_spaces : ids.Set
    pub members : ids.Set
    pub entity_read_all : Bool
    pub space_read : Bool
    pub node_subspaces : Map ℕ ids.Set

  -- The loop over the subspaces of the client
  unfoldable pub set_of : List ℕ → ids.Set → ids.Set
  set_of [] s = s
  set_of (ss ∷ subspaces) s = set_of subspaces (ids.add ss s)

  -- `readCaps[name]`
  abbrev pub has_cap : Map Text Bool → Text → Bool
  has_cap caps name = elim (lookup name caps) [ none ↦ false | some b ↦ b ]

  -- The view of `NewMoqDataWriter`
  abbrev pub new_view : ℕ → List ℕ → Map Text Bool → View
  new_view my_node_id subspaces caps = record {
    my_node_id = my_node_id;
    sub_spaces = set_of subspaces ids.empty;
    members = ids.empty;
    entity_read_all = has_cap caps (bytes "entity.all");
    space_read = has_cap caps (bytes "space.read");
    node_subspaces = [];
  }

  -- `uuidVisible`; a node without a record has no set.
  unfoldable pub uuid_visible : View → ℕ → Bool
  uuid_visible view node =
      let writer_empty = ids.is_empty view.sub_spaces in
      elim (lookup node view.node_subspaces) [
        | none ↦ writer_empty
        | some peer_set ↦
            let peer_empty = ids.is_empty peer_set in
            if writer_empty && peer_empty
            then true
            else if writer_empty || peer_empty
            then false
            else ids.contains_any view.sub_spaces peer_set
      ]

  -- The marker of a node
  unfoldable pub take_marker : View → ℕ → Bool → View
  take_marker view node tombstone =
      if tombstone
      then record view {
        node_subspaces = delete node view.node_subspaces;
        members = ids.remove node view.members;
      }
      else record view { members = ids.add node view.members }

  -- The sets after an operation on a subspace of a node, by the set that the node has
  unfoldable pub with_set : Map ℕ ids.Set → ℕ → ℕ → Bool → Option ids.Set → Map ℕ ids.Set
  with_set sets node ss true none = sets
  with_set sets node ss true (some set) = insert node (ids.remove ss set) sets
  with_set sets node ss false none = insert node (ids.add ss ids.empty) sets
  with_set sets node ss false (some set) = insert node (ids.add ss set) sets

  unfoldable pub with_subspace : Map ℕ ids.Set → ℕ → ℕ → Bool → Map ℕ ids.Set
  with_subspace sets node ss tombstone = with_set sets node ss tombstone (lookup node sets)

  module _ (uuids : UuidLib) where
    -- The part of a key behind its uuid: a marker, a subspace, or a field that is ignored.
    unfoldable pub take_field : View → ℕ → Text → Bool → View
    take_field view node rest tombstone =
        if rest == []
        then take_marker view node tombstone
        else if take 10 rest == bytes "subspaces."
        then elim (uuids.parse (drop 10 rest)) [
          | none ↦ view
          | some ss ↦ record view {
            node_subspaces = with_subspace view.node_subspaces node ss tombstone;
          }
        ]
        else view

    -- One turn of the loop of `handleEntity`, on the parts of its key
    unfoldable pub take_parts : View → Option (ℕ × Text) → Bool → View
    take_parts view none tombstone = view
    take_parts view (some (node, rest)) tombstone = take_field view node rest tombstone

    unfoldable pub take_op : View → JsonOp → View
    take_op view op = take_parts view (split_entity_key uuids op.key) op.tombstone

    unfoldable pub take_ops : View → List (JsonOp × Text) → View
    take_ops view [] = view
    take_ops view ((op, raw) ∷ ops) = take_ops (take_op view op) ops

    -- `handleEntity`
    unfoldable pub handle_entity : JsonText → View → Text → View
    handle_entity json view payload = elim (open_envelope json payload) [
      | none ↦ view
      | some (envelope, ops) ↦ take_ops view ops
    ]

    -- `entityKeyVisible`
    unfoldable pub entity_key_visible : View → Text → Bool
    entity_key_visible view key =
        key_visible view.entity_read_all (uuids.to_text view.my_node_id) key

    -- The loop over the raw operations: those with a visible key.
    unfoldable pub visible_ops : JsonText → View → List (JsonOp × Text) → List Text
    visible_ops json view [] = []
    visible_ops json view ((op, raw) ∷ ops) =
        let rest = visible_ops json view ops in
        elim (json.read_op raw) [
          | none ↦ rest
          | some read ↦ if entity_key_visible view read.key then raw ∷ rest else rest
        ]

    -- What is left, as one message
    unfoldable pub inner_of : List Text → Option Text
    inner_of [] = none
    inner_of (raw ∷ []) = some raw
    inner_of (raw ∷ next ∷ kept) = build_batch (raw ∷ next ∷ kept)

    -- What `sendEntity` sends, `none` for nothing
    unfoldable pub filter_entity : JsonText → View → Text → Option Text
    filter_entity json view payload = elim (open_envelope json payload) [
      | none ↦ none
      | some (envelope, ops) ↦ elim (inner_of (visible_ops json view ops)) [
        | none ↦ none
        | some inner ↦ elim (encode (record envelope { value = inner })) [
          | refused e ↦ none
          | ok out ↦ some out
        ]
      ]
    ]

    -- `uuidFromOpKey`
    unfoldable pub uuid_from_op_key : Text → Option ℕ
    uuid_from_op_key key = uuids.parse (cut key).0

    -- The loop that looks for the source
    unfoldable pub source_of : List (JsonOp × Text) → Option ℕ
    source_of [] = none
    source_of ((op, raw) ∷ ops) =
        let rest = source_of ops in
        elim (uuid_from_op_key op.key) [ none ↦ rest | some id ↦ some id ]
