-- ===== src/Space/Mixer/Nodes.antt =====
-- core/space/base_space.go, node.go: the queue of changes to the nodes, and one tick.
pub mod Branches
use panaudia.Base.{
  ℕ, Bool, true, false, not, ◌&&◌, ◌+◌, ◌-◌, Option, none, some, List, [], ◌∷◌, ◌++◌, if◌then◌else◌,
  ltb, eqb, length, set,
}
use panaudia.Base.Keys.{Text, nat_eq}
use panaudia.Base.Assoc.{Map, lookup, insert, delete}
use panaudia.Space.Libraries.{Libraries}
use panaudia.Space.Encoder.{
  Encoder, new_encoder, set_position, add_solo, remove_solo, add_sub_space, remove_sub_space,
}
use panaudia.Space.Mixer.{
  SpaceNodeConfig, Node, NodeChange, Call, BaseSpace, change_add, change_move, change_delete,
  change_enable_out, change_solo, change_unsolo, change_add_sub, change_remove_sub, session_gone,
  free_source, turn, stale_node,
}
use panaudia.Space.Mixer.Mutators.{on_encoder}
use panaudia.Space.Mixer.Ops.{process_op_changes}

-- `SpaceError`: its codes
pub data SpaceError : Type 0 where
  node_name_duplicate node_name_missing cube_closed : SpaceError

-- What the space asks of its `ISourceManager`: whether a node has an input, the session of a node,
-- and whether the manager is a `StaleNodeNotifier`.
pub record SourceManager : Type 0 where
  pub has_source : ℕ → Bool
  pub session_of : ℕ → Option ℕ
  pub notifies_stale : Bool

-- `AddNodeToSlots`: the first slot that is free, or one more.
unfoldable pub add_node_to_slots : List ℕ → ℕ → List ℕ × ℕ
add_node_to_slots [] name = (name ∷ [], 0)
add_node_to_slots (n ∷ slots) name =
    let rest = add_node_to_slots slots name in
    if eqb n 0 then (name ∷ slots, 0) else (n ∷ rest.0, rest.1 + 1)

-- `RemoveNodeFromSlots`
unfoldable pub remove_node_from_slots : List ℕ → ℕ → List ℕ
remove_node_from_slots slots slot = set slots slot 0

module _ (lib : Libraries) where
  -- `SetSlot`
  unfoldable pub set_slot : ℕ → Node lib → Node lib
  set_slot slot node = record node {
    slot_index = slot;
    encoder = some (
        set_position lib node.position
          (new_encoder lib node.uuid node.has_input node.config.gain node.config.attenuation slot));
  }

  -- The tick that `Node.In` reads from the tick source
  unfoldable pub node_in : Option ℕ → Node lib → Node lib
  node_in none node = node
  node_in (some tick) node = record node { tick = tick }

  -- The loop over `config.SubSpaces`
  unfoldable pub add_sub_spaces : List ℕ → Encoder lib → Encoder lib
  add_sub_spaces [] e = e
  add_sub_spaces (s ∷ sub_spaces) e = add_sub_spaces sub_spaces (add_sub_space lib s e)

  abbrev pub in_sub_spaces : Option (Encoder lib) → List ℕ → Option (Encoder lib)
  in_sub_spaces none sub_spaces = none
  in_sub_spaces (some e) sub_spaces = some (add_sub_spaces sub_spaces e)

  -- `doSoloNode`, `doUnsoloNode`, `doAddSubspace`, `doRemoveSubspace`. Every node in the map has its
  -- encoder by then.
  unfoldable pub do_solo_node : BaseSpace lib → ℕ → ℕ → BaseSpace lib
  do_solo_node space id other = on_encoder lib space id (λ config. add_solo lib other)

  unfoldable pub do_unsolo_node : BaseSpace lib → ℕ → ℕ → BaseSpace lib
  do_unsolo_node space id other = on_encoder lib space id (λ config. remove_solo lib other)

  unfoldable pub do_add_subspace : BaseSpace lib → ℕ → ℕ → BaseSpace lib
  do_add_subspace space id sub = on_encoder lib space id (λ config. add_sub_space lib sub)

  unfoldable pub do_remove_subspace : BaseSpace lib → ℕ → ℕ → BaseSpace lib
  do_remove_subspace space id sub = on_encoder lib space id (λ config. remove_sub_space lib sub)

  abbrev pub encoder_at : Option (Encoder lib) → lib.Position → Option (Encoder lib)
  encoder_at none position = none
  encoder_at (some e) position = some (set_position lib position e)

  -- `Node.SetPosition`
  unfoldable pub move_node : Node lib → lib.Position → Node lib
  move_node node position = record node {
    position = position;
    encoder = encoder_at node.encoder position;
  }

  -- `doMoveNode` behind its tests
  unfoldable pub moved : Node lib → lib.Position → lib.Rotation → Node lib
  moved node position rotation =
      let turned =
        if lib.same_rotation node.rotation rotation
        then node
        else record node { rotation = rotation } in
      if lib.same_position turned.position position then turned else move_node turned position

  unfoldable pub with_moved :
      BaseSpace lib → ℕ → lib.Position → lib.Rotation → Node lib → BaseSpace lib
  with_moved space uuid position rotation node = record space {
    nodes = insert uuid (moved node position rotation) space.nodes;
    calls =
        if lib.same_rotation node.rotation rotation
        then space.calls
        else turn uuid rotation ∷ space.calls;
  }

  -- `doMoveNode`
  unfoldable pub do_move_node :
      BaseSpace lib → ℕ → lib.Position → lib.Rotation → BaseSpace lib × Option SpaceError
  do_move_node space uuid position rotation =
      if not space.open_to_change
      then (space, some cube_closed)
      else elim (lookup uuid space.nodes) [
        | none ↦ (space, some node_name_missing)
        | some node ↦ (with_moved space uuid position rotation node, none)
      ]

  -- `Node.EnableUdpOutput` on the node of a uuid
  unfoldable pub with_output : BaseSpace lib → ℕ → Node lib → BaseSpace lib
  with_output space uuid node = record space {
    nodes = insert uuid (record node { has_output = true }) space.nodes;
    output_count = space.output_count + 1;
  }

  -- `doEnableOutputNode`
  unfoldable pub do_enable_output_node : BaseSpace lib → ℕ → BaseSpace lib × Option SpaceError
  do_enable_output_node space uuid =
      if not space.open_to_change
      then (space, some cube_closed)
      else elim (lookup uuid space.nodes) [
        | none ↦ (space, some node_name_missing)
        | some node ↦ (with_output space uuid node, none)
      ]

  -- The calls that put a change on the queue: `AddNodeStyledWithId`, `UpdateNode`, `DeleteNode` …
  unfoldable pub request : BaseSpace lib → NodeChange lib → BaseSpace lib
  request space change = record space { changes_queue = space.changes_queue ++ (change ∷ []) }

  -- The test of `checkForStaleNodes`
  unfoldable pub is_stale : BaseSpace lib → Node lib → Bool
  is_stale space node = not (eqb node.tick 0) && ltb (node.tick + space.timeout_ticks) space.ticker

  abbrev pub has_changes : List (NodeChange lib) → Bool
  has_changes [] = false
  has_changes (c ∷ changes) = true

module _ (lib : Libraries) (manager : SourceManager) where
  -- `NewNodeBase`
  unfoldable pub new_node_base : ℕ → Text → lib.Position → SpaceNodeConfig lib → Node lib
  new_node_base uuid name position config = record {
    name = name;
    uuid = uuid;
    position = position;
    slot_index = 0;
    rotation = lib.no_rotation;
    config = config;
    tick = 0;
    has_input =
        if config.input
        then manager.has_source uuid
        else lib.floats.ltb_float lib.floats.zero_float config.tone;
    has_output = config.null_out;
    encoder = none;
  }

  -- The node that `doAddNode` makes for a slot
  unfoldable pub fresh_node : ℕ → ℕ → Text → lib.Position → SpaceNodeConfig lib → Node lib
  fresh_node slot uuid name position config =
      let node = set_slot lib slot (new_node_base uuid name position config) in
      record node { encoder = in_sub_spaces lib node.encoder config.sub_spaces }

  -- `doAddNode` behind its tests
  unfoldable pub with_node :
      BaseSpace lib → Text → lib.Position → ℕ → SpaceNodeConfig lib → BaseSpace lib
  with_node space name position uuid config =
      let (slots, slot) = add_node_to_slots space.node_uuid_by_slot uuid in
      record space {
        nodes = insert uuid (fresh_node slot uuid name position config) space.nodes;
        node_uuid_by_slot = slots;
        output_count = if config.null_out then space.output_count + 1 else space.output_count;
      }

  -- `doAddNode`
  unfoldable pub do_add_node :
      BaseSpace lib
      → Text
      → lib.Position
      → ℕ
      → SpaceNodeConfig lib
      → BaseSpace lib × Option SpaceError
  do_add_node space name position uuid config =
      if not space.open_to_change
      then (space, some cube_closed)
      else elim (lookup uuid space.nodes) [
        | some node ↦ (space, some node_name_duplicate)
        | none ↦ (with_node space name position uuid config, none)
      ]

  -- The calls of `doRemoveNode`: the session is told, and `BeforeDestroy` gives the source back.
  unfoldable pub farewells : ℕ → List (Call lib) → List (Call lib)
  farewells uuid calls = elim (manager.session_of uuid) [
    | none ↦ free_source uuid ∷ calls
    | some session ↦ free_source uuid ∷ (session_gone session ∷ calls)
  ]

  -- `doRemoveNode` behind its tests
  unfoldable pub without_node : BaseSpace lib → ℕ → Node lib → BaseSpace lib
  without_node space uuid node = record space {
    nodes = delete node.uuid space.nodes;
    node_uuid_by_slot = remove_node_from_slots space.node_uuid_by_slot node.slot_index;
    output_count = if node.has_output then space.output_count - 1 else space.output_count;
    calls = farewells uuid space.calls;
  }

  -- `doRemoveNode`
  unfoldable pub do_remove_node : BaseSpace lib → ℕ → BaseSpace lib × Option SpaceError
  do_remove_node space uuid =
      if not space.open_to_change
      then (space, some cube_closed)
      else elim (lookup uuid space.nodes) [
        | none ↦ (space, some node_name_missing)
        | some node ↦ (without_node space uuid node, none)
      ]

  -- `processChange`: it drops the errors.
  unfoldable pub process_change : BaseSpace lib → NodeChange lib → BaseSpace lib
  process_change space (change_add name position uuid config) =
      (do_add_node space name position uuid config).0
  process_change space (change_move uuid position rotation) =
      (do_move_node lib space uuid position rotation).0
  process_change space (change_delete uuid) = (do_remove_node space uuid).0
  process_change space (change_enable_out uuid) = (do_enable_output_node lib space uuid).0
  process_change space (change_solo uuid other) = do_solo_node lib space uuid other
  process_change space (change_unsolo uuid other) = do_unsolo_node lib space uuid other
  process_change space (change_add_sub uuid other) = do_add_subspace lib space uuid other
  process_change space (change_remove_sub uuid other) = do_remove_subspace lib space uuid other

  -- `processChanges`
  unfoldable pub process_all : BaseSpace lib → List (NodeChange lib) → BaseSpace lib
  process_all space [] = space
  process_all space (change ∷ changes) = process_all (process_change space change) changes

  unfoldable pub process_changes : BaseSpace lib → BaseSpace lib
  process_changes space = process_all (record space { changes_queue = [] }) space.changes_queue

  -- What the loop of `checkForStaleNodes` does with one node
  unfoldable pub sweep_node : BaseSpace lib → Node lib → BaseSpace lib
  sweep_node space node =
      if is_stale lib space node
      then if manager.notifies_stale
        then record space { calls = stale_node node.uuid ∷ space.calls }
        else request lib space (change_delete node.uuid)
      else space

  unfoldable pub sweep_stale : BaseSpace lib → Map ℕ (Node lib) → BaseSpace lib
  sweep_stale space [] = space
  sweep_stale space ((id, node) ∷ nodes) = sweep_stale (sweep_node space node) nodes

  -- `checkForStaleNodes`
  unfoldable pub check_for_stale_nodes : BaseSpace lib → BaseSpace lib
  check_for_stale_nodes space = sweep_stale space space.nodes

  -- `Process`
  unfoldable pub process : BaseSpace lib → BaseSpace lib
  process space =
      let ready =
        process_op_changes lib
          (check_for_stale_nodes (record space { ticker = space.ticker + 1 })) in
      if has_changes lib ready.changes_queue
      then record (process_changes (record ready { open_to_change = true })) {
        open_to_change = false;
      }
      else ready
