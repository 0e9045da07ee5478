-- ===== src/Space/Mixer/Ops.antt =====
-- core/space/base_space_ops.go: the queue of cache operations, and what each does to the nodes.
pub mod Waiting
use panaudia.Base.{ℕ, Bool, Option, none, some, if◌then◌else◌, [], ◌∷◌, ltb, take, drop}
use panaudia.Base.Keys.{Text, bytes, text_eq, ◌==◌}
use panaudia.Base.Assoc.{Map, lookup, insert}
use panaudia.StateCache.{Op}
use panaudia.Space.KickGate.{split_entity_key}
use panaudia.Space.Libraries.{Libraries}
use panaudia.Space.Mixer.{BaseSpace, OpKey, op_key_eq}
use panaudia.Space.Mixer.Mutators.{
  set_entity_gain, unset_entity_gain, set_entity_attenuation, unset_entity_attenuation,
  set_entity_muted, unset_entity_muted, set_node_role, unset_node_role, set_personal_mute,
  unset_personal_mute, set_personal_solo, unset_personal_solo, set_personal_mute_role,
  unset_personal_mute_role, set_role_muted, unset_role_muted, set_role_gain, unset_role_gain,
  set_role_attenuation, unset_role_attenuation,
}

-- `enqueueOp` on the map: an operation older than the one that waits is not taken.
unfoldable pub enqueue_op : Map OpKey Op → OpKey → Op → Map OpKey Op
enqueue_op waiting k op = elim (lookup k waiting) [
  | none ↦ insert k op waiting
  | some existing ↦ if ltb op.op_id existing.op_id then waiting else insert k op waiting
]

module _ (lib : Libraries) where
  -- `ApplyEntityOp`
  unfoldable pub post_entity_op : BaseSpace lib → Op → BaseSpace lib
  post_entity_op space op = record space {
    op_changes = enqueue_op space.op_changes (record { topic = bytes "entity"; key = op.key }) op;
  }

  -- `ApplySpaceOp`
  unfoldable pub post_space_op : BaseSpace lib → Op → BaseSpace lib
  post_space_op space op = record space {
    op_changes = enqueue_op space.op_changes (record { topic = bytes "space"; key = op.key }) op;
  }

  -- `decodeOpValue` into a `float64`
  unfoldable pub decode_op_value : Op → Option lib.floats.Float
  decode_op_value op = if op.value == [] then none else lib.decode_float op.value

  -- A field of one value: a tombstone unsets it, and a value that does not decode changes nothing.
  abbrev pub with_value :
      Op → BaseSpace lib → (lib.floats.Float → BaseSpace lib) → BaseSpace lib → BaseSpace lib
  with_value op unset set space =
      if op.tombstone then unset else elim (decode_op_value op) [ none ↦ space | some v ↦ set v ]

  -- A role behind a prefix; with no name nothing happens.
  abbrev pub with_role :
      Op → Text → (Text → BaseSpace lib) → (Text → BaseSpace lib) → BaseSpace lib → BaseSpace lib
  with_role op role unset set space =
      if role == [] then space else if op.tombstone then unset role else set role

  -- A uuid behind a prefix
  abbrev pub with_other :
      Op → Text → (ℕ → BaseSpace lib) → (ℕ → BaseSpace lib) → BaseSpace lib → BaseSpace lib
  with_other op other unset set space = elim (lib.uuids.parse other) [
    | none ↦ space
    | some u ↦ if op.tombstone then unset u else set u
  ]

  -- `applyEntityOp` behind `splitEntityKey`
  unfoldable pub apply_entity_field : BaseSpace lib → ℕ → Text → Op → BaseSpace lib
  apply_entity_field space id rest op =
      if rest == []
      then space
      else if rest == bytes "gain"
      then with_value op (unset_entity_gain lib space id) (set_entity_gain lib space id) space
      else if rest == bytes "attenuation"
      then with_value op (unset_entity_attenuation lib space id)
          (set_entity_attenuation lib space id) space
      else if rest == bytes "muted"
      then if op.tombstone then unset_entity_muted lib space id else set_entity_muted lib space id
      else if rest == bytes "kicked"
      then space
      else if take 6 rest == bytes "roles."
      then with_role op (drop 6 rest) (unset_node_role lib space id) (set_node_role lib space id)
          space
      else if take 6 rest == bytes "mutes."
      then with_other op (drop 6 rest) (unset_personal_mute lib space id)
          (set_personal_mute lib space id) space
      else if take 6 rest == bytes "solos."
      then with_other op (drop 6 rest) (unset_personal_solo lib space id)
          (set_personal_solo lib space id) space
      else if take 11 rest == bytes "mute-roles."
      then with_role op (drop 11 rest) (unset_personal_mute_role lib space id)
          (set_personal_mute_role lib space id) space
      else space

  -- `applyEntityOp`
  unfoldable pub apply_entity_op : BaseSpace lib → Op → BaseSpace lib
  apply_entity_op space op = elim (split_entity_key lib.uuids op.key) [
    | none ↦ space
    | some (id, rest) ↦ apply_entity_field space id rest op
  ]

  -- A value for the role behind a prefix
  abbrev pub with_role_value :
      Op
      → Text
      → (Text → BaseSpace lib)
      → (Text → lib.floats.Float → BaseSpace lib)
      → BaseSpace lib
      → BaseSpace lib
  with_role_value op role unset set space =
      if role == [] then space else with_value op (unset role) (set role) space

  -- `applySpaceOp`
  unfoldable pub apply_space_op : BaseSpace lib → Op → BaseSpace lib
  apply_space_op space op =
      if take 12 op.key == bytes "roles-muted."
      then with_role op (drop 12 op.key) (unset_role_muted lib space) (set_role_muted lib space)
          space
      else if take 11 op.key == bytes "roles-gain."
      then with_role_value op (drop 11 op.key) (unset_role_gain lib space) (set_role_gain lib space)
          space
      else if take 18 op.key == bytes "roles-attenuation."
      then with_role_value op (drop 18 op.key) (unset_role_attenuation lib space)
          (set_role_attenuation lib space) space
      else space

  -- One turn of the loop of `processOpChanges`
  unfoldable pub apply_op : BaseSpace lib → OpKey → Op → BaseSpace lib
  apply_op space k op =
      if k.topic == bytes "entity"
      then apply_entity_op space op
      else if k.topic == bytes "space"
      then apply_space_op space op
      else space

  unfoldable pub apply_ops : BaseSpace lib → Map OpKey Op → BaseSpace lib
  apply_ops space [] = space
  apply_ops space ((k, op) ∷ drained) = apply_ops (apply_op space k op) drained

  -- `processOpChanges`
  unfoldable pub process_op_changes : BaseSpace lib → BaseSpace lib
  process_op_changes space = apply_ops (record space { op_changes = [] }) space.op_changes
