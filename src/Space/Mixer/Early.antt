-- ===== src/Space/Mixer/Early.antt =====
-- Operations on an entity that is not in the space yet.
use panaudia.Base.{ℕ, ◌≡◌, refl, true, none, some, [], ◌∷◌, All, arith}
use panaudia.Base.Keys.{Text, bytes, text_eq, nat_eq, text_beq_iff, ◌==◌}
use panaudia.Base.Assoc.{Map, lookup}
use panaudia.StateCache.{Op}
use panaudia.Space.KickGate.{split_entity_key}
use panaudia.Space.Libraries.{Libraries}
use panaudia.Space.Mixer.{BaseSpace, OpKey, op_key_eq}
use panaudia.Space.Mixer.Ops.{apply_entity_op, apply_op, apply_ops, process_op_changes}
use panaudia.Space.Mixer.Mutators.{on_encoder_cases}
use panaudia.Space.Mixer.Fresh.Entities.{apply_entity_field_both}

module _ (lib : Libraries) where
  -- The operation is on an entity that is not in the space.
  unfoldable pub IsEarly : BaseSpace lib → OpKey × Op → Type 0
  IsEarly space (k, op) =
      (k.topic ≡ bytes "entity")
      × ((id : ℕ) × ((rest : Text) × ((split_entity_key lib.uuids op.key ≡ some (id, rest))
              × (lookup id space.nodes ≡ none))))

  early_op_lem :
      (space : BaseSpace lib) (k : OpKey) (op : Op)
      → IsEarly space (k, op)
      → apply_op lib space k op ≡ space
  unfolding IsEarly apply_op apply_entity_op
  early_op_lem space k op (topic, (id, (rest, (split, missing)))) =
      let entity : (k.topic == bytes "entity") ≡ true =
        (text_beq_iff k.topic (bytes "entity")).1 topic in
      rw (apply_op, entity, apply_entity_op, split)
        (apply_entity_field_both lib (λ s. s ≡ space) space id rest op refl
          (λ f keeps.
            on_encoder_cases lib (λ s. s ≡ space) space id f refl
              (λ node e n is. ground (arith, n, missing))))

  early_ops_lem :
      (space : BaseSpace lib) (ops : Map OpKey Op)
      → All (IsEarly space) ops
      → apply_ops lib space ops ≡ space
  unfolding apply_ops
  early_ops_lem space [] early = refl
  early_ops_lem space ((k, op) ∷ ops) early =
      rw (early_op_lem space k op early.0) (early_ops_lem space ops early.1)

  -- A drain in which every operation is on an entity that is not in the space yet does nothing but
  -- empty the queue: the operations are lost, and do not wait for the entity.
  pub process_op_changes_early :
      (space : BaseSpace lib)
      → All (IsEarly space) space.op_changes
      → process_op_changes lib space ≡ record space { op_changes = [] }
  unfolding process_op_changes IsEarly
  process_op_changes_early space early =
      early_ops_lem (record space { op_changes = [] }) space.op_changes early
