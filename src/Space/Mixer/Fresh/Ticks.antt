-- ===== src/Space/Mixer/Fresh/Ticks.antt =====
-- A tick keeps the cached effects up to date: the drain of the operations, and every change of the nodes.
use panaudia.Base.{if_both}
use panaudia.Base.{
  ℕ, ◌≡◌, refl, sym, ap, ◌∙◌, Bool, true, false, inl, inr, some, [], ◌∷◌, Bool-cases,
}
use panaudia.Base.Keys.{Text, bytes, text_eq, ◌==◌}
use panaudia.Base.Assoc.{Map, lookup}
use panaudia.StateCache.{Op}
use panaudia.Space.Libraries.{Libraries}
use panaudia.Space.Encoder.{Encoder, add_solo, remove_solo}
use panaudia.Space.Mixer.{SpaceNodeConfig, BaseSpace, OpKey}
use panaudia.Space.Mixer.Mutators.{on_encoder}
use panaudia.Space.Mixer.Ops.{apply_op, apply_ops, process_op_changes}
use panaudia.Space.Mixer.Fresh.{HasEffects, IsFresh, on_encoder-IsFresh}
use panaudia.Space.Mixer.Fresh.Entities.{apply_entity_op-IsFresh}
use panaudia.Space.Mixer.Fresh.Rules.{apply_space_op-IsFresh}
use panaudia.Base.{List, All, ◌+◌}
use panaudia.Base.Keys.{nat_eq}
use panaudia.Base.Entries.{lookup-Values, insert-Values, delete-Values}
use panaudia.Space.Encoder.{new_encoder, set_position, add_sub_space, multiplier_of}
use panaudia.Space.Mixer.{Node, NodeChange, or_one, change_delete}
use panaudia.Space.Mixer.Effects.{role_muted_none, role_rule-none}
use panaudia.Space.Mixer.Fresh.{IsCurrent, IsWellGained}
use panaudia.Space.Mixer.Nodes.{
  SourceManager, add_node_to_slots, new_node_base, set_slot, add_sub_spaces, process_change,
  process_all, process_changes, move_node, is_stale, sweep_stale, check_for_stale_nodes, process,
  has_changes, request, sweep_node, with_node, with_moved, without_node, with_output, fresh_node,
  moved,
}
use panaudia.Space.Mixer.Nodes.Branches.{process_change_cases}
use panaudia.Base.{subst, All-append}
use panaudia.Space.Encoder.{remove_sub_space}

module _ (lib : Libraries) where
  apply_ops-IsFresh :
      (space : BaseSpace lib) (ops : Map OpKey Op)
      → IsFresh lib space
      → IsFresh lib (apply_ops lib space ops)
  unfolding apply_ops apply_op
  apply_ops-IsFresh space [] h = h
  apply_ops-IsFresh space ((k, op) ∷ ops) h = apply_ops-IsFresh (apply_op lib space k op) ops (
      if_both (IsFresh lib) (k.topic == bytes "entity") (apply_entity_op-IsFresh lib space op h) (
        if_both (IsFresh lib) (k.topic == bytes "space") (apply_space_op-IsFresh lib space op h) h))

  -- A drain of the queue of operations leaves every encoder with the effects that the rules of the
  -- space, after the drain, make of its roles.
  pub process_op_changes-IsFresh :
      (space : BaseSpace lib) → IsFresh lib space → IsFresh lib (process_op_changes lib space)
  unfolding process_op_changes
  process_op_changes-IsFresh space h =
      apply_ops-IsFresh (record space { op_changes = [] }) space.op_changes h

  add_sub_spaces-HasEffects :
      (space : BaseSpace lib) (ids : List ℕ) (e : Encoder lib)
      → HasEffects lib space e
      → HasEffects lib space (add_sub_spaces lib ids e)
  unfolding add_sub_spaces add_sub_space
  add_sub_spaces-HasEffects space [] e h = h
  add_sub_spaces-HasEffects space (id ∷ ids) e h =
      add_sub_spaces-HasEffects space ids (add_sub_space lib id e) h

  new_encoder-HasEffects :
      (space : BaseSpace lib) (uuid : ℕ) (has_input : Bool) (gain attenuation : lib.floats.Float)
      (slot : ℕ) (position : lib.Position)
      → lib.floats.ltb_float gain lib.floats.zero_float ≡ false
      → HasEffects lib space
          (set_position lib position (new_encoder lib uuid has_input gain attenuation slot))
  unfolding new_encoder set_position
  new_encoder-HasEffects space uuid has_input gain attenuation slot position g = (
    sym (role_muted_none lib space.muted_roles),
    sym (
        ap (λ rule. multiplier_of lib (or_one lib rule)) (role_rule-none lib space.role_gains)
        ∙ rw lib.floats.one_positive refl),
    sym (role_rule-none lib space.role_attenuations),
    rw (lib.floats.mul_one gain, g) refl,
    refl,
  )

  module _ (manager : SourceManager) where
    with_node-IsFresh :
        (space : BaseSpace lib) (name : Text) (position : lib.Position) (uuid : ℕ)
        (config : SpaceNodeConfig lib)
        → lib.floats.ltb_float config.gain lib.floats.zero_float ≡ false
        → IsFresh lib space
        → IsFresh lib (with_node lib manager space name position uuid config)
    unfolding with_node fresh_node set_slot new_node_base
    with_node-IsFresh space name position uuid config g (h, queue) =
        let slot = (add_node_to_slots space.node_uuid_by_slot uuid).1 in
        let node = new_node_base lib manager uuid name position config in
        let e =
          set_position lib position
            (new_encoder lib uuid node.has_input config.gain config.attenuation slot) in
        (
          insert-Values (IsCurrent lib space) uuid
              (fresh_node lib manager slot uuid name position config) space.nodes h
              (
                add_sub_spaces lib config.sub_spaces e,
                (
                  refl,
                  add_sub_spaces-HasEffects space config.sub_spaces e (
                      new_encoder-HasEffects space uuid node.has_input config.gain
                        config.attenuation slot position g),
                ),
              ),
          queue,
        )

    moved-IsCurrent :
        (space : BaseSpace lib) (node : Node lib) (position : lib.Position)
        (rotation : lib.Rotation)
        → IsCurrent lib space node
        → IsCurrent lib space (moved lib node position rotation)
    unfolding moved move_node set_position
    moved-IsCurrent space node position rotation (e, (is, h)) =
        elim (Bool-cases (lib.same_rotation node.rotation rotation)) [
          | inl r ↦ elim (Bool-cases (lib.same_position node.position position)) [
            | inl q ↦ rw (r, q) (e, (is, h))
            | inr q ↦ rw (r, q, is) (set_position lib position e, (refl, h))
          ]
          | inr r ↦ elim (Bool-cases (lib.same_position node.position position)) [
            | inl q ↦ rw (r, q) (e, (is, h))
            | inr q ↦ rw (r, q, is) (set_position lib position e, (refl, h))
          ]
        ]

    process_change-IsFresh :
        (space : BaseSpace lib) (change : NodeChange lib)
        → IsWellGained lib change
        → IsFresh lib space
        → IsFresh lib (process_change lib manager space change)
    unfolding with_moved without_node with_output add_solo remove_solo add_sub_space
        remove_sub_space IsWellGained
    process_change-IsFresh space change g h =
        let keep : (uuid : ℕ) (f : Encoder lib → Encoder lib)
            → ((e : Encoder lib) → HasEffects lib space e → HasEffects lib space (f e))
            → IsFresh lib (on_encoder lib space uuid (λ c. f)) =
          λ uuid f keeps. on_encoder-IsFresh lib space uuid (λ c. f) (λ c. keeps) h in
        let current = λ (uuid : ℕ) (node : Node lib) (n : lookup uuid space.nodes ≡ some node).
          lookup-Values (IsCurrent lib space) uuid node space.nodes h.0 n in
        process_change_cases lib manager (IsFresh lib) space change h
          (λ name position uuid config is n.
            with_node-IsFresh space name position uuid config (subst (IsWellGained lib) is g) h)
          (λ uuid position rotation node n. (
            insert-Values (IsCurrent lib space) uuid (moved lib node position rotation) space.nodes
                h.0 (moved-IsCurrent space node position rotation (current uuid node n)),
            h.1,
          ))
          (λ uuid node n. (delete-Values (IsCurrent lib space) node.uuid space.nodes h.0, h.1))
          (λ uuid node n. (
            insert-Values (IsCurrent lib space) uuid (record node { has_output = true }) space.nodes
                h.0 (current uuid node n),
            h.1,
          ))
          (λ uuid other. keep uuid (add_solo lib other) (λ e k. k))
          (λ uuid other. keep uuid (remove_solo lib other) (λ e k. k))
          (λ uuid other. keep uuid (add_sub_space lib other) (λ e k. k))
          (λ uuid other. keep uuid (remove_sub_space lib other) (λ e k. k))

    process_all-IsFresh :
        (space : BaseSpace lib) (changes : List (NodeChange lib))
        → All (IsWellGained lib) changes
        → IsFresh lib space
        → IsFresh lib (process_all lib manager space changes)
    unfolding process_all
    process_all-IsFresh space [] g h = h
    process_all-IsFresh space (change ∷ changes) g h =
        process_all-IsFresh (process_change lib manager space change) changes g.1
          (process_change-IsFresh space change g.0 h)

    pub request-IsFresh :
        (space : BaseSpace lib) (change : NodeChange lib)
        → IsWellGained lib change
        → IsFresh lib space
        → IsFresh lib (request lib space change)
    unfolding request
    request-IsFresh space change g h =
        (h.0, All-append (IsWellGained lib) space.changes_queue (change ∷ []) h.1 (g, tt))

    sweep_stale-IsFresh :
        (space : BaseSpace lib) (nodes : Map ℕ (Node lib))
        → IsFresh lib space
        → IsFresh lib (sweep_stale lib manager space nodes)
    unfolding sweep_stale sweep_node IsWellGained
    sweep_stale-IsFresh space [] h = h
    sweep_stale-IsFresh space ((id, node) ∷ nodes) h =
        sweep_stale-IsFresh (sweep_node lib manager space node) nodes (
          if_both (IsFresh lib) (is_stale lib space node)
            (if_both (IsFresh lib) manager.notifies_stale h
              (request-IsFresh space (change_delete node.uuid) tt h))
            h)

    -- A tick keeps the cached effects of every encoder up to date.
    pub process-IsFresh :
        (space : BaseSpace lib) → IsFresh lib space → IsFresh lib (process lib manager space)
    unfolding process process_changes check_for_stale_nodes
    process-IsFresh space h =
        let ticked = record space { ticker = space.ticker + 1 } in
        let ready = process_op_changes lib (check_for_stale_nodes lib manager ticked) in
        let is_ready : IsFresh lib ready =
          process_op_changes-IsFresh (check_for_stale_nodes lib manager ticked)
            (sweep_stale-IsFresh ticked ticked.nodes h) in
        if_both (IsFresh lib) (has_changes lib ready.changes_queue)
          (process_all-IsFresh (record ready { open_to_change = true; changes_queue = [] })
            ready.changes_queue is_ready.1 (is_ready.0, tt))
          is_ready
