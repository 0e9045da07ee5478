-- ===== src/Space/Mixer/Nodes/Branches.antt =====
-- The branches of each change of the nodes.
use panaudia.Base.{if_both}
use panaudia.Base.{ℕ, ◌≡◌, refl, not, Option, none, some}
use panaudia.Base.Keys.{Text, nat_eq}
use panaudia.Base.Assoc.{lookup}
use panaudia.Space.Libraries.{Libraries}
use panaudia.Space.Encoder.{add_solo, remove_solo, add_sub_space, remove_sub_space}
use panaudia.Space.Mixer.{
  SpaceNodeConfig, Node, NodeChange, BaseSpace, change_add, change_move, change_delete,
  change_enable_out, change_solo, change_unsolo, change_add_sub, change_remove_sub,
}
use panaudia.Space.Mixer.Cases.{found_both}
use panaudia.Space.Mixer.Mutators.{on_encoder}
use panaudia.Space.Mixer.Nodes.{
  SourceManager, SpaceError, node_name_missing, node_name_duplicate, do_add_node, with_node,
  do_move_node, with_moved, do_remove_node, without_node, do_enable_output_node, with_output,
  do_solo_node, do_unsolo_node, do_add_subspace, do_remove_subspace, process_change,
}

module _ (lib : Libraries) (manager : SourceManager) where
  -- What a change keeps where it changes nothing, and in each change that it makes, it keeps.
  pub process_change_cases {ℓ} :
      (P : BaseSpace lib → Type ℓ) (space : BaseSpace lib) (change : NodeChange lib)
      → P space
      → ((name : Text) (position : lib.Position) (uuid : ℕ) (config : SpaceNodeConfig lib)
          → change ≡ change_add name position uuid config
          → lookup uuid space.nodes ≡ none
          → P (with_node lib manager space name position uuid config))
      → ((uuid : ℕ) (position : lib.Position) (rotation : lib.Rotation) (node : Node lib)
          → lookup uuid space.nodes ≡ some node
          → P (with_moved lib space uuid position rotation node))
      → ((uuid : ℕ) (node : Node lib)
          → lookup uuid space.nodes ≡ some node
          → P (without_node lib manager space uuid node))
      → ((uuid : ℕ) (node : Node lib)
          → lookup uuid space.nodes ≡ some node
          → P (with_output lib space uuid node))
      → ((uuid other : ℕ) → P (on_encoder lib space uuid (λ c. add_solo lib other)))
      → ((uuid other : ℕ) → P (on_encoder lib space uuid (λ c. remove_solo lib other)))
      → ((uuid other : ℕ) → P (on_encoder lib space uuid (λ c. add_sub_space lib other)))
      → ((uuid other : ℕ) → P (on_encoder lib space uuid (λ c. remove_sub_space lib other)))
      → P (process_change lib manager space change)
  unfolding process_change do_add_node do_move_node do_remove_node do_enable_output_node
      do_solo_node do_unsolo_node do_add_subspace do_remove_subspace
  process_change_cases P space (change_add name position uuid config) stays adds moves removes
        enables solo unsolo join leave =
      if_both (λ (r : BaseSpace lib × Option SpaceError). P r.0) (not space.open_to_change) stays
        (found_both (λ (r : BaseSpace lib × Option SpaceError). P r.0) (lookup uuid space.nodes)
          (with_node lib manager space name position uuid config, none)
          (λ node. (space, some node_name_duplicate)) (adds name position uuid config refl)
          (λ node n. stays))
  process_change_cases P space (change_move uuid position rotation) stays adds moves removes enables
        solo unsolo join leave =
      if_both (λ (r : BaseSpace lib × Option SpaceError). P r.0) (not space.open_to_change) stays
        (found_both (λ (r : BaseSpace lib × Option SpaceError). P r.0) (lookup uuid space.nodes)
          (space, some node_name_missing)
          (λ node. (with_moved lib space uuid position rotation node, none)) (λ n. stays)
          (moves uuid position rotation))
  process_change_cases P space (change_delete uuid) stays adds moves removes enables solo unsolo
        join leave =
      if_both (λ (r : BaseSpace lib × Option SpaceError). P r.0) (not space.open_to_change) stays
        (found_both (λ (r : BaseSpace lib × Option SpaceError). P r.0) (lookup uuid space.nodes)
          (space, some node_name_missing) (λ node. (without_node lib manager space uuid node, none))
          (λ n. stays) (removes uuid))
  process_change_cases P space (change_enable_out uuid) stays adds moves removes enables solo unsolo
        join leave =
      if_both (λ (r : BaseSpace lib × Option SpaceError). P r.0) (not space.open_to_change) stays
        (found_both (λ (r : BaseSpace lib × Option SpaceError). P r.0) (lookup uuid space.nodes)
          (space, some node_name_missing) (λ node. (with_output lib space uuid node, none))
          (λ n. stays) (enables uuid))
  process_change_cases P space (change_solo uuid other) stays adds moves removes enables solo unsolo
        join leave =
      solo uuid other
  process_change_cases P space (change_unsolo uuid other) stays adds moves removes enables solo
        unsolo join leave =
      unsolo uuid other
  process_change_cases P space (change_add_sub uuid other) stays adds moves removes enables solo
        unsolo join leave =
      join uuid other
  process_change_cases P space (change_remove_sub uuid other) stays adds moves removes enables solo
        unsolo join leave =
      leave uuid other
