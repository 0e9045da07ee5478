-- ===== src/Tests/Mixing.antt =====
-- core/space and core/ambisonic on small runs: floats are numbers, and sets are lists.
use panaudia.Base.{
  ℕ, ◌*◌, ◌/◌, ◌≡◌, ◌↔◌, refl, true, false, some, none, [], ◌∷◌, ltb, leb, eqb, All, arith, List,
}
use panaudia.Base.Keys.{Text, bytes, text_eq, nat_eq}
use panaudia.Base.Assoc.{lookup, insert, delete}
use panaudia.StateCache.{Op}
use panaudia.Tests.Unary.{unary, count}
use panaudia.Tests.Sets.{list_sets, add, remove}
use panaudia.Commands.Scope.{cut}
use panaudia.Space.KickGate.{split_entity_key}
use panaudia.Space.Libraries.{Libraries, FloatLib}
use panaudia.Space.Encoder.{
  Encoder, should_include_peer, new_encoder, set_position, recompute_gain_factor,
  recompute_attenuation_exponent, add_role, set_role_attenuation_override, set_role_gain_multiplier,
  set_space_role_muted,
}
use panaudia.Space.Encoder.Audible.{Hears, should_include_peer_lem}
use panaudia.Space.Mixer.{
  SpaceNodeConfig, Node, BaseSpace, OpKey, op_key_eq, change_add, new_base_space, role_muted,
  role_rule, least, refresh_encoder_role_effects,
}
use panaudia.Space.Mixer.Mutators.{
  on_encoder, set_node_role, set_role_muted, refresh_encoders_with_role, refresh_nodes,
  refresh_node,
}
use panaudia.Space.Mixer.Ops.{
  enqueue_op, process_op_changes, post_entity_op, post_space_op, apply_ops, apply_op,
  apply_entity_op, apply_space_op, apply_entity_field, decode_op_value,
}
use panaudia.Space.Mixer.Ops.Waiting.{enqueue_op_comm}
use panaudia.Space.Mixer.Early.{IsEarly, process_op_changes_early}
use panaudia.Space.Mixer.Nodes.{
  SourceManager, process, request, add_node_to_slots, new_node_base, set_slot, fresh_node,
  with_node, do_add_node, process_change, process_all, process_changes, add_sub_spaces,
  check_for_stale_nodes, sweep_stale, sweep_node, is_stale,
}
use panaudia.Space.Mixer.Fresh.{IsFresh, IsWellGained}
use panaudia.Space.Mixer.Fresh.Runs.{
  Input, input_change, input_entity, input_space, input_tick, IsSound, step, run, run-IsFresh,
  muted_role_silences,
}

abbrev numbers : FloatLib
numbers = record {
  Float = ℕ;
  Single = ℕ;
  zero_float = 0;
  one_float = 1;
  ltb_float = ltb;
  leb_float = leb;
  eqb_float = eqb;
  mul_float = λ a b. a * b;
  halve = λ a. a / 2;
  root = λ a. a;
  single = λ a. a;
  scale_sqrt_4_pi = λ a. a;
  mul_one = λ x. omega arith;
  one_positive = refl;
}

abbrev pub lib : Libraries
lib = record {
  Position = ℕ;
  Rotation = ℕ;
  origin = 0;
  no_rotation = 0;
  same_position = eqb;
  same_rotation = eqb;
  floats = numbers;
  texts = list_sets text_eq;
  ids = list_sets nat_eq;
  uuids = unary;
  decode_float = λ t. some 2;
}

abbrev manager : SourceManager
manager = record { has_source = λ u. true; session_of = λ u. none; notifies_stale = true }

abbrev config : SpaceNodeConfig lib
config = record {
  gain = 4;
  attenuation = 2;
  input = true;
  tone = 0;
  null_out = false;
  sub_spaces = [];
}

abbrev op_of : Text → ℕ → Op
op_of key id = record {
  topic = bytes "entity";
  key = key;
  value = bytes "true";
  op_id = id;
  node_id = 1;
  tombstone = false;
  created_at = 0;
}

-- Two nodes come; the second takes the role of a guest; guests are muted.
abbrev story : List (Input lib)
story =
    input_change (change_add (bytes "a") 5 1 config)
    ∷ input_change (change_add (bytes "b") 6 2 config)
    ∷ input_tick
    ∷ input_entity (op_of (bytes "ff.roles.guest") 1)
    ∷ input_space (op_of (bytes "roles-muted.guest") 2)
    ∷ input_tick
    ∷ []

abbrev after : BaseSpace lib
after = run lib manager (new_base_space lib 400) story

story-IsSound : All (IsSound lib) story
unfolding IsSound IsWellGained
story-IsSound = (refl, (refl, (tt, (tt, (tt, (tt, tt))))))

run-IsFresh_example : IsFresh lib (run lib manager (new_base_space lib 400) story)
run-IsFresh_example = run-IsFresh lib manager 400 story story-IsSound

-- The second node after the story
abbrev pub guest_encoder : Encoder lib
guest_encoder = record {
  uuid = 2;
  position = 6;
  slot = 1;
  has_input = true;
  gain = 4;
  gain_factor = 4;
  attenuation = 2;
  peer_attenuation_exponent = 1;
  sub_spaces = [];
  mutes = [];
  solos = [];
  roles = bytes "guest" ∷ [];
  mute_roles = [];
  space_muted = false;
  space_role_muted = true;
  role_gain_multiplier = 1;
  role_attenuation_override = none;
}

abbrev guest : Node lib
guest = record {
  name = bytes "b";
  uuid = 2;
  position = 6;
  slot_index = 1;
  rotation = 0;
  config = config;
  tick = 0;
  has_input = true;
  has_output = false;
  encoder = some guest_encoder;
}

guest_there : lookup 2 after.nodes ≡ some guest
unfolding run step lookup insert delete new_base_space process request add_node_to_slots
    new_node_base set_slot fresh_node with_node do_add_node process_change process_all
    process_changes add_sub_spaces check_for_stale_nodes sweep_stale sweep_node is_stale enqueue_op
    process_op_changes post_entity_op post_space_op apply_ops apply_op apply_entity_op
    apply_space_op apply_entity_field decode_op_value on_encoder set_node_role set_role_muted
    refresh_encoders_with_role refresh_nodes refresh_node refresh_encoder_role_effects role_muted
    role_rule least add_role set_role_attenuation_override set_role_gain_multiplier
    set_space_role_muted recompute_gain_factor recompute_attenuation_exponent new_encoder
    set_position split_entity_key cut count add remove
guest_there = refl

guests_muted : lib.texts.contains (bytes "guest") after.muted_roles ≡ true
unfolding run step lookup insert delete new_base_space process request add_node_to_slots
    new_node_base set_slot fresh_node with_node do_add_node process_change process_all
    process_changes add_sub_spaces check_for_stale_nodes sweep_stale sweep_node is_stale enqueue_op
    process_op_changes post_entity_op post_space_op apply_ops apply_op apply_entity_op
    apply_space_op apply_entity_field decode_op_value on_encoder set_node_role set_role_muted
    refresh_encoders_with_role refresh_nodes refresh_node refresh_encoder_role_effects role_muted
    role_rule least add_role set_role_attenuation_override set_role_gain_multiplier
    set_space_role_muted recompute_gain_factor recompute_attenuation_exponent new_encoder
    set_position split_entity_key cut count add remove
guests_muted = refl

muted_role_silences_example :
    should_include_peer lib (new_encoder lib 1 true 4 2 0) guest_encoder ≡ false
unfolding new_encoder
muted_role_silences_example =
    muted_role_silences lib manager 400 story 2 guest guest_encoder (new_encoder lib 1 true 4 2 0)
      (bytes "guest") story-IsSound guest_there refl refl guests_muted (λ id. refl)

abbrev soloist : Encoder lib
soloist = record guest_encoder { uuid = 3; solos = 2 ∷ [] }

should_include_peer_lem_example :
    (should_include_peer lib soloist guest_encoder ≡ true) ↔ Hears lib soloist guest_encoder
should_include_peer_lem_example = should_include_peer_lem lib soloist guest_encoder

abbrev early_key : OpKey
early_key = record { topic = bytes "entity"; key = bytes "fff.muted" }

abbrev early_space : BaseSpace lib
early_space = record (new_base_space lib 400) {
  op_changes = (early_key, op_of (bytes "fff.muted") 3) ∷ [];
}

is_early : All (IsEarly lib early_space) early_space.op_changes
unfolding IsEarly split_entity_key cut count lookup new_base_space
is_early = ((refl, (3, (bytes "muted", (refl, refl)))), tt)

process_op_changes_early_example :
    process_op_changes lib early_space ≡ record early_space { op_changes = [] }
process_op_changes_early_example = process_op_changes_early lib early_space is_early

enqueue_op_comm_example :
    lookup early_key (enqueue_op (enqueue_op [] early_key (op_of [] 3)) early_key (op_of [] 4))
    ≡ lookup early_key (enqueue_op (enqueue_op [] early_key (op_of [] 4)) early_key (op_of [] 3))
enqueue_op_comm_example =
    enqueue_op_comm [] early_key early_key early_key (op_of [] 3) (op_of [] 4) (λ one. omega arith)
