-- ===== src/Tests/Writing.antt =====
-- The writers of the node 2, which is in the subspace 3, with the node 4 in the subspace 5.
use panaudia.Base.{
  ◌≡◌, ◌≢◌, ◌↔◌, ◌⊎◌, refl, true, false, List, [], ◌∷◌, ◌++◌, Option, none, some, replicate,
  if◌then◌else◌, length, All,
}
use panaudia.Base.Keys.{Text, bytes, nat_eq, text_eq}
use panaudia.Base.Assoc.{lookup}
use panaudia.StateCache.{Op}
use panaudia.StateCache.JsonOps.{JsonOp, JsonText, parse_ops, parse_op, first_byte, is_space}
use panaudia.StateCache.Opened.{open_envelope}
use panaudia.StateCache.Wire.{
  ok, encode, decode, decode_topic, decode_key, decode_value, is_cache_envelope, envelope,
  envelope_tail,
}
use panaudia.Space.Pending.{IsNewest}
use panaudia.Space.Encoder.Audible.{IsEmpty, IsUnmuted}
use panaudia.Space.Encoder.{Encoder, should_include_peer}
use panaudia.Writers.{
  View, source_of, uuid_from_op_key, take_ops, inner_of, filter_entity, visible_ops,
  entity_key_visible, key_visible,
}
use panaudia.Writers.Known.{is_member, knows_in, exists_in, in_subspace, take_ops-knows}
use panaudia.Writers.Visible.{Forwards, should_include_peer-filter_attributes}
use panaudia.Writers.Own.{IsAllowed, filter_entity-IsAllowed}
use panaudia.Writers.Attributes.{Attributes}
use panaudia.Writers.Moq.{MoqDataWriter, Sample, to_state, returned, send_data, send_string}
use panaudia.Writers.Moq.States.{send_data-send_string}
use panaudia.Writers.Channels.{new_channel}
use panaudia.Writers.WebRtc.{DataWriter}
use panaudia.Writers.WebRtc.Entities.{filtered, entity_life, entity_life-newest}
use panaudia.Commands.Scope.{cut}
use panaudia.Tests.Unary.{unary, count}
use panaudia.Tests.Sets.{list_sets}
use panaudia.Tests.Listening.{kick_json, marked_envelope}
use panaudia.Tests.Mixing.{lib, guest_encoder}

abbrev view : View (list_sets nat_eq)
view = record {
  my_node_id = 2;
  sub_spaces = 3 ∷ [];
  members = [];
  entity_read_all = false;
  space_read = false;
  node_subspaces = (4, 5 ∷ []) ∷ [];
}

-- The node 4 says that it is there.
abbrev marker : JsonOp
marker = record { key = replicate 4 b'f'; tombstone = false }

take_ops-knows_example :
    (is_member (list_sets nat_eq) (take_ops (list_sets nat_eq) unary view ((marker, []) ∷ [])) 4
      ≡ exists_in unary 4 ((marker, []) ∷ []) false)
    × (knows_in
          (list_sets nat_eq)
          (take_ops (list_sets nat_eq) unary view ((marker, []) ∷ [])).node_subspaces
          4
          5
        ≡ in_subspace unary 4 5
            ((marker, []) ∷ [])
            (knows_in (list_sets nat_eq) view.node_subspaces 4 5))
take_ops-knows_example = take_ops-knows unary (list_sets nat_eq) ((marker, []) ∷ []) view 4 5

-- Every JSON text reads as this marker.
abbrev marker_json : JsonText
marker_json = record {
  split = λ t. none;
  read_op = λ t. some marker;
  read_value = λ t. none;
  write_tombstone = λ k. some k;
}

-- What the envelope decodes to
abbrev opened : Op
opened = record {
  topic = [];
  key = [];
  value = bytes "{}";
  op_id = 0;
  node_id = 0;
  tombstone = false;
  created_at = 0;
}

opened_lem : open_envelope marker_json marked_envelope ≡ some (opened, (marker, bytes "{}") ∷ [])
unfolding open_envelope is_cache_envelope decode decode_topic decode_key decode_value parse_ops
    parse_op first_byte is_space
opened_lem = refl

abbrev moq : MoqDataWriter (list_sets nat_eq)
moq = record {
  view = view;
  has_state = true;
  has_attributes = true;
  has_entity = true;
  has_space = false;
}

abbrev no_attributes : Text → Option Attributes
no_attributes t = none

-- The listener 2 and the node 4 in the mixer
abbrev listener : Encoder lib
listener = record guest_encoder { uuid = 2; sub_spaces = 3 ∷ [] }

abbrev peer : Encoder lib
peer = record guest_encoder { uuid = 4; sub_spaces = 5 ∷ [] }

should_include_peer-filter_attributes_example : (should_include_peer lib listener peer ≡ true) ↔ (
    Forwards lib unary marker_json no_attributes view marked_envelope
    × (peer.uuid ≢ listener.uuid)
    × ((lib.ids.contains 4 listener.solos ≡ true)
        ⊎ (IsEmpty lib.ids listener.solos × IsUnmuted lib listener peer)))
unfolding lookup source_of uuid_from_op_key count cut
should_include_peer-filter_attributes_example =
    should_include_peer-filter_attributes lib unary marker_json no_attributes view listener peer
      marked_envelope opened ((marker, bytes "{}") ∷ []) 4 opened_lem refl (λ ss. refl) (λ ss. refl)

-- The state of the node 4
abbrev state_of_4 : Text
state_of_4 = replicate 15 0 ++ (4 ∷ replicate 32 0)

send_data-send_string_example :
    (next : MoqDataWriter (list_sets nat_eq)) × (samples : List Sample) × (send_string
        (list_sets nat_eq)
        unary
        marker_json
        no_attributes
        moq
        (bytes "entity")
        marked_envelope
      ≡ returned next samples)
    × (send_data (list_sets nat_eq) next (bytes "state") state_of_4 ≡ (
        if exists_in unary 4 ((marker, bytes "{}") ∷ []) false
        then some (to_state state_of_4 ∷ [])
        else some []))
send_data-send_string_example =
    send_data-send_string (list_sets nat_eq) unary marker_json no_attributes moq marked_envelope
      state_of_4 opened ((marker, bytes "{}") ∷ []) refl opened_lem

-- The node 2 may read all.
abbrev reads_all : View (list_sets nat_eq)
reads_all = record view { entity_read_all = true }

-- An envelope with an operation on the client's own node goes out to a client that may not read all.
own_opened :
    open_envelope kick_json marked_envelope
    ≡ some (
      opened,
      (record { key = replicate 2 b'f' ++ bytes ".kicked"; tombstone = false }, bytes "{}") ∷ [],
    )
unfolding open_envelope is_cache_envelope decode decode_topic decode_key decode_value parse_ops
    parse_op first_byte is_space
own_opened = refl

passes :
    filter_entity (list_sets nat_eq) unary kick_json view marked_envelope ≡ some marked_envelope
unfolding filter_entity visible_ops entity_key_visible key_visible inner_of encode envelope
    envelope_tail
passes = rw (filter_entity, own_opened) refl

filter_entity-IsAllowed_example :
    (out : Op) × (ops : List (JsonOp × Text)) × (raws : List Text) × (inner : Text) × (open_envelope
        kick_json marked_envelope
      ≡ some (out, ops))
    × All (IsAllowed (list_sets nat_eq) unary kick_json view) raws
    × (inner_of (list_sets nat_eq) unary raws ≡ some inner)
    × (encode (record out { value = inner }) ≡ ok marked_envelope)
filter_entity-IsAllowed_example =
    filter_entity-IsAllowed (list_sets nat_eq) unary kick_json view marked_envelope marked_envelope
      passes

abbrev web_rtc : DataWriter (list_sets nat_eq)
web_rtc = record {
  view = reads_all;
  state_open = false;
  has_dead_session = false;
  source = new_channel;
  entity = new_channel;
  space = new_channel;
}

entity_life-newest_example :
    (lost kept : List Text) × IsNewest length
      (filtered (list_sets nat_eq) unary marker_json reads_all (marked_envelope ∷ []))
      lost
      kept
    × (entity_life
          (list_sets nat_eq)
          unary
          marker_json
          web_rtc
          (marked_envelope ∷ [])
          (marked_envelope ∷ [])
        ≡ kept ++ filtered (list_sets nat_eq) unary marker_json reads_all (marked_envelope ∷ []))
entity_life-newest_example =
    entity_life-newest (list_sets nat_eq) unary marker_json web_rtc (marked_envelope ∷ [])
      (marked_envelope ∷ [])
