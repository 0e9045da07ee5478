-- ===== src/Tests/Circling.antt =====
-- core/buffers/circular_buffer.go on a ring of four numbers, and core/moq/tracks.go on one node.
use panaudia.Base.{◌≡◌, refl, false, [], ◌∷◌, none, arith}
use panaudia.Base.Keys.{bytes}
use panaudia.Buffers.Circular.{
  CircularBufferConfig, CircularBuffer, new_circular_buffer, write, make_room, skip, put, put_at,
  copy_from_ring,
}
use panaudia.Buffers.Copy.{overwrite}
use panaudia.Buffers.Circular.Lists.{newest}
use panaudia.Buffers.Circular.Queue.{Implements, new_circular_buffer-Implements, write-Implements}
use panaudia.Buffers.Circular.Reading.{
  read, play, snap, wanted, read_with, read_drop, read_insert, read_plain, padded, repeat_last,
}
use panaudia.Tracks.{
  TrackNames, audio_input, audio_output, state_input, state_output, attributes_output,
  entity_output, control_input, generate_track_names, parse_track_namespace,
  validate_track_namespace, unrecognized,
}
use panaudia.Tracks.Names.{IsTrackOf, parse_track_namespace-generate_track_names}
use panaudia.Tests.Buffering.{numbers}
use panaudia.Tests.Unary.{unary}

-- Four milliseconds at a thousand samples a second
abbrev config : CircularBufferConfig
config = record {
  sample_rate = 1000;
  num_channels = 1;
  target_latency_ms = 2;
  target_window_ms = 2;
  min_latency_ms = 1;
  max_latency_ms = 3;
  capacity_ms = 4;
  correction_interval = 1;
  has_delegate = false;
}

abbrev empty_ring : CircularBuffer numbers
empty_ring = new_circular_buffer numbers config

empty_ring-Implements : Implements numbers empty_ring []
unfolding new_circular_buffer
empty_ring-Implements = new_circular_buffer-Implements numbers config (omega arith)

-- Six numbers are written, of which the last four stay.
abbrev full_ring : CircularBuffer numbers
full_ring = write numbers empty_ring (1 ∷ 2 ∷ 3 ∷ 4 ∷ 5 ∷ 6 ∷ [])

write-Implements_example :
    Implements numbers full_ring (newest empty_ring.capacity (1 ∷ 2 ∷ 3 ∷ 4 ∷ 5 ∷ 6 ∷ []))
write-Implements_example =
    write-Implements numbers empty_ring [] (1 ∷ 2 ∷ 3 ∷ 4 ∷ 5 ∷ 6 ∷ []) (omega arith)
      empty_ring-Implements

-- The ring is over the line of an overrun: a read skips the first two that are left.
reads : (read numbers full_ring (0 ∷ 0 ∷ [])).1.0 ≡ 5 ∷ 6 ∷ []
unfolding read play snap wanted read_with read_drop read_insert read_plain padded repeat_last
    copy_from_ring write make_room skip put put_at overwrite new_circular_buffer
reads = refl

abbrev names : TrackNames
names = generate_track_names unary 2

parse_track_namespace-generate_track_names_example :
    IsTrackOf (bytes "ff") names.audio_input_namespace audio_input
    × IsTrackOf (bytes "ff") names.state_input_namespace state_input
    × IsTrackOf (bytes "ff") names.control_input_namespace control_input
    × IsTrackOf (bytes "ff") names.audio_output_namespace audio_output
    × IsTrackOf (bytes "ff") names.state_output_namespace state_output
    × IsTrackOf (bytes "ff") names.attributes_output_namespace attributes_output
    × IsTrackOf (bytes "ff") names.entity_output_namespace entity_output
    × (parse_track_namespace names.space_output_namespace ≡ none)
    × (validate_track_namespace names.space_output_namespace (bytes "ff") ≡ unrecognized)
parse_track_namespace-generate_track_names_example =
    parse_track_namespace-generate_track_names unary 2
