-- ===== src/Tests/Buffering.antt =====
-- core/buffers/jitter_buffer.go with frames that are numbers, at a thousand frames a second.
use panaudia.Base.{
  drop, length, ◌-◌, ℕ, ◌+◌, ◌/◌, ◌≡◌, refl, true, false, List, [], ◌∷◌, ◌++◌, some, arith,
}
use panaudia.Buffers.Jitter.{
  Frames, Config, Geometry, Control, sizes, accepted, ring_capacity, geometry_of, levels,
}
use panaudia.Buffers.Jitter.Levels.{IsSound}
use panaudia.Buffers.Jitter.Window.{InBounds}
use panaudia.Buffers.Jitter.Playback.{
  Jitter, fresh, new_jitter, write, recover, read, serve, play, play_plain, read_from_ring,
  write_to_ring,
}
use panaudia.Buffers.Copy.{overwrite}
use panaudia.Buffers.Jitter.Playback.Valid.{IsValid, new_jitter-IsValid, write-IsValid}
use panaudia.Buffers.Jitter.Playback.Stream.{Follows, new_jitter-Follows, write-Follows}
use panaudia.Buffers.Jitter.Playback.Reads.{Outcome, read-Outcome}

abbrev pub numbers : Frames
numbers = record { Frame = ℕ; silence = 0; average = λ a b. (a + b) / 2 }

-- Sizes that are not given take their defaults.
abbrev config : Config
config = record {
  sample_rate = 1000;
  num_channels = 1;
  writer_frame_size = 4_000_000;
  reader_frame_size = 2_000_000;
  safety = 0;
  low_init = 0;
  low_min = 0;
  low_max = 6_000_000;
  high_init = 0;
  high_min = 0;
  high_max = 0;
  has_delegate = true;
}

is_accepted : accepted (sizes config) ≡ true
unfolding accepted sizes
is_accepted = refl

abbrev silent : Jitter numbers
silent = fresh numbers config

created : new_jitter numbers config ≡ some silent
unfolding new_jitter accepted sizes
created = refl

silent-IsValid : IsValid numbers silent
silent-IsValid = new_jitter-IsValid numbers config {j = silent} created

abbrev speech : List ℕ
speech = 1 ∷ 2 ∷ 3 ∷ 4 ∷ 5 ∷ 6 ∷ 7 ∷ 8 ∷ 9 ∷ 10 ∷ 11 ∷ 12 ∷ 13 ∷ 14 ∷ 15 ∷ 16 ∷ []

abbrev filled : Jitter numbers
filled = write numbers silent speech

silent-Follows : Follows numbers silent []
silent-Follows = new_jitter-Follows numbers config {j = silent} created

filled-Follows : Follows numbers filled ([] ++ drop (length speech - silent.geo.capacity) speech)
filled-Follows = write-Follows numbers silent speech [] silent-IsValid (omega arith) silent-Follows

-- The first operating point is 12 frames behind the writer.
plays : ((read numbers filled 2).0 ≡ true) × ((read numbers filled 2).1 ≡ 5 ∷ 6 ∷ [])
unfolding read serve recover play play_plain read_from_ring write write_to_ring overwrite levels
    geometry_of ring_capacity sizes
plays = (refl, refl)

read-Outcome_example :
    let (heard, out, k) = read numbers filled 2 in
    Outcome numbers filled
      ([] ++ drop (length speech - silent.geo.capacity) speech)
      2
      heard
      out
      k.read_pos
read-Outcome_example =
    read-Outcome numbers filled ([] ++ drop (length speech - silent.geo.capacity) speech) 2
      (write-IsValid numbers silent speech silent-IsValid) filled-Follows (omega arith)

write-Follows_example :
    Follows numbers filled ([] ++ drop (length speech - silent.geo.capacity) speech)
write-Follows_example =
    write-Follows numbers silent speech [] silent-IsValid (omega arith) silent-Follows

-- A geometry and a window on the way.
abbrev geo : Geometry
geo = record {
  capacity = 100;
  floor = 3;
  w = 4;
  l_min = 2;
  l_max = 6;
  h_min = 4;
  h_max = 12;
  window_reads = 3;
  widen_threshold = 2;
  widen_step = 2;
  narrow_step = 1;
  has_delegate = false;
}

abbrev window : Control
window = record {
  current_l = 5;
  current_h = 8;
  last_win_inserts = 0;
  last_win_drops = 0;
  insert_count = 3;
  drop_count = 2;
  reads_this_window = 0;
}

geo-IsSound : IsSound geo
geo-IsSound = record {
  w_pos = omega arith;
  floor_pos = omega arith;
  l_le = omega arith;
  h_le = omega arith;
  roomy = omega arith;
  windows = omega arith;
  reluctant = omega arith;
}

window-InBounds : InBounds geo window
window-InBounds = record {
  l_from = omega arith;
  l_to = omega arith;
  h_from = omega arith;
  h_to = omega arith;
  reads = omega arith;
}
