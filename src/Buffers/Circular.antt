-- ===== src/Buffers/Circular.antt =====
-- core/buffers/circular_buffer.go: the older ring buffer, with its filling and playing states.
pub mod Lists
pub mod Queue
pub mod Reading
use panaudia.Base.{
  ℕ, zero, suc, ◌+◌, ◌-◌, ◌*◌, ◌/◌, ◌%◌, Bool, true, false, not, ◌&&◌, List, [], ◌∷◌, ◌++◌, ltb,
  leb, eqb, if◌then◌else◌, get_or, take, drop, replicate, length,
}
use panaudia.Buffers.Copy.{overwrite}
use panaudia.Buffers.Jitter.{Frames, default_val}

-- `CircularBufferConfig`
pub record CircularBufferConfig : Type 0 where
  pub sample_rate : ℕ
  pub num_channels : ℕ
  pub target_latency_ms : ℕ
  pub target_window_ms : ℕ
  pub min_latency_ms : ℕ
  pub max_latency_ms : ℕ
  pub capacity_ms : ℕ
  pub correction_interval : ℕ
  pub has_delegate : Bool

module _ (fs : Frames) where
  open fs use {Frame, silence}

  -- `CircularBuffer`; a frame stands for one float. `misses` has what the delegate was told, the last
  -- first.
  pub record CircularBuffer : Type 0 where
    pub data_ring : List Frame
    pub capacity : ℕ
    pub write_pos : ℕ
    pub read_pos : ℕ
    pub buffered : ℕ
    pub num_channels : ℕ
    pub target_low : ℕ
    pub target_high : ℕ
    pub target_centre : ℕ
    pub min_samples : ℕ
    pub max_samples : ℕ
    pub playing : Bool
    pub correction_interval : ℕ
    pub correction_counter : ℕ
    pub underrun_count : ℕ
    pub overrun_count : ℕ
    pub samples_dropped : ℕ
    pub samples_inserted : ℕ
    pub has_delegate : Bool
    pub misses : List ℕ

  -- `NewCircularBuffer`. A low end of the target window below 0 is 0 here: nothing is less than either.
  unfoldable pub new_circular_buffer : CircularBufferConfig → CircularBuffer
  new_circular_buffer config =
      let sr = default_val config.sample_rate 48000 in
      let nc = default_val config.num_channels 1 in
      let target = default_val config.target_latency_ms 40 in
      let window = default_val config.target_window_ms 40 in
      let capacity = default_val config.capacity_ms 1000 * sr / 1000 * nc in
      record {
        data_ring = replicate capacity silence;
        capacity = capacity;
        write_pos = 0;
        read_pos = 0;
        buffered = 0;
        num_channels = nc;
        target_low = (target - window / 2) * sr / 1000;
        target_high = (target + window / 2) * sr / 1000;
        target_centre = target * sr / 1000;
        min_samples = default_val config.min_latency_ms 10 * sr / 1000;
        max_samples = default_val config.max_latency_ms 200 * sr / 1000;
        playing = false;
        correction_interval = default_val config.correction_interval 2;
        correction_counter = 0;
        underrun_count = 0;
        overrun_count = 0;
        samples_dropped = 0;
        samples_inserted = 0;
        has_delegate = config.has_delegate;
        misses = [];
      }

  -- The tail of a write that is larger than the ring
  abbrev pub tail_of : ℕ → List Frame → List Frame
  tail_of capacity src = if ltb capacity (length src) then drop (length src - capacity) src else src

  -- The read head goes on by `k` floats.
  unfoldable pub skip : CircularBuffer → ℕ → CircularBuffer
  skip b k = record b { read_pos = (b.read_pos + k) % b.capacity; buffered = b.buffered - k }

  -- The oldest floats give way to `n` new ones.
  unfoldable pub make_room : CircularBuffer → ℕ → CircularBuffer
  make_room b n =
      if ltb b.capacity (b.buffered + n) then skip b (b.buffered + n - b.capacity) else b

  -- The copy into the ring, with wrap: the ring, and the position behind what was written.
  unfoldable pub put_at : ℕ → List Frame → ℕ → List Frame → List Frame × ℕ
  put_at capacity ring at src =
      let n = length src in
      let remain = capacity - at in
      if leb n remain
      then (overwrite ring at src, (at + n) % capacity)
      else (overwrite (overwrite ring at (take remain src)) 0 (drop remain src), n - remain)

  unfoldable pub put : CircularBuffer → List Frame → CircularBuffer
  put b src =
      let (ring, at) = put_at b.capacity b.data_ring b.write_pos src in
      record b { data_ring = ring; write_pos = at; buffered = b.buffered + length src }

  -- `Write`
  unfoldable pub write : CircularBuffer → List Frame → CircularBuffer
  write b src =
      if eqb (length src) 0
      then b
      else put (make_room b (length (tail_of b.capacity src))) (tail_of b.capacity src)

  -- `copyFromRing`
  unfoldable pub copy_from_ring : CircularBuffer → ℕ → List Frame
  copy_from_ring b n =
      let remain = b.capacity - b.read_pos in
      if leb n remain
      then take n (drop b.read_pos b.data_ring)
      else drop b.read_pos b.data_ring ++ take (n - remain) b.data_ring
