-- ===== src/Buffers/Circular/Reading.antt =====
-- core/buffers/circular_buffer.go: `Read`, with the correction by one sample per channel.
pub mod Played
pub mod Reads
use panaudia.Base.{
  ℕ, zero, suc, ◌+◌, ◌-◌, ◌*◌, ◌/◌, ◌%◌, Bool, true, false, not, ◌&&◌, List, [], ◌∷◌, ◌++◌, ltb,
  leb, eqb, if◌then◌else◌, get_or, set, replicate, length, min,
}
use panaudia.Buffers.Copy.{overwrite}
use panaudia.Buffers.Jitter.{Frames}
use panaudia.Buffers.Circular.{CircularBuffer, skip, copy_from_ring}

-- What is corrected
pub data Correction : Type 0 where
  insert_one drop_one no_correction : Correction

module _ (fs : Frames) where
  open fs use {Frame, silence}

  -- `fillSamples`
  abbrev pub fill_samples : CircularBuffer fs → ℕ
  fill_samples b = b.buffered / b.num_channels

  -- The snap of an overrun: the target is no more than the overrun line.
  unfoldable pub snap : CircularBuffer fs → CircularBuffer fs
  snap b =
      if ltb b.max_samples (fill_samples b)
      then record (skip fs b (b.buffered - b.target_centre * b.num_channels)) {
        overrun_count = suc b.overrun_count;
      }
      else b

  -- The correction that the fill asks for
  unfoldable pub wanted : CircularBuffer fs → Correction
  wanted b =
      if ltb (fill_samples b) b.target_low
      then insert_one
      else if ltb b.target_high (fill_samples b)
      then drop_one
      else no_correction

  -- `NotifyReadMiss`
  abbrev pub notify_miss : CircularBuffer fs → ℕ → CircularBuffer fs
  notify_miss b kind = if b.has_delegate then record b { misses = kind ∷ b.misses } else b

  -- As many floats as are there, and zeros behind them
  unfoldable pub padded : CircularBuffer fs → ℕ → List Frame
  padded b n = copy_from_ring fs b (min n b.buffered) ++ replicate (n - min n b.buffered) silence

  -- One sample of each channel is dropped.
  unfoldable pub read_drop : CircularBuffer fs → ℕ → List Frame × CircularBuffer fs
  read_drop b n = (
    padded b n,
    notify_miss
        (record (skip fs b (min (n + b.num_channels) b.buffered)) {
          samples_dropped = suc b.samples_dropped;
        })
        2,
  )

  -- The loop that repeats the last sample of each channel: `count` floats from the index `i` on.
  unfoldable pub repeat_last : ℕ → ℕ → ℕ → ℕ → ℕ → List Frame → List Frame
  repeat_last zero i real last_start nc dst = dst
  repeat_last (suc count) i real last_start nc dst =
      repeat_last count (suc i) real last_start nc
        (set dst i (get_or dst (last_start + (i - real) % nc) silence))

  -- `realFloats`
  abbrev pub real_floats : CircularBuffer fs → ℕ → ℕ
  real_floats b n =
      let wanted = n - b.num_channels in
      min (if ltb wanted b.num_channels then b.num_channels else wanted) b.buffered

  -- One sample of each channel is inserted.
  unfoldable pub read_insert : CircularBuffer fs → List Frame → List Frame × CircularBuffer fs
  read_insert b dst =
      let real = real_floats b (length dst) in
      (
        repeat_last (length dst - real) real real (real - b.num_channels) b.num_channels
            (overwrite dst 0 (copy_from_ring fs b real)),
        notify_miss (record (skip fs b real) { samples_inserted = suc b.samples_inserted }) 1,
      )

  unfoldable pub read_plain : CircularBuffer fs → ℕ → List Frame × CircularBuffer fs
  read_plain b n = (padded b n, skip fs b (min n b.buffered))

  -- The reading itself, by the correction
  unfoldable pub read_with :
      Correction → CircularBuffer fs → List Frame → List Frame × CircularBuffer fs
  read_with drop_one b dst = read_drop b (length dst)
  read_with insert_one b dst = read_insert b dst
  read_with no_correction b dst = read_plain b (length dst)

  -- The playing state behind the snap: whether audio was produced, the floats, and the buffer.
  unfoldable pub play : CircularBuffer fs → List Frame → Bool × (List Frame × CircularBuffer fs)
  play b dst =
      if ltb (fill_samples b) b.min_samples
      then (
        false,
        (
          replicate (length dst) silence,
          record b { playing = false; underrun_count = suc b.underrun_count },
        ),
      )
      else if ltb (suc b.correction_counter) b.correction_interval
      then (
        true,
        read_with no_correction (record b { correction_counter = suc b.correction_counter }) dst,
      )
      else (true, read_with (wanted b) (record b { correction_counter = 0 }) dst)

  -- `Read`
  unfoldable pub read : CircularBuffer fs → List Frame → Bool × (List Frame × CircularBuffer fs)
  read b dst =
      if eqb (length dst) 0
      then (true, (dst, b))
      else if not b.playing && ltb (fill_samples b) b.target_low
      then (false, (replicate (length dst) silence, b))
      else play
          (snap (if b.playing then b else record b { playing = true; correction_counter = 0 })) dst
