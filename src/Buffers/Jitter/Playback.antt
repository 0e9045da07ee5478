-- ===== src/Buffers/Jitter/Playback.antt =====
-- core/buffers/jitter_buffer.go: the ring, and the calls of its one writer and its one reader.
pub mod Ring
pub mod Valid
pub mod Stream
pub mod Reads
use panaudia.Base.{
  ℕ, zero, suc, ◌+◌, ◌-◌, ◌%◌, Bool, true, false, ◌&&◌, List, [], ◌∷◌, ◌++◌, Option, none, some,
  ltb, leb, eqb, if◌then◌else◌, get_or, set, take, drop, replicate, length,
}
use panaudia.Buffers.Copy.{overwrite}
use panaudia.Buffers.Jitter.{
  Frames, Config, Geometry, Control, Stats, Sizes, sizes, accepted, ring_capacity, geometry_of,
  levels, snap_target, drop_line, overrun_at, adapt, notify,
}

module _ (fs : Frames) where
  open fs use {Frame, silence, average}

  -- `JitterBuffer`
  pub record Jitter : Type 0 where
    pub geo : Geometry
    pub data_ring : List Frame
    pub write_pos : ℕ
    pub read_pos : ℕ
    pub control : Control
    pub stats : Stats

  abbrev pub new_control : Sizes → Control
  new_control z = record {
    current_l = z.l_init;
    current_h = z.h_init;
    last_win_inserts = 0;
    last_win_drops = 0;
    insert_count = 0;
    drop_count = 0;
    reads_this_window = 0;
  }

  -- The value that `NewJitterBuffer` builds from its sizes.
  abbrev pub fresh : Config → Jitter
  fresh cfg = record {
    geo = geometry_of (sizes cfg) cfg.has_delegate;
    data_ring = replicate (ring_capacity (sizes cfg)) silence;
    write_pos = 0;
    read_pos = 0;
    control = new_control (sizes cfg);
    stats = record {
      underruns = 0;
      overruns = 0;
      laps = 0;
      dropped = 0;
      inserted = 0;
      misses = [];
    };
  }

  -- `NewJitterBuffer`; `none` where it panics.
  unfoldable pub new_jitter : Config → Option Jitter
  new_jitter cfg = if accepted (sizes cfg) then some (fresh cfg) else none

  -- `writeToRing`
  unfoldable pub write_to_ring : ℕ → List Frame → List Frame → ℕ → List Frame
  write_to_ring capacity ring src wp =
      let start = wp % capacity in
      if leb (start + length src) capacity
      then overwrite ring start src
      else overwrite (overwrite ring start (take (capacity - start) src)) 0
          (drop (capacity - start) src)

  -- `readFromRing`: the `n` frames at the position `rp`.
  unfoldable pub read_from_ring : ℕ → List Frame → ℕ → ℕ → List Frame
  read_from_ring capacity ring rp n =
      let start = rp % capacity in
      if leb (start + n) capacity
      then take n (drop start ring)
      else drop start ring ++ take (n - (capacity - start)) ring

  -- The frames that `Write` keeps: the most recent ones, if there are more than fit.
  abbrev pub clipped : Jitter → List Frame → List Frame
  clipped j src =
      if ltb j.geo.capacity (length src) then drop (length src - j.geo.capacity) src else src

  -- `Write`
  unfoldable pub write : Jitter → List Frame → Jitter
  write j src = if eqb (length src) 0 then j else record j {
    data_ring = write_to_ring j.geo.capacity j.data_ring (clipped j src) j.write_pos;
    write_pos = j.write_pos + length (clipped j src);
  }

  -- `wp - rp`, which is never negative.
  abbrev pub fill : Jitter → ℕ
  fill j = j.write_pos - j.read_pos

  -- `rp = wp - snapTarget`, done only where at least that much is buffered.
  abbrev pub resync : Jitter → Jitter
  resync j = record j { read_pos = j.write_pos - snap_target j.geo j.control }

  abbrev pub tick : Jitter → Jitter
  tick j = record j { control = adapt j.geo j.control }

  -- Branches 2 and 3 of `Read`: a lap, or an overrun.
  unfoldable pub recover : Jitter → Jitter
  recover j =
      if leb j.geo.capacity (fill j)
      then record (resync j) { stats = notify j.geo 2 (record j.stats { laps = suc j.stats.laps }) }
      else if ltb (overrun_at j.geo j.control) (fill j)
      then record (resync j) {
        stats = notify j.geo 2 (record j.stats { overruns = suc j.stats.overruns });
      }
      else j

  -- Branch 5: one frame more than asked for is consumed, and the last two are averaged.
  unfoldable pub play_drop : Jitter → ℕ → List Frame × Jitter
  play_drop j n =
      let out = read_from_ring j.geo.capacity j.data_ring j.read_pos n in
      let skipped = get_or j.data_ring ((j.read_pos + n) % j.geo.capacity) silence in
      (
        set out (n - 1) (average (get_or out (n - 1) silence) skipped),
        record j {
          read_pos = j.read_pos + n + 1;
          stats = record j.stats { dropped = suc j.stats.dropped };
          control = record j.control { drop_count = suc j.control.drop_count };
        },
      )

  -- One frame less is consumed, and an average with the frame after it is put in.
  unfoldable pub play_insert : Jitter → ℕ → List Frame × Jitter
  play_insert j n =
      let out = read_from_ring j.geo.capacity j.data_ring j.read_pos (n - 1) in
      let peeked = get_or j.data_ring ((j.read_pos + (n - 1)) % j.geo.capacity) silence in
      (
        out ++ (average (get_or out (n - 1 - 1) silence) peeked ∷ []),
        record j {
          read_pos = j.read_pos + (n - 1);
          stats = record j.stats { inserted = suc j.stats.inserted };
          control = record j.control { insert_count = suc j.control.insert_count };
        },
      )

  unfoldable pub play_plain : Jitter → ℕ → List Frame × Jitter
  play_plain j n = (
    read_from_ring j.geo.capacity j.data_ring j.read_pos n,
    record j { read_pos = j.read_pos + n },
  )

  unfoldable pub play : Jitter → ℕ → List Frame × Jitter
  play j n =
      if ltb (drop_line j.geo j.control) (fill j) && leb (n + 1) (fill j)
      then play_drop j n
      else if ltb (fill j) j.geo.floor && leb 2 n
      then play_insert j n
      else play_plain j n

  -- Branches 4 and 5: silence on an underrun, else audio.
  unfoldable pub serve : Jitter → ℕ → Bool × List Frame × Jitter
  serve j n =
      if ltb (fill j) n
      then (
        false,
        replicate n silence,
        tick (record j {
          stats = notify j.geo 1 (record j.stats { underruns = suc j.stats.underruns });
        }),
      )
      else (true, (play j n).0, tick (play j n).1)

  -- `Read` into `n` frames: whether there was audio, the frames, and the buffer. Before the first
  -- audio it waits for a whole operating point.
  unfoldable pub read : Jitter → ℕ → Bool × List Frame × Jitter
  read j n =
      if eqb n 0
      then (true, [], j)
      else if eqb j.read_pos 0 && ltb (fill j) (snap_target j.geo j.control)
      then (false, replicate n silence, tick j)
      else serve (recover (if eqb j.read_pos 0 then resync j else j)) n
