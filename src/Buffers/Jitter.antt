-- ===== src/Buffers/Jitter.antt =====
-- core/buffers/jitter_buffer.go: the `JitterBuffer`. A frame is one value of the type `F`: the code
-- keeps `nc` interleaved floats for it, and every length it copies is a multiple of `nc`.
--
-- Atomics are read and written in the order of the source, with each call as one step. Positions
-- are `int64`s that count frames and do not reach 2 ^ 63. Durations are not negative; the panics on
-- a misordered configuration are `none`. A sample rate does not reach 2 ^ 40.
pub mod Levels
pub mod Window
pub mod Playback
use panaudia.Base.{
  ℕ, zero, suc, ◌+◌, ◌-◌, ◌*◌, ◌/◌, ◌%◌, Bool, true, false, not, ◌&&◌, ◌||◌, List, [], ◌∷◌, ◌++◌,
  Option, none, some, min, max, ltb, leb, eqb, if◌then◌else◌, get_or, set, take, drop, replicate,
  length,
}
use panaudia.Base.Int.{pos, negsuc, signed64}

-- Samples are floats: a frame of silence, and the average of two frames, channel by channel.
pub record Frames : Type 1 where
  pub Frame : Type 0
  pub silence : Frame
  pub average : Frame → Frame → Frame

-- `JitterBufferConfig`, its durations in nanoseconds.
pub record Config : Type 0 where
  pub sample_rate : ℕ
  pub num_channels : ℕ
  pub writer_frame_size : ℕ
  pub reader_frame_size : ℕ
  pub safety : ℕ
  pub low_init : ℕ
  pub low_min : ℕ
  pub low_max : ℕ
  pub high_init : ℕ
  pub high_min : ℕ
  pub high_max : ℕ
  pub has_delegate : Bool

-- The fields that the constructor fixes.
pub record Geometry : Type 0 where
  pub capacity : ℕ
  pub floor : ℕ
  pub w : ℕ
  pub l_min : ℕ
  pub l_max : ℕ
  pub h_min : ℕ
  pub h_max : ℕ
  pub window_reads : ℕ
  pub widen_threshold : ℕ
  pub widen_step : ℕ
  pub narrow_step : ℕ
  pub has_delegate : Bool

-- The live window with its controller: `currentL`, `currentH`, the counts of this and of the last
-- window.
pub record Control : Type 0 where
  pub current_l : ℕ
  pub current_h : ℕ
  pub last_win_inserts : ℕ
  pub last_win_drops : ℕ
  pub insert_count : ℕ
  pub drop_count : ℕ
  pub reads_this_window : ℕ

-- The `stats…` counters, and the calls of `NotifyReadMiss` in order, newest first.
pub record Stats : Type 0 where
  pub underruns : ℕ
  pub overruns : ℕ
  pub laps : ℕ
  pub dropped : ℕ
  pub inserted : ℕ
  pub misses : List ℕ

abbrev pub default_val : ℕ → ℕ → ℕ
default_val v d = if eqb v 0 then d else v

abbrev pub ms : ℕ → ℕ
ms n = n * 1_000_000

-- `durToFrames`: the product wraps. A negative result counts as 0 here and is told apart below.
abbrev pub dur_to_frames : ℕ → ℕ → ℕ
dur_to_frames sr d = elim (signed64 (d * sr)) [ pos p ↦ p / 1_000_000_000 | negsuc p ↦ 0 ]

-- The result is negative; the division rounds toward 0.
abbrev pub is_wrapped : ℕ → ℕ → Bool
is_wrapped sr d = elim (signed64 (d * sr)) [ pos p ↦ false | negsuc p ↦ leb 999_999_999 p ]

abbrev pub any_wrapped : ℕ → List ℕ → Bool
any_wrapped sr [] = false
any_wrapped sr (d ∷ ds) = is_wrapped sr d || any_wrapped sr ds

-- The sizes that `NewJitterBuffer` works with, in frames: `W`, `R`, `S` and the allowances; and whether
-- one of them is negative.
pub record Sizes : Type 0 where
  pub sr : ℕ
  pub w : ℕ
  pub r : ℕ
  pub s : ℕ
  pub l_init : ℕ
  pub l_min : ℕ
  pub l_max : ℕ
  pub h_init : ℕ
  pub h_min : ℕ
  pub h_max : ℕ
  pub some_negative : Bool

unfoldable pub sizes : Config → Sizes
sizes cfg =
    let sr = default_val cfg.sample_rate 48000 in
    let w_dur = default_val cfg.writer_frame_size (ms 20) in
    record {
      sr = sr;
      w = dur_to_frames sr w_dur;
      r = dur_to_frames sr (default_val cfg.reader_frame_size (ms 5));
      s = dur_to_frames sr (default_val cfg.safety (ms 1));
      l_init = dur_to_frames sr (default_val cfg.low_init (ms 5));
      l_min = dur_to_frames sr (default_val cfg.low_min (ms 2));
      l_max = dur_to_frames sr (default_val cfg.low_max (ms 30));
      h_init = dur_to_frames sr (default_val cfg.high_init w_dur);
      h_min = dur_to_frames sr (default_val cfg.high_min w_dur);
      h_max = dur_to_frames sr (default_val cfg.high_max (3 * w_dur));
      some_negative = any_wrapped sr (
          w_dur
          ∷ default_val cfg.reader_frame_size (ms 5)
          ∷ default_val cfg.safety (ms 1)
          ∷ default_val cfg.low_init (ms 5)
          ∷ default_val cfg.low_min (ms 2)
          ∷ default_val cfg.low_max (ms 30)
          ∷ default_val cfg.high_init w_dur
          ∷ default_val cfg.high_min w_dur
          ∷ default_val cfg.high_max (3 * w_dur)
          ∷ []);
    }

-- The checks that end in a panic. Each size fails one of them when it is negative.
unfoldable pub accepted : Sizes → Bool
accepted z =
    not (z.some_negative || (leb z.r 0 || leb z.w 0))
    && ((leb z.l_min z.l_init && leb z.l_init z.l_max)
        && (leb z.h_min z.h_init && leb z.h_init z.h_max))

-- The ring holds the highest overrun line twice, and twice the longer frame.
unfoldable pub ring_capacity : Sizes → ℕ
ring_capacity z =
    2 * (z.r + z.s + z.l_max + 2 * z.w + z.h_max) + 2 * (if ltb z.w z.r then z.r else z.w)

unfoldable pub geometry_of : Sizes → Bool → Geometry
geometry_of z has_delegate = record {
  capacity = ring_capacity z;
  floor = z.r + z.s;
  w = z.w;
  l_min = z.l_min;
  l_max = z.l_max;
  h_min = z.h_min;
  h_max = z.h_max;
  window_reads = 400;
  widen_threshold = 5;
  widen_step = ms 2 * z.sr / 1_000_000_000;
  narrow_step = z.sr * 500 / 1_000_000;
  has_delegate = has_delegate;
}

-- `levels`: the operating target, the point of recovery, the drop line and the overrun line.
unfoldable pub levels : Geometry → ℕ → ℕ → ℕ × ℕ × ℕ × ℕ
levels g l h = let t = g.floor + l in (t, t + g.w, t + g.w + h, t + 2 * g.w + h)

abbrev pub snap_target : Geometry → Control → ℕ
snap_target g c = (levels g c.current_l c.current_h).1

abbrev pub drop_line : Geometry → Control → ℕ
drop_line g c = (levels g c.current_l c.current_h).2

abbrev pub overrun_at : Geometry → Control → ℕ
overrun_at g c = (levels g c.current_l c.current_h).3

-- One side of `decide` that widens, or narrows.
abbrev pub widen : ℕ → ℕ → ℕ → ℕ
widen step top a = if ltb a top then min (a + step) top else a

-- `max(a - step, bottom)`; the difference may be negative in Go, and then `bottom` is taken.
abbrev pub narrow : ℕ → ℕ → ℕ → ℕ
narrow step bottom a = if ltb bottom a then max (a - step) bottom else a

-- `decide`
pub decide_window : Geometry → Control → Control
decide_window g c =
    let ins = c.insert_count in
    let drops = c.drop_count in
    if leb g.widen_threshold (min ins drops)
    then record c {
      current_l =
          if leb g.widen_threshold ins then widen g.widen_step g.l_max c.current_l else c.current_l;
      current_h =
          if leb g.widen_threshold drops
          then widen g.widen_step g.h_max c.current_h
          else c.current_h;
    }
    else record c {
      current_l = if eqb ins 0 then narrow g.narrow_step g.l_min c.current_l else c.current_l;
      current_h = if eqb drops 0 then narrow g.narrow_step g.h_min c.current_h else c.current_h;
    }

-- `adapt`
pub adapt : Geometry → Control → Control
adapt g c =
    let ticked = record c { reads_this_window = suc c.reads_this_window } in
    let decided =
      decide_window g
        (record ticked { last_win_inserts = c.insert_count; last_win_drops = c.drop_count }) in
    if leb g.window_reads 0
    then c
    else if ltb (suc c.reads_this_window) g.window_reads
    then ticked
    else record decided { insert_count = 0; drop_count = 0; reads_this_window = 0 }

-- `NotifyReadMiss`, where there is a delegate.
abbrev pub notify : Geometry → ℕ → Stats → Stats
notify g n st = if g.has_delegate then record st { misses = n ∷ st.misses } else st
