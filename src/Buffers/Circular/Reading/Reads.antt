-- ===== src/Buffers/Circular/Reading/Reads.antt =====
-- `Read` on every branch.
use panaudia.Base.{
  ℕ, ◌-◌, ◌*◌, ◌/◌, ◌≤◌, ◌<◌, ◌≡◌, ◌⊎◌, true, false, Bool, List, replicate, length, ltb,
  if◌then◌else◌,
}
use panaudia.Buffers.Jitter.{Frames}
use panaudia.Buffers.Circular.{CircularBuffer}
use panaudia.Buffers.Circular.Queue.{Implements}
use panaudia.Buffers.Circular.Reading.{fill_samples}
use panaudia.Buffers.Circular.Reading.Played.{Plays}

module _ (fs : Frames) where
  open fs use {Frame, silence}

  -- What the playing state gives of a queue of floats: silence under the line `lo` of samples per
  -- channel, with the queue as it was; and audio from the front of the queue from there on.
  abbrev pub Produces : ℕ → List Frame → ℕ → ℕ → Bool × (List Frame × CircularBuffer fs) → Type 0
  Produces lo queue nc n (ok, (out, after)) =
      ((length queue / nc < lo)
        × (ok ≡ false)
        × (out ≡ replicate n silence)
        × (after.playing ≡ false)
        × Implements fs after queue)
      ⊎ ((lo ≤ length queue / nc) × (ok ≡ true) × Plays fs queue nc n out after)

  -- The floats that an overrun skips
  abbrev pub snapped : CircularBuffer fs → ℕ
  snapped b =
      if ltb b.max_samples (fill_samples fs b)
      then b.buffered - b.target_centre * b.num_channels
      else 0

  -- The buffer is filling up to its low target.
  abbrev pub IsFilling : CircularBuffer fs → List Frame → Type 0
  IsFilling b queue = (b.playing ≡ false) × (length queue / b.num_channels < b.target_low)

  -- It plays, or has reached the low target.
  abbrev pub IsReady : CircularBuffer fs → List Frame → Type 0
  IsReady b queue = (b.playing ≡ true) ⊎ (b.target_low ≤ length queue / b.num_channels)
