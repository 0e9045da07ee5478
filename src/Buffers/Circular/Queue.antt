-- ===== src/Buffers/Circular/Queue.antt =====
-- The ring is a queue of bounded length: what it holds are the newest floats that were written and not
-- read.
use native.Mathlib.Nat.{mod-lt, mod-add-mod, mod-eq_of_lt}
use native.Mathlib.Decide.{dec_le}
use panaudia.Base.{
  ℕ, ◌+◌, ◌-◌, ◌%◌, ◌≤◌, ◌<◌, ◌≡◌, refl, sym, ap, ◌∙◌, subst, inl, inr, false, List, [], ◌++◌, ltb,
  leb, le→leb, gt→leb, ltb→lt, eqb, if◌then◌else◌, take, drop, length, length-append, length-drop,
  length-replicate, arith, Bool-cases,
}
use panaudia.Buffers.Copy.{overwrite}
use panaudia.Buffers.Jitter.{Frames}
use panaudia.Buffers.Jitter.Playback.{write_to_ring, read_from_ring}
use panaudia.Buffers.Jitter.Playback.Ring.{
  Holds, write_to_ring-Holds, read_from_ring_lem, length-write_to_ring,
}
use panaudia.Buffers.Circular.{
  CircularBufferConfig, CircularBuffer, new_circular_buffer, tail_of, skip, make_room, put_at, put,
  write, copy_from_ring,
}
use panaudia.Buffers.Circular.Lists.{
  wrapped, drop-append_in, drop-append_past, drop-all, drop-drop, newest,
}

module _ (fs : Frames) where
  open fs use {Frame}

  -- The buffer holds the queue: the end of everything that was written to it.
  pub record Implements (b : CircularBuffer fs) (queue : List Frame) : Type 0 where
    pub stream : List Frame
    pub some_room : 0 < b.capacity
    pub ring_length : length b.data_ring ≡ b.capacity
    pub held : Holds fs b.capacity b.data_ring stream
    pub bounded : b.buffered ≤ b.capacity
    pub enough : b.buffered ≤ length stream
    pub write_at : b.write_pos ≡ length stream % b.capacity
    pub read_at : b.read_pos ≡ (length stream - b.buffered) % b.capacity
    pub contents : queue ≡ drop (length stream - b.buffered) stream

  pub length-queue :
      (b : CircularBuffer fs) (queue : List Frame) → Implements b queue → length queue ≡ b.buffered
  length-queue b queue i =
      ap length i.contents
      ∙ length-drop (length i.stream - b.buffered) i.stream
      ∙ omega (arith, i.enough)

  -- To skip floats is to drop them from the queue.
  pub skip-Implements :
      (b : CircularBuffer fs) (queue : List Frame) (k : ℕ)
      → k ≤ b.buffered
      → Implements b queue
      → Implements (skip fs b k) (drop k queue)
  unfolding skip
  skip-Implements b queue k h i =
      let at : length i.stream - b.buffered + k ≡ length i.stream - (b.buffered - k) =
        omega (arith, i.enough) in
      record {
        stream = i.stream;
        some_room = i.some_room;
        ring_length = i.ring_length;
        held = i.held;
        bounded = omega (arith, i.bounded);
        enough = omega (arith, i.enough);
        write_at = i.write_at;
        read_at =
            ap (λ t. (t + k) % b.capacity) i.read_at
            ∙ mod-add-mod (length i.stream - b.buffered) b.capacity k
            ∙ ap (λ t. t % b.capacity) at;
        contents =
            ap (drop k) i.contents
            ∙ drop-drop k (length i.stream - b.buffered) i.stream
            ∙ ap (λ t. drop t i.stream) at;
      }

  -- What is copied from the ring is the front of the queue.
  pub copy_from_ring_lem :
      (b : CircularBuffer fs) (queue : List Frame) (n : ℕ)
      → n ≤ b.buffered
      → Implements b queue
      → copy_from_ring fs b n ≡ take n queue
  unfolding copy_from_ring read_from_ring
  copy_from_ring_lem b queue n h i =
      let from = length i.stream - b.buffered in
      let below : from % b.capacity < b.capacity = mod-lt from i.some_room in
      let same : leb n (b.capacity - from % b.capacity) ≡ leb (from % b.capacity + n) b.capacity =
        ground (arith, below) in
      ap
        (λ r.
          if leb n (b.capacity - r)
          then take n (drop r b.data_ring)
          else drop r b.data_ring ++ take (n - (b.capacity - r)) b.data_ring)
        i.read_at
      ∙ ap
          (λ t.
            if t
            then take n (drop (from % b.capacity) b.data_ring)
            else drop (from % b.capacity) b.data_ring
              ++ take (n - (b.capacity - from % b.capacity)) b.data_ring)
          same
      ∙ read_from_ring_lem fs b.capacity b.data_ring i.stream i.ring_length from n i.some_room
          i.held (omega (arith, i.enough)) (omega (arith, i.bounded, i.enough))
          (omega (arith, i.bounded))
      ∙ ap (take n) (sym i.contents)

  -- The copy into the ring is that of the newer ring buffer, whose positions do not wrap.
  put_at_lem :
      (cap : ℕ) (ring src : List Frame) (at : ℕ)
      → 0 < cap
      → length src ≤ cap
      → put_at fs cap ring (at % cap) src
        ≡ (write_to_ring fs cap ring src at, (at + length src) % cap)
  unfolding put_at write_to_ring
  put_at_lem cap ring src at pos h =
      let below : at % cap < cap = mod-lt at pos in
      elim (dec_le (length src) (cap - at % cap)) [
        | yes whole ↦
            rw
              (
                le→leb (length src) (cap - at % cap) whole,
                le→leb (at % cap + length src) cap (omega arith),
              )
              (ap (λ t. (overwrite ring (at % cap) src, t)) (mod-add-mod at cap (length src)))
        | no split ↦
            rw
              (
                gt→leb (length src) (cap - at % cap) (omega arith),
                gt→leb (at % cap + length src) cap (omega arith),
              )
              (ap
                (λ t. (
                  overwrite (overwrite ring (at % cap) (take (cap - at % cap) src)) 0
                      (drop (cap - at % cap) src),
                  t,
                ))
                (sym (wrapped at (length src) cap pos h (omega arith))))
      ]

  -- To put floats into a ring that has room for them is to append them to the queue.
  put-Implements :
      (b : CircularBuffer fs) (queue src : List Frame)
      → 0 < length src
      → b.buffered + length src ≤ b.capacity
      → Implements b queue
      → Implements (put fs b src) (queue ++ src)
  unfolding put
  put-Implements b queue src some_floats h i =
      let n = length src in
      let all : length (i.stream ++ src) ≡ length i.stream + n = length-append i.stream src in
      let from : length (i.stream ++ src) - (b.buffered + n) ≡ length i.stream - b.buffered =
        omega (arith, all) in
      let placed =
        ap (λ t. put_at fs b.capacity b.data_ring t src) i.write_at
        ∙ put_at_lem b.capacity b.data_ring src (length i.stream) i.some_room (omega arith) in
      record {
        stream = i.stream ++ src;
        some_room = i.some_room;
        ring_length =
            ap (λ r. length r.0) placed
            ∙ length-write_to_ring fs b.capacity b.data_ring src (length i.stream)
            ∙ i.ring_length;
        held =
            subst (λ r. Holds fs b.capacity r.0 (i.stream ++ src)) (sym placed)
              (write_to_ring-Holds fs b.capacity b.data_ring i.stream i.ring_length src some_floats
                (omega arith) i.held);
        bounded = h;
        enough = omega (arith, all, i.enough);
        write_at = ap (λ r. r.1) placed ∙ ap (λ t. t % b.capacity) (sym all);
        read_at = i.read_at ∙ ap (λ t. t % b.capacity) (sym from);
        contents =
            ap (λ t. t ++ src) i.contents
            ∙ sym (drop-append_in (length i.stream - b.buffered) i.stream src (omega arith))
            ∙ ap (λ t. drop t (i.stream ++ src)) (sym from);
      }

  make_room-Implements :
      (b : CircularBuffer fs) (queue : List Frame) (n : ℕ)
      → n ≤ b.capacity
      → Implements b queue
      → Implements (make_room fs b n) (drop (b.buffered + n - b.capacity) queue)
        × ((make_room fs b n).buffered + n ≤ (make_room fs b n).capacity)
  unfolding make_room skip
  make_room-Implements b queue n h i = elim (Bool-cases (ltb b.capacity (b.buffered + n))) [
    | inl c ↦
        rw (make_room, c)
          (
            skip-Implements b queue (b.buffered + n - b.capacity) (omega (arith, i.bounded)) i,
            let past : b.capacity < b.buffered + n = ltb→lt b.capacity (b.buffered + n) c in
                omega (arith, i.bounded),
          )
    | inr c ↦
        let fits : b.buffered + n ≤ b.capacity = ground (arith, c) in
        let none_lost : b.buffered + n - b.capacity ≡ 0 = omega arith in
        rw (make_room, c, none_lost) (i, fits)
  ]

  -- The tail of the floats behind what is left of the queue are the newest of both.
  newest_lem :
      (cap : ℕ) (queue src : List Frame)
      → length queue ≤ cap
      → drop (length queue + length (tail_of fs cap src) - cap) queue ++ tail_of fs cap src
        ≡ newest cap (queue ++ src)
  newest_lem cap queue src h = elim (Bool-cases (ltb cap (length src))) [
    | inl c ↦
        let past : cap < length src = ltb→lt cap (length src) c in
        let n = length src - cap in
        let all : length (queue ++ src) - cap ≡ length queue + n =
          omega (arith, length-append queue src) in
        let whole : length queue + length (drop n src) - cap ≡ length queue =
          omega (arith, length-drop n src) in
        rw c (
          ap (λ t. drop t queue ++ drop n src) whole
          ∙ ap (λ t. t ++ drop n src) (drop-all queue)
          ∙ sym (drop-append_past n queue src)
          ∙ ap (λ t. drop t (queue ++ src)) (sym all))
    | inr c ↦
        let fits : length src ≤ cap = ground (arith, c) in
        let all : length (queue ++ src) - cap ≡ length queue + length src - cap =
          ap (λ t. t - cap) (length-append queue src) in
        rw c (
          sym (drop-append_in (length queue + length src - cap) queue src (omega arith))
          ∙ ap (λ t. drop t (queue ++ src)) (sym all))
  ]

  tail_of_bounds :
      (cap : ℕ) (src : List Frame)
      → 0 < cap
      → 0 < length src
      → (0 < length (tail_of fs cap src)) × (length (tail_of fs cap src) ≤ cap)
  tail_of_bounds cap src pos h = ground (arith, length-drop (length src - cap) src)

  -- A write appends its floats to the queue, of which the newest stay that the ring has room for.
  pub write-Implements :
      (b : CircularBuffer fs) (queue src : List Frame)
      → 0 < length src
      → Implements b queue
      → Implements (write fs b src) (newest b.capacity (queue ++ src))
  unfolding write
  write-Implements b queue src h i =
      let tail = tail_of fs b.capacity src in
      let (some_floats, fits) = tail_of_bounds b.capacity src i.some_room h in
      let (roomy, room) = make_room-Implements b queue (length tail) fits i in
      let held = length-queue b queue i in
      let some_src : eqb (length src) 0 ≡ false = ground arith in
      rw (write, some_src)
        (subst (Implements (put fs (make_room fs b (length tail)) tail))
          (ap (λ t. drop (t + length tail - b.capacity) queue ++ tail) (sym held)
            ∙ newest_lem b.capacity queue src (omega (arith, held, i.bounded)))
          (put-Implements (make_room fs b (length tail)) _ tail some_floats room roomy))

  -- A new ring holds the empty queue.
  pub new_circular_buffer-Implements :
      (config : CircularBufferConfig)
      → 0 < (new_circular_buffer fs config).capacity
      → Implements (new_circular_buffer fs config) []
  unfolding new_circular_buffer
  new_circular_buffer-Implements config h = record {
    stream = [];
    some_room = h;
    ring_length = length-replicate _ fs.silence;
    held = λ p k near. absurd (omega arith);
    bounded = omega arith;
    enough = omega arith;
    write_at = sym (mod-eq_of_lt {n = 0} h);
    read_at = sym (mod-eq_of_lt {n = 0} h);
    contents = refl;
  }
