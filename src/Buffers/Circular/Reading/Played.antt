-- ===== src/Buffers/Circular/Reading/Played.antt =====
-- What a read plays of the queue, and what it leaves.
use panaudia.Base.{
  ℕ, zero, suc, ◌+◌, ◌-◌, ◌≤◌, ◌≡◌, refl, sym, ap, ◌∙◌, ◌⊎◌, Bool, List, [], ◌∷◌, ◌++◌, if_both,
  set, take, drop, replicate, length, min, length-append, length-replicate, length-take, length-set,
  take-append, arith,
}
use panaudia.Buffers.Copy.{overwrite, length-overwrite}
use panaudia.Buffers.Jitter.{Frames}
use panaudia.Buffers.Circular.{CircularBuffer, skip, copy_from_ring}
use panaudia.Buffers.Circular.Queue.{Implements, skip-Implements, copy_from_ring_lem, length-queue}
use panaudia.Buffers.Circular.Reading.{
  padded, read_drop, repeat_last, real_floats, notify_miss, read_insert, read_plain,
}

take-set :
    {A : Type 0} (n : ℕ) (xs : List A) (i : ℕ) (v : A) → n ≤ i → take n (set xs i v) ≡ take n xs
take-set zero xs i v h = refl
take-set (suc n) [] i v h = refl
take-set (suc n) (x ∷ xs) zero v h = absurd (omega arith)
take-set (suc n) (x ∷ xs) (suc i) v h = ap (λ t. x ∷ t) (take-set n xs i v (omega arith))

take-overwrite :
    {A : Type 0} (xs src : List A)
    → length src ≤ length xs
    → take (length src) (overwrite xs 0 src) ≡ src
unfolding overwrite
take-overwrite xs [] h = refl
take-overwrite [] (s ∷ src) h = elim h [ ]
take-overwrite (x ∷ xs) (s ∷ src) h = ap (λ t. s ∷ t) (take-overwrite xs src (omega arith))

take-front : {A : Type 0} (xs ys : List A) (n : ℕ) → n ≡ length xs → take n (xs ++ ys) ≡ xs
take-front xs ys n e = ap (λ k. take k (xs ++ ys)) e ∙ take-append xs ys

module _ (fs : Frames) where
  open fs use {Frame, silence}

  length-repeat_last :
      (count i real last nc : ℕ) (dst : List Frame)
      → length (repeat_last fs count i real last nc dst) ≡ length dst
  unfolding repeat_last
  length-repeat_last zero i real last nc dst = refl
  length-repeat_last (suc count) i real last nc dst =
      length-repeat_last count (suc i) real last nc _ ∙ length-set dst i _

  take-repeat_last :
      (count i real last nc n : ℕ) (dst : List Frame)
      → n ≤ i
      → take n (repeat_last fs count i real last nc dst) ≡ take n dst
  unfolding repeat_last
  take-repeat_last zero i real last nc n dst h = refl
  take-repeat_last (suc count) i real last nc n dst h =
      take-repeat_last count (suc i) real last nc n _ (omega arith) ∙ take-set n dst i _ h

  -- What a read gives of a queue: the front of the queue, and of `n` floats all but one sample per
  -- channel, or the whole queue.
  pub record Plays (queue : List Frame) (nc n : ℕ) (out : List Frame) (after : CircularBuffer fs)
      : Type 0 where
    pub real : ℕ
    pub used : ℕ
    pub front : take real out ≡ take real queue
    pub sized : length out ≡ n
    pub rest : Implements fs after (drop used queue)
    pub real_used : real ≤ used
    pub used_bound : used ≤ real + nc
    pub enough : (n ≤ real + nc) ⊎ (used ≡ length queue)

  length-copied :
      (b : CircularBuffer fs) (queue : List Frame) (n : ℕ)
      → n ≤ b.buffered
      → Implements fs b queue
      → length (copy_from_ring fs b n) ≡ n
  length-copied b queue n h i =
      ap length (copy_from_ring_lem fs b queue n h i)
      ∙ length-take n queue
      ∙ omega (arith, length-queue fs b queue i)

  real_bounds :
      (b : CircularBuffer fs) (dst : List Frame)
      → b.num_channels ≤ length dst
      → (real_floats fs b (length dst) ≤ b.buffered) × (real_floats fs b (length dst) ≤ length dst)
  real_bounds b dst h = ground arith

  read_plain-front :
      (b : CircularBuffer fs) (queue : List Frame) (n : ℕ)
      → Implements fs b queue
      → take (min n b.buffered) (padded fs b n) ≡ take (min n b.buffered) queue
  unfolding padded
  read_plain-front b queue n i =
      let real = min n b.buffered in
      let copied = length-copied b queue real (omega arith) i in
      take-front (copy_from_ring fs b real) (replicate (n - real) silence) real (sym copied)
      ∙ copy_from_ring_lem fs b queue real (omega arith) i

  pub read_plain-Plays :
      (b : CircularBuffer fs) (queue : List Frame) (n : ℕ)
      → Implements fs b queue
      → Plays queue b.num_channels n (read_plain fs b n).0 (read_plain fs b n).1
  unfolding read_plain padded
  read_plain-Plays b queue n i =
      let real = min n b.buffered in
      let copied = length-copied b queue real (omega arith) i in
      let pad = replicate (n - real) silence in
      record {
        real = real;
        used = real;
        front = read_plain-front b queue n i;
        sized =
            length-append (copy_from_ring fs b real) pad
            ∙ omega (arith, copied, length-replicate (n - real) silence);
        rest = skip-Implements fs b queue real (omega arith) i;
        real_used = omega arith;
        used_bound = omega arith;
        enough = omega (arith, length-queue fs b queue i);
      }

  -- What a read counts does not touch the ring.
  pub relabel :
      (b : CircularBuffer fs) (queue : List Frame) (p : Bool) (c u o d i : ℕ) (ms : List ℕ)
      → Implements fs b queue
      → Implements fs
          (record b {
            playing = p;
            correction_counter = c;
            underrun_count = u;
            overrun_count = o;
            samples_dropped = d;
            samples_inserted = i;
            misses = ms;
          })
          queue
  relabel b queue p c u o d i ms h = record {
    stream = h.stream;
    some_room = h.some_room;
    ring_length = h.ring_length;
    held = h.held;
    bounded = h.bounded;
    enough = h.enough;
    write_at = h.write_at;
    read_at = h.read_at;
    contents = h.contents;
  }

  notify_miss-Implements :
      (b : CircularBuffer fs) (queue : List Frame) (kind : ℕ)
      → Implements fs b queue
      → Implements fs (notify_miss fs b kind) queue
  notify_miss-Implements b queue kind h =
      if_both (λ (c : CircularBuffer fs). Implements fs c queue) b.has_delegate
        (relabel b queue _ _ _ _ _ _ _ h) h

  pub read_drop-Plays :
      (b : CircularBuffer fs) (queue : List Frame) (n : ℕ)
      → Implements fs b queue
      → Plays queue b.num_channels n (read_drop fs b n).0 (read_drop fs b n).1
  unfolding read_drop read_plain
  read_drop-Plays b queue n i =
      let plain = read_plain-Plays b queue n i in
      let used = min (n + b.num_channels) b.buffered in
      record {
        real = min n b.buffered;
        used = used;
        front = read_plain-front b queue n i;
        sized = plain.sized;
        rest = notify_miss-Implements _ (drop used queue) 2 (
            relabel (skip fs b used) (drop used queue) _ _ _ _ _ _ _
              (skip-Implements fs b queue used (omega arith) i));
        real_used = omega arith;
        used_bound = omega arith;
        enough = omega (arith, length-queue fs b queue i);
      }

  pub read_insert-Plays :
      (b : CircularBuffer fs) (queue dst : List Frame)
      → b.num_channels ≤ length dst
      → Implements fs b queue
      → Plays queue b.num_channels (length dst) (read_insert fs b dst).0 (read_insert fs b dst).1
  unfolding read_insert
  read_insert-Plays b queue dst h i =
      let real = real_floats fs b (length dst) in
      let (all, kept) = real_bounds b dst h in
      let copied = copy_from_ring fs b real in
      let size = length-copied b queue real all i in
      let whole = overwrite dst 0 copied in
      record {
        real = real;
        used = real;
        front =
            take-repeat_last (length dst - real) real real (real - b.num_channels) b.num_channels
              real whole (omega arith)
            ∙ ap (λ k. take k whole) (sym size)
            ∙ take-overwrite dst copied (omega (arith, size))
            ∙ copy_from_ring_lem fs b queue real all i;
        sized =
            length-repeat_last (length dst - real) real real (real - b.num_channels) b.num_channels
              whole
            ∙ length-overwrite dst 0 copied;
        rest = notify_miss-Implements _ (drop real queue) 1 (
            relabel (skip fs b real) (drop real queue) _ _ _ _ _ _ _
              (skip-Implements fs b queue real all i));
        real_used = omega arith;
        used_bound = omega arith;
        enough = ground (arith, length-queue fs b queue i);
      }
