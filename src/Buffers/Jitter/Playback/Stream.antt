-- ===== src/Buffers/Jitter/Playback/Stream.antt =====
-- The buffer as a stream: what was written so far, and which part of it a read plays.
use panaudia.Base.{
  ℕ, suc, ◌+◌, ◌-◌, ◌%◌, ◌≤◌, ◌<◌, ◌≡◌, refl, ap, ◌∙◌, inl, inr, List, [], ◌∷◌, ◌++◌, some, ◌&&◌,
  Bool, true, false, if◌then◌else◌, arith, length, get_or, set, take, drop, leb, ltb, eqb,
  Bool-cases, subst, lt→ltb, length-drop, length-append,
}
use panaudia.Buffers.Copy.{get_or-congr, set-take_last, get_elem?-take, get_elem?-drop}
use panaudia.Buffers.Jitter.{Frames, Config, drop_line}
use panaudia.Buffers.Jitter.Playback.{
  Jitter, new_jitter, write, play, play_drop, play_insert, play_plain, fill, clipped,
  read_from_ring, write_to_ring,
}
use panaudia.Buffers.Jitter.Playback.Ring.{Holds, write_to_ring-Holds, read_from_ring_lem}
use panaudia.Buffers.Jitter.Playback.Valid.{IsValid, new_jitter_lem}

module _ (fs : Frames) where
  open fs use {Frame, silence, average}

  -- The buffer has been written the frames of `stream`, and its ring holds the last of them.
  pub record Follows (j : Jitter fs) (stream : List Frame) : Type 0 where
    pub written : length stream ≡ j.write_pos
    pub held : Holds fs j.geo.capacity j.data_ring stream

  -- A new buffer follows the empty stream.
  pub new_jitter-Follows :
      (cfg : Config) {j : Jitter fs} → new_jitter fs cfg ≡ some j → Follows j []
  new_jitter-Follows cfg e =
      subst (λ j. Follows j []) (new_jitter_lem fs cfg e).1
        (record { written = refl; held = λ p h _. absurd (omega arith) })

  clipped_bounds :
      (j : Jitter fs) (src : List Frame)
      → 0 < j.geo.capacity
      → 0 < length src
      → (0 < length (clipped fs j src)) × (length (clipped fs j src) ≤ j.geo.capacity)
  clipped_bounds j src pos h = ground (arith, length-drop (length src - j.geo.capacity) src)

  appended :
      (j : Jitter fs) (src stream : List Frame)
      → IsValid fs j
      → 0 < length src
      → Follows j stream
      → Follows (write fs j src) (stream ++ clipped fs j src)
  unfolding write
  appended j src stream v h f = elim (Bool-cases (eqb (length src) 0)) [
    | inl e ↦ absurd (ground arith)
    | inr e ↦ rw e (record {
      written =
          length-append stream (clipped fs j src)
          ∙ ap (λ k. k + length (clipped fs j src)) f.written;
      held =
          subst
            (λ k.
              Holds fs j.geo.capacity
                (write_to_ring fs j.geo.capacity j.data_ring (clipped fs j src) k)
                (stream ++ clipped fs j src))
            f.written
            (write_to_ring-Holds fs j.geo.capacity j.data_ring stream v.ring_length
              (clipped fs j src) bounds.0 bounds.1 f.held);
    })
  ]
    where
      bounds : (0 < length (clipped fs j src)) × (length (clipped fs j src) ≤ j.geo.capacity)
      bounds = clipped_bounds j src (omega (arith, v.sound.roomy)) h

  -- A write of at least one frame to a valid buffer appends its frames to the stream that the
  -- buffer follows, but for the oldest of them when the ring has not room for all.
  pub write-Follows :
      (j : Jitter fs) (src stream : List Frame)
      → IsValid fs j
      → 0 < length src
      → Follows j stream
      → Follows (write fs j src) (stream ++ drop (length src - j.geo.capacity) src)
  write-Follows j src stream v h f =
      subst (λ t. Follows (write fs j src) (stream ++ t))
        (newest (ltb j.geo.capacity (length src)) refl) (appended j src stream v h f)
    where
      newest :
          (b : Bool)
          → ltb j.geo.capacity (length src) ≡ b
          → (if b then drop (length src - j.geo.capacity) src else src)
            ≡ drop (length src - j.geo.capacity) src
      newest true e = refl
      newest false e =
          let none_lost : length src - j.geo.capacity ≡ 0 = ground (arith, e) in rw none_lost refl

  -- Three ways to play `n` frames of the stream from the position `rp` on, with the read position
  -- after it. The last frame of the first two is the average with the frame at the splice.
  pub data Plays (stream : List Frame) (rp n : ℕ) (out : List Frame) (after : ℕ) : Type 0 where
    dropping :
        rp + n < length stream
        → out
          ≡ take (n - 1) (drop rp stream)
            ++ (average (get_or stream (rp + (n - 1)) silence) (get_or stream (rp + n) silence)
                ∷ [])
        → after ≡ rp + n + 1
        → Plays stream rp n out after
    inserting :
        2 ≤ n
        → rp + (n - 1) < length stream
        → out
          ≡ take (n - 1) (drop rp stream)
            ++ (average
                  (get_or stream (rp + (n - 1 - 1)) silence)
                  (get_or stream (rp + (n - 1)) silence)
                ∷ [])
        → after ≡ rp + (n - 1)
        → Plays stream rp n out after
    plain :
        rp + n ≤ length stream
        → out ≡ take n (drop rp stream)
        → after ≡ rp + n
        → Plays stream rp n out after

  module _ (j : Jitter fs) (stream : List Frame) (n : ℕ) (v : IsValid fs j) (f : Follows j stream)
      (some_frames : 0 < n) (enough : n ≤ fill fs j) (near : fill fs j < j.geo.capacity) where
    reads :
        (m : ℕ)
        → m ≤ n
        → read_from_ring fs j.geo.capacity j.data_ring j.read_pos m
          ≡ take m (drop j.read_pos stream)
    reads m h =
        read_from_ring_lem fs j.geo.capacity j.data_ring stream v.ring_length j.read_pos m
          (omega arith) f.held (omega (arith, f.written, v.behind))
          (omega (arith, f.written, v.behind)) (omega arith)

    taken_at :
        (m k : ℕ)
        → k < m
        → get_or (take m (drop j.read_pos stream)) k silence
          ≡ get_or stream (j.read_pos + k) silence
    taken_at m k h =
        get_or-congr (take m (drop j.read_pos stream)) stream k (j.read_pos + k) silence (
          get_elem?-take m (drop j.read_pos stream) k
          ∙ rw (lt→ltb k m h) (get_elem?-drop j.read_pos stream k))

    ring_at :
        (p : ℕ)
        → p < length stream
        → length stream ≤ p + j.geo.capacity
        → get_or j.data_ring (p % j.geo.capacity) silence ≡ get_or stream p silence
    ring_at p h k = get_or-congr j.data_ring stream (p % j.geo.capacity) p silence (f.held p h k)

    play_drop-Plays :
        n + 1 ≤ fill fs j
        → Plays stream j.read_pos n (play_drop fs j n).0 (play_drop fs j n).1.read_pos
    unfolding play_drop
    play_drop-Plays h = dropping (omega (arith, f.written)) averaged refl
      where
        rest : List Frame
        rest = drop j.read_pos stream

        last : Frame
        last =
            average (get_or stream (j.read_pos + (n - 1)) silence)
              (get_or stream (j.read_pos + n) silence)

        averaged : (play_drop fs j n).0 ≡ take (n - 1) rest ++ (last ∷ [])
        averaged =
            rw
              (
                reads n (omega arith),
                taken_at n (n - 1) (omega arith),
                ring_at (j.read_pos + n) (omega (arith, f.written)) (omega (arith, f.written)),
              )
              (ap (λ k. set (take k rest) (n - 1) last) {x = n} {y = suc (n - 1)} (omega arith)
                ∙ set-take_last (n - 1) rest last
                    (omega (arith, f.written, length-drop j.read_pos stream)))

    play_insert-Plays :
        2 ≤ n → Plays stream j.read_pos n (play_insert fs j n).0 (play_insert fs j n).1.read_pos
    unfolding play_insert
    play_insert-Plays h =
        inserting h (omega (arith, f.written))
          (rw (
            reads (n - 1) (omega arith),
            taken_at (n - 1) (n - 1 - 1) (omega arith),
            ring_at (j.read_pos + (n - 1)) (omega (arith, f.written)) (omega (arith, f.written)),
          ))
          refl

    pub play-Plays : Plays stream j.read_pos n (play fs j n).0 (play fs j n).1.read_pos
    unfolding play play_plain
    play-Plays =
        elim (Bool-cases (ltb (drop_line j.geo j.control) (fill fs j) && leb (n + 1) (fill fs j))) [
          | inl e ↦ rw e (play_drop-Plays (ground arith))
          | inr e ↦ elim (Bool-cases (ltb (fill fs j) j.geo.floor && leb 2 n)) [
            | inl i ↦ rw (e, i) (play_insert-Plays (ground arith))
            | inr i ↦
                rw (e, i) (plain (omega (arith, f.written, v.behind)) (reads n (omega arith)) refl)
          ]
        ]
