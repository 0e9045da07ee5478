-- ===== src/Buffers/Jitter/Playback/Reads.antt =====
-- `Read` on the stream: where it starts, and what it plays.
use native.Mathlib.Decide.{dec_lt, dec_le}
use panaudia.Base.{
  ℕ, ◌+◌, ◌≤◌, ◌<◌, ◌≡◌, refl, ◌⊎◌, inl, inr, List, Bool, true, false, ◌&&◌, arith, leb, ltb, eqb,
  Bool-cases, le→leb, gt→leb, lt→ltb, ge→ltb, replicate,
}
use panaudia.Buffers.Jitter.{Frames, snap_target, drop_line, overrun_at}
use panaudia.Buffers.Jitter.Levels.{levels_ordered}
use panaudia.Buffers.Jitter.Playback.{
  Jitter, read, recover, serve, play, play_drop, play_insert, play_plain, fill, resync,
}
use panaudia.Buffers.Jitter.Playback.Valid.{IsValid, recover_bounds, started, resync-IsValid}
use panaudia.Buffers.Jitter.Playback.Stream.{Follows, Plays, play-Plays}

module _ (fs : Frames) where
  open fs use {Frame, silence, average}

  -- Neither the ring nor what was written changes when the read position moves.
  resync-Follows :
      (j : Jitter fs) (stream : List Frame) → Follows fs j stream → Follows fs (started fs j) stream
  resync-Follows j stream f = elim (Bool-cases (eqb j.read_pos 0)) [
    | inl e ↦ rw e (record { written = f.written; held = f.held })
    | inr e ↦ rw e f
  ]

  recover-Follows :
      (j : Jitter fs) (stream : List Frame) → Follows fs j stream → Follows fs (recover fs j) stream
  unfolding recover
  recover-Follows j stream f = elim (Bool-cases (leb j.geo.capacity (fill fs j))) [
    | inl e ↦ rw e (record { written = f.written; held = f.held })
    | inr e ↦ elim (Bool-cases (ltb (overrun_at j.geo j.control) (fill fs j))) [
      | inl o ↦ rw (e, o) (record { written = f.written; held = f.held })
      | inr o ↦ rw (e, o) f
    ]
  ]

  -- Where a read starts: at the read position, or one operating point behind the writer.
  abbrev pub From : Jitter fs → ℕ → Type 0
  From j rp = (rp ≡ j.read_pos) ⊎ (rp + snap_target j.geo j.control ≡ j.write_pos)

  recover-From : (j : Jitter fs) → IsValid fs j → From j (recover fs j).read_pos
  unfolding recover
  recover-From j v = elim (dec_le j.geo.capacity (fill fs j)) [
    | yes lapped ↦
        rw (le→leb j.geo.capacity (fill fs j) lapped) (inr (omega (arith, order, v.behind)))
    | no fits ↦ elim (dec_lt (overrun_at j.geo j.control) (fill fs j)) [
      | yes over ↦
          rw
            (
              gt→leb j.geo.capacity (fill fs j) (omega arith),
              lt→ltb (overrun_at j.geo j.control) (fill fs j) over,
            )
            (inr (omega (arith, order, v.behind)))
      | no fine ↦
          rw
            (
              gt→leb j.geo.capacity (fill fs j) (omega arith),
              ge→ltb (overrun_at j.geo j.control) (fill fs j) (omega arith),
            )
            (inl refl)
    ]
  ]
    where
      order :
          (snap_target j.geo j.control ≤ overrun_at j.geo j.control)
          × (overrun_at j.geo j.control < j.geo.capacity)
      order = omega (
        arith,
        levels_ordered {g = j.geo} j.control.current_l j.control.current_h v.sound v.window.l_to
            v.window.h_to,
      )

  -- The fields that `recover` and the start leave alone.
  recover_same :
      (j : Jitter fs) → ((recover fs j).geo ≡ j.geo) × ((recover fs j).write_pos ≡ j.write_pos)
  unfolding recover
  recover_same j = (ground arith, ground arith)

  -- What a read into `n` frames returns, and the read position after it.
  pub data Outcome (j : Jitter fs) (stream : List Frame) (n : ℕ) (heard : Bool) (out : List Frame)
      (after : ℕ) : Type 0 where
    audio :
        (rp : ℕ)
        → heard ≡ true
        → From j rp
        → Plays fs stream rp n out after
        → Outcome j stream n heard out after
    starting :
        heard ≡ false
        → out ≡ replicate n silence
        → j.read_pos ≡ 0
        → fill fs j < snap_target j.geo j.control
        → after ≡ j.read_pos
        → Outcome j stream n heard out after
    underrun :
        heard ≡ false
        → out ≡ replicate n silence
        → From j after
        → j.write_pos < after + n
        → Outcome j stream n heard out after

  -- The buffer that a read serves from, if it is not still filling up for the first time.
  abbrev served : Jitter fs → Jitter fs
  served j = recover fs (started fs j)

  served-IsValid :
      (j : Jitter fs)
      → IsValid fs j
      → IsValid fs (served j)
        × ((served j).write_pos ≡ j.write_pos)
        × (fill fs (served j) < (served j).geo.capacity)
  served-IsValid j v = elim (Bool-cases (eqb j.read_pos 0)) [
    | inl e ↦ rw e (
        ground (
          arith,
          recover_bounds fs (resync fs j) (resync-IsValid fs j v),
          recover_same (resync fs j),
        ))
    | inr e ↦ rw e (ground (arith, recover_bounds fs j v, recover_same j))
  ]

  served-From :
      (j : Jitter fs)
      → IsValid fs j
      → eqb j.read_pos 0 && ltb (fill fs j) (snap_target j.geo j.control) ≡ false
      → From j (served j).read_pos
  served-From j v w = elim (Bool-cases (eqb j.read_pos 0)) [
    | inl e ↦ rw e (ground (arith, recover-From (resync fs j) (resync-IsValid fs j v), v.behind))
    | inr e ↦ rw e (recover-From j v)
  ]

  -- A read of at least one frame, from a valid buffer that follows a stream, gives silence only
  -- where the first operating point is not yet full or fewer frames than it asks for are buffered;
  -- else it plays the frames of the stream in order, from the read position or from one operating
  -- point behind the writer, with at most one frame dropped or one put in.
  pub read-Outcome :
      (j : Jitter fs) (stream : List Frame) (n : ℕ)
      → IsValid fs j
      → Follows fs j stream
      → 0 < n
      → let (heard, out, k) = read fs j n in Outcome j stream n heard out k.read_pos
  unfolding read serve
  read-Outcome j stream n v f some_frames =
      elim (Bool-cases (eqb j.read_pos 0 && ltb (fill fs j) (snap_target j.geo j.control))) [
        | inl w ↦ rw (not_empty, w) (starting refl refl (ground arith) (ground arith) refl)
        | inr w ↦
            rw (not_empty, w)
              (elim (dec_lt (fill fs (served j)) n) [
                | yes short ↦
                    rw (lt→ltb (fill fs (served j)) n short)
                      (underrun refl refl (served-From j v w) (omega (arith, ok, ok.0.behind)))
                | no enough ↦ rw (ge→ltb (fill fs (served j)) n (omega arith)) (
                    audio (served j).read_pos refl (served-From j v w) (
                      play-Plays fs (served j) stream n ok.0
                        (recover-Follows (started fs j) stream (resync-Follows j stream f))
                        some_frames (omega arith) ok.2))
              ])
      ]
    where
      not_empty : eqb n 0 ≡ false
      not_empty = ground arith

      ok :
          IsValid fs (served j)
          × ((served j).write_pos ≡ j.write_pos)
          × (fill fs (served j) < (served j).geo.capacity)
      ok = served-IsValid j v

  play-Follows :
      (j : Jitter fs) (stream : List Frame) (n : ℕ)
      → Follows fs j stream
      → Follows fs (play fs j n).1 stream
  unfolding play play_drop play_insert play_plain
  play-Follows j stream n f =
      elim (Bool-cases (ltb (drop_line j.geo j.control) (fill fs j) && leb (n + 1) (fill fs j))) [
        | inl e ↦ rw e (record { written = f.written; held = f.held })
        | inr e ↦ elim (Bool-cases (ltb (fill fs j) j.geo.floor && leb 2 n)) [
          | inl i ↦ rw (e, i) (record { written = f.written; held = f.held })
          | inr i ↦ rw (e, i) (record { written = f.written; held = f.held })
        ]
      ]

  serve-Follows :
      (j : Jitter fs) (stream : List Frame) (n : ℕ)
      → Follows fs j stream
      → Follows fs (serve fs j n).2 stream
  unfolding serve
  serve-Follows j stream n f = elim (Bool-cases (ltb (fill fs j) n)) [
    | inl e ↦ rw e (record { written = f.written; held = f.held })
    | inr e ↦
        let played = play-Follows j stream n f in
        rw e (record { written = played.written; held = played.held })
  ]

  -- A read takes nothing out of the ring: the buffer follows the same stream after it.
  pub read-Follows :
      (j : Jitter fs) (stream : List Frame) (n : ℕ)
      → Follows fs j stream
      → Follows fs (read fs j n).2 stream
  unfolding read
  read-Follows j stream n f = elim (Bool-cases (eqb n 0)) [
    | inl e ↦ rw e f
    | inr e ↦
        elim (Bool-cases (eqb j.read_pos 0 && ltb (fill fs j) (snap_target j.geo j.control))) [
          | inl w ↦ rw (e, w) (record { written = f.written; held = f.held })
          | inr w ↦
              rw (e, w)
                (serve-Follows (served j) stream n
                  (recover-Follows (started fs j) stream (resync-Follows j stream f)))
        ]
  ]
