-- ===== src/Buffers/Jitter/Playback/Valid.antt =====
-- The invariant of the buffer between calls.
use native.Mathlib.Decide.{dec_lt, dec_le}
use panaudia.Base.{
  ℕ, ◌+◌, ◌≤◌, ◌<◌, ◌≡◌, ◌∙◌, List, some, true, ◌&&◌, arith, length, leb, ltb, eqb, if◌then◌else◌,
  length-replicate, Bool-cases, inl, inr, subst, le→leb, gt→leb, lt→ltb, ge→ltb,
}
use panaudia.Buffers.Jitter.{
  Frames, Config, Control, Stats, sizes, accepted, geometry_of, ring_capacity, snap_target,
  drop_line, overrun_at, adapt,
}
use panaudia.Buffers.Jitter.Levels.{IsSound, geometry_of-IsSound, levels_ordered}
use panaudia.Buffers.Jitter.Window.{InBounds, adapt-InBounds}
use panaudia.Buffers.Jitter.Playback.{
  Jitter, fresh, new_jitter, write, read, recover, serve, play, play_drop, play_insert, play_plain,
  fill, resync, tick, clipped,
}
use panaudia.Buffers.Jitter.Playback.Ring.{length-write_to_ring}

module _ (fs : Frames) where
  open fs use {Frame, silence}

  pub record IsValid (j : Jitter fs) : Type 0 where
    pub sound : IsSound j.geo
    pub window : InBounds j.geo j.control
    pub ring_length : length j.data_ring ≡ j.geo.capacity
    pub behind : j.read_pos ≤ j.write_pos

  fresh-IsValid : (cfg : Config) → accepted (sizes cfg) ≡ true → IsValid (fresh fs cfg)
  unfolding geometry_of
  fresh-IsValid cfg e = record {
    sound = sound.0;
    window = record {
      l_from = sound.1;
      l_to = sound.2;
      h_from = sound.3;
      h_to = sound.4;
      reads = sound.0.windows;
    };
    ring_length = length-replicate (ring_capacity (sizes cfg)) silence;
    behind = omega arith;
  }
    where
      sound :
          IsSound (geometry_of (sizes cfg) cfg.has_delegate)
          × ((geometry_of (sizes cfg) cfg.has_delegate).l_min ≤ (sizes cfg).l_init)
          × ((sizes cfg).l_init ≤ (geometry_of (sizes cfg) cfg.has_delegate).l_max)
          × ((geometry_of (sizes cfg) cfg.has_delegate).h_min ≤ (sizes cfg).h_init)
          × ((sizes cfg).h_init ≤ (geometry_of (sizes cfg) cfg.has_delegate).h_max)
      sound = geometry_of-IsSound (sizes cfg) cfg.has_delegate e

  -- An accepted configuration gives the fresh buffer.
  pub new_jitter_lem :
      (cfg : Config) {j : Jitter fs}
      → new_jitter fs cfg ≡ some j
      → (accepted (sizes cfg) ≡ true) × (fresh fs cfg ≡ j)
  unfolding new_jitter
  new_jitter_lem cfg e = ground arith

  -- A new buffer is valid, for every configuration that is accepted.
  pub new_jitter-IsValid : (cfg : Config) {j : Jitter fs} → new_jitter fs cfg ≡ some j → IsValid j
  new_jitter-IsValid cfg e =
      let (good, is_fresh) = new_jitter_lem cfg e in subst IsValid is_fresh (fresh-IsValid cfg good)

  -- A write keeps a valid buffer valid.
  pub write-IsValid : (j : Jitter fs) (src : List Frame) → IsValid j → IsValid (write fs j src)
  unfolding write
  write-IsValid j src v = elim (Bool-cases (eqb (length src) 0)) [
    | inl e ↦ rw e v
    | inr e ↦ rw e (record {
      sound = v.sound;
      window = v.window;
      ring_length =
          length-write_to_ring fs j.geo.capacity j.data_ring (clipped fs j src) j.write_pos
          ∙ v.ring_length;
      behind = omega (arith, v.behind);
    })
  ]

  -- What a read changes: the read position, the window and the counters.
  moved :
      (j : Jitter fs) (rp : ℕ) (c : Control) (st : Stats)
      → IsValid j
      → rp ≤ j.write_pos
      → InBounds j.geo c
      → IsValid (record j { read_pos = rp; control = c; stats = st })
  moved j rp c st v h b = record {
    sound = v.sound;
    window = b;
    ring_length = v.ring_length;
    behind = h;
  }

  pub resync-IsValid : (j : Jitter fs) → IsValid j → IsValid (resync fs j)
  resync-IsValid j v = moved j _ j.control j.stats v (omega arith) v.window

  -- The recovery of a valid buffer keeps it valid and leaves less than a ring buffered, and no
  -- more than the overrun line.
  pub recover_bounds :
      (j : Jitter fs)
      → IsValid j
      → IsValid (recover fs j)
        × (fill fs (recover fs j) ≤ overrun_at j.geo j.control)
        × (fill fs (recover fs j) < j.geo.capacity)
  unfolding recover
  recover_bounds j v = elim (dec_le j.geo.capacity (fill fs j)) [
    | yes lapped ↦
        rw (le→leb j.geo.capacity (fill fs j) lapped) (
          moved j _ j.control _ v (omega arith) v.window,
          omega (arith, order),
          omega (arith, order),
        )
    | no fits ↦ elim (dec_lt (overrun_at j.geo j.control) (fill fs j)) [
      | yes over ↦
          rw
            (
              gt→leb j.geo.capacity (fill fs j) (omega arith),
              lt→ltb (overrun_at j.geo j.control) (fill fs j) over,
            )
            (
              moved j _ j.control _ v (omega arith) v.window,
              omega (arith, order),
              omega (arith, order),
            )
      | no fine ↦
          rw
            (
              gt→leb j.geo.capacity (fill fs j) (omega arith),
              ge→ltb (overrun_at j.geo j.control) (fill fs j) (omega arith),
            )
            (v, omega arith, omega arith)
    ]
  ]
    where
      order :
          (snap_target j.geo j.control ≤ overrun_at j.geo j.control)
          × (overrun_at j.geo j.control < j.geo.capacity)
      order = omega (
        arith,
        levels_ordered {g = j.geo} j.control.current_l j.control.current_h v.sound v.window.l_to
            v.window.h_to,
      )

  -- The first audio starts one operating point behind the writer.
  abbrev pub started : Jitter fs → Jitter fs
  started j = if eqb j.read_pos 0 then resync fs j else j

  pub started-IsValid : (j : Jitter fs) → IsValid j → IsValid (started j)
  started-IsValid j v = elim (Bool-cases (eqb j.read_pos 0)) [
    | inl e ↦ rw e (resync-IsValid j v)
    | inr e ↦ rw e v
  ]

  tick-IsValid : (j : Jitter fs) → IsValid j → IsValid (tick fs j)
  tick-IsValid j v =
      moved j j.read_pos (adapt j.geo j.control) j.stats v v.behind
        (adapt-InBounds v.sound v.window)

  play-IsValid : (j : Jitter fs) (n : ℕ) → IsValid j → n ≤ fill fs j → IsValid (play fs j n).1
  unfolding play play_drop play_insert play_plain
  play-IsValid j n v h =
      elim (Bool-cases (ltb (drop_line j.geo j.control) (fill fs j) && leb (n + 1) (fill fs j))) [
        | inl e ↦ rw e (moved j _ _ _ v (ground arith) (counted j.control _ _ v.window))
        | inr e ↦ elim (Bool-cases (ltb (fill fs j) j.geo.floor && leb 2 n)) [
          | inl i ↦ rw (e, i) (moved j _ _ _ v (omega arith) (counted j.control _ _ v.window))
          | inr i ↦ rw (e, i) (moved j _ j.control _ v (omega arith) v.window)
        ]
      ]
    where
      counted :
          (c : Control) (inserts drops : ℕ)
          → InBounds j.geo c
          → InBounds j.geo (record c { insert_count = inserts; drop_count = drops })
      counted c inserts drops b = record {
        l_from = b.l_from;
        l_to = b.l_to;
        h_from = b.h_from;
        h_to = b.h_to;
        reads = b.reads;
      }

  serve-IsValid : (j : Jitter fs) (n : ℕ) → IsValid j → IsValid (serve fs j n).2
  unfolding serve
  serve-IsValid j n v = elim (dec_lt (fill fs j) n) [
    | yes short ↦
        rw (lt→ltb (fill fs j) n short) (
          moved j j.read_pos (adapt j.geo j.control) _ v v.behind (adapt-InBounds v.sound v.window))
    | no enough ↦
        rw (ge→ltb (fill fs j) n (omega arith))
          (tick-IsValid (play fs j n).1 (play-IsValid j n v (omega arith)))
  ]

  -- A read keeps a valid buffer valid, whatever its branch: the reader never passes the writer,
  -- and the allowances stay within their bounds.
  pub read-IsValid : (j : Jitter fs) (n : ℕ) → IsValid j → IsValid (read fs j n).2
  unfolding read
  read-IsValid j n v = elim (Bool-cases (eqb n 0)) [
    | inl e ↦ rw e v
    | inr e ↦
        elim (Bool-cases (eqb j.read_pos 0 && ltb (fill fs j) (snap_target j.geo j.control))) [
          | inl w ↦ rw (e, w) (tick-IsValid j v)
          | inr w ↦
              rw (e, w)
                (serve-IsValid (recover fs (started j)) n
                  (recover_bounds (started j) (started-IsValid j v)).0)
        ]
  ]
