-- ===== src/StateCache/Store/Writing.antt =====
-- `writeOp` while the head segment has room, and the representation that it relies on.
pub mod Room
pub mod Advance
pub mod Calls
use panaudia.Base.{
  ℕ, zero, suc, ◌+◌, ◌-◌, ◌/◌, ◌%◌, ◌≤◌, ◌<◌, ◌≡◌, ◌≢◌, refl, sym, ap, List, [], ◌∷◌, ◌++◌, Option,
  none, some, Bool, true, false, ◌&&◌, eqb, ltb, if◌then◌else◌, arith, length, get_or, set, All,
  All-get_or, get_or-set_self, get_or-set_ne, length-set, replicate,
}
use panaudia.StateCache.{Op}
use panaudia.StateCache.Store.{
  StateStore, Segment, Config, new, segment, put_segment, empty_segment, segment_ops, segments_ops,
  slot_ops, filled, tail_ops, uncompacted, start, check_pressure, under_pressure, snapshot,
}
use panaudia.StateCache.Store.Compaction.{Keyed, snapshot_lem}
use panaudia.StateCache.Store.Segments.{segments_ops-congr, epoch_ne}

-- What every call keeps.
pub record IsValid (s : StateStore) : Type 0 where
  pub ring_length : length s.ring ≡ s.ring_size
  pub ring_pos : 0 < s.ring_size
  pub cap_pos : 0 < s.seg_cap
  pub slots_length : All (λ g. length g.slots ≡ s.seg_cap) s.ring
  pub head_epoch : (segment s s.head).epoch ≡ s.head / s.ring_size
  pub through_le : s.snap.through ≤ s.head
  pub head_cursor_le :
      s.snap.compacted ≡ true
      → s.snap.through ≡ s.head
      → s.snap.head_cursor ≤ filled s (segment s s.head)
  pub keyed : Keyed s.snap.entries

module _ {s : StateStore} (v : IsValid s) where
  pub place_lt : (i : ℕ) → i % s.ring_size < length s.ring
  place_lt i = omega (arith, v.ring_length, v.ring_pos)

  pub length-slots : (i : ℕ) → length (segment s i).slots ≡ s.seg_cap
  length-slots i =
      All-get_or (λ g. length g.slots ≡ s.seg_cap) s.ring (i % s.ring_size) (empty_segment 0)
        v.slots_length (place_lt i)

  pub segment-put_self : (i : ℕ) (g : Segment) → segment (put_segment s i g) i ≡ g
  segment-put_self i g = get_or-set_self s.ring (i % s.ring_size) g (empty_segment 0) (place_lt i)

pub segment-put_ne :
    (s : StateStore) (i j : ℕ) (g : Segment)
    → i % s.ring_size ≢ j % s.ring_size
    → segment (put_segment s i g) j ≡ segment s j
segment-put_ne s i j g ne =
    get_or-set_ne s.ring (i % s.ring_size) (j % s.ring_size) g (empty_segment 0) ne

-- What `segment_ops` reads of a store.
pub segment_ops-congr :
    (s t : StateStore) (i : ℕ)
    → s.ring_size ≡ t.ring_size
    → s.seg_cap ≡ t.seg_cap
    → segment s i ≡ segment t i
    → segment_ops s i ≡ segment_ops t i
unfolding segment_ops
segment_ops-congr s t i r c e = ground arith

-- A segment of an earlier ring pass whose place was taken over reads as nothing.
pub segment_ops-stale :
    (s : StateStore) (i h : ℕ)
    → (segment s h).epoch ≡ h / s.ring_size
    → i < h
    → i % s.ring_size ≡ h % s.ring_size
    → segment_ops s i ≡ []
unfolding segment_ops
segment_ops-stale s i h e lt p = ground (arith, epoch_ne s.ring_size i h lt p)

-- The signal is no part of what is read.
segments_ops-signal :
    (s : StateStore) (i n : ℕ)
    → segments_ops (record s { signalled = true }) i n ≡ segments_ops s i n
segments_ops-signal s i n =
    segments_ops-congr (record s { signalled = true }) s i n
      (λ j _ _. segment_ops-congr (record s { signalled = true }) s j refl refl refl)

pub snapshot-check_pressure : (s : StateStore) → snapshot (check_pressure s) ≡ snapshot s
unfolding check_pressure tail_ops
snapshot-check_pressure s = ground (
  arith,
  snapshot_lem s,
  snapshot_lem (record s { signalled = true }),
  segments_ops-signal s (start s) (suc s.head - start s),
)
