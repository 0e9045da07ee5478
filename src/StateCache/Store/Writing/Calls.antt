-- ===== src/StateCache/Store/Writing/Calls.antt =====
-- What a reader sees after a call of `writeOp`: where it appends, and where it loses operations.
use native.Mathlib.Decide.{ℕ_discrete, dec_lt}
use panaudia.Base.{
  ℕ, suc, ◌+◌, ◌-◌, ◌%◌, ◌≤◌, ◌<◌, ◌≡◌, refl, sym, ◌∙◌, ap, ◌⊎◌, List, [], ◌∷◌, ◌++◌, some, true,
  false, arith, map, append-nil, get_or-set_self, get_or,
}
use panaudia.StateCache.{Op}
use panaudia.StateCache.Store.{
  StateStore, Segment, segment, segment_ops, segments_ops, slot_ops, tail_ops, uncompacted, start,
  check_pressure, snapshot, claim, write_op, advance, next_segment, empty_segment,
}
use panaudia.StateCache.Store.Compaction.{snapshot_lem}
use panaudia.StateCache.Store.Segments.{segments_ops-congr, segments_ops-last, place_ne}
use panaudia.StateCache.Store.Writing.{
  IsValid, segment-put_ne, segment_ops-congr, snapshot-check_pressure, place_lt,
}
use panaudia.StateCache.Store.Writing.Room.{
  written, snapshot-written, write_op-room, covered, uncompacted-covered, tail_ops-uncovered,
}
use panaudia.StateCache.Store.Writing.Advance.{
  claimed, advance-claimed, segment-advanced, advanced-IsValid, written-IsValid,
  check_pressure-IsValid,
}

-- The operations of the snapshot proper.
abbrev pub entry_ops : StateStore → List Op
entry_ops s = map (λ e. e.1) s.snap.entries

-- A cursor that grows past the end of its segment is not seen.
segment_ops-grown :
    (s t : StateStore) (i : ℕ)
    → s.ring_size ≡ t.ring_size
    → s.seg_cap ≡ t.seg_cap
    → segment t i ≡ record (segment s i) { cursor = suc (segment s i).cursor }
    → s.seg_cap ≤ (segment s i).cursor
    → segment_ops t i ≡ segment_ops s i
unfolding segment_ops
segment_ops-grown s t i r c e full = ground arith

write_op-retry :
    (fuel : ℕ) (s : StateStore) (op : Op)
    → s.seg_cap ≤ (segment s s.head).cursor
    → write_op (suc fuel) s op ≡ write_op fuel (advance (claim s s.head) s.head) op
unfolding write_op
write_op-retry fuel s op full = ground arith

module _ (s : StateStore) (v : IsValid s) (full : s.seg_cap ≤ (segment s s.head).cursor) where
  abbrev advanced : StateStore
  advanced = next_segment (claimed s v) s.head

  segment_ops-claimed : (i : ℕ) → segment_ops (claimed s v) i ≡ segment_ops s i
  segment_ops-claimed i = elim (ℕ_discrete (s.head % s.ring_size) (i % s.ring_size)) [
    | yes e ↦
        let same : segment s i ≡ segment s s.head =
          ap (λ k. get_or s.ring k (empty_segment 0)) (sym e) in
        segment_ops-grown s (claimed s v) i refl refl
          (ap (λ k. get_or (claimed s v).ring k (empty_segment 0)) (sym e)
            ∙ get_or-set_self s.ring (s.head % s.ring_size) _ (empty_segment 0) (place_lt v s.head)
            ∙ ap {A = Segment} {B = Segment} (λ g. record g { cursor = suc g.cursor }) (sym same))
          (rw same full)
    | no ne ↦ segment_ops-congr (claimed s v) s i refl refl (segment-put_ne s s.head i _ ne)
  ]

  segment_ops-advanced : segment_ops advanced (suc s.head) ≡ []
  unfolding segment_ops slot_ops
  segment_ops-advanced = ground (arith, segment-advanced s v)

  segments_ops-advanced :
      (i n : ℕ)
      → i + n ≡ suc s.head
      → suc s.head < i + s.ring_size
      → segments_ops advanced i (suc n) ≡ segments_ops s i n
  segments_ops-advanced i n e near =
      segments_ops-last advanced i n
      ∙ ap (λ k. segments_ops advanced i n ++ segment_ops advanced k) e
      ∙ ap (λ l. segments_ops advanced i n ++ l) segment_ops-advanced
      ∙ append-nil (segments_ops advanced i n)
      ∙ segments_ops-congr advanced s i n (λ j from below.
        segment_ops-congr advanced (claimed s v) j refl refl (
          segment-put_ne (claimed s v) (suc s.head) j _
            (λ q. place_ne s.ring_size j (suc s.head) (omega arith) (omega arith) (sym q)))
        ∙ segment_ops-claimed j)

  -- Advancing the head keeps the entries and the segments, and forgets the tail.
  snapshot-advanced :
      suc s.head < start s + s.ring_size → snapshot advanced ≡ entry_ops s ++ uncompacted s
  snapshot-advanced near =
      snapshot_lem advanced
      ∙ ap (λ l. entry_ops s ++ l)
          (ground (
            arith,
            v.through_le,
            tail_ops-uncovered advanced,
            segments_ops-advanced (start s) (suc s.head - start s),
          ))

  advanced_room : (segment advanced advanced.head).cursor < s.seg_cap
  advanced_room = omega (arith, ap (λ g. g.cursor) (segment-advanced s v), v.cap_pos)

  write_op-full :
      (fuel : ℕ) (op : Op)
      → write_op (suc (suc fuel)) s op ≡ some (check_pressure (written advanced op))
  write_op-full fuel op =
      write_op-retry (suc fuel) s op full
      ∙ ap (λ t. write_op (suc fuel) t op) (advance-claimed s v)
      ∙ write_op-room fuel advanced op advanced_room

-- In a valid store every call of `writeOp` returns within two rounds of its loop, and leaves the
-- store valid.
pub write_op-IsValid :
    (fuel : ℕ) (s : StateStore) (op : Op)
    → IsValid s
    → (t : StateStore) × (write_op (suc (suc fuel)) s op ≡ some t) × IsValid t
write_op-IsValid fuel s op v = elim (dec_lt (segment s s.head).cursor s.seg_cap) [
  | yes room ↦ (
    check_pressure (written s op),
    write_op-room (suc fuel) s op room,
    check_pressure-IsValid (written-IsValid s v op room),
  )
  | no full ↦
      let past : s.seg_cap ≤ (segment s s.head).cursor = omega arith in
      let next = next_segment (claimed s v) s.head in
      (
        check_pressure (written next op),
        write_op-full s v past fuel op,
        check_pressure-IsValid
            (written-IsValid next (advanced-IsValid s v) op (advanced_room s v past)),
      )
]

-- A write appends its operation to what readers see, and takes nothing away, in a valid store whose
-- head segment has room, or whose head segment was not covered by a compaction while the ring has
-- room for one more segment.
pub snapshot-write_op :
    (fuel : ℕ) (s : StateStore) (op : Op)
    → IsValid s
    → ((segment s s.head).cursor < s.seg_cap)
      ⊎ ((covered s ≡ false) × (suc s.head < start s + s.ring_size))
    → (t : StateStore) × (write_op (suc (suc fuel)) s op ≡ some t)
      × (snapshot t ≡ snapshot s ++ (op ∷ []))
snapshot-write_op fuel s op v h = elim (dec_lt (segment s s.head).cursor s.seg_cap) [
  | yes room ↦ (
    check_pressure (written s op),
    write_op-room (suc fuel) s op room,
    snapshot-check_pressure (written s op) ∙ snapshot-written s op v room,
  )
  | no full ↦
      let past : s.seg_cap ≤ (segment s s.head).cursor = omega arith in
      let next = next_segment (claimed s v) s.head in
      let clear : (covered s ≡ false) × (suc s.head < start s + s.ring_size) = ground arith in
      (
        check_pressure (written next op),
        write_op-full s v past fuel op,
        snapshot-check_pressure (written next op)
            ∙ snapshot-written next op (advanced-IsValid s v) (advanced_room s v past)
            ∙ ap (λ l. l ++ (op ∷ []))
                (snapshot-advanced s v past clear.1
                  ∙ ap (λ l. entry_ops s ++ (l ++ uncompacted s))
                      (sym (tail_ops-uncovered s clear.0))
                  ∙ sym (snapshot_lem s)),
      )
]

-- In a valid store, after a compaction that covered the head segment, the write that fills past
-- that segment drops every operation written to it since: readers saw the entries and then the
-- tail, and now see the entries and then the new operation alone.
pub write_op-drops_tail :
    (fuel : ℕ) (s : StateStore) (op : Op)
    → IsValid s
    → covered s ≡ true
    → s.seg_cap ≤ (segment s s.head).cursor
    → (t : StateStore) × (write_op (suc (suc fuel)) s op ≡ some t)
      × (snapshot s ≡ entry_ops s ++ tail_ops s)
      × (snapshot t ≡ entry_ops s ++ (op ∷ []))
write_op-drops_tail fuel s op v c full = (
  check_pressure (written next op),
  write_op-full s v full fuel op,
  snapshot_lem s
      ∙ ap (λ l. entry_ops s ++ (tail_ops s ++ l)) (uncompacted-covered s c)
      ∙ ap (λ l. entry_ops s ++ l) (append-nil (tail_ops s)),
  snapshot-check_pressure (written next op)
      ∙ snapshot-written next op (advanced-IsValid s v) (advanced_room s v full)
      ∙ ap (λ l. l ++ (op ∷ []))
          (snapshot-advanced s v full (ground (arith, v.ring_pos))
            ∙ ap (λ l. entry_ops s ++ l) (uncompacted-covered s c)
            ∙ append-nil (entry_ops s)),
)
  where
    next : StateStore
    next = next_segment (claimed s v) s.head
