-- ===== src/StateCache/Store/Writing/Room.antt =====
-- A write to a head segment with room, and one that has to advance the head.
use panaudia.Base.{
  ℕ, suc, ◌+◌, ◌-◌, ◌%◌, ◌<◌, ◌≡◌, ◌≢◌, refl, sym, ◌∙◌, ap, List, [], ◌∷◌, ◌++◌, some, Bool, true,
  false, ◌&&◌, eqb, arith, set, map, lt→ltb, append_assoc, append-nil, Bool-cases, inl, inr,
}
use native.Mathlib.Decide.{ℕ_discrete}
use panaudia.StateCache.{Op}
use panaudia.StateCache.Store.{
  StateStore, segment, segment_ops, segments_ops, tail_ops, uncompacted, start, check_pressure,
  snapshot, claim, store_slot, write_op,
}
use panaudia.StateCache.Store.Compaction.{snapshot_lem}
use panaudia.StateCache.Store.Segments.{slot_ops-set, segments_ops-congr, segments_ops-last}
use panaudia.StateCache.Store.Writing.{
  IsValid, segment-put_ne, segment_ops-congr, segment_ops-stale, place_lt, length-slots,
}
use panaudia.Base.{get_or-set_self, length-set}

-- The store after the claim and the slot write of one round of `writeOp`.
abbrev pub written : StateStore → Op → StateStore
written s op = store_slot (claim s s.head) s.head (segment s s.head).cursor op

-- The last compaction covered the head segment.
abbrev pub covered : StateStore → Bool
covered s = s.snap.compacted && eqb s.snap.through s.head

pub uncompacted-covered : (s : StateStore) → covered s ≡ true → uncompacted s ≡ []
unfolding segments_ops
uncompacted-covered s c = let e : suc s.head - start s ≡ 0 = ground arith in rw e

pub tail_ops-uncovered : (s : StateStore) → covered s ≡ false → tail_ops s ≡ []
unfolding tail_ops
tail_ops-uncovered s c = ground arith

module _ (s : StateStore) (op : Op) (v : IsValid s) where
  segment-claim :
      segment (claim s s.head) s.head
      ≡ record (segment s s.head) { cursor = suc (segment s s.head).cursor }
  segment-claim = get_or-set_self s.ring (s.head % s.ring_size) _ _ (place_lt v s.head)

  pub segment-written : segment (written s op) s.head ≡ record {
    slots = set (segment s s.head).slots (segment s s.head).cursor (some op);
    cursor = suc (segment s s.head).cursor;
    epoch = (segment s s.head).epoch;
  }
  segment-written =
      get_or-set_self (claim s s.head).ring (s.head % s.ring_size) _ _ (
        omega (
          arith,
          place_lt v s.head,
          length-set s.ring (s.head % s.ring_size)
              (record (segment s s.head) { cursor = suc (segment s s.head).cursor }),
        ))
      ∙ ap
          (λ g. record {
            slots = set g.slots (segment s s.head).cursor (some op);
            cursor = g.cursor;
            epoch = g.epoch;
          })
          segment-claim

  segment-written_ne :
      (i : ℕ) → s.head % s.ring_size ≢ i % s.ring_size → segment (written s op) i ≡ segment s i
  segment-written_ne i ne =
      segment-put_ne (claim s s.head) s.head i _ ne ∙ segment-put_ne s s.head i _ ne

  module _ (room : (segment s s.head).cursor < s.seg_cap) where
    segment_ops-written : segment_ops (written s op) s.head ≡ segment_ops s s.head ++ (op ∷ [])
    unfolding segment_ops
    segment_ops-written = ground (
      arith,
      segment-written,
      v.head_epoch,
      length-slots v s.head,
      slot_ops-set (segment s s.head).slots op 0 (segment s s.head).cursor
          (segment s s.head).cursor,
    )

    segment_ops-written_before :
        (i : ℕ) → i < s.head → segment_ops (written s op) i ≡ segment_ops s i
    segment_ops-written_before i lt = elim (ℕ_discrete (s.head % s.ring_size) (i % s.ring_size)) [
      | yes e ↦
          segment_ops-stale (written s op) i s.head
            (ap (λ g. g.epoch) segment-written ∙ v.head_epoch) lt (sym e)
          ∙ sym (segment_ops-stale s i s.head v.head_epoch lt (sym e))
      | no ne ↦ segment_ops-congr (written s op) s i refl refl (segment-written_ne i ne)
    ]

    segments_ops-written :
        (i n : ℕ)
        → i + n ≡ s.head
        → segments_ops (written s op) i (suc n) ≡ segments_ops s i (suc n) ++ (op ∷ [])
    segments_ops-written i n e =
        segments_ops-last (written s op) i n
        ∙ ap (λ l. l ++ segment_ops (written s op) (i + n))
            (segments_ops-congr (written s op) s i n
              (λ j _ lt. segment_ops-written_before j (omega arith)))
        ∙ ap (λ k. segments_ops s i n ++ segment_ops (written s op) k) e
        ∙ ap (λ l. segments_ops s i n ++ l) segment_ops-written
        ∙ ap (λ k. segments_ops s i n ++ (segment_ops s k ++ (op ∷ []))) (sym e)
        ∙ sym (append_assoc (segments_ops s i n) (segment_ops s (i + n)) (op ∷ []))
        ∙ ap (λ l. l ++ (op ∷ [])) (sym (segments_ops-last s i n))

    tail_ops-written :
        s.snap.compacted ≡ true
        → s.snap.through ≡ s.head
        → tail_ops (written s op) ≡ tail_ops s ++ (op ∷ [])
    unfolding tail_ops
    tail_ops-written c t = ground (
      arith,
      segment-written,
      v.head_epoch,
      v.head_cursor_le c t,
      length-slots v s.head,
      slot_ops-set (segment s s.head).slots op s.snap.head_cursor
          ((segment s s.head).cursor - s.snap.head_cursor) (segment s s.head).cursor,
    )

    -- With the head compacted, the tail takes the new operation; otherwise the last segment does.
    pub snapshot-written : snapshot (written s op) ≡ snapshot s ++ (op ∷ [])
    snapshot-written = elim (Bool-cases (covered s)) [
      | inl c ↦
          snapshot_lem (written s op)
          ∙ ap (λ l. entries ++ l)
              (ground (
                arith,
                tail_ops-written,
                uncompacted-covered s c,
                uncompacted-covered (written s op) c,
                append-nil (tail_ops s),
                append-nil (tail_ops s ++ (op ∷ [])),
              ))
          ∙ tidy
      | inr c ↦
          snapshot_lem (written s op)
          ∙ ap (λ l. entries ++ l)
              (ground (
                arith,
                v.through_le,
                tail_ops-uncovered s c,
                tail_ops-uncovered (written s op) c,
                segments_ops-written (start s) (s.head - start s),
              ))
          ∙ tidy
    ]
      where
        entries : List Op
        entries = map (λ e. e.1) s.snap.entries

        tidy : entries ++ (tail_ops s ++ uncompacted s ++ (op ∷ [])) ≡ snapshot s ++ (op ∷ [])
        tidy =
            sym (append_assoc entries (tail_ops s ++ uncompacted s) (op ∷ []))
            ∙ ap (λ l. l ++ (op ∷ [])) (sym (snapshot_lem s))

-- One round of `writeOp` is enough.
pub write_op-room :
    (fuel : ℕ) (s : StateStore) (op : Op)
    → (segment s s.head).cursor < s.seg_cap
    → write_op (suc fuel) s op ≡ some (check_pressure (written s op))
unfolding write_op
write_op-room fuel s op room = rw (lt→ltb _ _ room)
