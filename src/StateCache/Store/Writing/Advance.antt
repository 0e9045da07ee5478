-- ===== src/StateCache/Store/Writing/Advance.antt =====
-- The representation is kept by every call, and a full head segment is left for the next one.
use panaudia.Base.{
  ℕ, suc, ◌/◌, ◌%◌, ◌<◌, ◌≡◌, ◌∙◌, ap, none, some, ◌&&◌, eqb, arith, length, All, All-set,
  All-get_or, All-replicate, length-set, length-replicate, get_or-set_self, get_or-replicate,
  Bool-cases, inl, inr,
}
use panaudia.StateCache.{Op}
use panaudia.StateCache.Store.{
  StateStore, Segment, Config, new, segment, check_pressure, claim, advance, compact,
  compacted_snapshot, empty_segment, under_pressure, next_segment,
}
use panaudia.StateCache.Store.Compaction.{compact-Keyed}
use panaudia.StateCache.Store.Writing.{IsValid, length-slots}
use panaudia.StateCache.Store.Writing.Room.{written, segment-written}

-- A new store is valid, whatever the configuration.
pub new-IsValid : (cfg : Config) → IsValid (new cfg)
unfolding new
new-IsValid cfg = record {
  ring_length = length-replicate (new cfg).ring_size (empty_segment (new cfg).seg_cap);
  ring_pos = ground arith;
  cap_pos = ground arith;
  slots_length =
      All-replicate (λ g. length g.slots ≡ (new cfg).seg_cap) (new cfg).ring_size
        (empty_segment (new cfg).seg_cap) (length-replicate (new cfg).seg_cap none);
  head_epoch = head_epoch;
  through_le = omega arith;
  head_cursor_le = λ c _. cc;
  keyed = tt;
}
  where
    ring_pos : 0 < (new cfg).ring_size
    ring_pos = ground arith

    head_epoch : (segment (new cfg) 0).epoch ≡ 0 / (new cfg).ring_size
    head_epoch =
        ap (λ g. g.epoch)
          (get_or-replicate (new cfg).ring_size (0 % (new cfg).ring_size)
            (empty_segment (new cfg).seg_cap) (empty_segment 0) (omega (arith, ring_pos)))
        ∙ omega (arith, ring_pos)

pub check_pressure-IsValid : {s : StateStore} → IsValid s → IsValid (check_pressure s)
unfolding check_pressure
check_pressure-IsValid {s} v = elim (Bool-cases (under_pressure s)) [
  | inl e ↦ rw e (record {
    ring_length = v.ring_length;
    ring_pos = v.ring_pos;
    cap_pos = v.cap_pos;
    slots_length = v.slots_length;
    head_epoch = v.head_epoch;
    through_le = v.through_le;
    head_cursor_le = v.head_cursor_le;
    keyed = v.keyed;
  })
  | inr e ↦ rw e v
]

-- `Compact` keeps a valid store valid.
pub compact-IsValid : {s : StateStore} (now : ℕ) → IsValid s → IsValid (compact s now)
unfolding compact compacted_snapshot
compact-IsValid {s} now v = elim (Bool-cases (s.snap.compacted && eqb s.head s.snap.through)) [
  | inl e ↦ rw e v
  | inr e ↦ rw e (record {
    ring_length = v.ring_length;
    ring_pos = v.ring_pos;
    cap_pos = v.cap_pos;
    slots_length = v.slots_length;
    head_epoch = v.head_epoch;
    through_le = omega arith;
    head_cursor_le = λ _ _. omega arith;
    keyed = rw e at (compact-Keyed s now v.keyed);
  })
]

abbrev HasSlots : ℕ → Segment → Type 0
HasSlots cap g = length g.slots ≡ cap

module _ (s : StateStore) (v : IsValid s) where
  -- The claim of an index past the end of a full segment changes only its cursor.
  abbrev pub claimed : StateStore
  claimed = claim s s.head

  claimed-slots : All (HasSlots s.seg_cap) claimed.ring
  claimed-slots =
      All-set (HasSlots s.seg_cap) s.ring (s.head % s.ring_size) _ v.slots_length
        (length-slots v s.head)

  length-claimed : length claimed.ring ≡ s.ring_size
  length-claimed = length-set s.ring (s.head % s.ring_size) _ ∙ v.ring_length

  claimed_slots_at : (i : ℕ) → length (segment claimed i).slots ≡ s.seg_cap
  claimed_slots_at i =
      All-get_or (HasSlots s.seg_cap) claimed.ring (i % s.ring_size) (empty_segment 0) claimed-slots
        (omega (arith, length-claimed, v.ring_pos))

  pub advance-claimed : advance claimed s.head ≡ next_segment claimed s.head
  unfolding advance
  advance-claimed = ground arith

  pub segment-advanced :
      segment (next_segment claimed s.head) (suc s.head)
      ≡ record (segment claimed (suc s.head)) { cursor = 0; epoch = suc s.head / s.ring_size }
  segment-advanced =
      get_or-set_self claimed.ring (suc s.head % s.ring_size) _ (empty_segment 0)
        (omega (arith, length-claimed, v.ring_pos))

  pub advanced-IsValid : IsValid (next_segment claimed s.head)
  advanced-IsValid = record {
    ring_length = length-set claimed.ring (suc s.head % s.ring_size) _ ∙ length-claimed;
    ring_pos = v.ring_pos;
    cap_pos = v.cap_pos;
    slots_length =
        All-set (HasSlots s.seg_cap) claimed.ring (suc s.head % s.ring_size) _ claimed-slots
          (claimed_slots_at (suc s.head));
    head_epoch = ap (λ g. g.epoch) segment-advanced;
    through_le = omega (arith, v.through_le);
    head_cursor_le = λ _ t. absurd (omega (arith, t, v.through_le));
    keyed = v.keyed;
  }

  module _ (op : Op) where
    pub written-IsValid : (segment s s.head).cursor < s.seg_cap → IsValid (written s op)
    written-IsValid room = record {
      ring_length = length-set claimed.ring (s.head % s.ring_size) _ ∙ length-claimed;
      ring_pos = v.ring_pos;
      cap_pos = v.cap_pos;
      slots_length =
          All-set (HasSlots s.seg_cap) claimed.ring (s.head % s.ring_size) _ claimed-slots (
            length-set (segment claimed s.head).slots (segment s s.head).cursor (some op)
            ∙ claimed_slots_at s.head);
      head_epoch = ap (λ g. g.epoch) (segment-written s op v) ∙ v.head_epoch;
      through_le = v.through_le;
      head_cursor_le = λ c t. ground (arith, segment-written s op v, v.head_cursor_le c t);
      keyed = v.keyed;
    }
