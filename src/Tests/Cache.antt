-- ===== src/Tests/Cache.antt =====
-- core/statecache/store.go on small rings.
use panaudia.Base.{
  ℕ, ◌≡◌, inr, refl, true, false, ◌++◌, [], ◌∷◌, none, some, ltb, if◌then◌else◌, arith,
}
use panaudia.Base.Keys.{Text, bytes, text_eq}
use panaudia.Base.Assoc.{lookup}
use panaudia.StateCache.{Op}
use panaudia.StateCache.Store.{StateStore, write_op, snapshot, composite_key, compact, tail_ops}
use panaudia.StateCache.Store.Spec.{winner}
use panaudia.StateCache.Store.Compaction.{winner-compact, surviving}
use panaudia.StateCache.Store.Writing.{IsValid}
use panaudia.StateCache.Store.Writing.Calls.{
  entry_ops, write_op-IsValid, snapshot-write_op, write_op-drops_tail,
}

abbrev gain : ℕ → Op
gain id = record {
  topic = bytes "entity";
  key = bytes "a.gain";
  value = [];
  op_id = id;
  node_id = 1;
  tombstone = false;
  created_at = 0;
}

abbrev gone : ℕ → Op
gone id = record (gain id) { tombstone = true; created_at = 5 }

abbrev name : Text
name = composite_key (gain 0)

-- Two segments of two slots; the first is full.
abbrev full_store : StateStore
full_store = record {
  ring =
      record { slots = some (gain 2) ∷ some (gain 1) ∷ []; cursor = 2; epoch = 0 }
      ∷ record { slots = none ∷ none ∷ []; cursor = 0; epoch = 0 }
      ∷ [];
  ring_size = 2;
  seg_cap = 2;
  head = 0;
  snap = record { entries = []; through = 0; compacted = false; head_cursor = 0 };
  tomb_ttl = 10;
  threshold_num = 1;
  threshold_den = 2;
  signalled = false;
}

full_store-IsValid : IsValid full_store
full_store-IsValid = record {
  ring_length = refl;
  ring_pos = omega arith;
  cap_pos = omega arith;
  slots_length = (refl, (refl, tt));
  head_epoch = refl;
  through_le = omega arith;
  head_cursor_le = λ c _. cc;
  keyed = tt;
}

-- The same ring, compacted when one slot was filled.
abbrev covered_store : StateStore
covered_store = record full_store {
  snap = record { entries = (name, gain 2) ∷ []; through = 0; compacted = true; head_cursor = 1 };
}

covered_store-IsValid : IsValid covered_store
unfolding lookup
covered_store-IsValid = record {
  ring_length = refl;
  ring_pos = omega arith;
  cap_pos = omega arith;
  slots_length = (refl, (refl, tt));
  head_epoch = refl;
  through_le = omega arith;
  head_cursor_le = λ _ _. omega arith;
  keyed = (refl, refl, tt);
}

winner-compact_example : winner name (snapshot (compact full_store 9)) ≡ (
    if ltb 0 10
    then surviving 10 9 (winner name (snapshot full_store))
    else winner name (snapshot full_store))
winner-compact_example = winner-compact full_store 9 name tt refl

snapshot-write_op_example :
    (t : StateStore) × (write_op 2 full_store (gone 3) ≡ some t)
    × (snapshot t ≡ snapshot full_store ++ (gone 3 ∷ []))
snapshot-write_op_example =
    snapshot-write_op 0 full_store (gone 3) full_store-IsValid (inr (refl, omega arith))

write_op-IsValid_example : (t : StateStore) × (write_op 2 full_store (gain 3) ≡ some t) × IsValid t
write_op-IsValid_example = write_op-IsValid 0 full_store (gain 3) full_store-IsValid

write_op-drops_tail_example :
    (t : StateStore) × (write_op 2 covered_store (gain 3) ≡ some t)
    × (snapshot covered_store ≡ entry_ops covered_store ++ tail_ops covered_store)
    × (snapshot t ≡ entry_ops covered_store ++ (gain 3 ∷ []))
write_op-drops_tail_example =
    write_op-drops_tail 0 covered_store (gain 3) covered_store-IsValid refl (omega arith)
