-- ===== src/StateCache/Store.antt =====
-- core/statecache/store.go: `StateStore`, with each public call as one step. Atomics are read and
-- written in the order of the source; what goroutines do between those is not modelled here. Map
-- iteration is over an association list in some order.
--
-- Cursors are `int64` and never negative (they start at 0 and only grow), so they are numbers, and
-- the test `idx >= 0` always passes. Indices and epochs are `uint64`s that do not reach 2 ^ 64.
pub mod Spec
pub mod Segments
pub mod Compaction
pub mod Writing
use panaudia.Base.{
  ℕ, zero, suc, ◌+◌, ◌-◌, ◌*◌, ◌/◌, ◌%◌, Bool, true, false, not, ◌&&◌, ◌||◌, List, [], ◌∷◌, ◌++◌,
  map, Option, none, some, min, ltb, leb, eqb, if◌then◌else◌, get_or, set, replicate,
}
use panaudia.Base.Keys.{Text, bytes, text_eq}
use panaudia.Base.Assoc.{Map, lookup, insert}
use panaudia.StateCache.{Op}

-- `Config`; a field that is not positive in Go is 0 here. The compaction interval only paces the
-- goroutine of `compactionLoop`. The threshold is the fraction `threshold_num / threshold_den`.
pub record Config : Type 0 where
  pub ring_size : ℕ
  pub segment_capacity : ℕ
  pub tombstone_ttl : ℕ
  pub threshold_num : ℕ
  pub threshold_den : ℕ

-- `segment`; an empty slot is `none`.
pub record Segment : Type 0 where
  pub slots : List (Option Op)
  pub cursor : ℕ
  pub epoch : ℕ

-- `snapshot`
pub record Snapshot : Type 0 where
  pub entries : Map Text Op
  pub through : ℕ
  pub compacted : Bool
  pub head_cursor : ℕ

-- `StateStore`. `signalled` says whether `compactSignal`, of capacity 1, holds a signal.
pub record StateStore : Type 0 where
  pub ring : List Segment
  pub ring_size : ℕ
  pub seg_cap : ℕ
  pub head : ℕ
  pub snap : Snapshot
  pub tomb_ttl : ℕ
  pub threshold_num : ℕ
  pub threshold_den : ℕ
  pub signalled : Bool

-- A field that is not positive takes its default.
abbrev default_to : ℕ → ℕ → ℕ
default_to v d = if eqb v 0 then d else v

abbrev pub empty_segment : ℕ → Segment
empty_segment cap = record { slots = replicate cap none; cursor = 0; epoch = 0 }

-- `New`, with the goroutine that calls `Compact` left to the caller.
pub new : Config → StateStore
new cfg = record {
  ring =
      replicate (default_to cfg.ring_size 16) (empty_segment (default_to cfg.segment_capacity 128));
  ring_size = default_to cfg.ring_size 16;
  seg_cap = default_to cfg.segment_capacity 128;
  head = 0;
  snap = record { entries = []; through = 0; compacted = false; head_cursor = 0 };
  tomb_ttl = default_to cfg.tombstone_ttl 30_000_000_000;
  threshold_num = if eqb cfg.threshold_num 0 then 1 else cfg.threshold_num;
  threshold_den = if eqb cfg.threshold_num 0 then 2 else cfg.threshold_den;
  signalled = false;
}

-- `compositeKey`
abbrev pub composite_key : Op → Text
composite_key op = op.topic ++ (bytes ":" ++ op.key)

-- `&s.ring[i%s.ringSize]`
abbrev pub segment : StateStore → ℕ → Segment
segment s i = get_or s.ring (i % s.ring_size) (empty_segment 0)

abbrev pub put_segment : StateStore → ℕ → Segment → StateStore
put_segment s i seg = record s { ring = set s.ring (i % s.ring_size) seg }

-- `Pressure() >= s.pressureThreshold`, the quotient of floats as a fraction.
pub under_pressure : StateStore → Bool
under_pressure s = leb (s.threshold_num * s.ring_size) ((s.head - s.snap.through) * s.threshold_den)

-- `checkPressure`
pub check_pressure : StateStore → StateStore
check_pressure s = if under_pressure s then record s { signalled = true } else s

-- The segment after `h` is prepared, then made the head.
abbrev pub next_segment : StateStore → ℕ → StateStore
next_segment s h = record s {
  ring =
      set s.ring (suc h % s.ring_size)
        (record (segment s (suc h)) { cursor = 0; epoch = suc h / s.ring_size });
  head = suc h;
}

-- The critical section under `advanceMu`.
pub advance : StateStore → ℕ → StateStore
advance s h = if eqb s.head h then next_segment s h else s

-- `seg.cursor.Add(1)` on the segment at `h`; the index claimed is the cursor before.
abbrev pub claim : StateStore → ℕ → StateStore
claim s h = put_segment s h (record (segment s h) { cursor = suc (segment s h).cursor })

-- `seg.slots[idx].ptr.Store(op)`
abbrev pub store_slot : StateStore → ℕ → ℕ → Op → StateStore
store_slot s h idx op =
    put_segment s h (record (segment s h) { slots = set (segment s h).slots idx (some op) })

-- `writeOp`. The loop takes fuel; `none` means that it ran out.
pub write_op : ℕ → StateStore → Op → Option StateStore
write_op zero s op = none
write_op (suc fuel) s op =
    let h = s.head in
    let idx = (segment s h).cursor in
    let retry = write_op fuel (advance (claim s h) h) op in
    if ltb idx s.seg_cap then some (check_pressure (store_slot (claim s h) h idx op)) else retry

-- `Set` and `Tomb`, at the time `now`.
pub set_key : ℕ → StateStore → Text → Text → Text → ℕ → ℕ → ℕ → Option StateStore
set_key fuel s topic key value op_id node_id now = write_op fuel s (record {
  topic = topic;
  key = key;
  value = value;
  op_id = op_id;
  node_id = node_id;
  tombstone = false;
  created_at = now;
})

pub tomb : ℕ → StateStore → Text → Text → ℕ → ℕ → ℕ → Option StateStore
tomb fuel s topic key op_id node_id now = write_op fuel s (record {
  topic = topic;
  key = key;
  value = [];
  op_id = op_id;
  node_id = node_id;
  tombstone = true;
  created_at = now;
})

-- `n := seg.cursor.Load(); if n > s.segCap { n = s.segCap }`
abbrev pub filled : StateStore → Segment → ℕ
filled s seg = if ltb s.seg_cap seg.cursor then s.seg_cap else seg.cursor

-- The loop over slots, from index `j` for `rounds` rounds: a `nil` slot is skipped.
pub slot_ops : List (Option Op) → ℕ → ℕ → List Op
slot_ops slots j zero = []
slot_ops slots j (suc rounds) =
    let rest = slot_ops slots (suc j) rounds in
    elim (get_or slots j none) [ none ↦ rest | some op ↦ op ∷ rest ]

-- One round of the loop over segments; a segment of another ring pass is skipped.
pub segment_ops : StateStore → ℕ → List Op
segment_ops s i =
    let seg = segment s i in
    if eqb seg.epoch (i / s.ring_size) then slot_ops seg.slots 0 (filled s seg) else []

-- `for i := start; i <= h; i++`, as a number of rounds.
pub segments_ops : StateStore → ℕ → ℕ → List Op
segments_ops s i zero = []
segments_ops s i (suc rounds) = segment_ops s i ++ segments_ops s (suc i) rounds

abbrev pub start : StateStore → ℕ
start s = if s.snap.compacted then suc s.snap.through else s.snap.through

-- What both loops over the ring read: the segments from `start` up to the head.
abbrev pub uncompacted : StateStore → List Op
uncompacted s = segments_ops s (start s) (suc s.head - start s)

-- The slots of the head segment that were written after a compaction that covered it.
pub tail_ops : StateStore → List Op
tail_ops s =
    let seg = segment s s.head in
    if s.snap.compacted && (eqb s.snap.through s.head && eqb seg.epoch (s.head / s.ring_size))
    then slot_ops seg.slots s.snap.head_cursor (filled s seg - s.snap.head_cursor)
    else []

-- `minOpID == 0 || op.OpID > minOpID`
pub wanted : ℕ → List Op → List Op
wanted min_id [] = []
wanted min_id (op ∷ ops) =
    let rest = wanted min_id ops in if eqb min_id 0 || ltb min_id op.op_id then op ∷ rest else rest

-- `readOps`, `Snapshot` and `Since`
pub read_ops : StateStore → ℕ → List Op
read_ops s min_id =
    wanted min_id (map (λ e. e.1) s.snap.entries)
    ++ (wanted min_id (tail_ops s) ++ wanted min_id (uncompacted s))

pub snapshot : StateStore → List Op
snapshot s = read_ops s 0

pub since : StateStore → ℕ → List Op
since s op_id = read_ops s op_id

-- `if existing, ok := merged[ck]; !ok || op.OpID > existing.OpID { merged[ck] = *op }`
pub merge_op : Map Text Op → Op → Map Text Op
merge_op m op = elim (lookup (composite_key op) m) [
  | none ↦ insert (composite_key op) op m
  | some existing ↦ if ltb existing.op_id op.op_id then insert (composite_key op) op m else m
]

pub merge_ops : Map Text Op → List Op → Map Text Op
merge_ops m [] = m
merge_ops m (op ∷ ops) = merge_ops (merge_op m op) ops

-- A tombstone made before `now - ttl`, with a time of its own.
pub expired : ℕ → ℕ → Op → Bool
expired ttl now op = op.tombstone && (not (eqb op.created_at 0) && ltb (op.created_at + ttl) now)

pub purge : ℕ → ℕ → Map Text Op → Map Text Op
purge ttl now [] = []
purge ttl now ((k, op) ∷ m) =
    let rest = purge ttl now m in if expired ttl now op then rest else (k, op) ∷ rest

-- The snapshot that `Compact` stores, at the time `now`.
pub compacted_snapshot : StateStore → ℕ → Snapshot
compacted_snapshot s now =
    let merged = merge_ops s.snap.entries (uncompacted s) in
    record {
      entries = if ltb 0 s.tomb_ttl then purge s.tomb_ttl now merged else merged;
      through = s.head;
      compacted = true;
      head_cursor = filled s (segment s s.head);
    }

-- `Compact`
pub compact : StateStore → ℕ → StateStore
compact s now =
    if s.snap.compacted && eqb s.head s.snap.through
    then s
    else record s { snap = compacted_snapshot s now }
