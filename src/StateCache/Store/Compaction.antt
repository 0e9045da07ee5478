-- ===== src/StateCache/Store/Compaction.antt =====
-- `Compact` does not change what readers see, but for tombstones that are past their time.
use panaudia.Base.{
  ℕ, ◌≡◌, refl, ◌∙◌, ap, List, [], ◌∷◌, ◌++◌, map, Option, none, some, Bool, false, ◌&&◌, ltb, eqb,
  if◌then◌else◌, arith, append-nil, Bool-cases, inl, inr, suc, ◌-◌,
}
use panaudia.Base.Keys.{Text, text_eq, text_beq_iff}
use panaudia.Base.Assoc.{Map, lookup, insert, lookup-insert}
use panaudia.StateCache.{Op}
use panaudia.StateCache.Store.{
  StateStore, composite_key, merge_op, merge_ops, wanted, read_ops, snapshot, tail_ops, uncompacted,
  compact, compacted_snapshot, purge, expired, slot_ops, segments_ops, segment, filled,
}
use panaudia.StateCache.Store.Spec.{
  better, winner, winner_from, winner_from-append, lookup-merge_ops,
}

-- A map whose entries stand under their own keys, each key once.
abbrev pub Keyed : Map Text Op → Type 0
Keyed [] = Unit
Keyed ((k, op) ∷ m) = (composite_key op ≡ k) × (lookup k m ≡ none) × Keyed m

abbrev values : Map Text Op → List Op
values m = map (λ e. e.1) m

winner_from-values_absent :
    (best : Option Op) (k : Text) (m : Map Text Op)
    → Keyed m
    → lookup k m ≡ none
    → winner_from best k (values m) ≡ best
unfolding winner_from lookup better
winner_from-values_absent best k [] v h = refl
winner_from-values_absent best k ((j, op) ∷ m) v h = ground (
  arith,
  text_beq_iff j k,
  text_beq_iff (composite_key op) k,
  winner_from-values_absent best k m v.2,
)

-- The entries of a snapshot are the winners of their keys.
pub winner-values :
    (k : Text) (m : Map Text Op) → Keyed m → winner_from none k (values m) ≡ lookup k m
unfolding winner_from lookup better
winner-values k [] v = refl
winner-values k ((j, op) ∷ m) v = ground (
  arith,
  text_beq_iff j k,
  text_beq_iff (composite_key op) k,
  winner-values k m v.2,
  winner_from-values_absent (some op) k m v.2,
)

insert-Keyed : (op : Op) (m : Map Text Op) → Keyed m → Keyed (insert (composite_key op) op m)
unfolding insert lookup
insert-Keyed op [] v = (refl, refl, tt)
insert-Keyed op ((j, x) ∷ m) v = ground (
  arith,
  text_beq_iff j (composite_key op),
  text_beq_iff (composite_key op) j,
  lookup-insert (composite_key op) j op m,
  insert-Keyed op m v.2,
)

merge_op-Keyed : (op : Op) (m : Map Text Op) → Keyed m → Keyed (merge_op m op)
unfolding merge_op
merge_op-Keyed op m v = ground (arith, insert-Keyed op m v)

pub merge_ops-Keyed : (ops : List Op) (m : Map Text Op) → Keyed m → Keyed (merge_ops m ops)
unfolding merge_ops
merge_ops-Keyed [] m v = v
merge_ops-Keyed (op ∷ ops) m v = merge_ops-Keyed ops (merge_op m op) (merge_op-Keyed op m v)

lookup-purge_absent :
    (ttl now : ℕ) (k : Text) (m : Map Text Op)
    → lookup k m ≡ none
    → lookup k (purge ttl now m) ≡ none
unfolding lookup purge
lookup-purge_absent ttl now k [] h = refl
lookup-purge_absent ttl now k ((j, op) ∷ m) h = ground (arith, lookup-purge_absent ttl now k m)

purge-Keyed : (ttl now : ℕ) (m : Map Text Op) → Keyed m → Keyed (purge ttl now m)
unfolding purge
purge-Keyed ttl now [] v = v
purge-Keyed ttl now ((j, op) ∷ m) v = elim (Bool-cases (expired ttl now op)) [
  | inl e ↦ rw e (purge-Keyed ttl now m v.2)
  | inr e ↦ rw e (v.0, lookup-purge_absent ttl now j m v.1, purge-Keyed ttl now m v.2)
]

-- What is left of a winner after a purge.
pub surviving : ℕ → ℕ → Option Op → Option Op
surviving ttl now none = none
surviving ttl now (some op) = if expired ttl now op then none else some op

lookup-purge :
    (ttl now : ℕ) (k : Text) (m : Map Text Op)
    → Keyed m
    → lookup k (purge ttl now m) ≡ surviving ttl now (lookup k m)
unfolding lookup purge surviving
lookup-purge ttl now k [] v = refl
lookup-purge ttl now k ((j, op) ∷ m) v =
    ground
      (arith, text_beq_iff j k, lookup-purge ttl now k m v.2, lookup-purge_absent ttl now j m v.1)

pub wanted-all : (ops : List Op) → wanted 0 ops ≡ ops
unfolding wanted
wanted-all [] = refl
wanted-all (op ∷ ops) = ap (◌∷◌ op) (wanted-all ops)

-- A snapshot is the compacted entries, the tail and the segments that are not compacted.
pub snapshot_lem :
    (s : StateStore) → snapshot s ≡ values s.snap.entries ++ (tail_ops s ++ uncompacted s)
unfolding snapshot read_ops
snapshot_lem s =
    rw (wanted-all (values s.snap.entries), wanted-all (tail_ops s), wanted-all (uncompacted s))

-- Compaction is skipped when it has covered the head segment before.
abbrev pub skips : StateStore → Bool
skips s = s.snap.compacted && eqb s.head s.snap.through

tail_ops-none : (s : StateStore) → skips s ≡ false → tail_ops s ≡ []
unfolding tail_ops
tail_ops-none s h = ground arith

slot_ops-none : (slots : List (Option Op)) (j n : ℕ) → slot_ops slots j (n - n) ≡ []
unfolding slot_ops
slot_ops-none slots j n = let e : n - n ≡ 0 = omega arith in rw e

segments_ops-none : (s : StateStore) (i n : ℕ) → segments_ops s i (n - n) ≡ []
unfolding segments_ops
segments_ops-none s i n = let e : n - n ≡ 0 = omega arith in rw e

-- Right after a compaction the entries are all that is read.
snapshot-compacted :
    (s : StateStore) (now : ℕ)
    → let t = record s { snap = compacted_snapshot s now } in snapshot t ≡ values t.snap.entries
unfolding compacted_snapshot tail_ops
snapshot-compacted s now =
    snapshot_lem t
    ∙ ap (λ l. values t.snap.entries ++ l)
        (ground (
          arith,
          slot_ops-none (segment s s.head).slots (filled s (segment s s.head))
              (filled s (segment s s.head)),
          segments_ops-none t (suc s.head) (suc s.head),
        ))
    ∙ append-nil (values t.snap.entries)
  where
    t : StateStore
    t = record s { snap = compacted_snapshot s now }

-- `Compact` keeps each key of the snapshot once, and each operation under its own key.
pub compact-Keyed :
    (s : StateStore) (now : ℕ) → Keyed s.snap.entries → Keyed (compact s now).snap.entries
unfolding compact compacted_snapshot
compact-Keyed s now v = ground (
  arith,
  purge-Keyed s.tomb_ttl now (merge_ops s.snap.entries (uncompacted s)),
  merge_ops-Keyed (uncompacted s) s.snap.entries v,
)

-- Where the snapshot's entries stand under their own keys, a compaction that is not skipped keeps,
-- for every key, the operation that readers take (the one with the highest id among those of the
-- snapshot), unless it is a tombstone past its time; then the key is gone.
pub winner-compact :
    (s : StateStore) (now : ℕ) (k : Text)
    → Keyed s.snap.entries
    → skips s ≡ false
    → winner k (snapshot (compact s now)) ≡ (
        if ltb 0 s.tomb_ttl
        then surviving s.tomb_ttl now (winner k (snapshot s))
        else winner k (snapshot s))
unfolding compact compacted_snapshot winner
winner-compact s now k v h = ground (
  arith,
  snapshot-compacted s now,
  snapshot_lem s,
  tail_ops-none s h,
  winner-values k (compacted_snapshot s now).entries,
  winner-values k s.snap.entries v,
  merge_ops-Keyed (uncompacted s) s.snap.entries v,
  purge-Keyed s.tomb_ttl now (merge_ops s.snap.entries (uncompacted s)),
  lookup-purge s.tomb_ttl now k (merge_ops s.snap.entries (uncompacted s)),
  lookup-merge_ops k (uncompacted s) s.snap.entries,
  winner_from-append none k (values s.snap.entries) (uncompacted s),
)

-- A second compaction right after a first changes nothing, at any later time.
pub compact-compact :
    (s : StateStore) (now later : ℕ) → compact (compact s now) later ≡ compact s now
unfolding compact compacted_snapshot
compact-compact s now later = ground arith
