-- ===== src/Sessions/Departure.antt =====
-- Departures: one winner for each entry, and calls with an old entry that cannot touch its successor.
use panaudia.Base.{
  ℕ, suc, ◌≤◌, ◌≡◌, ◌⊎◌, inl, inr, refl, ◌∙◌, ap, true, false, Option, none, some, eqb,
  if◌then◌else◌, arith, Option-cases, Bool-cases,
}
use panaudia.Base.Keys.{Text, nat_eq}
use panaudia.Base.Assoc.{lookup, lookup-insert, lookup-delete}
use panaudia.Sessions.{
  departing, Entry, Registry, get, entry, put_entry, begin_entry, try_begin_departure, mark_entry,
  mark_departed, fresh_entry, install, register, register_orphan, unregister_entry, unregister,
}
use panaudia.Sessions.States.{rank}
use panaudia.Sessions.Invariant.{
  Step, registers, orphans, unregisters, begins, marks, Reach, here, next, Inv, Step-Inv,
}

-- The entry that a pointer leads to, before and after: the same one, no less far on its way.
abbrev pub Forward : Registry → Registry → ℕ → Entry → Type 0
Forward r s e x =
    (y : Entry) × (entry s e ≡ some y) × (y.uuid ≡ x.uuid) × (rank x.state ≤ rank y.state)

put-Forward :
    (r : Registry) (d e : ℕ) (x y z : Entry)
    → entry r e ≡ some x
    → entry r d ≡ some z
    → y.uuid ≡ z.uuid
    → rank z.state ≤ rank y.state
    → Forward r (put_entry r d y) e x
put-Forward r d e x y z h k u le = elim (Bool-cases (eqb d e)) [
  | inl same ↦ (y, ground (arith, lookup-insert d e y r.heap), ground arith, ground arith)
  | inr other ↦ (x, ground (arith, lookup-insert d e y r.heap), refl, omega arith)
]

install-Forward :
    (r : Registry) (id session : ℕ) (transport : Text) (now e : ℕ) (x : Entry)
    → Inv r
    → entry r e ≡ some x
    → Forward r (install r id session transport now) e x
install-Forward r id session transport now e x v h = (
  x,
  ground (
    arith,
    v.known e x h,
    lookup-insert (suc r.gen) e (fresh_entry r id session transport now) r.heap,
  ),
  refl,
  omega arith,
)

heap-unregister : (r : Registry) (o : Option ℕ) → (unregister r o).heap ≡ r.heap
unfolding unregister unregister_entry
heap-unregister r none = refl
heap-unregister r (some e) = ground arith

-- From a registry with the invariant, no call loses an entry, gives it another uuid, or moves its
-- state back.
pub Step-Forward :
    {r s : Registry} (e : ℕ) (x : Entry) → Step r s → Inv r → entry r e ≡ some x → Forward r s e x
unfolding register register_orphan unregister unregister_entry try_begin_departure mark_departed
    begin_entry mark_entry
Step-Forward {r} e x (registers id session transport now) v h =
    install-Forward r id session transport now e x v h
Step-Forward {r} e x (orphans id session transport now) v h = elim (Option-cases (get r id)) [
  | inl a ↦ rw (a, register_orphan) (install-Forward r id session transport now e x v h)
  | inr (c, a) ↦ rw (a, register_orphan) (x, h, refl, omega arith)
]
Step-Forward {r} e x (unregisters o) v h =
    (x, ap (lookup e) (heap-unregister r o) ∙ h, refl, omega arith)
Step-Forward {r} e x (begins d) v h = elim (Option-cases (entry r d)) [
  | inl a ↦ rw (a, try_begin_departure) (x, h, refl, omega arith)
  | inr (z, a) ↦
      rw (a, try_begin_departure)
        (put-Forward r d e x (begin_entry z).1 z h a (ground arith) (ground arith))
]
Step-Forward {r} e x (marks d) v h = elim (Option-cases (entry r d)) [
  | inl a ↦ rw (a, mark_departed) (x, h, refl, omega arith)
  | inr (z, a) ↦
      rw (a, mark_departed) (put-Forward r d e x (mark_entry z) z h a (ground arith) (ground arith))
]

Reach-Forward :
    {r s : Registry} (e : ℕ) (x : Entry)
    → Reach r s
    → Inv r
    → entry r e ≡ some x
    → Inv s × Forward r s e x
Reach-Forward e x here v h = (v, (x, h, refl, omega arith))
Reach-Forward {r} {s} e x (next {s = m} q st) v h =
    let (w, (y, a, u, le)) = Reach-Forward e x q v h in
    let (z, b, u', le') = Step-Forward e y st w a in (Step-Inv st w, (z, b, u' ∙ u, omega arith))

-- The winner leaves the entry on its way, and an entry on its way has no winner.
won_lem :
    (r : Registry) (e : ℕ)
    → (try_begin_departure r e).0 ≡ true
    → (y : Entry) × (entry (try_begin_departure r e).1 e ≡ some y) × (1 ≤ rank y.state)
unfolding try_begin_departure begin_entry
won_lem r e won = elim (Option-cases (entry r e)) [
  | inl a ↦ absurd (ground arith)
  | inr (x, a) ↦ (
    record x { state = departing },
    ground (arith, lookup-insert e e (record x { state = departing }) r.heap),
    omega arith,
  )
]

lost_lem :
    (s : Registry) (e : ℕ) (z : Entry)
    → entry s e ≡ some z
    → 1 ≤ rank z.state
    → (try_begin_departure s e).0 ≡ false
unfolding try_begin_departure begin_entry
lost_lem s e z a h = ground arith

-- From a registry with the invariant, whatever calls come after a caller has won the departure of
-- an entry, no caller wins it again.
pub try_begin_departure-once :
    {r s : Registry} (e : ℕ)
    → Inv r
    → (try_begin_departure r e).0 ≡ true
    → Reach (try_begin_departure r e).1 s
    → (try_begin_departure s e).0 ≡ false
try_begin_departure-once {r} {s} e v won q =
    let (y, a, started) = won_lem r e won in
    let (z, b, _, le) = (Reach-Forward e y q (Step-Inv (begins e) v) a).1 in
    lost_lem s e z b (omega arith)

-- `Unregister` of an entry takes away that entry and no other: the map stays as it is for every
-- other uuid, and for this one too if a successor has been registered since.
pub get-unregister :
    (r : Registry) (e id : ℕ) (x : Entry)
    → entry r e ≡ some x
    → get (unregister r (some e)) id ≡ (
        if eqb x.uuid id
        then elim (get r id) [ none ↦ none | some c ↦ if eqb c e then none else some c ]
        else get r id)
unfolding unregister unregister_entry
get-unregister r e id x h =
    ground (arith, lookup-delete x.uuid id r.entries, ap (get r) {x = x.uuid} {y = id})

-- `RegisterOrphan` does nothing where the uuid has an entry; elsewhere its entry is the current one.
pub register_orphan_lem :
    (r : Registry) (id session : ℕ) (transport : Text) (now : ℕ)
    → ((e : ℕ) × (get r id ≡ some e) × (register_orphan r id session transport now ≡ (none, r)))
      ⊎ ((get r id ≡ none)
          × ((register_orphan r id session transport now).0 ≡ some (suc r.gen))
          × (get (register_orphan r id session transport now).1 id ≡ some (suc r.gen)))
unfolding register_orphan
register_orphan_lem r id session transport now = elim (Option-cases (get r id)) [
  | inl a ↦ inr (a, ground arith, ground (arith, lookup-insert id id (suc r.gen) r.entries))
  | inr (e, a) ↦ inl (e, a, ground arith)
]
