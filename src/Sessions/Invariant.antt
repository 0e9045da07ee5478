-- ===== src/Sessions/Invariant.antt =====
-- What holds of the registry after any calls, in any order, by any of its users.
use panaudia.Base.{
  ℕ, suc, ◌≤◌, ◌<◌, ◌≡◌, inl, inr, Option, none, some, eqb, arith, Option-cases, Bool-cases,
}
use panaudia.Base.Keys.{Text, nat_eq}
use panaudia.Base.Assoc.{lookup, lookup-insert, lookup-delete}
use panaudia.Sessions.{
  Entry, Registry, new_registry, get, entry, put_entry, begin_entry, try_begin_departure,
  mark_entry, mark_departed, fresh_entry, install, register, register_orphan, unregister_entry,
  unregister,
}
use panaudia.Sessions.States.{ClosedOnce}

-- One call by one of the users.
pub data Step (r : Registry) : Registry → Type 0 where
  registers :
      (id session : ℕ) (transport : Text) (now : ℕ) → Step r (register r id session transport now).2
  orphans :
      (id session : ℕ) (transport : Text) (now : ℕ)
      → Step r (register_orphan r id session transport now).1
  unregisters : (e : Option ℕ) → Step r (unregister r e)
  begins : (e : ℕ) → Step r (try_begin_departure r e).1
  marks : (e : ℕ) → Step r (mark_departed r e)

pub data Reach (r : Registry) : Registry → Type 0 where
  here : Reach r r
  next : {s t : Registry} → Reach r s → Step s t → Reach r t

-- Entries carry their own pointer as generation, under the counter, and are closed at most once;
-- the map leads to entries of the uuid that it maps.
pub record Inv (r : Registry) : Type 0 where
  pub known :
      (e : ℕ) (x : Entry)
      → entry r e ≡ some x
      → (x.generation ≡ e) × (0 < e) × (e ≤ r.gen) × ClosedOnce x
  pub current : (id e : ℕ) → get r id ≡ some e → (x : Entry) × (entry r e ≡ some x) × (x.uuid ≡ id)

new_registry-Inv : Inv new_registry
unfolding new_registry lookup
new_registry-Inv = record { known = λ e x h. cc; current = λ id e h. cc }

begin_entry-Closed : (x : Entry) → ClosedOnce x → ClosedOnce (begin_entry x).1
unfolding begin_entry
begin_entry-Closed x c = ground arith

mark_entry-Closed : (x : Entry) → ClosedOnce x → ClosedOnce (mark_entry x)
unfolding mark_entry
mark_entry-Closed x c = ground arith

-- An entry is replaced by one of the same identity.
put-Inv :
    (r : Registry) (e : ℕ) (x y : Entry)
    → Inv r
    → entry r e ≡ some x
    → y.generation ≡ x.generation
    → y.uuid ≡ x.uuid
    → ClosedOnce y
    → Inv (put_entry r e y)
put-Inv r e x y v h g u c = record {
  known = λ d z k. ground (arith, lookup-insert e d y r.heap, v.known d z, v.known e x h);
  current = λ id d k. put_current id d k (v.current id d k);
}
  where
    put_current :
        (id d : ℕ)
        → get r id ≡ some d
        → (z : Entry) × (entry r d ≡ some z) × (z.uuid ≡ id)
        → (z : Entry) × (entry (put_entry r e y) d ≡ some z) × (z.uuid ≡ id)
    put_current id d k (z, a, b) = elim (Bool-cases (eqb e d)) [
      | inl same ↦ (y, ground (arith, lookup-insert e d y r.heap), ground arith)
      | inr other ↦ (z, ground (arith, lookup-insert e d y r.heap), b)
    ]

install-Inv :
    (r : Registry) (id session : ℕ) (transport : Text) (now : ℕ)
    → Inv r
    → Inv (install r id session transport now)
install-Inv r id session transport now v = record {
  known = λ d z k. ground (
    arith,
    lookup-insert (suc r.gen) d (fresh_entry r id session transport now) r.heap,
    v.known d z,
  );
  current = λ i d k. elim (Bool-cases (eqb id i)) [
    | inl mine ↦ (
      fresh_entry r id session transport now,
      ground (
        arith,
        lookup-insert id i (suc r.gen) r.entries,
        lookup-insert (suc r.gen) d (fresh_entry r id session transport now) r.heap,
      ),
      ground arith,
    )
    | inr other ↦ kept i d (ground (arith, lookup-insert id i (suc r.gen) r.entries))
  ];
}
  where
    kept :
        (i d : ℕ)
        → get r i ≡ some d
        → (z : Entry) × (entry (install r id session transport now) d ≡ some z) × (z.uuid ≡ i)
    kept i d h =
        let (z, a, b) = v.current i d h in
        (
          z,
          ground (
            arith,
            v.known d z a,
            lookup-insert (suc r.gen) d (fresh_entry r id session transport now) r.heap,
          ),
          b,
        )

unregister_entry-Inv : (r : Registry) (e : ℕ) (x : Entry) → Inv r → Inv (unregister_entry r e x)
unfolding unregister_entry
unregister_entry-Inv r e x v = elim (Option-cases (get r x.uuid)) [
  | inl a ↦ rw (a, unregister_entry) v
  | inr (c, a) ↦ elim (Bool-cases (eqb c e)) [
    | inl b ↦
        rw (a, unregister_entry, b)
          (record {
            known = v.known;
            current = λ i d k. v.current i d (ground (arith, lookup-delete x.uuid i r.entries));
          })
    | inr b ↦ rw (a, unregister_entry, b) v
  ]
]

-- Every call keeps the invariant.
pub Step-Inv : {r s : Registry} → Step r s → Inv r → Inv s
unfolding register register_orphan unregister try_begin_departure mark_departed begin_entry
    mark_entry
Step-Inv {r} (registers id session transport now) v = install-Inv r id session transport now v
Step-Inv {r} (orphans id session transport now) v = elim (Option-cases (get r id)) [
  | inl a ↦ rw (a, register_orphan) (install-Inv r id session transport now v)
  | inr (c, a) ↦ rw (a, register_orphan) v
]
Step-Inv (unregisters none) v = v
Step-Inv {r} (unregisters (some e)) v = elim (Option-cases (entry r e)) [
  | inl a ↦ rw (a, unregister) v
  | inr (x, a) ↦ rw (a, unregister) (unregister_entry-Inv r e x v)
]
Step-Inv {r} (begins e) v = elim (Option-cases (entry r e)) [
  | inl a ↦ rw (a, try_begin_departure) v
  | inr (x, a) ↦
      rw (a, try_begin_departure)
        (put-Inv r e x (begin_entry x).1 v a (ground arith) (ground arith)
          (begin_entry-Closed x (v.known e x a).3))
]
Step-Inv {r} (marks e) v = elim (Option-cases (entry r e)) [
  | inl a ↦ rw (a, mark_departed) v
  | inr (x, a) ↦
      rw (a, mark_departed)
        (put-Inv r e x (mark_entry x) v a (ground arith) (ground arith)
          (mark_entry-Closed x (v.known e x a).3))
]

-- After any calls from an empty registry every entry carries a generation of its own, not above
-- the counter, no entry's channel was closed twice, and the map leads to entries of the uuid that
-- it maps.
pub Reach-Inv : {s : Registry} → Reach new_registry s → Inv s
Reach-Inv here = new_registry-Inv
Reach-Inv (next r st) = Step-Inv st (Reach-Inv r)
