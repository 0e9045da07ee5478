-- ===== src/Space/Mixer/Ops/Waiting.antt =====
-- The queue of operations: which operation waits for a key, and what becomes of one that comes early.
use panaudia.Base.{
  ◌≡◌, ◌≢◌, refl, sym, ap, subst, ◌∙◌, true, false, Option, none, some, inl, inr, arith, ltb,
  Bool-cases, Option-cases, if◌then◌else◌,
}
use panaudia.Base.Keys.{text_eq, nat_eq, ◌==◌}
use panaudia.Base.Assoc.{Map, lookup, lookup-insert}
use panaudia.StateCache.{Op}
use panaudia.Space.Mixer.{OpKey, op_key_eq}
use panaudia.Space.Mixer.Ops.{enqueue_op}

-- The newer of what waits and what comes; of two with one id, what comes.
abbrev pub newer : Option Op → Op → Op
newer none op = op
newer (some waiting) op = if ltb op.op_id waiting.op_id then waiting else op

lookup-enqueue_op :
    (m : Map OpKey Op) (k j : OpKey) (op : Op)
    → lookup j (enqueue_op m k op) ≡ (if k == j then some (newer (lookup k m) op) else lookup j m)
unfolding enqueue_op
lookup-enqueue_op m k j op = elim (Option-cases (lookup k m)) [
  | inl n ↦ rw (enqueue_op, n) (lookup-insert k j op m)
  | inr (w, n) ↦ elim (Bool-cases (ltb op.op_id w.op_id)) [
    | inl l ↦ elim (Bool-cases (k == j)) [
      | inl e ↦
          rw (enqueue_op, n, l, e) (ap (λ i. lookup i m) (sym ((op_key_eq.same_iff k j).0 e)) ∙ n)
      | inr e ↦ rw (enqueue_op, n, l, e) refl
    ]
    | inr l ↦ rw (enqueue_op, n, l) (lookup-insert k j op m)
  ]
]

newer_comm :
    (o : Option Op) (a b : Op)
    → a.op_id ≢ b.op_id
    → newer (some (newer o a)) b ≡ newer (some (newer o b)) a
newer_comm none a b ne = ground arith
newer_comm (some w) a b ne = ground arith

one_key_comm :
    (m : Map OpKey Op) (k j : OpKey) (a b : Op)
    → a.op_id ≢ b.op_id
    → lookup j (enqueue_op (enqueue_op m k a) k b) ≡ lookup j (enqueue_op (enqueue_op m k b) k a)
one_key_comm m k j a b ne = elim (Bool-cases (k == j)) [
  | inl e ↦
      rw
        (
          lookup-enqueue_op (enqueue_op m k a) k j b,
          lookup-enqueue_op (enqueue_op m k b) k j a,
          lookup-enqueue_op m k k a,
          lookup-enqueue_op m k k b,
          self k,
          e,
        )
        (ap some (newer_comm (lookup k m) a b ne))
  | inr e ↦
      rw
        (
          lookup-enqueue_op (enqueue_op m k a) k j b,
          lookup-enqueue_op (enqueue_op m k b) k j a,
          lookup-enqueue_op m k j a,
          lookup-enqueue_op m k j b,
          e,
        )
        refl
]
  where
    self : (i : OpKey) → (i == i) ≡ true
    self i = (op_key_eq.same_iff i i).1 refl

apart : (k l j : OpKey) → (k == l) ≡ false → (l == j) ≡ true → (k == j) ≡ false
apart k l j e h = elim (Bool-cases (k == j)) [
  | inr c ↦ c
  | inl c ↦
      let same =
        (op_key_eq.same_iff k l).1
          ((op_key_eq.same_iff k j).0 c ∙ sym ((op_key_eq.same_iff l j).0 h)) in
      ground (arith, same, e)
]

flip : (k l : OpKey) → (k == l) ≡ false → (l == k) ≡ false
flip k l e = elim (Bool-cases (l == k)) [
  | inr c ↦ c
  | inl c ↦
      let same = (op_key_eq.same_iff k l).1 (sym ((op_key_eq.same_iff l k).0 c)) in
      ground (arith, same, e)
]

-- The order in which two operations arrive changes nothing that waits, unless they have one key and
-- one id.
pub enqueue_op_comm :
    (m : Map OpKey Op) (k l j : OpKey) (a b : Op)
    → (k ≡ l → a.op_id ≢ b.op_id)
    → lookup j (enqueue_op (enqueue_op m k a) l b) ≡ lookup j (enqueue_op (enqueue_op m l b) k a)
enqueue_op_comm m k l j a b ne = elim (Bool-cases (k == l)) [
  | inl e ↦
      let one = (op_key_eq.same_iff k l).0 e in
      subst
        (λ i.
          lookup j (enqueue_op (enqueue_op m k a) i b)
          ≡ lookup j (enqueue_op (enqueue_op m i b) k a))
        one (one_key_comm m k j a b (ne one))
  | inr e ↦ elim (Bool-cases (l == j)) [
    | inl h ↦
        rw
          (
            lookup-enqueue_op (enqueue_op m k a) l j b,
            lookup-enqueue_op (enqueue_op m l b) k j a,
            lookup-enqueue_op m l j b,
            lookup-enqueue_op m k l a,
            h,
            apart k l j e h,
            e,
          )
          refl
    | inr h ↦
        rw
          (
            lookup-enqueue_op (enqueue_op m k a) l j b,
            lookup-enqueue_op (enqueue_op m l b) k j a,
            lookup-enqueue_op m k j a,
            lookup-enqueue_op m l j b,
            lookup-enqueue_op m l k b,
            h,
            flip k l e,
          )
          refl
  ]
]
