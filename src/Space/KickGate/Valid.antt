-- ===== src/Space/KickGate/Valid.antt =====
-- The gate's maps stay maps.
use panaudia.Base.{ℕ, not, [], take, drop, inl, inr, Bool-cases, Option-cases}
use panaudia.Base.Keys.{Text, bytes, nat_eq, text_eq, ◌==◌}
use panaudia.Base.Distinct.{Distinct, insert-Distinct, delete-Distinct, keep-Distinct}
use panaudia.Commands.{UuidLib}
use panaudia.Space.KickGate.{
  KickGate, KickOp, apply_entity, apply_role, expired, split_entity_key, apply, sweep_once,
}

-- Go's maps hold each key once.
abbrev pub IsValid : KickGate → Type 0
IsValid g = Distinct g.entity × Distinct g.role

apply_entity-IsValid :
    (g : KickGate) (id : ℕ) (op : KickOp) → IsValid g → IsValid (apply_entity g id op)
unfolding apply_entity
apply_entity-IsValid g id op v = elim (Bool-cases op.tombstone) [
  | inl t ↦ rw t (delete-Distinct id g.entity v.0, v.1)
  | inr t ↦ rw t (elim (Option-cases op.deadline) [
    | inl d ↦ rw d v
    | inr (x, d) ↦ rw d (insert-Distinct id x g.entity v.0, v.1)
  ])
]

apply_role-IsValid :
    (g : KickGate) (name : Text) (op : KickOp) → IsValid g → IsValid (apply_role g name op)
unfolding apply_role
apply_role-IsValid g name op v = elim (Bool-cases op.tombstone) [
  | inl t ↦ rw t (v.0, delete-Distinct name g.role v.1)
  | inr t ↦ rw t (elim (Option-cases op.deadline) [
    | inl d ↦ rw d v
    | inr (x, d) ↦ rw d (v.0, insert-Distinct name x g.role v.1)
  ])
]

module _ (lib : UuidLib) where
  -- `Apply` keeps the gate's maps with each key once.
  pub apply-IsValid :
      (g : KickGate) (topic : Text) (op : KickOp) → IsValid g → IsValid (apply lib g topic op)
  unfolding apply
  apply-IsValid g topic op v = elim (Bool-cases (topic == bytes "entity")) [
    | inl e ↦ rw e (elim (Option-cases (split_entity_key lib op.key)) [
      | inl n ↦ rw n v
      | inr (p, k) ↦ rw k (elim (Bool-cases (p.1 == bytes "kicked")) [
        | inl q ↦ rw q (apply_entity-IsValid g p.0 op v)
        | inr q ↦ rw q v
      ])
    ])
    | inr e ↦ rw e (elim (Bool-cases (topic == bytes "space")) [
      | inl f ↦ rw f (elim (Bool-cases (take 13 op.key == bytes "roles-kicked.")) [
        | inl q ↦ rw q (elim (Bool-cases (drop 13 op.key == [])) [
          | inl z ↦ rw z v
          | inr z ↦ rw z (apply_role-IsValid g (drop 13 op.key) op v)
        ])
        | inr q ↦ rw q v
      ])
      | inr f ↦ rw f v
    ])
  ]

  -- A sweep keeps each key once.
  pub sweep_once-IsValid : (g : KickGate) (now : ℕ) → IsValid g → IsValid (sweep_once lib g now).0
  unfolding sweep_once
  sweep_once-IsValid g now v = (
    keep-Distinct (λ d. not (expired now d)) g.entity v.0,
    keep-Distinct (λ d. not (expired now d)) g.role v.1,
  )
