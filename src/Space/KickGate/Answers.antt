-- ===== src/Space/KickGate/Answers.antt =====
-- What the gate answers after kicks and sweeps.
use panaudia.Base.{
  ℕ, ◌≤◌, ◌≡◌, ◌≢◌, refl, ap, ◌∙◌, Bool, true, false, not, List, [], ◌∷◌, ◌++◌, Option, none, some,
  if◌then◌else◌, arith, inl, inr, Bool-cases, Option-cases,
}
use panaudia.Base.Int.{ℤ, pos, negsuc}
use panaudia.Base.Keys.{Text, bytes, nat_eq, text_eq}
use panaudia.Base.Assoc.{lookup, lookup-insert, lookup-delete}
use panaudia.Base.Distinct.{Distinct, keep, filtered, lookup-keep}
use panaudia.Commands.{UuidLib}
use panaudia.Commands.Scope.{cut-append}
use panaudia.Space.KickGate.{
  KickGate, KickOp, Seen, apply_entity, see, see_roles, seen, is_kicked, expired, split_entity_key,
  apply, sweep_once,
}
use panaudia.Space.KickGate.Valid.{IsValid}

see-filtered :
    (now later : ℕ) (s : Seen) (o : Option ℤ)
    → now ≤ later
    → see later s (filtered (λ d. not (expired now d)) o) ≡ see later s o
unfolding see
see-filtered now later s none h = refl
see-filtered now later s (some (pos d)) h = ground arith
see-filtered now later s (some (negsuc d)) h = ground arith

abbrev swept : ℕ → KickGate → KickGate
swept now g = record {
  entity = keep (λ d. not (expired now d)) g.entity;
  role = keep (λ d. not (expired now d)) g.role;
}

see_roles-swept :
    (now later : ℕ) (g : KickGate) (s : Seen) (roles : List Text)
    → now ≤ later
    → Distinct g.role
    → see_roles later (swept now g) s roles ≡ see_roles later g s roles
unfolding see_roles
see_roles-swept now later g s [] h d = refl
see_roles-swept now later g s (r ∷ roles) h d =
    ap (λ o. see_roles later (swept now g) (see later s o) roles)
      (lookup-keep (λ d. not (expired now d)) r g.role d)
    ∙ (ap (λ t. see_roles later (swept now g) t roles)
          (see-filtered now later s (lookup r g.role) h)
        ∙ see_roles-swept now later g (see later s (lookup r g.role)) roles h d)

abbrev none_seen : Seen
none_seen = record { kicked = false; forever = false; latest = pos 0 }

seen-swept :
    (now later : ℕ) (g : KickGate) (id : ℕ) (roles : List Text)
    → IsValid g
    → now ≤ later
    → seen (swept now g) later id roles ≡ seen g later id roles
seen-swept now later g id roles v h =
    see_roles-swept now later g (see later none_seen (lookup id (swept now g).entity)) roles h v.1
    ∙ (ap (λ o. see_roles later g (see later none_seen o) roles)
          (lookup-keep (λ d. not (expired now d)) id g.entity v.0)
        ∙ ap (λ t. see_roles later g t roles)
            (see-filtered now later none_seen (lookup id g.entity) h))

-- Where the gate's maps hold each key once, a sweep changes no answer of the gate from then on:
-- what it takes away had ended.
pub is_kicked-sweep_once :
    (lib : UuidLib) (g : KickGate) (now later id : ℕ) (roles : List Text)
    → IsValid g
    → now ≤ later
    → is_kicked (sweep_once lib g now).0 later id roles ≡ is_kicked g later id roles
unfolding is_kicked sweep_once
is_kicked-sweep_once lib g now later id roles v h =
    ap
      (λ s.
        if s.forever
        then (true, none)
        else if s.kicked
        then (true, some s.latest)
        else (false, none))
      (seen-swept now later g id roles v h)

see_kicked : (now : ℕ) (s : Seen) (o : Option ℤ) → s.kicked ≡ true → (see now s o).kicked ≡ true
unfolding see
see_kicked now s none h = h
see_kicked now s (some d) h = ground arith

see_roles_kicked :
    (now : ℕ) (g : KickGate) (s : Seen) (roles : List Text)
    → s.kicked ≡ true
    → (see_roles now g s roles).kicked ≡ true
unfolding see_roles
see_roles_kicked now g s [] h = h
see_roles_kicked now g s (r ∷ roles) h =
    see_roles_kicked now g (see now s (lookup r g.role)) roles
      (see_kicked now s (lookup r g.role) h)

is_kicked_entity :
    (g : KickGate) (now id : ℕ) (d : ℤ) (roles : List Text)
    → lookup id g.entity ≡ some d
    → expired now d ≡ false
    → (is_kicked g now id roles).0 ≡ true
unfolding is_kicked see
is_kicked_entity g now id d roles l e =
    ground (arith, see_roles_kicked now g (see now none_seen (lookup id g.entity)) roles start)
  where
    start : (see now none_seen (lookup id g.entity)).kicked ≡ true
    start = rw l (ground arith)

see_roles-congr :
    (now : ℕ) (g h : KickGate) (s : Seen) (roles : List Text)
    → g.role ≡ h.role
    → see_roles now g s roles ≡ see_roles now h s roles
unfolding see_roles
see_roles-congr now g h s [] e = refl
see_roles-congr now g h s (r ∷ roles) e =
    ap (λ m. see_roles now g (see now s (lookup r m)) roles) e
    ∙ see_roles-congr now g h (see now s (lookup r h.role)) roles e

role_same : (g : KickGate) (id : ℕ) (op : KickOp) → (apply_entity g id op).role ≡ g.role
unfolding apply_entity
role_same g id op = elim (Bool-cases op.tombstone) [
  | inl t ↦ rw t refl
  | inr t ↦ rw t (elim (Option-cases op.deadline) [ inl d ↦ rw d refl | inr (x, d) ↦ rw d refl ])
]

lookup_other :
    (g : KickGate) (id other : ℕ) (op : KickOp)
    → id ≢ other
    → lookup other (apply_entity g id op).entity ≡ lookup other g.entity
unfolding apply_entity
lookup_other g id other op ne = elim (Bool-cases op.tombstone) [
  | inl t ↦ rw t (ground (arith, lookup-delete id other g.entity))
  | inr t ↦ rw t (elim (Option-cases op.deadline) [
    | inl d ↦ rw d refl
    | inr (x, d) ↦ rw d (ground (arith, lookup-insert id other x g.entity))
  ])
]

module _ (lib : UuidLib) where
  -- The key that `space.entity.kick` writes.
  abbrev pub kick_op : ℕ → Bool → Option ℤ → KickOp
  kick_op id t d = record { key = lib.to_text id ++ bytes ".kicked"; tombstone = t; deadline = d }

  apply-kick_op :
      (g : KickGate) (id : ℕ) (t : Bool) (d : Option ℤ)
      → apply lib g (bytes "entity") (kick_op id t d) ≡ apply_entity g id (kick_op id t d)
  unfolding apply split_entity_key
  apply-kick_op g id t d = ground (
    arith,
    cut-append (lib.to_text id) (bytes "kicked") (lib.to_text_no_dot id),
    lib.parse-to_text id,
  )

  -- After a kick of an entity whose deadline is 0 or still ahead, the gate refuses the entity,
  -- whatever its roles.
  pub is_kicked-apply :
      (g : KickGate) (id now : ℕ) (d : ℤ) (roles : List Text)
      → expired now d ≡ false
      → (is_kicked (apply lib g (bytes "entity") (kick_op id false (some d))) now id roles).0 ≡ true
  unfolding apply_entity
  is_kicked-apply g id now d roles e = rw (apply-kick_op g id false (some d)) (
      is_kicked_entity (apply_entity g id (kick_op id false (some d))) now id d roles
        (ground (arith, lookup-insert id id d g.entity)) e)

  -- An operation on the kick of one entity changes no answer for another.
  pub is_kicked-apply_ne :
      (g : KickGate) (id other now : ℕ) (t : Bool) (d : Option ℤ) (roles : List Text)
      → id ≢ other
      → is_kicked (apply lib g (bytes "entity") (kick_op id t d)) now other roles
        ≡ is_kicked g now other roles
  unfolding is_kicked
  is_kicked-apply_ne g id other now t d roles ne =
      ap {A = Seen} {B = Bool × Option ℤ}
        (λ s.
          if s.forever
          then (true, none)
          else if s.kicked
          then (true, some s.latest)
          else (false, none))
        (rw (apply-kick_op g id t d) (
          see_roles-congr now (apply_entity g id (kick_op id t d)) g _ roles
            (role_same g id (kick_op id t d))
          ∙ ap (λ o. see_roles now g (see now none_seen o) roles)
              (lookup_other g id other (kick_op id t d) ne)))
