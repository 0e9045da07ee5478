-- ===== src/Space/KickGate.antt =====
-- core/space/kick_gate.go: the active kicks, with `splitEntityKey` of core/space/base_space_ops.go. A
-- call holds the gate's mutex throughout, so each is one step. Times are in milliseconds.
pub mod Valid
pub mod Answers
use panaudia.Base.{
  ℕ, ◌≤◌, ◌≡◌, ◌≢◌, refl, ap, ◌∙◌, Bool, true, false, not, ◌&&◌, ◌||◌, List, [], ◌∷◌, ◌++◌, map,
  Option, none, some, if◌then◌else◌, arith, take, drop, ltb, eqb, inl, inr, Bool-cases,
  Option-cases,
}
use panaudia.Base.Int.{ℤ, pos, negsuc, is_zero, ltb_ℤ}
use panaudia.Base.Keys.{Text, bytes, nat_eq, text_eq, text_beq_iff, ◌==◌}
use panaudia.Base.Assoc.{Map, lookup, insert, delete, lookup-insert, lookup-delete}
use panaudia.Base.Distinct.{
  Distinct, keep, filtered, lookup-keep, insert-Distinct, delete-Distinct, keep-Distinct,
}
use panaudia.Commands.{UuidLib}
use panaudia.Commands.Scope.{cut, cut-append}

-- `KickGate`: the deadlines, 0 for a kick that does not end.
pub record KickGate : Type 0 where
  pub entity : Map ℕ ℤ
  pub role : Map Text ℤ

-- The operation that `Apply` is given; `deadline` is what `decodeOpValue` reads of its value.
pub record KickOp : Type 0 where
  pub key : Text
  pub tombstone : Bool
  pub deadline : Option ℤ

-- `NewKickGate`
abbrev pub new_kick_gate : KickGate
new_kick_gate = record { entity = []; role = [] }

-- What `Apply` does to one of the two maps.
unfoldable pub apply_entity : KickGate → ℕ → KickOp → KickGate
apply_entity g id op =
    if op.tombstone
    then record g { entity = delete id g.entity }
    else elim op.deadline [ none ↦ g | some d ↦ record g { entity = insert id d g.entity } ]

unfoldable pub apply_role : KickGate → Text → KickOp → KickGate
apply_role g name op =
    if op.tombstone
    then record g { role = delete name g.role }
    else elim op.deadline [ none ↦ g | some d ↦ record g { role = insert name d g.role } ]

-- What `IsKicked` has gathered.
pub record Seen : Type 0 where
  pub kicked : Bool
  pub forever : Bool
  pub latest : ℤ

unfoldable pub see : ℕ → Seen → Option ℤ → Seen
see now s none = s
see now s (some d) =
    if is_zero d
    then record s { kicked = true; forever = true }
    else if ltb_ℤ (pos now) d
    then record s { kicked = true; latest = if ltb_ℤ s.latest d then d else s.latest }
    else s

unfoldable pub see_roles : ℕ → KickGate → Seen → List Text → Seen
see_roles now g s [] = s
see_roles now g s (r ∷ roles) = see_roles now g (see now s (lookup r g.role)) roles

abbrev pub seen : KickGate → ℕ → ℕ → List Text → Seen
seen g now id roles =
    see_roles now g
      (see now (record { kicked = false; forever = false; latest = pos 0 }) (lookup id g.entity))
      roles

-- `IsKicked`; the zero time is `none`.
unfoldable pub is_kicked : KickGate → ℕ → ℕ → List Text → Bool × Option ℤ
is_kicked g now id roles =
    let s = seen g now id roles in
    if s.forever then (true, none) else if s.kicked then (true, some s.latest) else (false, none)

-- `d != 0 && d <= nowMs`
abbrev pub expired : ℕ → ℤ → Bool
expired now d = not (is_zero d) && not (ltb_ℤ (pos now) d)

module _ (lib : UuidLib) where
  -- `splitEntityKey`
  unfoldable pub split_entity_key : Text → Option (ℕ × Text)
  split_entity_key key = elim (lib.parse (cut key).0) [
    | none ↦ none
    | some id ↦ some (id, (cut key).1)
  ]

  -- `Apply`
  unfoldable pub apply : KickGate → Text → KickOp → KickGate
  apply g topic op =
      if topic == bytes "entity"
      then elim (split_entity_key op.key) [
        | none ↦ g
        | some (id, rest) ↦ if rest == bytes "kicked" then apply_entity g id op else g
      ]
      else if topic == bytes "space"
      then if take 13 op.key == bytes "roles-kicked."
        then if drop 13 op.key == [] then g else apply_role g (drop 13 op.key) op
        else g
      else g

  -- `sweepOnce`: the gate, and the topics and keys of the tombstones that it emits.
  unfoldable pub sweep_once : KickGate → ℕ → KickGate × List (Text × Text)
  sweep_once g now = (
    record {
      entity = keep (λ d. not (expired now d)) g.entity;
      role = keep (λ d. not (expired now d)) g.role;
    },
    map (λ e. (bytes "entity", lib.to_text e.0 ++ bytes ".kicked")) (keep (expired now) g.entity)
        ++ map (λ e. (bytes "space", bytes "roles-kicked." ++ e.0)) (keep (expired now) g.role),
  )
