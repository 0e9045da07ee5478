-- ===== src/Writers/Known.antt =====
-- What a writer knows of the other nodes: which exist, and which subspaces each is in. The maps and
-- sets of the view stand for two relations, which the entity operations set and clear.
use panaudia.Base.{
  ℕ, ◌≡◌, refl, sym, ap, ◌∙◌, Bool, true, false, not, ◌&&◌, Option, none, some, List, [], ◌∷◌,
  if◌then◌else◌, eqb, eqb_iff, take, drop, arith, if_map, Bool-cases, inl, inr,
}
use panaudia.Base.Keys.{Text, bytes, text_eq, nat_eq, ◌==◌}
use panaudia.Base.Assoc.{Map, lookup, insert, delete, lookup-insert, lookup-delete}
use panaudia.Commands.{UuidLib}
use panaudia.StateCache.JsonOps.{JsonOp}
use panaudia.Space.KickGate.{split_entity_key}
use panaudia.Space.Libraries.{SetLib, any}
use panaudia.Writers.{
  View, take_marker, with_set, with_subspace, take_field, take_parts, take_op, take_ops,
}

module _ (ids : SetLib ℕ nat_eq) where
  -- The two relations of a view
  abbrev pub is_member : View ids → ℕ → Bool
  is_member view node = ids.contains node view.members

  abbrev pub knows_set : Option ids.Set → ℕ → Bool
  knows_set none ss = false
  knows_set (some s) ss = ids.contains ss s

  abbrev pub knows_in : Map ℕ ids.Set → ℕ → ℕ → Bool
  knows_in sets node ss = knows_set (lookup node sets) ss

-- Whether a node exists after an operation on it: the marker says so.
abbrev exists_after : ℕ → Option (ℕ × Text) → Bool → Bool → Bool
exists_after node none tombstone before = before
exists_after node (some (id, rest)) tombstone before =
    if eqb id node && rest == [] then not tombstone else before

module _ (uuids : UuidLib) where
  -- Whether a node is in a subspace after an operation on it: the operation on the subspace says so,
  -- and a node that is gone is in none.
  abbrev in_after : ℕ → ℕ → Option (ℕ × Text) → Bool → Bool → Bool
  in_after node ss none tombstone before = before
  in_after node ss (some (id, rest)) tombstone before =
      if not (eqb id node)
      then before
      else if rest == []
      then if tombstone then false else before
      else if take 10 rest == bytes "subspaces."
      then elim (uuids.parse (drop 10 rest)) [
        | none ↦ before
        | some s ↦ if eqb s ss then not tombstone else before
      ]
      else before

  -- The two relations after a sequence of operations
  abbrev pub exists_in : ℕ → List (JsonOp × Text) → Bool → Bool
  exists_in node [] before = before
  exists_in node ((op, raw) ∷ ops) before =
      exists_in node ops (exists_after node (split_entity_key uuids op.key) op.tombstone before)

  abbrev pub in_subspace : ℕ → ℕ → List (JsonOp × Text) → Bool → Bool
  in_subspace node ss [] before = before
  in_subspace node ss ((op, raw) ∷ ops) before =
      in_subspace node ss ops (in_after node ss (split_entity_key uuids op.key) op.tombstone before)

  module _ (ids : SetLib ℕ nat_eq) where
    contains_empty : (x : ℕ) → ids.contains x ids.empty ≡ false
    contains_empty x =
        ids.contains-elements x ids.empty ∙ ap (any (nat_eq.same x)) ids.elements_empty

    insert-knows :
        (sets : Map ℕ ids.Set) (id : ℕ) (set : ids.Set) (node ss : ℕ)
        → knows_in ids (insert id set sets) node ss
          ≡ (if eqb id node then ids.contains ss set else knows_in ids sets node ss)
    insert-knows sets id set node ss =
        ap (λ o. knows_set ids o ss) (lookup-insert id node set sets)
        ∙ if_map (λ o. knows_set ids o ss) (eqb id node) (some set) (lookup node sets)

    with_set-knows :
        (sets : Map ℕ ids.Set) (id s : ℕ) (tombstone : Bool) (o : Option ids.Set) (node ss : ℕ)
        → lookup id sets ≡ o
        → knows_in ids (with_set ids sets id s tombstone o) node ss
          ≡ (if eqb id node && eqb s ss then not tombstone else knows_in ids sets node ss)
    unfolding with_set
    with_set-knows sets id s true none node ss e =
        let known = ap (λ o. knows_set ids o ss) e in
        ground (arith, known, eqb_iff id node, ap (λ n. knows_in ids sets n ss) {x = id} {y = node})
    with_set-knows sets id s true (some set) node ss e =
        let known = ap (λ o. knows_set ids o ss) e in
        ground (
          arith,
          known,
          eqb_iff id node,
          ap (λ n. knows_in ids sets n ss) {x = id} {y = node},
          insert-knows sets id (ids.remove s set) node ss,
          ids.contains-remove s ss set,
        )
    with_set-knows sets id s false none node ss e =
        let known = ap (λ o. knows_set ids o ss) e in
        ground (
          arith,
          known,
          eqb_iff id node,
          ap (λ n. knows_in ids sets n ss) {x = id} {y = node},
          insert-knows sets id (ids.add s ids.empty) node ss,
          ids.contains-add s ss ids.empty,
          contains_empty ss,
        )
    with_set-knows sets id s false (some set) node ss e =
        let known = ap (λ o. knows_set ids o ss) e in
        ground (
          arith,
          known,
          eqb_iff id node,
          ap (λ n. knows_in ids sets n ss) {x = id} {y = node},
          insert-knows sets id (ids.add s set) node ss,
          ids.contains-add s ss set,
        )

    -- The effect of one operation on both relations
    record Taken (view after : View ids) (parts : Option (ℕ × Text)) (tombstone : Bool)
        : Type 0 where
      marks :
          (node : ℕ)
          → is_member ids after node ≡ exists_after node parts tombstone (is_member ids view node)
      enters :
          (node ss : ℕ)
          → knows_in ids after.node_subspaces node ss
            ≡ in_after node ss parts tombstone (knows_in ids view.node_subspaces node ss)

    delete-knows :
        (sets : Map ℕ ids.Set) (id node ss : ℕ)
        → knows_in ids (delete id sets) node ss
          ≡ (if eqb id node then false else knows_in ids sets node ss)
    delete-knows sets id node ss =
        ap (λ o. knows_set ids o ss) (lookup-delete id node sets)
        ∙ if_map (λ o. knows_set ids o ss) (eqb id node) none (lookup node sets)

    take_marker-Taken :
        (view : View ids) (id : ℕ) (rest : Text) (tombstone : Bool)
        → rest == [] ≡ true
        → Taken view (take_marker ids view id tombstone) (some (id, rest)) tombstone
    unfolding take_marker
    take_marker-Taken view id rest true f = record {
      marks = λ node. ground (arith, f, ids.contains-remove id node view.members);
      enters = λ node ss. ground (arith, f, delete-knows view.node_subspaces id node ss);
    }
    take_marker-Taken view id rest false f = record {
      marks = λ node. ground (arith, f, ids.contains-add id node view.members);
      enters = λ node ss. ground (arith, f);
    }

    -- An operation that says nothing of either
    same-Taken :
        (view : View ids) (id : ℕ) (rest : Text) (tombstone : Bool)
        → rest == [] ≡ false
        → ((node ss : ℕ) (b : Bool) → in_after node ss (some (id, rest)) tombstone b ≡ b)
        → Taken view view (some (id, rest)) tombstone
    same-Taken view id rest tombstone f h = record {
      marks = λ node. ground (arith, f);
      enters = λ node ss. sym (h node ss (knows_in ids view.node_subspaces node ss));
    }

    take_subspace-Taken :
        (view : View ids) (id : ℕ) (rest : Text) (tombstone : Bool) (o : Option ℕ)
        → rest == [] ≡ false
        → take 10 rest == bytes "subspaces." ≡ true
        → uuids.parse (drop 10 rest) ≡ o
        → Taken view
            (elim o as (λ (x : Option ℕ). View ids) [
              | none ↦ view
              | some ss ↦ record view {
                node_subspaces = with_subspace ids view.node_subspaces id ss tombstone;
              }
            ])
            (some (id, rest))
            tombstone
    unfolding with_subspace
    take_subspace-Taken view id rest tombstone none f g p =
        same-Taken view id rest tombstone f (λ node ss b. rw (f, g, p) (ground arith))
    take_subspace-Taken view id rest tombstone (some s) f g p = record {
      marks = λ node. ground (arith, f);
      enters = λ node ss.
          rw (f, g, p)
            (ground (
              arith,
              with_set-knows view.node_subspaces id s tombstone (lookup id view.node_subspaces) node
                  ss refl,
            ));
    }

    take_field-Taken :
        (view : View ids) (id : ℕ) (rest : Text) (tombstone : Bool)
        → Taken view (take_field ids uuids view id rest tombstone) (some (id, rest)) tombstone
    unfolding take_field
    take_field-Taken view id rest tombstone = elim (Bool-cases (rest == [])) [
      | inl f ↦ rw (take_field, f) (take_marker-Taken view id rest tombstone f)
      | inr f ↦
          rw (take_field, f)
            (elim (Bool-cases (take 10 rest == bytes "subspaces.")) [
              | inl g ↦ rw g (take_subspace-Taken view id rest tombstone _ f g refl)
              | inr g ↦
                  rw g (same-Taken view id rest tombstone f (λ node ss b. rw (f, g) (ground arith)))
            ])
    ]

    take_op-Taken :
        (view : View ids) (op : JsonOp)
        → Taken view (take_op ids uuids view op) (split_entity_key uuids op.key) op.tombstone
    unfolding take_op take_parts
    take_op-Taken view op = by_parts (split_entity_key uuids op.key)
      where
        by_parts :
            (parts : Option (ℕ × Text))
            → Taken view (take_parts ids uuids view parts op.tombstone) parts op.tombstone
        by_parts none = record { marks = λ node. refl; enters = λ node ss. refl }
        by_parts (some (id, rest)) = take_field-Taken view id rest op.tombstone

    -- After any entity operations, a node is a member exactly when the operations leave it existing,
    -- and the view knows it in a subspace exactly when they leave it in the subspace.
    pub take_ops-knows :
        (ops : List (JsonOp × Text)) (view : View ids) (node ss : ℕ)
        → (is_member ids (take_ops ids uuids view ops) node
            ≡ exists_in node ops (is_member ids view node))
          × (knows_in ids (take_ops ids uuids view ops).node_subspaces node ss
              ≡ in_subspace node ss ops (knows_in ids view.node_subspaces node ss))
    unfolding take_ops
    take_ops-knows [] view node ss = (refl, refl)
    take_ops-knows ((op, raw) ∷ ops) view node ss =
        let t = take_op-Taken view op in
        let (marks, enters) = take_ops-knows ops (take_op ids uuids view op) node ss in
        (
          marks ∙ ap (exists_in node ops) (t.marks node),
          enters ∙ ap (in_subspace node ss ops) (t.enters node ss),
        )
