-- ===== src/Writers/Own.antt =====
-- The entity operations that reach a client.
use panaudia.Base.{
  ℕ, suc, ◌≡◌, ◌↔◌, ◌⊎◌, inl, inr, refl, ap, ◌∙◌, true, ◌&&◌, some, List, [], ◌∷◌, ◌++◌,
  if◌then◌else◌, eqb, ltb, take, drop, length, get_or, arith, ◌<◌, All, take-drop, drop-get_or,
  length-append, get_or-append, take-append, Bool-cases, Option-cases,
}
use panaudia.Base.Keys.{Text, nat_eq, text_eq, text_beq_iff, ◌==◌}
use panaudia.Commands.{UuidLib}
use panaudia.StateCache.{Op}
use panaudia.StateCache.JsonOps.{JsonOp, JsonText}
use panaudia.StateCache.Wire.{WireError, Coded, ok, refused, encode}
use panaudia.StateCache.Opened.{open_envelope}
use panaudia.Space.Libraries.{SetLib}
use panaudia.Writers.{View, key_visible, entity_key_visible, visible_ops, inner_of, filter_entity}

Coded-cases :
    {A : Type 0} (c : Coded A) → ((a : A) × (c ≡ ok a)) ⊎ ((e : WireError) × (c ≡ refused e))
Coded-cases (ok a) = inl (a, refl)
Coded-cases (refused e) = inr (e, refl)

module _ (ids : SetLib ℕ nat_eq) (uuids : UuidLib) (json : JsonText) where
  -- The key is the uuid, or a field of it.
  abbrev pub IsUnder : ℕ → Text → Type 0
  IsUnder uuid key =
      (key ≡ uuids.to_text uuid) ⊎ ((rest : Text) × (key ≡ uuids.to_text uuid ++ (b'.' ∷ rest)))

  entity_key_visible_iff :
      (view : View ids) (key : Text)
      → (entity_key_visible ids uuids view key ≡ true)
        ↔ ((view.entity_read_all ≡ true) ⊎ IsUnder view.my_node_id key)
  unfolding entity_key_visible key_visible
  entity_key_visible_iff view key =
      let id = uuids.to_text view.my_node_id in
      (
        λ h. elim (Bool-cases view.entity_read_all) [
          | inl e ↦ inl e
          | inr e ↦ elim (Bool-cases (key == id)) [
            | inl k ↦ inr (inl ((text_beq_iff key id).0 k))
            | inr k ↦ inr (inr (drop (suc (length id)) key, parts id (ground arith) (ground arith)))
          ]
        ],
        λ s. elim s [
          | inl e ↦ ground arith
          | inr (inl k) ↦ ground (arith, (text_beq_iff key id).1 k)
          | inr (inr (rest, k)) ↦ under id rest k
        ],
      )
    where
      parts :
          (id : Text)
          → length id < length key
          → (eqb (get_or key (length id) 0) b'.' && take (length id) key == id) ≡ true
          → key ≡ id ++ (b'.' ∷ drop (suc (length id)) key)
      parts id l h =
          let dot : get_or key (length id) 0 ≡ b'.' = ground arith in
          let start : take (length id) key ≡ id =
            (text_beq_iff (take (length id) key) id).0 (ground arith) in
          take-drop (length id) key
          ∙ ap (λ t. t ++ drop (length id) key) start
          ∙ ap (λ t. id ++ t) (drop-get_or (length id) key 0 l)
          ∙ ap (λ c. id ++ (c ∷ drop (suc (length id)) key)) dot

      under :
          (id rest : Text)
          → key ≡ id ++ (b'.' ∷ rest)
          → (if view.entity_read_all
              then true
              else if key == id
              then true
              else ltb (length id) (length key)
                && (eqb (get_or key (length id) 0) b'.' && take (length id) key == id))
            ≡ true
      under id rest k = ground (
        arith,
        ap length k,
        length-append id (b'.' ∷ rest),
        ap (λ t. get_or t (length id) 0) k,
        get_or-append id rest 0 b'.',
        (text_beq_iff (take (length id) key) id).1
            (ap (take (length id)) k ∙ take-append id (b'.' ∷ rest)),
      )

  -- A raw operation reads as one with a key of the client, or of any node where the client reads all.
  abbrev pub IsAllowed : View ids → Text → Type 0
  IsAllowed view raw =
      (op : JsonOp) × ((json.read_op raw ≡ some op)
        × ((view.entity_read_all ≡ true) ⊎ IsUnder view.my_node_id op.key))

  visible_ops-IsAllowed :
      (view : View ids) (ops : List (JsonOp × Text))
      → All (IsAllowed view) (visible_ops ids uuids json view ops)
  unfolding visible_ops
  visible_ops-IsAllowed view [] = tt
  visible_ops-IsAllowed view ((op, raw) ∷ ops) =
      let rest = visible_ops-IsAllowed view ops in
      elim (Option-cases (json.read_op raw)) [
        | inl e ↦ rw (visible_ops, e) rest
        | inr (read, e) ↦ elim (Bool-cases (entity_key_visible ids uuids view read.key)) [
          | inl v ↦
              rw (visible_ops, e, v) ((read, (e, (entity_key_visible_iff view read.key).0 v)), rest)
          | inr v ↦ rw (visible_ops, e, v) rest
        ]
      ]

  -- What reaches the client of an entity message is the envelope of that message with operations of
  -- the client's own node in it, or of any node where the client may read all.
  pub filter_entity-IsAllowed :
      (view : View ids) (payload out : Text)
      → filter_entity ids uuids json view payload ≡ some out
      → (envelope : Op) × (ops : List (JsonOp × Text)) × (raws : List Text) × (inner : Text)
        × (open_envelope json payload ≡ some (envelope, ops))
        × All (IsAllowed view) raws
        × (inner_of ids uuids raws ≡ some inner)
        × (encode (record envelope { value = inner }) ≡ ok out)
  unfolding filter_entity
  filter_entity-IsAllowed view payload out h = elim (Option-cases (open_envelope json payload)) [
    | inl e ↦ ground (arith, h, e)
    | inr ((envelope, ops), e) ↦
        let raws = visible_ops ids uuids json view ops in
        elim (Option-cases (inner_of ids uuids raws)) [
          | inl f ↦ ground (arith, h, e, f)
          | inr (inner, f) ↦ elim (Coded-cases (encode (record envelope { value = inner }))) [
            | inl (o, g) ↦
                let same : o ≡ out = ground (arith, h, e, f, g) in
                (envelope, ops, raws, inner, e, visible_ops-IsAllowed view ops, f, g ∙ ap ok same)
            | inr (r, g) ↦ ground (arith, h, e, f, g)
          ]
        ]
  ]
