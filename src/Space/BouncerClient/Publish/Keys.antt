-- ===== src/Space/BouncerClient/Publish/Keys.antt =====
-- The keys that a client takes away: those that it has published since it last took them.
use panaudia.Base.{
  ◌≡◌, ◌↔◌, ◌⊎◌, inl, inr, subst, true, Bool, List, [], ◌∷◌, ◌++◌, map, Bool-cases, Some,
  Some-append,
}
use panaudia.Base.Keys.{Text, text_eq, text_beq_iff, ◌==◌}
use panaudia.Base.Assoc.{Map, insert}
use panaudia.Commands.{UuidLib}
use panaudia.StateCache.JsonOps.{JsonText}
use panaudia.Space.BouncerClient.Publish.{
  WriteLib, InfoLib, NodeConfig, Publisher, track_keys, keys_of, add_ops, entity_fields,
  attribute_fields, send_entity, send_attributes, take_sent_keys, announce_disappearance,
}

-- The key is in the list.
abbrev pub Has : Text → List Text → Type 0
Has key keys = Some (λ k. k ≡ key) keys

keys_of-insert :
    (key at : Text) (keys : Map Text Bool)
    → Has key (keys_of (insert at true keys)) ↔ ((at ≡ key) ⊎ Has key (keys_of keys))
unfolding insert
keys_of-insert key at [] = (λ h. h, λ h. h)
keys_of-insert key at ((k, sent) ∷ keys) = elim (Bool-cases (k == at)) [
  | inl e ↦
      let same : k ≡ at = (text_beq_iff k at).0 e in
      rw e (
        λ h. elim h [ inl q ↦ inl q | inr s ↦ inr (inr s) ],
        λ h. elim h [
          | inl q ↦ inl q
          | inr (inl q) ↦ inl (subst (λ t. t ≡ key) same q)
          | inr (inr s) ↦ inr s
        ],
      )
  | inr e ↦
      let (there, back) = keys_of-insert key at keys in
      rw e (
        λ h. elim h [
          | inl q ↦ inr (inl q)
          | inr s ↦ elim (there s) [ inl a ↦ inl a | inr b ↦ inr (inr b) ]
        ],
        λ h. elim h [
          | inl a ↦ inr (back (inl a))
          | inr (inl q) ↦ inl q
          | inr (inr b) ↦ inr (back (inr b))
        ],
      )
]

track_keys-Has :
    (key : Text) (ops : List (Text × Text)) (keys : Map Text Bool)
    → Has key (keys_of (track_keys ops keys))
      ↔ (Has key (map (λ p. p.0) ops) ⊎ Has key (keys_of keys))
unfolding track_keys
track_keys-Has key [] keys = (λ h. inr h, λ h. elim h [ inl n ↦ absurd n | inr s ↦ s ])
track_keys-Has key ((at, op) ∷ ops) keys =
    let (there, back) = track_keys-Has key ops (insert at true keys) in
    let (seen, unseen) = keys_of-insert key at keys in
    (
      λ h. elim (there h) [
        | inl a ↦ inl (inr a)
        | inr b ↦ elim (seen b) [ inl q ↦ inl (inl q) | inr s ↦ inr s ]
      ],
      λ h. elim h [
        | inl (inl q) ↦ back (inr (unseen (inl q)))
        | inl (inr a) ↦ back (inl a)
        | inr s ↦ back (inr (unseen (inr s)))
      ],
    )

-- The calls that touch the keys
pub data Step : Type 0 where
  entity_step attributes_step take_step announce_step : Step

module _ (uuids : UuidLib) (write : WriteLib) (json : JsonText) (info : InfoLib)
    (config : NodeConfig write.Value) where
  -- The calls in their order
  unfoldable pub run : Publisher info.Float info.Place → List Step → Publisher info.Float info.Place
  run client [] = client
  run client (entity_step ∷ steps) = run (send_entity uuids write json info config client).0 steps
  run client (attributes_step ∷ steps) =
      run (send_attributes uuids write json info config client).0 steps
  run client (take_step ∷ steps) = run (take_sent_keys uuids write json info config client).0 steps
  run client (announce_step ∷ steps) =
      run (announce_disappearance uuids write json info config client).0 steps

  -- The keys of the operations in one entity message, and in one of attributes
  abbrev pub entity_keys : List Text
  entity_keys = map (λ p. p.0) (add_ops uuids write (entity_fields uuids write config))

  abbrev pub attribute_keys : List Text
  attribute_keys = map (λ p. p.0) (add_ops uuids write (attribute_fields uuids write config))

  -- The keys that were published after the last call that takes them, with `before` to begin with.
  unfoldable pub entity_since : List Text → List Step → List Text
  entity_since before [] = before
  entity_since before (entity_step ∷ steps) = entity_since (entity_keys ++ before) steps
  entity_since before (attributes_step ∷ steps) = entity_since before steps
  entity_since before (take_step ∷ steps) = entity_since [] steps
  entity_since before (announce_step ∷ steps) = entity_since [] steps

  unfoldable pub attributes_since : List Text → List Step → List Text
  attributes_since before [] = before
  attributes_since before (entity_step ∷ steps) = attributes_since before steps
  attributes_since before (attributes_step ∷ steps) =
      attributes_since (attribute_keys ++ before) steps
  attributes_since before (take_step ∷ steps) = attributes_since [] steps
  attributes_since before (announce_step ∷ steps) = attributes_since [] steps

  -- The client holds exactly these keys.
  abbrev pub Tracks : List Text → Map Text Bool → Type 0
  Tracks keys sent = (key : Text) → Has key (keys_of sent) ↔ Has key keys

  track_keys-Tracks :
      (ops : List (Text × Text)) (before : List Text) (sent : Map Text Bool)
      → Tracks before sent
      → Tracks (map (λ p. p.0) ops ++ before) (track_keys ops sent)
  track_keys-Tracks ops before sent h key =
      let (there, back) = track_keys-Has key ops sent in
      let (split, join) = Some-append (λ k. k ≡ key) (map (λ p. p.0) ops) before in
      (
        λ k. elim (there k) [ inl a ↦ join (inl a) | inr b ↦ join (inr ((h key).0 b)) ],
        λ k. elim (split k) [ inl a ↦ back (inl a) | inr b ↦ back (inr ((h key).1 b)) ],
      )

  pub none_sent : Tracks [] []
  none_sent key = (λ h. h, λ h. h)

  pub run-Tracks :
      (steps : List Step) (client : Publisher info.Float info.Place) (es as_ : List Text)
      → Tracks es client.sent_entity_keys
      → Tracks as_ client.sent_keys
      → Tracks (entity_since es steps) (run client steps).sent_entity_keys
        × Tracks (attributes_since as_ steps) (run client steps).sent_keys
  unfolding run entity_since attributes_since send_entity send_attributes take_sent_keys
      announce_disappearance
  run-Tracks [] client es as_ h k = (h, k)
  run-Tracks (entity_step ∷ steps) client es as_ h k =
      run-Tracks steps (send_entity uuids write json info config client).0 (entity_keys ++ es) as_
        (track_keys-Tracks (add_ops uuids write (entity_fields uuids write config)) es
          client.sent_entity_keys h)
        k
  run-Tracks (attributes_step ∷ steps) client es as_ h k =
      run-Tracks steps (send_attributes uuids write json info config client).0 es
        (attribute_keys ++ as_) h
        (track_keys-Tracks (add_ops uuids write (attribute_fields uuids write config)) as_
          client.sent_keys k)
  run-Tracks (take_step ∷ steps) client es as_ h k =
      run-Tracks steps (take_sent_keys uuids write json info config client).0 [] [] none_sent
        none_sent
  run-Tracks (announce_step ∷ steps) client es as_ h k =
      run-Tracks steps (announce_disappearance uuids write json info config client).0 [] []
        none_sent none_sent
