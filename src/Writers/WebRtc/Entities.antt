-- ===== src/Writers/WebRtc/Entities.antt =====
-- The entity messages that a WebRTC client gets in all.
use panaudia.Base.{
  ℕ, ◌≡◌, refl, ap, ◌∙◌, inl, inr, Bool, Option, none, some, List, [], ◌∷◌, ◌++◌, take, drop,
  length, if_both, Option-cases,
}
use panaudia.Base.Keys.{Text, bytes, text_eq, nat_eq, ◌==◌}
use panaudia.Commands.{UuidLib}
use panaudia.StateCache.JsonOps.{JsonOp, JsonText}
use panaudia.StateCache.Opened.{open_envelope}
use panaudia.Space.Libraries.{SetLib}
use panaudia.Space.Pending.{IsNewest}
use panaudia.Writers.{
  View, take_marker, take_field, take_parts, take_op, take_ops, handle_entity, key_visible,
  entity_key_visible, visible_ops, filter_entity,
}
use panaudia.Writers.Channels.{Channel, new_channel, send_or_buffer, attach, send_all}
use panaudia.Writers.Channels.Opening.{channel_life, channel_life_newest}
use panaudia.Writers.WebRtc.{
  DataWriter, Sent, on_entity, send_entity, send_or_buffer_entity, attach_entity_channel,
}

module _ (ids : SetLib ℕ nat_eq) (uuids : UuidLib) (json : JsonText) where
  -- The operations on entities leave alone what decides which of them the client sees.
  abbrev Same : View ids → View ids → Type 0
  Same v w = (v.my_node_id ≡ w.my_node_id) × (v.entity_read_all ≡ w.entity_read_all)

  take_parts-Same :
      (view : View ids) (parts : Option (ℕ × Text)) (tombstone : Bool)
      → Same (take_parts ids uuids view parts tombstone) view
  unfolding take_parts take_field take_marker
  take_parts-Same view none tombstone = (refl, refl)
  take_parts-Same view (some (node, rest)) tombstone =
      let P = λ (v : View ids). Same v view in
      if_both P (rest == []) (if_both P tombstone (refl, refl) (refl, refl)) (
        if_both P (take 10 rest == bytes "subspaces.")
          (elim (Option-cases (uuids.parse (drop 10 rest))) [
            | inl e ↦ rw e (refl, refl)
            | inr (ss, e) ↦ rw e (refl, refl)
          ])
          (refl, refl))

  take_ops-Same :
      (view : View ids) (ops : List (JsonOp × Text)) → Same (take_ops ids uuids view ops) view
  unfolding take_ops take_op
  take_ops-Same view [] = (refl, refl)
  take_ops-Same view ((op, raw) ∷ ops) =
      let (a, b) = take_ops-Same (take_op ids uuids view op) ops in
      let (c, d) = take_parts-Same view _ op.tombstone in (a ∙ c, b ∙ d)

  handle_entity-Same :
      (view : View ids) (payload : Text) → Same (handle_entity ids uuids json view payload) view
  unfolding handle_entity
  handle_entity-Same view payload = elim (Option-cases (open_envelope json payload)) [
    | inl e ↦ rw (handle_entity, e) (refl, refl)
    | inr ((envelope, ops), e) ↦ rw (handle_entity, e) (take_ops-Same view ops)
  ]

  visible_ops-Same :
      (v w : View ids) (ops : List (JsonOp × Text))
      → Same v w
      → visible_ops ids uuids json v ops ≡ visible_ops ids uuids json w ops
  unfolding visible_ops entity_key_visible
  visible_ops-Same v w [] h = refl
  visible_ops-Same v w ((op, raw) ∷ ops) h =
      let rest = visible_ops-Same v w ops h in
      elim (Option-cases (json.read_op raw)) [
        | inl e ↦ rw (visible_ops, e) rest
        | inr (read, e) ↦ rw (visible_ops, e, rest, visible read.key h) refl
      ]
    where
      visible :
          (key : Text)
          → Same v w
          → entity_key_visible ids uuids v key ≡ entity_key_visible ids uuids w key
      visible key (a, b) =
          ap (λ all. key_visible all (uuids.to_text v.my_node_id) key) b
          ∙ ap (λ id. key_visible w.entity_read_all (uuids.to_text id) key) a

  filter_entity-Same :
      (v w : View ids) (payload : Text)
      → Same v w
      → filter_entity ids uuids json v payload ≡ filter_entity ids uuids json w payload
  unfolding filter_entity
  filter_entity-Same v w payload h = elim (Option-cases (open_envelope json payload)) [
    | inl e ↦ rw (filter_entity, e) refl
    | inr ((envelope, ops), e) ↦ rw (filter_entity, e, visible_ops-Same v w ops h) refl
  ]

  -- What of a sequence of entity messages passes the filter of a client
  abbrev pub filtered : View ids → List Text → List Text
  filtered view [] = []
  filtered view (payload ∷ payloads) =
      let rest = filtered view payloads in
      elim (filter_entity ids uuids json view payload) [ none ↦ rest | some out ↦ out ∷ rest ]

  -- What is sent as an entity message
  abbrev pub entities_in : Sent → List Text
  entities_in (on_entity sent) = sent
  entities_in other = []

  -- Entity messages in their order, as `SendString` takes them
  unfoldable pub take_entities : DataWriter ids → List Text → DataWriter ids × List Text
  take_entities writer [] = (writer, [])
  take_entities writer (payload ∷ payloads) =
      let (next, sent) =
        send_entity ids uuids json
          (record writer { view = handle_entity ids uuids json writer.view payload }) payload in
      let (last, more) = take_entities next payloads in (last, entities_in sent ++ more)

  -- One entity message, by what the filter makes of it
  send_entity_lem :
      (writer : DataWriter ids) (payload : Text) (v : View ids)
      → Same writer.view v
      → let (next, sent) = send_entity ids uuids json writer payload in
        Same next.view v
        × ((next.entity, entities_in sent)
            ≡ (elim (filter_entity ids uuids json v payload) as (λ _. Channel × List Text) [
              | none ↦ (writer.entity, [])
              | some out ↦ send_or_buffer writer.entity out
            ]))
  unfolding send_entity send_or_buffer_entity
  send_entity_lem writer payload v h =
      elim (Option-cases (filter_entity ids uuids json v payload)) [
        | inl e ↦ rw (send_entity, filter_entity-Same writer.view v payload h, e) (h, refl)
        | inr (out, e) ↦ rw (send_entity, filter_entity-Same writer.view v payload h, e) (h, refl)
      ]

  take_entities_lem :
      (payloads : List Text) (writer : DataWriter ids) (v : View ids)
      → Same writer.view v
      → let (last, sent) = take_entities writer payloads in
        Same last.view v × ((last.entity, sent) ≡ send_all writer.entity (filtered v payloads))
  unfolding take_entities send_all
  take_entities_lem [] writer v h = (h, refl)
  take_entities_lem (payload ∷ payloads) writer v (a, b) =
      let (c, d) = handle_entity-Same writer.view payload in
      let start = record writer { view = handle_entity ids uuids json writer.view payload } in
      let (next, sent) = send_entity ids uuids json start payload in
      let (same, once) = send_entity_lem start payload v (c ∙ a, d ∙ b) in
      let (kept, others) = take_entities_lem payloads next v same in
      (
        kept,
        ap (λ r. (r.0, entities_in sent ++ r.1)) others
            ∙ ap (then_all (filtered v payloads)) once
            ∙ joined writer.entity (filter_entity ids uuids json v payload) (filtered v payloads),
      )
    where
      then_all : List Text → Channel × List Text → Channel × List Text
      then_all ms c = let (last, more) = send_all c.0 ms in (last, c.1 ++ more)

      joined :
          (ch : Channel) (o : Option Text) (ms : List Text)
          → then_all ms (elim o as (λ _. Channel × List Text) [
            | none ↦ (ch, [])
            | some out ↦ send_or_buffer ch out
          ])
            ≡ send_all ch (elim o as (λ _. List Text) [ none ↦ ms | some out ↦ out ∷ ms ])
      joined ch none ms = refl
      joined ch (some out) ms = refl

  -- What a new connection sends on the entity channel, with messages before it opens and after
  unfoldable pub entity_life : DataWriter ids → List Text → List Text → List Text
  entity_life writer before after =
      let (waiting, early) = take_entities (record writer { entity = new_channel }) before in
      let (open_, flushed) = attach_entity_channel ids waiting in
      early ++ (entities_in flushed ++ (take_entities open_ after).1)

  -- The entity channel of a connection carries, in their order, what the filter lets through of the
  -- messages after it opens, and before that the newest of what it let through of the earlier ones:
  -- as many as fit in the limit, and in any case the last.
  pub entity_life-newest :
      (writer : DataWriter ids) (before after : List Text)
      → (lost kept : List Text) × IsNewest length (filtered writer.view before) lost kept
        × (entity_life writer before after ≡ kept ++ filtered writer.view after)
  unfolding entity_life attach_entity_channel channel_life attach
  entity_life-newest writer before after =
      let start = record writer { entity = new_channel } in
      let (same, first) = take_entities_lem before start writer.view (refl, refl) in
      let (open_, flushed) = attach_entity_channel ids (take_entities start before).0 in
      let (later, second) = take_entities_lem after open_ writer.view same in
      let (lost, kept, newest, all) =
        channel_life_newest (filtered writer.view before) (filtered writer.view after) in
      let queue = send_all new_channel (filtered writer.view before) in
      (
        lost,
        kept,
        newest,
        ap (λ r. r.1 ++ (r.0.pending ++ (take_entities open_ after).1)) first
            ∙ ap (λ r. queue.1 ++ (queue.0.pending ++ r.1)) second
            ∙ all,
      )
