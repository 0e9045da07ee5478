-- ===== src/Direct/Tracking.antt =====
-- The keys that the backend tracks are the ones that go with a connection.
use panaudia.Base.{
  ℕ, ◌≡◌, ◌≢◌, refl, Bool, true, not, Option, none, some, List, [], ◌∷◌, All, inl, inr, arith, eqb,
  Bool-cases, Option-cases, if◌then◌else◌, if_both,
}
use panaudia.Base.Keys.{Text, text_eq, nat_eq}
use panaudia.Base.Assoc.{Map, lookup, insert, delete}
use panaudia.Base.Pairs.{lookup-All, insert-All, delete-All}
use panaudia.StateCache.{assign}
use panaudia.StateCache.JsonOps.{JsonOp, JsonText, Parsed, parsed, failed, parse_ops}
use panaudia.Commands.{UuidLib}
use panaudia.Commands.Scope.{KeyScope, connection, policy, classify_key}
use panaudia.Direct.{
  StringMessage, DirectBackend, cache_set, cache_tomb, broadcast, tee, track_conn_key,
  untrack_conn_key, with_key, without_key, or_empty, own_ops, rebuilt, store_op, store_ops,
  handle_kept, handle_string_message,
}

module _ (lib : UuidLib) where
  -- A tracked key goes with the connection of the subject that it is filed under.
  abbrev pub KeysOf : ℕ → Text → Text × Bool → Type 0
  KeysOf subject topic (key, on) = classify_key lib topic key ≡ (connection, subject)

  abbrev pub TopicsOf : ℕ → Text × Map Text Bool → Type 0
  TopicsOf subject (topic, keys) = All (KeysOf subject topic) keys

  abbrev pub SubjectsOf : ℕ × Map Text (Map Text Bool) → Type 0
  SubjectsOf (subject, topics) = (subject ≢ 0) × All (TopicsOf subject) topics

  abbrev pub IsFiled : DirectBackend → Type 0
  IsFiled b = All SubjectsOf b.conn_keys_by_subject

  or_empty-All :
      {K : Type 0} {V : Type 0} (P : K × V → Type 0) (o : Option (Map K V))
      → ((m : Map K V) → o ≡ some m → All P m)
      → All P (or_empty o)
  or_empty-All P none h = tt
  or_empty-All P (some m) h = h m refl

  with_key-All :
      (tracked : Map ℕ (Map Text (Map Text Bool))) (subject : ℕ) (topic key : Text)
      → subject ≢ 0
      → classify_key lib topic key ≡ (connection, subject)
      → All SubjectsOf tracked
      → All SubjectsOf (with_key lib tracked subject topic key)
  unfolding with_key
  with_key-All tracked subject topic key s c h =
      let topics = or_empty (lookup subject tracked) in
      let keys = or_empty (lookup topic topics) in
      let topics_filed : All (TopicsOf subject) topics =
        or_empty-All (TopicsOf subject) (lookup subject tracked)
          (λ m e. (lookup-All SubjectsOf subject m tracked h e).1) in
      let keys_filed : All (KeysOf subject topic) keys =
        or_empty-All (KeysOf subject topic) (lookup topic topics)
          (λ m e. lookup-All (TopicsOf subject) topic m topics topics_filed e) in
      insert-All SubjectsOf subject (insert topic (insert key true keys) topics) tracked h (
        s,
        insert-All (TopicsOf subject) topic (insert key true keys) topics topics_filed
            (insert-All (KeysOf subject topic) key true keys keys_filed c),
      )

  without_key-All :
      (tracked : Map ℕ (Map Text (Map Text Bool))) (subject : ℕ) (topic key : Text)
      → All SubjectsOf tracked
      → All SubjectsOf (without_key lib tracked subject topic key)
  unfolding without_key
  without_key-All tracked subject topic key h = elim (Option-cases (lookup subject tracked)) [
    | inl n ↦ rw (without_key, n) h
    | inr (topics, n) ↦ elim (Option-cases (lookup topic topics)) [
      | inl k ↦ rw (without_key, n, k) h
      | inr (keys, k) ↦
          let filed = lookup-All SubjectsOf subject topics tracked h n in
          rw (without_key, n, k)
            (insert-All SubjectsOf subject (insert topic (delete key keys) topics) tracked h (
              filed.0,
              insert-All (TopicsOf subject) topic (delete key keys) topics filed.1 (
                  delete-All (KeysOf subject topic) key keys
                    (lookup-All (TopicsOf subject) topic keys topics filed.1 k)),
            ))
    ]
  ]

  track_conn_key-IsFiled :
      (b : DirectBackend) (topic key : Text) → IsFiled b → IsFiled (track_conn_key lib b topic key)
  unfolding track_conn_key
  track_conn_key-IsFiled b topic key h = of_scope (classify_key lib topic key) refl
    where
      of_scope :
          (c : KeyScope × ℕ)
          → classify_key lib topic key ≡ c
          → IsFiled (elim c.0 [
            | connection ↦ if eqb c.1 0 then b else record b {
              conn_keys_by_subject = with_key lib b.conn_keys_by_subject c.1 topic key;
            }
            | policy ↦ b
          ])
      of_scope (policy, subject) e = h
      of_scope (connection, subject) e = elim (Bool-cases (eqb subject 0)) [
        | inl z ↦ rw z h
        | inr z ↦ rw z (
            with_key-All b.conn_keys_by_subject subject topic key (λ zero. ground (arith, zero, z))
              e h)
      ]

  untrack_conn_key-IsFiled :
      (b : DirectBackend) (topic key : Text)
      → IsFiled b
      → IsFiled (untrack_conn_key lib b topic key)
  unfolding untrack_conn_key
  untrack_conn_key-IsFiled b topic key h =
      if_both IsFiled (eqb (classify_key lib topic key).1 0) h
        (without_key-All b.conn_keys_by_subject (classify_key lib topic key).1 topic key h)

  module _ (json : JsonText) where
    store_op-IsFiled :
        (topic : Text) (op_id : ℕ) (b : DirectBackend) (op : JsonOp) (raw : Text)
        → IsFiled b
        → IsFiled (store_op lib json topic op_id b (op, raw))
    unfolding store_op tee
    store_op-IsFiled topic op_id b op raw h =
        let tombed = record b { calls = cache_tomb topic op.key op_id ∷ b.calls } in
        let written = record b { calls = cache_set topic op.key raw op_id ∷ b.calls } in
        if_both IsFiled op.tombstone (untrack_conn_key-IsFiled tombed topic op.key h)
          (track_conn_key-IsFiled written topic op.key h)

    store_ops-IsFiled :
        (topic : Text) (op_id : ℕ) (b : DirectBackend) (ops : List (JsonOp × Text))
        → IsFiled b
        → IsFiled (store_ops lib json topic op_id b ops)
    unfolding store_ops
    store_ops-IsFiled topic op_id b [] h = h
    store_ops-IsFiled topic op_id b ((op, raw) ∷ ops) h =
        store_ops-IsFiled topic op_id (store_op lib json topic op_id b (op, raw)) ops
          (store_op-IsFiled topic op_id b op raw h)

    handle_kept-IsFiled :
        (b : DirectBackend) (msg : StringMessage) (payload : Option Text)
        (ops : List (JsonOp × Text))
        → IsFiled b
        → IsFiled (handle_kept lib json b msg payload ops)
    unfolding handle_kept broadcast
    handle_kept-IsFiled b msg payload [] h = h
    handle_kept-IsFiled b msg none (p ∷ ops) h = h
    handle_kept-IsFiled b msg (some payload) (p ∷ ops) h =
        let (op_id, counter) = assign b.op_id_counter in
        store_ops-IsFiled msg.topic op_id (record b { op_id_counter = counter }) (p ∷ ops) h

    -- Every key that the backend tracks for a subject goes with that subject's connection, and
    -- stays so whatever message comes: no key of policy and no key of anyone else is tracked for it.
    pub handle_string_message-IsFiled :
        (cache_policy : Text → Bool) (b : DirectBackend) (msg : StringMessage)
        → IsFiled b
        → IsFiled (handle_string_message lib json cache_policy b msg)
    unfolding handle_string_message broadcast
    handle_string_message-IsFiled cache_policy b msg h =
        if_both IsFiled (not (cache_policy msg.topic)) h (of_parsed (parse_ops json msg.msg))
      where
        of_parsed :
            (o : Parsed (List (JsonOp × Text)))
            → IsFiled (elim o [
              | failed e ↦ broadcast b msg.topic msg.msg
              | parsed ops ↦
                  if eqb msg.source_uuid 0
                  then handle_kept lib json b msg (some msg.msg) ops
                  else handle_kept lib json b msg
                      (rebuilt lib msg.msg ops (own_ops lib msg.source_uuid msg.topic ops))
                      (own_ops lib msg.source_uuid msg.topic ops)
            ])
        of_parsed (failed e) = h
        of_parsed (parsed ops) =
            if_both IsFiled (eqb msg.source_uuid 0) (handle_kept-IsFiled b msg (some msg.msg) ops h)
              (handle_kept-IsFiled b msg
                (rebuilt lib msg.msg ops (own_ops lib msg.source_uuid msg.topic ops))
                (own_ops lib msg.source_uuid msg.topic ops) h)
