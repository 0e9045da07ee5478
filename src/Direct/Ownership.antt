-- ===== src/Direct/Ownership.antt =====
-- Who may write what: no client writes a key that goes with the connection of another.
use panaudia.Base.{
  ℕ, ◌≡◌, ◌≢◌, ◌⊎◌, ap, Bool, false, not, ◌&&◌, Option, none, some, List, [], ◌∷◌, All, inl, inr,
  arith, eqb, eqb_iff, Bool-cases, ◌||◌, if_both, if◌then◌else◌,
}
use panaudia.Base.Keys.{Text, bytes, text_eq, ◌==◌}
use panaudia.Base.Assoc.{Map}
use panaudia.StateCache.{Op, assign}
use panaudia.StateCache.JsonOps.{
  JsonOp, JsonText, Parsed, parsed, failed, parse_ops, extract_op_value,
}
use panaudia.Commands.{UuidLib}
use panaudia.Commands.Scope.{connection, classify_key}
use panaudia.Direct.{
  StringMessage, Call, DirectBackend, cache_set, cache_tomb, apply_entity_op, apply_space_op,
  gate_apply, kill, quiesce, stop_bouncer, enqueue_string, enqueue_gone, delete_node, Bouncer,
  deliver, deliver_all, broadcast, tee, track_conn_key, untrack_conn_key, is_foreign, own_ops,
  rebuilt, store_op, store_ops, handle_kept, handle_string_message, wrapped,
}

module _ (lib : UuidLib) where
  -- The key is not one that goes with the connection of someone else.
  pub MayWrite : ℕ → Text → Text → Type 0
  MayWrite source topic key =
      (subject : ℕ)
      → classify_key lib topic key ≡ (connection, subject)
      → (subject ≡ 0) ⊎ (subject ≡ source)

  -- The operation that the call hands to the cache, the space or the gate is the source's to write.
  unfoldable pub IsOwn : ℕ → Call → Type 0
  IsOwn source (cache_set topic key raw op_id) = MayWrite source topic key
  IsOwn source (cache_tomb topic key op_id) = MayWrite source topic key
  IsOwn source (apply_entity_op op) = MayWrite source op.topic op.key
  IsOwn source (apply_space_op op) = MayWrite source op.topic op.key
  IsOwn source (gate_apply topic op) = MayWrite source op.topic op.key
  IsOwn source (deliver bouncer topic msg) = Unit
  IsOwn source (kill session reason) = Unit
  IsOwn source (quiesce bouncer) = Unit
  IsOwn source (stop_bouncer bouncer) = Unit
  IsOwn source (enqueue_string topic msg) = Unit
  IsOwn source (enqueue_gone uuid) = Unit
  IsOwn source (delete_node uuid) = Unit

  is_foreign-MayWrite :
      (source : ℕ) (topic key : Text)
      → is_foreign lib source topic key ≡ false
      → MayWrite source topic key
  unfolding is_foreign MayWrite
  is_foreign-MayWrite source topic key h subject c =
      ground (arith, h, c, ap (λ p. p.1) c, ap (λ p. p.0) c)

  own_ops-MayWrite :
      (source : ℕ) (topic : Text) (ops : List (JsonOp × Text))
      → All (λ p. MayWrite source topic p.0.key) (own_ops lib source topic ops)
  unfolding own_ops
  own_ops-MayWrite source topic [] = tt
  own_ops-MayWrite source topic ((op, raw) ∷ ops) =
      elim (Bool-cases (is_foreign lib source topic op.key)) [
        | inl f ↦ rw f (own_ops-MayWrite source topic ops)
        | inr f ↦
            rw f (is_foreign-MayWrite source topic op.key f, own_ops-MayWrite source topic ops)
      ]

  calls-track :
      (b : DirectBackend) (topic key : Text) → (track_conn_key lib b topic key).calls ≡ b.calls
  unfolding track_conn_key
  calls-track b topic key = ground arith

  calls-untrack :
      (b : DirectBackend) (topic key : Text) → (untrack_conn_key lib b topic key).calls ≡ b.calls
  unfolding untrack_conn_key
  calls-untrack b topic key = ground arith

  tee-IsOwn :
      (source : ℕ) (b : DirectBackend) (topic : Text) (op : Op)
      → MayWrite source op.topic op.key
      → All (IsOwn source) b.calls
      → All (IsOwn source) (tee b topic op).calls
  unfolding tee IsOwn
  tee-IsOwn source b topic op m h =
      let to_space =
        if not b.has_space
        then b.calls
        else if topic == bytes "entity"
        then apply_entity_op op ∷ b.calls
        else if topic == bytes "space"
        then apply_space_op op ∷ b.calls
        else b.calls in
      let space_own : All (IsOwn source) to_space =
        if_both (All (IsOwn source)) (not b.has_space) h (
          if_both (All (IsOwn source)) (topic == bytes "entity") (m, h)
            (if_both (All (IsOwn source)) (topic == bytes "space") (m, h) h)) in
      if_both (All (IsOwn source))
        (b.has_kick_gate && (topic == bytes "entity" || topic == bytes "space")) (m, space_own)
        space_own

  deliver_all-IsOwn :
      (source : ℕ) (bouncers : Map ℕ Bouncer) (topic msg : Text) (calls : List Call)
      → All (IsOwn source) calls
      → All (IsOwn source) (deliver_all bouncers topic msg calls)
  unfolding deliver_all IsOwn
  deliver_all-IsOwn source [] topic msg calls h = h
  deliver_all-IsOwn source ((c, bouncer) ∷ bouncers) topic msg calls h =
      deliver_all-IsOwn source bouncers topic msg (deliver c topic msg ∷ calls) (tt, h)

  module _ (json : JsonText) where
    store_op-IsOwn :
        (source : ℕ) (topic : Text) (op_id : ℕ) (b : DirectBackend) (op : JsonOp) (raw : Text)
        → MayWrite source topic op.key
        → All (IsOwn source) b.calls
        → All (IsOwn source) (store_op lib json topic op_id b (op, raw)).calls
    unfolding store_op IsOwn
    store_op-IsOwn source topic op_id b op raw m h =
        let tombed = record b { calls = cache_tomb topic op.key op_id ∷ b.calls } in
        let written = record b { calls = cache_set topic op.key raw op_id ∷ b.calls } in
        let stored =
          if op.tombstone
          then untrack_conn_key lib tombed topic op.key
          else track_conn_key lib written topic op.key in
        let stored_own : All (IsOwn source) stored.calls =
          if_both (λ (s : DirectBackend). All (IsOwn source) s.calls) op.tombstone
            (rw (calls-untrack tombed topic op.key) (m, h))
            (rw (calls-track written topic op.key) (m, h)) in
        tee-IsOwn source stored topic
          (record {
            topic = topic;
            key = op.key;
            value = if op.tombstone then [] else extract_op_value json raw;
            op_id = op_id;
            node_id = 0;
            tombstone = op.tombstone;
            created_at = 0;
          })
          m stored_own

    store_ops-IsOwn :
        (source : ℕ) (topic : Text) (op_id : ℕ) (b : DirectBackend) (ops : List (JsonOp × Text))
        → All (λ p. MayWrite source topic p.0.key) ops
        → All (IsOwn source) b.calls
        → All (IsOwn source) (store_ops lib json topic op_id b ops).calls
    unfolding store_ops
    store_ops-IsOwn source topic op_id b [] m h = h
    store_ops-IsOwn source topic op_id b ((op, raw) ∷ ops) m h =
        store_ops-IsOwn source topic op_id (store_op lib json topic op_id b (op, raw)) ops m.1
          (store_op-IsOwn source topic op_id b op raw m.0 h)

    handle_kept-IsOwn :
        (source : ℕ) (b : DirectBackend) (msg : StringMessage) (payload : Option Text)
        (ops : List (JsonOp × Text))
        → All (λ p. MayWrite source msg.topic p.0.key) ops
        → All (IsOwn source) b.calls
        → All (IsOwn source) (handle_kept lib json b msg payload ops).calls
    unfolding handle_kept broadcast
    handle_kept-IsOwn source b msg payload [] m h = h
    handle_kept-IsOwn source b msg none (p ∷ ops) m h = h
    handle_kept-IsOwn source b msg (some payload) (p ∷ ops) m h =
        let (op_id, counter) = assign b.op_id_counter in
        let stored =
          store_ops lib json msg.topic op_id (record b { op_id_counter = counter }) (p ∷ ops) in
        deliver_all-IsOwn source stored.bouncers msg.topic
          (wrapped lib json msg payload op_id p ops) stored.calls
          (store_ops-IsOwn source msg.topic op_id (record b { op_id_counter = counter }) (p ∷ ops) m
            h)

    -- Whatever a client sends, no operation on a key that goes with the connection of another reaches
    -- the cache, the space or the kick gate: every key is the client's own, policy, or of no subject.
    pub handle_string_message-IsOwn :
        (cache_policy : Text → Bool) (b : DirectBackend) (msg : StringMessage)
        → msg.source_uuid ≢ 0
        → All (IsOwn msg.source_uuid) b.calls
        → All (IsOwn msg.source_uuid) (handle_string_message lib json cache_policy b msg).calls
    unfolding handle_string_message broadcast
    handle_string_message-IsOwn cache_policy b msg client h =
        let P = λ (s : DirectBackend). All (IsOwn msg.source_uuid) s.calls in
        let passed_on : P (broadcast b msg.topic msg.msg) =
          deliver_all-IsOwn msg.source_uuid b.bouncers msg.topic msg.msg b.calls h in
        if_both P (not (cache_policy msg.topic)) passed_on (
          of_parsed P passed_on
            (λ ops.
              handle_kept-IsOwn msg.source_uuid b msg
                (rebuilt lib msg.msg ops (own_ops lib msg.source_uuid msg.topic ops))
                (own_ops lib msg.source_uuid msg.topic ops)
                (own_ops-MayWrite msg.source_uuid msg.topic ops) h)
            (parse_ops json msg.msg))
      where
        of_parsed :
            (P : DirectBackend → Type 0)
            → P (broadcast b msg.topic msg.msg)
            → ((ops : List (JsonOp × Text))
                → P (
                    handle_kept lib json b msg
                      (rebuilt lib msg.msg ops (own_ops lib msg.source_uuid msg.topic ops))
                      (own_ops lib msg.source_uuid msg.topic ops)))
            → (o : Parsed (List (JsonOp × Text)))
            → P (elim o [
              | failed e ↦ broadcast b msg.topic msg.msg
              | parsed ops ↦
                  if eqb msg.source_uuid 0
                  then handle_kept lib json b msg (some msg.msg) ops
                  else handle_kept lib json b msg
                      (rebuilt lib msg.msg ops (own_ops lib msg.source_uuid msg.topic ops))
                      (own_ops lib msg.source_uuid msg.topic ops)
            ])
        of_parsed P passed_on filtered (failed e) = passed_on
        of_parsed P passed_on filtered (parsed ops) = elim (Bool-cases (eqb msg.source_uuid 0)) [
          | inl system ↦ absurd (client ((eqb_iff msg.source_uuid 0).0 system))
          | inr other ↦ rw other (filtered ops)
        ]
