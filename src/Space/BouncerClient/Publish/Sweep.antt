-- ===== src/Space/BouncerClient/Publish/Sweep.antt =====
-- What a departure takes away, and when the client repeats itself.
use panaudia.Base.{
  ℕ, zero, suc, ◌%◌, ◌≡◌, ◌↔◌, inl, inr, refl, sym, ap, some, List, [], ◌∷◌, ◌++◌, if◌then◌else◌,
  eqb, Option-cases, arith, Some, subst, if_map,
}
use panaudia.Base.Keys.{Text, bytes}
use panaudia.Commands.{UuidLib}
use panaudia.StateCache.JsonOps.{JsonText, build_tombstone_op}
use panaudia.StateCache.JsonOps.Batches.{array_text, build_batch_lem}
use panaudia.Space.BouncerClient.Publish.{
  WriteLib, InfoLib, NodeConfig, BouncerCall, send_string, send_data, Publisher, message_of,
  call_for, keys_of, take_sent_keys, tombstones, announce_disappearance, send_both, send_info,
  with_volume, info_of,
}
use panaudia.Space.BouncerClient.Publish.Keys.{
  Has, Step, run, entity_since, attributes_since, run-Tracks, none_sent,
}

-- Operations as the call with one message: none without operations, or for one that is empty.
abbrev pub in_one : Text → List Text → List BouncerCall
in_one topic [] = []
in_one topic ([] ∷ []) = []
in_one topic ((c ∷ op) ∷ []) = send_string topic (c ∷ op) ∷ []
in_one topic (op ∷ next ∷ ops) = send_string topic (array_text op (next ∷ ops)) ∷ []

call_for_lem : (topic : Text) (ops : List Text) → call_for topic (message_of ops) ≡ in_one topic ops
unfolding call_for message_of
call_for_lem topic [] = refl
call_for_lem topic ([] ∷ []) = refl
call_for_lem topic ((c ∷ op) ∷ []) = refl
call_for_lem topic (op ∷ next ∷ ops) = ap (call_for topic) (build_batch_lem op (next ∷ ops))

module _ (uuids : UuidLib) (write : WriteLib) (json : JsonText) (info : InfoLib)
    (config : NodeConfig write.Value) where
  -- A client that has not published yet
  abbrev pub fresh : Publisher info.Float info.Place → Publisher info.Float info.Place
  fresh client = record client { sent_keys = []; sent_entity_keys = [] }

  -- The operations are the tombstones of the keys.
  abbrev pub Sweeps : List Text → List Text → Type 0
  Sweeps keys ops =
      (op : Text)
      → Some (λ o. o ≡ op) ops ↔ Some (λ key. build_tombstone_op json key ≡ some op) keys

  tombstones-Sweeps :
      (keys : List Text) → Sweeps keys (tombstones uuids write json info config keys)
  unfolding tombstones
  tombstones-Sweeps [] op = (λ h. h, λ h. h)
  tombstones-Sweeps (key ∷ keys) op =
      let (there, back) = tombstones-Sweeps keys op in
      elim (Option-cases (build_tombstone_op json key)) [
        | inl e ↦
            rw (tombstones, e)
              (λ h. inr (there h), λ h. elim h [ inl q ↦ ground (arith, q) | inr s ↦ back s ])
        | inr (t, e) ↦
            rw (tombstones, e)
              (
                λ h. elim h [ inl q ↦ inl (ap some q) | inr s ↦ inr (there s) ],
                λ h. elim h [ inl q ↦ inl (ground (arith, q)) | inr s ↦ inr (back s) ],
              )
      ]

  -- The same property of an element, on lists with the same elements
  Some-same :
      (P : Text → Type 0) (xs ys : List Text)
      → ((x : Text) → Has x xs → Has x ys)
      → Some P xs
      → Some P ys
  Some-same P [] ys h s = absurd s
  Some-same P (x ∷ xs) ys h s = elim s [
    | inl p ↦ found P x ys p (h x (inl refl))
    | inr s ↦ Some-same P xs ys (λ y k. h y (inr k)) s
  ]
    where
      found : (P : Text → Type 0) (x : Text) (ys : List Text) → P x → Has x ys → Some P ys
      found P x [] p k = k
      found P x (y ∷ ys) p k = elim k [
        | inl q ↦ inl (subst P (sym q) p)
        | inr k ↦ inr (found P x ys p k)
      ]

  Sweeps-same :
      (xs ys ops : List Text) → ((x : Text) → Has x xs ↔ Has x ys) → Sweeps xs ops → Sweeps ys ops
  Sweeps-same xs ys ops h s op = (
    λ k. Some-same (λ key. build_tombstone_op json key ≡ some op) xs ys (λ x. (h x).0) ((s op).0 k),
    λ k. (s op).1 (Some-same (λ key. build_tombstone_op json key ≡ some op) ys xs (λ x. (h x).1) k),
  )

  -- After any calls, the announcement sends one message on the attributes and one on the entity, an
  -- operation alone or the array of several, which hold the tombstones of exactly the keys published
  -- since keys were last taken (where there are any); and then the state of the node, with 1 for gone.
  pub announce_disappearance-Sweeps :
      (client : Publisher info.Float info.Place) (steps : List Step)
      → let last = run uuids write json info config (fresh client) steps in
        (attributes : List Text) × (entity : List Text) × Sweeps
          (attributes_since uuids write json info config [] steps)
          attributes
        × Sweeps (entity_since uuids write json info config [] steps) entity
        × ((announce_disappearance uuids write json info config last).1
            ≡ in_one (bytes "attributes") attributes
              ++ (in_one (bytes "entity") entity
                  ++ (send_data
                        (bytes "state")
                        (info.write_info config.uuid last.place last.volume 1)
                      ∷ [])))
  unfolding announce_disappearance
  announce_disappearance-Sweeps client steps =
      let last = run uuids write json info config (fresh client) steps in
      let (es, as_) =
        run-Tracks uuids write json info config steps (fresh client) [] []
          (none_sent uuids write json info config) (none_sent uuids write json info config) in
      (
        tombstones uuids write json info config (keys_of last.sent_keys),
        tombstones uuids write json info config (keys_of last.sent_entity_keys),
        Sweeps-same (keys_of last.sent_keys) _ _ as_ (tombstones-Sweeps (keys_of last.sent_keys)),
        Sweeps-same (keys_of last.sent_entity_keys) _ _ es
            (tombstones-Sweeps (keys_of last.sent_entity_keys)),
        rw
            (
              call_for_lem (bytes "attributes")
                  (tombstones uuids write json info config (keys_of last.sent_keys)),
              call_for_lem (bytes "entity")
                  (tombstones uuids write json info config (keys_of last.sent_entity_keys)),
            )
            refl,
      )

  -- After any calls, `TakeSentKeys` gives exactly the keys published since keys were last taken, and a
  -- second call gives none.
  pub take_sent_keys_lem :
      (client : Publisher info.Float info.Place) (steps : List Step)
      → let (after, (attributes, entity)) =
          take_sent_keys uuids write json info config
            (run uuids write json info config (fresh client) steps) in
        ((key : Text)
          → Has key attributes ↔ Has key (attributes_since uuids write json info config [] steps))
        × ((key : Text)
            → Has key entity ↔ Has key (entity_since uuids write json info config [] steps))
        × ((take_sent_keys uuids write json info config after).1 ≡ ([], []))
  unfolding take_sent_keys
  take_sent_keys_lem client steps =
      let (es, as_) =
        run-Tracks uuids write json info config steps (fresh client) [] []
          (none_sent uuids write json info config) (none_sent uuids write json info config) in
      (as_, es, refl)

  -- The client and the counter of the loop after `n` turns
  unfoldable pub turns : ℕ → Publisher info.Float info.Place → Publisher info.Float info.Place × ℕ
  turns zero client = (client, 0)
  turns (suc n) client =
      let (before, counter) = turns n client in
      let (after, (next, calls)) = send_info uuids write json info config before counter in
      (after, next)

  turns_counter : (n : ℕ) (client : Publisher info.Float info.Place) → (turns n client).1 ≡ n % 40
  unfolding turns send_info
  turns_counter zero client = refl
  turns_counter (suc n) client = ground (arith, turns_counter n client)

  -- A turn of the loop sends the state, and every fortieth turn, the first of all included, the entity
  -- and the attributes after it.
  pub send_info_periodic :
      (n : ℕ) (client : Publisher info.Float info.Place)
      → let (before, counter) = turns n client in
        let after = with_volume uuids write json info config before in
        (send_info uuids write json info config before counter).1.1
        ≡ send_data (bytes "state") (info_of uuids write json info config after)
          ∷ (if eqb (n % 40) 0 then (send_both uuids write json info config after).1 else [])
  unfolding send_info
  send_info_periodic n client = rw (turns_counter n client) (
      let after = with_volume uuids write json info config (turns n client).0 in
      ap (λ calls. send_data (bytes "state") (info_of uuids write json info config after) ∷ calls)
        (if_map (λ (r : Publisher info.Float info.Place × List BouncerCall). r.1) (eqb (n % 40) 0)
          (send_both uuids write json info config after) (after, [])))
