-- ===== src/Writers/Moq/States.antt =====
-- Whose states a MOQ client gets, and what of the space topic.
use panaudia.Base.{
  ℕ, ◌≡◌, refl, ap, ◌∙◌, true, Option, none, some, ltb, length, List, [], ◌∷◌, if◌then◌else◌,
}
use panaudia.Base.Keys.{Text, bytes, nat_eq}
use panaudia.Commands.{UuidLib}
use panaudia.StateCache.{Op}
use panaudia.StateCache.JsonOps.{JsonOp, JsonText}
use panaudia.StateCache.Opened.{open_envelope}
use panaudia.StateCache.Wire.{get_be}
use panaudia.Space.Libraries.{SetLib}
use panaudia.Writers.{handle_entity}
use panaudia.Writers.Attributes.{Attributes}
use panaudia.Writers.Known.{exists_in, is_member, take_ops-knows}
use panaudia.Writers.Moq.{
  MoqDataWriter, Sample, to_state, returned, send_data, send_entity, send_string,
}

module _ (ids : SetLib ℕ nat_eq) (uuids : UuidLib) (json : JsonText)
    (read_attributes : Text → Option Attributes) where
  -- Where there is a state track, after an entity envelope that parses, data of at least 44 bytes on the
  -- state topic go out exactly when the operations of the envelope leave their node existing: subspaces
  -- have no part in it. Shorter data make the writer panic.
  pub send_data-send_string :
      (w : MoqDataWriter ids) (payload data_ : Text) (envelope : Op) (ops : List (JsonOp × Text))
      → w.has_state ≡ true
      → open_envelope json payload ≡ some (envelope, ops)
      → (next : MoqDataWriter ids) × (samples : List Sample) × (send_string ids uuids json
            read_attributes w
            (bytes "entity")
            payload
          ≡ returned next samples)
        × (send_data ids next (bytes "state") data_ ≡ (
            if ltb (length data_) 44
            then none
            else if exists_in uuids (get_be 16 data_) ops (is_member ids w.view (get_be 16 data_))
            then some (to_state data_ ∷ [])
            else some []))
  unfolding send_string send_data handle_entity
  send_data-send_string w payload data_ envelope ops h e =
      let next = record w { view = handle_entity ids uuids json w.view payload } in
      let node = get_be 16 data_ in
      let known : is_member ids next.view node
          ≡ exists_in uuids node ops (is_member ids w.view node) =
        rw (handle_entity, e) (take_ops-knows uuids ids ops w.view node 0).0 in
      (
        next,
        send_entity ids uuids json read_attributes next payload,
        refl,
        ap
              (λ b.
                if b
                then (if ltb (length data_) 44
                    then none
                    else if is_member ids next.view node
                    then some (to_state data_ ∷ [])
                    else some [])
                else some [])
              h
            ∙ ap
                (λ b.
                  if ltb (length data_) 44
                  then none
                  else if b
                  then some (to_state data_ ∷ [])
                  else some [])
                known,
      )
