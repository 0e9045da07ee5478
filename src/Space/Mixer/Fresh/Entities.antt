-- ===== src/Space/Mixer/Fresh/Entities.antt =====
-- The operations on one entity keep the cached effects up to date.
use panaudia.Base.{if_both}
use panaudia.Base.{ℕ, refl, true, false, Option, none, some, [], take, drop}
use panaudia.Base.Keys.{Text, bytes, text_eq, ◌==◌}
use panaudia.StateCache.{Op}
use panaudia.Space.KickGate.{split_entity_key}
use panaudia.Space.Libraries.{Libraries}
use panaudia.Space.Encoder.{
  Encoder, set_gain, set_attenuation, set_space_muted, add_role, remove_role, add_mute, remove_mute,
  add_solo, remove_solo, add_mute_role, remove_mute_role, recompute_gain_factor,
  recompute_attenuation_exponent,
}
use panaudia.Space.Mixer.{SpaceNodeConfig, BaseSpace, refresh_encoder_role_effects}
use panaudia.Space.Mixer.Mutators.{
  set_entity_gain, unset_entity_gain, set_entity_attenuation, unset_entity_attenuation,
  set_entity_muted, unset_entity_muted, set_node_role, unset_node_role, set_personal_mute,
  unset_personal_mute, set_personal_solo, unset_personal_solo, set_personal_mute_role,
  unset_personal_mute_role, on_encoder,
}
use panaudia.Space.Mixer.Ops.{apply_entity_field, apply_entity_op}
use panaudia.Space.Mixer.Fresh.{HasEffects, IsFresh, refresh-HasEffects, on_encoder-IsFresh}
use panaudia.Space.Mixer.Cases.{value_both, role_both, other_both}

module _ (lib : Libraries) where
  -- What holds of the space as it is, and after any change of the entity's encoder that keeps the
  -- cached effects up to date, holds after an operation on the entity.
  pub apply_entity_field_both :
      (P : BaseSpace lib → Type 0) (space : BaseSpace lib) (id : ℕ) (rest : Text) (op : Op)
      → P space
      → ((f : SpaceNodeConfig lib → Encoder lib → Encoder lib)
          → ((c : SpaceNodeConfig lib) (e : Encoder lib)
              → HasEffects lib space e
              → HasEffects lib space (f c e))
          → P (on_encoder lib space id f))
      → P (apply_entity_field lib space id rest op)
  unfolding apply_entity_field set_entity_gain unset_entity_gain set_entity_attenuation
      unset_entity_attenuation set_entity_muted unset_entity_muted set_node_role unset_node_role
      set_personal_mute unset_personal_mute set_personal_solo unset_personal_solo
      set_personal_mute_role unset_personal_mute_role set_gain set_attenuation set_space_muted
      add_mute remove_mute add_solo remove_solo add_mute_role remove_mute_role add_role remove_role
      recompute_gain_factor recompute_attenuation_exponent
  apply_entity_field_both P space id rest op h keep = if_both P (rest == []) h (
      if_both P (rest == bytes "gain")
        (value_both lib P op (unset_entity_gain lib space id) (set_entity_gain lib space id) space
          (keep (λ c. set_gain lib c.gain) (λ c e k. (k.0, k.1, k.2, refl, k.4)))
          (λ v. keep (λ c. set_gain lib v) (λ c e k. (k.0, k.1, k.2, refl, k.4))) h)
        (if_both P (rest == bytes "attenuation")
          (value_both lib P op (unset_entity_attenuation lib space id)
            (set_entity_attenuation lib space id) space
            (keep (λ c. set_attenuation lib c.attenuation) (λ c e k. (k.0, k.1, k.2, k.3, refl)))
            (λ v. keep (λ c. set_attenuation lib v) (λ c e k. (k.0, k.1, k.2, k.3, refl))) h)
          (if_both P (rest == bytes "muted")
            (if_both P op.tombstone (keep (λ c. set_space_muted lib false) (λ c e k. k))
              (keep (λ c. set_space_muted lib true) (λ c e k. k)))
            (if_both P (rest == bytes "kicked") h (
              if_both P (take 6 rest == bytes "roles.")
                (role_both lib P op (drop 6 rest) (unset_node_role lib space id)
                  (set_node_role lib space id) space
                  (λ r.
                    keep (λ c e. refresh_encoder_role_effects lib space (remove_role lib r e))
                      (λ c e k. refresh-HasEffects lib space (remove_role lib r e)))
                  (λ r.
                    keep (λ c e. refresh_encoder_role_effects lib space (add_role lib r e))
                      (λ c e k. refresh-HasEffects lib space (add_role lib r e)))
                  h)
                (if_both P (take 6 rest == bytes "mutes.")
                  (other_both lib P op (drop 6 rest) (unset_personal_mute lib space id)
                    (set_personal_mute lib space id) space
                    (λ u. keep (λ c. remove_mute lib u) (λ c e k. k))
                    (λ u. keep (λ c. add_mute lib u) (λ c e k. k)) h)
                  (if_both P (take 6 rest == bytes "solos.")
                    (other_both lib P op (drop 6 rest) (unset_personal_solo lib space id)
                      (set_personal_solo lib space id) space
                      (λ u. keep (λ c. remove_solo lib u) (λ c e k. k))
                      (λ u. keep (λ c. add_solo lib u) (λ c e k. k)) h)
                    (if_both P (take 11 rest == bytes "mute-roles.")
                      (role_both lib P op (drop 11 rest) (unset_personal_mute_role lib space id)
                        (set_personal_mute_role lib space id) space
                        (λ r. keep (λ c. remove_mute_role lib r) (λ c e k. k))
                        (λ r. keep (λ c. add_mute_role lib r) (λ c e k. k)) h)
                      h))))))))

  apply_entity_field-IsFresh :
      (space : BaseSpace lib) (id : ℕ) (rest : Text) (op : Op)
      → IsFresh lib space
      → IsFresh lib (apply_entity_field lib space id rest op)
  apply_entity_field-IsFresh space id rest op h =
      apply_entity_field_both (IsFresh lib) space id rest op h
        (λ f keeps. on_encoder-IsFresh lib space id f keeps h)

  pub apply_entity_op-IsFresh :
      (space : BaseSpace lib) (op : Op)
      → IsFresh lib space
      → IsFresh lib (apply_entity_op lib space op)
  unfolding apply_entity_op
  apply_entity_op-IsFresh space op h = of_key (split_entity_key lib.uuids op.key)
    where
      of_key :
          (o : Option (ℕ × Text))
          → IsFresh lib
              (elim o [ none ↦ space | some (id, rest) ↦ apply_entity_field lib space id rest op ])
      of_key none = h
      of_key (some (id, rest)) = apply_entity_field-IsFresh space id rest op h
