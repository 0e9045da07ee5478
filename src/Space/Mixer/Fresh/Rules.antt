-- ===== src/Space/Mixer/Fresh/Rules.antt =====
-- A change of the rule for one role, with the refresh of its holders, keeps the cached effects up to date.
use panaudia.Base.{if_both}
use panaudia.Base.{◌≡◌, ◌≢◌, refl, sym, ◌∙◌, false, inl, inr, [], Bool-cases, take, drop}
use panaudia.Base.Keys.{Text, bytes, text_eq, text_beq, text_beq_iff, ◌==◌}
use panaudia.Base.Assoc.{Map, lookup, insert, delete, lookup-insert, lookup-delete}
use panaudia.StateCache.{Op}
use panaudia.Space.Libraries.{Libraries}
use panaudia.Space.Mixer.{BaseSpace}
use panaudia.Space.Mixer.Mutators.{
  set_role_muted, unset_role_muted, set_role_gain, unset_role_gain, set_role_attenuation,
  unset_role_attenuation, has_value, has_rule, refresh_encoders_with_role,
}
use panaudia.Space.Mixer.Ops.{apply_space_op}
use panaudia.Space.Mixer.Fresh.{IsFresh, refresh_encoders_with_role-IsFresh}
use panaudia.Space.Mixer.Cases.{value_both, role_both}

text_ne : (a b : Text) → a ≢ b → text_beq a b ≡ false
text_ne a b ne = elim (Bool-cases (text_beq a b)) [
  | inl e ↦ absurd (ne ((text_beq_iff a b).0 e))
  | inr e ↦ e
]

module _ (lib : Libraries) where
  rule_ne {ℓ} :
      {V : Type ℓ} (m : Map Text V) (role r : Text) (v : V)
      → role ≢ r
      → (lookup r m ≡ lookup r (insert role v m)) × (lookup r m ≡ lookup r (delete role m))
  rule_ne m role r v ne =
      let other : text_beq role r ≡ false = text_ne role r ne in
      (sym (lookup-insert role r v m ∙ rw other refl), sym (lookup-delete role r m ∙ rw other refl))

  pub set_role_muted-IsFresh :
      (space : BaseSpace lib) (role : Text)
      → IsFresh lib space
      → IsFresh lib (set_role_muted lib space role)
  unfolding set_role_muted
  set_role_muted-IsFresh space role h =
      if_both (IsFresh lib) (lib.texts.contains role space.muted_roles) h (
        refresh_encoders_with_role-IsFresh lib space
          (record space { muted_roles = lib.texts.add role space.muted_roles }) role
          (λ r ne. (
            sym (lib.texts.contains-add role r space.muted_roles ∙ rw (text_ne role r ne) refl),
            refl,
            refl,
          ))
          h)

  unset_role_muted-IsFresh :
      (space : BaseSpace lib) (role : Text)
      → IsFresh lib space
      → IsFresh lib (unset_role_muted lib space role)
  unfolding unset_role_muted
  unset_role_muted-IsFresh space role h =
      if_both (IsFresh lib) (lib.texts.contains role space.muted_roles)
        (refresh_encoders_with_role-IsFresh lib space
          (record space { muted_roles = lib.texts.remove role space.muted_roles }) role
          (λ r ne. (
            sym (lib.texts.contains-remove role r space.muted_roles ∙ rw (text_ne role r ne) refl),
            refl,
            refl,
          ))
          h)
        h

  gain-IsFresh :
      (space : BaseSpace lib) (rules : Map Text lib.floats.Float) (role : Text)
      → ((r : Text) → role ≢ r → lookup r space.role_gains ≡ lookup r rules)
      → IsFresh lib space
      → IsFresh lib (refresh_encoders_with_role lib (record space { role_gains = rules }) role)
  gain-IsFresh space rules role same h =
      refresh_encoders_with_role-IsFresh lib space (record space { role_gains = rules }) role
        (λ r ne. (refl, same r ne, refl)) h

  attenuation-IsFresh :
      (space : BaseSpace lib) (rules : Map Text lib.floats.Float) (role : Text)
      → ((r : Text) → role ≢ r → lookup r space.role_attenuations ≡ lookup r rules)
      → IsFresh lib space
      → IsFresh lib
          (refresh_encoders_with_role lib (record space { role_attenuations = rules }) role)
  attenuation-IsFresh space rules role same h =
      refresh_encoders_with_role-IsFresh lib space (record space { role_attenuations = rules }) role
        (λ r ne. (refl, refl, same r ne)) h

  pub apply_space_op-IsFresh :
      (space : BaseSpace lib) (op : Op)
      → IsFresh lib space
      → IsFresh lib (apply_space_op lib space op)
  unfolding apply_space_op set_role_gain unset_role_gain set_role_attenuation unset_role_attenuation
  apply_space_op-IsFresh space op h =
      let zero = lib.floats.zero_float in
      if_both (IsFresh lib) (take 12 op.key == bytes "roles-muted.")
        (role_both lib (IsFresh lib) op (drop 12 op.key) (unset_role_muted lib space)
          (set_role_muted lib space) space (λ r. unset_role_muted-IsFresh space r h)
          (λ r. set_role_muted-IsFresh space r h) h)
        (if_both (IsFresh lib) (take 11 op.key == bytes "roles-gain.")
          (if_both (IsFresh lib) (drop 11 op.key == []) h (
            value_both lib (IsFresh lib) op (unset_role_gain lib space (drop 11 op.key))
              (set_role_gain lib space (drop 11 op.key)) space
              (if_both (IsFresh lib) (has_rule lib space.role_gains (drop 11 op.key))
                (gain-IsFresh space (delete (drop 11 op.key) space.role_gains) (drop 11 op.key)
                  (λ r ne. (rule_ne space.role_gains (drop 11 op.key) r zero ne).1) h)
                h)
              (λ v. if_both (IsFresh lib) (has_value lib space.role_gains (drop 11 op.key) v) h (
                gain-IsFresh space (insert (drop 11 op.key) v space.role_gains) (drop 11 op.key)
                  (λ r ne. (rule_ne space.role_gains (drop 11 op.key) r v ne).0) h))
              h))
          (if_both (IsFresh lib) (take 18 op.key == bytes "roles-attenuation.")
            (if_both (IsFresh lib) (drop 18 op.key == []) h (
              value_both lib (IsFresh lib) op (unset_role_attenuation lib space (drop 18 op.key))
                (set_role_attenuation lib space (drop 18 op.key)) space
                (if_both (IsFresh lib) (has_rule lib space.role_attenuations (drop 18 op.key))
                  (attenuation-IsFresh space (delete (drop 18 op.key) space.role_attenuations)
                    (drop 18 op.key)
                    (λ r ne. (rule_ne space.role_attenuations (drop 18 op.key) r zero ne).1) h)
                  h)
                (λ v.
                  if_both (IsFresh lib) (has_value lib space.role_attenuations (drop 18 op.key) v) h
                    (attenuation-IsFresh space (insert (drop 18 op.key) v space.role_attenuations)
                      (drop 18 op.key)
                      (λ r ne. (rule_ne space.role_attenuations (drop 18 op.key) r v ne).0) h))
                h))
            h))
