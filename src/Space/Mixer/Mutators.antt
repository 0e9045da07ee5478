-- ===== src/Space/Mixer/Mutators.antt =====
-- core/space/base_space_mutators.go
use panaudia.Base.{
  ℕ, Bool, true, false, none, some, if◌then◌else◌, [], ◌∷◌, ◌≡◌, inl, inr, Option-cases,
}
use panaudia.Base.Keys.{Text, nat_eq, text_eq}
use panaudia.Base.Assoc.{Map, lookup, insert, delete}
use panaudia.Space.Libraries.{Libraries}
use panaudia.Space.Encoder.{
  Encoder, set_gain, set_attenuation, set_space_muted, add_role, remove_role, add_mute, remove_mute,
  add_solo, remove_solo, add_mute_role, remove_mute_role,
}
use panaudia.Space.Mixer.{SpaceNodeConfig, Node, BaseSpace, refresh_encoder_role_effects}

module _ (lib : Libraries) where
  -- What every mutator of one node begins with: nothing happens without the node and its encoder.
  unfoldable pub on_encoder :
      BaseSpace lib → ℕ → (SpaceNodeConfig lib → Encoder lib → Encoder lib) → BaseSpace lib
  on_encoder space id f = elim (lookup id space.nodes) [
    | none ↦ space
    | some node ↦ elim node.encoder [
      | none ↦ space
      | some e ↦ record space {
        nodes = insert id (record node { encoder = some (f node.config e) }) space.nodes;
      }
    ]
  ]

  -- What holds of the space as it is, and of the space with a changed encoder, holds after a mutator.
  pub on_encoder_cases {ℓ} :
      (P : BaseSpace lib → Type ℓ) (space : BaseSpace lib) (id : ℕ)
      (f : SpaceNodeConfig lib → Encoder lib → Encoder lib)
      → P space
      → ((node : Node lib) (e : Encoder lib)
          → lookup id space.nodes ≡ some node
          → node.encoder ≡ some e
          → P (record space {
            nodes = insert id (record node { encoder = some (f node.config e) }) space.nodes;
          }))
      → P (on_encoder space id f)
  unfolding on_encoder
  on_encoder_cases P space id f stays moves = elim (Option-cases (lookup id space.nodes)) [
    | inl n ↦ rw (on_encoder, n) stays
    | inr (node, n) ↦ elim (Option-cases node.encoder) [
      | inl k ↦ rw (on_encoder, n, k) stays
      | inr (e, k) ↦ rw (on_encoder, n, k) (moves node e n k)
    ]
  ]

  -- `setEntityGain` and the other mutators of one node
  unfoldable pub set_entity_gain : BaseSpace lib → ℕ → lib.floats.Float → BaseSpace lib
  set_entity_gain space id gain = on_encoder space id (λ config. set_gain lib gain)

  unfoldable pub unset_entity_gain : BaseSpace lib → ℕ → BaseSpace lib
  unset_entity_gain space id = on_encoder space id (λ config. set_gain lib config.gain)

  unfoldable pub set_entity_attenuation : BaseSpace lib → ℕ → lib.floats.Float → BaseSpace lib
  set_entity_attenuation space id att = on_encoder space id (λ config. set_attenuation lib att)

  unfoldable pub unset_entity_attenuation : BaseSpace lib → ℕ → BaseSpace lib
  unset_entity_attenuation space id =
      on_encoder space id (λ config. set_attenuation lib config.attenuation)

  unfoldable pub set_entity_muted : BaseSpace lib → ℕ → BaseSpace lib
  set_entity_muted space id = on_encoder space id (λ config. set_space_muted lib true)

  unfoldable pub unset_entity_muted : BaseSpace lib → ℕ → BaseSpace lib
  unset_entity_muted space id = on_encoder space id (λ config. set_space_muted lib false)

  unfoldable pub set_node_role : BaseSpace lib → ℕ → Text → BaseSpace lib
  set_node_role space id role =
      on_encoder space id (λ config e. refresh_encoder_role_effects lib space (add_role lib role e))

  unfoldable pub unset_node_role : BaseSpace lib → ℕ → Text → BaseSpace lib
  unset_node_role space id role =
      on_encoder space id
        (λ config e. refresh_encoder_role_effects lib space (remove_role lib role e))

  unfoldable pub set_personal_mute : BaseSpace lib → ℕ → ℕ → BaseSpace lib
  set_personal_mute space listener other = on_encoder space listener (λ config. add_mute lib other)

  unfoldable pub unset_personal_mute : BaseSpace lib → ℕ → ℕ → BaseSpace lib
  unset_personal_mute space listener other =
      on_encoder space listener (λ config. remove_mute lib other)

  unfoldable pub set_personal_solo : BaseSpace lib → ℕ → ℕ → BaseSpace lib
  set_personal_solo space listener other = on_encoder space listener (λ config. add_solo lib other)

  unfoldable pub unset_personal_solo : BaseSpace lib → ℕ → ℕ → BaseSpace lib
  unset_personal_solo space listener other =
      on_encoder space listener (λ config. remove_solo lib other)

  unfoldable pub set_personal_mute_role : BaseSpace lib → ℕ → Text → BaseSpace lib
  set_personal_mute_role space listener role =
      on_encoder space listener (λ config. add_mute_role lib role)

  unfoldable pub unset_personal_mute_role : BaseSpace lib → ℕ → Text → BaseSpace lib
  unset_personal_mute_role space listener role =
      on_encoder space listener (λ config. remove_mute_role lib role)

  -- One node's share of `refreshEncodersWithRole`
  unfoldable pub refresh_node : BaseSpace lib → Text → Node lib → Node lib
  refresh_node space role node = elim node.encoder [
    | none ↦ node
    | some e ↦
        if lib.texts.contains role e.roles
        then record node { encoder = some (refresh_encoder_role_effects lib space e) }
        else node
  ]

  unfoldable pub refresh_nodes : BaseSpace lib → Text → Map ℕ (Node lib) → Map ℕ (Node lib)
  refresh_nodes space role [] = []
  refresh_nodes space role ((id, node) ∷ nodes) =
      (id, refresh_node space role node) ∷ refresh_nodes space role nodes

  -- `refreshEncodersWithRole`
  unfoldable pub refresh_encoders_with_role : BaseSpace lib → Text → BaseSpace lib
  refresh_encoders_with_role space role = record space {
    nodes = refresh_nodes space role space.nodes;
  }

  -- `setRoleMuted` and the other space-wide mutators
  unfoldable pub set_role_muted : BaseSpace lib → Text → BaseSpace lib
  set_role_muted space role =
      if lib.texts.contains role space.muted_roles
      then space
      else refresh_encoders_with_role
          (record space { muted_roles = lib.texts.add role space.muted_roles }) role

  unfoldable pub unset_role_muted : BaseSpace lib → Text → BaseSpace lib
  unset_role_muted space role =
      if lib.texts.contains role space.muted_roles
      then refresh_encoders_with_role
          (record space { muted_roles = lib.texts.remove role space.muted_roles }) role
      else space

  -- The map has the value for the role already.
  abbrev pub has_value : Map Text lib.floats.Float → Text → lib.floats.Float → Bool
  has_value rules role v = elim (lookup role rules) [
    | none ↦ false
    | some existing ↦ lib.floats.eqb_float existing v
  ]

  abbrev pub has_rule : Map Text lib.floats.Float → Text → Bool
  has_rule rules role = elim (lookup role rules) [ none ↦ false | some existing ↦ true ]

  unfoldable pub set_role_gain : BaseSpace lib → Text → lib.floats.Float → BaseSpace lib
  set_role_gain space role gain =
      if has_value space.role_gains role gain
      then space
      else refresh_encoders_with_role
          (record space { role_gains = insert role gain space.role_gains }) role

  unfoldable pub unset_role_gain : BaseSpace lib → Text → BaseSpace lib
  unset_role_gain space role =
      if has_rule space.role_gains role
      then refresh_encoders_with_role (record space { role_gains = delete role space.role_gains })
          role
      else space

  unfoldable pub set_role_attenuation : BaseSpace lib → Text → lib.floats.Float → BaseSpace lib
  set_role_attenuation space role att =
      if has_value space.role_attenuations role att
      then space
      else refresh_encoders_with_role
          (record space { role_attenuations = insert role att space.role_attenuations }) role

  unfoldable pub unset_role_attenuation : BaseSpace lib → Text → BaseSpace lib
  unset_role_attenuation space role =
      if has_rule space.role_attenuations role
      then refresh_encoders_with_role
          (record space { role_attenuations = delete role space.role_attenuations }) role
      else space
