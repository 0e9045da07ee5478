-- ===== src/Space/Mixer/Fresh.antt =====
-- The effects of roles that the encoders cache are those of the rules in force.
pub mod Entities
pub mod Rules
pub mod Ticks
pub mod Runs
use panaudia.Base.{
  ℕ, ◌≡◌, ◌≢◌, refl, sym, ap, subst, ◌∙◌, Bool, true, false, inl, inr, Option, none, some, [], ◌∷◌,
  arith, Bool-cases, Option-cases, All, if◌then◌else◌,
}
use panaudia.Base.Keys.{Text, nat_eq, text_eq}
use panaudia.Base.Assoc.{Map, lookup, insert, delete, lookup-insert, lookup-delete}
use panaudia.Base.Entries.{Values, lookup-Values, insert-Values}
use panaudia.Space.Libraries.{Libraries}
use panaudia.Space.Encoder.{
  Encoder, multiplier_of, gain_factor_of, exponent_of, set_role_attenuation_override,
  set_role_gain_multiplier, set_space_role_muted, recompute_gain_factor,
  recompute_attenuation_exponent,
}
use panaudia.Space.Mixer.{
  SpaceNodeConfig, Node, NodeChange, change_add, change_move, change_delete, change_enable_out,
  change_solo, change_unsolo, change_add_sub, change_remove_sub, BaseSpace, role_muted, role_rule,
  or_one, refresh_encoder_role_effects,
}
use panaudia.Space.Mixer.Mutators.{
  on_encoder, on_encoder_cases, refresh_node, refresh_nodes, refresh_encoders_with_role,
}
use panaudia.Space.Mixer.Effects.{role_muted_agree, role_rule_agree}

module _ (lib : Libraries) where
  -- The encoder caches what the rules of the space make of its roles.
  abbrev pub HasEffects : BaseSpace lib → Encoder lib → Type 0
  HasEffects space e =
      (e.space_role_muted ≡ role_muted lib space.muted_roles e.roles)
      × (e.role_gain_multiplier
          ≡ multiplier_of lib (or_one lib (role_rule lib space.role_gains e.roles)))
      × (e.role_attenuation_override ≡ role_rule lib space.role_attenuations e.roles)
      × (e.gain_factor ≡ gain_factor_of lib e.gain e.role_gain_multiplier)
      × (e.peer_attenuation_exponent ≡ exponent_of lib e.attenuation e.role_attenuation_override)

  -- The node has its encoder, which is up to date.
  abbrev pub IsCurrent : BaseSpace lib → Node lib → Type 0
  IsCurrent space node = (e : Encoder lib) × ((node.encoder ≡ some e) × HasEffects space e)

  -- The gain that a new node is made with is not negative.
  unfoldable pub IsWellGained : NodeChange lib → Type 0
  IsWellGained (change_add name position uuid config) =
      lib.floats.ltb_float config.gain lib.floats.zero_float ≡ false
  IsWellGained (change_move uuid position rotation) = Unit
  IsWellGained (change_delete uuid) = Unit
  IsWellGained (change_enable_out uuid) = Unit
  IsWellGained (change_solo uuid other) = Unit
  IsWellGained (change_unsolo uuid other) = Unit
  IsWellGained (change_add_sub uuid other) = Unit
  IsWellGained (change_remove_sub uuid other) = Unit

  abbrev pub IsFresh : BaseSpace lib → Type 0
  IsFresh space = Values (IsCurrent space) space.nodes × All IsWellGained space.changes_queue

  pub refresh-HasEffects :
      (space : BaseSpace lib) (e : Encoder lib)
      → HasEffects space (refresh_encoder_role_effects lib space e)
  unfolding refresh_encoder_role_effects set_role_attenuation_override set_role_gain_multiplier
      set_space_role_muted recompute_gain_factor recompute_attenuation_exponent
  refresh-HasEffects space e = (refl, refl, refl, refl, refl)

  pub on_encoder-IsFresh :
      (space : BaseSpace lib) (id : ℕ) (f : SpaceNodeConfig lib → Encoder lib → Encoder lib)
      → ((c : SpaceNodeConfig lib) (e : Encoder lib)
          → HasEffects space e
          → HasEffects space (f c e))
      → IsFresh space
      → IsFresh (on_encoder lib space id f)
  on_encoder-IsFresh space id f keeps (h, queue) =
      on_encoder_cases lib IsFresh space id f (h, queue)
        (λ node e n is.
          let (cached, (same, fresh)) = lookup-Values (IsCurrent space) id node space.nodes h n in
          let one : cached ≡ e = ground (arith, sym same ∙ is) in
          let effects : HasEffects space e = subst (HasEffects space) one fresh in
          (
            insert-Values (IsCurrent space) id (record node { encoder = some (f node.config e) })
                space.nodes h (f node.config e, (refl, keeps node.config e effects)),
            queue,
          ))

  -- The rules of two spaces agree, but on one role.
  abbrev pub AgreeOff : Text → BaseSpace lib → BaseSpace lib → Type 0
  AgreeOff role a b =
      (r : Text)
      → role ≢ r
      → (lib.texts.contains r a.muted_roles ≡ lib.texts.contains r b.muted_roles)
        × (lookup r a.role_gains ≡ lookup r b.role_gains)
        × (lookup r a.role_attenuations ≡ lookup r b.role_attenuations)

  HasEffects-agree :
      (a b : BaseSpace lib) (role : Text) (e : Encoder lib)
      → AgreeOff role a b
      → lib.texts.contains role e.roles ≡ false
      → HasEffects a e
      → HasEffects b e
  HasEffects-agree a b role e agree out h =
      let held : (r : Text) → lib.texts.contains r e.roles ≡ true → role ≢ r =
        λ r k same. ground (arith, ap (λ x. lib.texts.contains x e.roles) same, k, out) in
      (
        h.0
            ∙ role_muted_agree lib a.muted_roles b.muted_roles e.roles
                (λ r k. (agree r (held r k)).0),
        h.1
            ∙ ap (λ rule. multiplier_of lib (or_one lib rule))
                (role_rule_agree lib a.role_gains b.role_gains e.roles
                  (λ r k. (agree r (held r k)).1)),
        h.2
            ∙ role_rule_agree lib a.role_attenuations b.role_attenuations e.roles
                (λ r k. (agree r (held r k)).2),
        h.3,
        h.4,
      )

  refresh_node-IsCurrent :
      (a b : BaseSpace lib) (role : Text) (node : Node lib)
      → AgreeOff role a b
      → IsCurrent a node
      → IsCurrent b (refresh_node lib b role node)
  unfolding refresh_node
  refresh_node-IsCurrent a b role node agree (e, (is, h)) =
      elim (Bool-cases (lib.texts.contains role e.roles)) [
        | inl c ↦ rw (is, c) (refresh_encoder_role_effects lib b e, (refl, refresh-HasEffects b e))
        | inr c ↦ rw (is, c) (e, (refl, HasEffects-agree a b role e agree c h))
      ]

  refresh_nodes-Values :
      (a b : BaseSpace lib) (role : Text) (nodes : Map ℕ (Node lib))
      → AgreeOff role a b
      → Values (IsCurrent a) nodes
      → Values (IsCurrent b) (refresh_nodes lib b role nodes)
  unfolding refresh_nodes
  refresh_nodes-Values a b role [] agree h = tt
  refresh_nodes-Values a b role ((id, node) ∷ nodes) agree h = (
    refresh_node-IsCurrent a b role node agree h.0,
    refresh_nodes-Values a b role nodes agree h.1,
  )

  -- A change of the rules for one role, followed by a refresh of its holders
  pub refresh_encoders_with_role-IsFresh :
      (a b : BaseSpace lib) (role : Text)
      → AgreeOff role a b
      → Values (IsCurrent a) b.nodes × All IsWellGained b.changes_queue
      → IsFresh (refresh_encoders_with_role lib b role)
  unfolding refresh_encoders_with_role
  refresh_encoders_with_role-IsFresh a b role agree h =
      (refresh_nodes-Values a b role b.nodes agree h.0, h.1)
