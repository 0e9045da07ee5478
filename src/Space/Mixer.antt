-- ===== src/Space/Mixer.antt =====
-- core/space/base_space.go, node.go: the nodes of a space, their slots, and the space-wide rules for
-- roles. This file has the data and `RefreshEncoderRoleEffects` of base_space_ops.go; `Mutators` and
-- `Ops` have the operations of the cache, `Nodes` the queue of changes.
pub mod Mutators
pub mod Ops
pub mod Nodes
pub mod Effects
pub mod Cases
pub mod Fresh
pub mod Early
use panaudia.Base.{
  ℕ, Bool, true, false, not, ◌&&◌, Option, none, some, List, [], ◌∷◌, if◌then◌else◌, arith, ◌≡◌,
  ◌↔◌, ap, refl,
}
use panaudia.Base.Keys.{Text, Key, text_eq, ◌==◌, text_beq, text_beq_iff}
use panaudia.Base.Assoc.{Map, lookup}
use panaudia.StateCache.{Op}
use panaudia.Space.Libraries.{Libraries}
use panaudia.Space.Encoder.{
  Encoder, set_space_role_muted, set_role_gain_multiplier, set_role_attenuation_override,
}

-- `common.SpaceNodeConfig`, as far as the space reads it
pub record SpaceNodeConfig (lib : Libraries) : Type 0 where
  pub gain : lib.floats.Float
  pub attenuation : lib.floats.Float
  pub input : Bool
  pub tone : lib.floats.Float
  pub null_out : Bool
  pub sub_spaces : List ℕ

-- `Node`: `has_input` and `has_output` tell whether `Input` and `Output` are set.
pub record Node (lib : Libraries) : Type 0 where
  pub name : Text
  pub uuid : ℕ
  pub position : lib.Position
  pub slot_index : ℕ
  pub rotation : lib.Rotation
  pub config : SpaceNodeConfig lib
  pub tick : ℕ
  pub has_input : Bool
  pub has_output : Bool
  pub encoder : Option (Encoder lib)

-- `NodeChange` with its commands
pub data NodeChange (lib : Libraries) : Type 0 where
  change_add : Text → lib.Position → ℕ → SpaceNodeConfig lib → NodeChange lib
  change_move : ℕ → lib.Position → lib.Rotation → NodeChange lib
  change_delete : ℕ → NodeChange lib
  change_enable_out : ℕ → NodeChange lib
  change_solo : ℕ → ℕ → NodeChange lib
  change_unsolo : ℕ → ℕ → NodeChange lib
  change_add_sub : ℕ → ℕ → NodeChange lib
  change_remove_sub : ℕ → ℕ → NodeChange lib

-- `opKey`
pub record OpKey : Type 0 where
  pub topic : Text
  pub key : Text

pub op_key_iff :
    (a b : OpKey) → ((text_beq a.topic b.topic && text_beq a.key b.key) ≡ true) ↔ (a ≡ b)
op_key_iff a b = (
  λ h i. record {
    topic = (text_beq_iff a.topic b.topic).0 (ground arith) i;
    key = (text_beq_iff a.key b.key).0 (ground arith) i;
  },
  λ p.
      rw
        (
          (text_beq_iff a.topic b.topic).1 (ap (λ k. k.topic) p),
          (text_beq_iff a.key b.key).1 (ap (λ k. k.key) p),
        )
        refl,
)

instance abbrev pub op_key_eq : Key OpKey
op_key_eq = record {
  same = λ a b. text_beq a.topic b.topic && text_beq a.key b.key;
  same_iff = op_key_iff;
}

-- The calls that the space makes of its source manager and of its stats delegate.
pub data Call (lib : Libraries) : Type 0 where
  session_gone : ℕ → Call lib
  free_source : ℕ → Call lib
  turn : ℕ → lib.Rotation → Call lib
  stale_node : ℕ → Call lib

-- `BaseSpace`: `calls` lists the calls made, the last one first.
pub record BaseSpace (lib : Libraries) : Type 0 where
  pub nodes : Map ℕ (Node lib)
  pub open_to_change : Bool
  pub changes_queue : List (NodeChange lib)
  pub output_count : ℕ
  pub ticker : ℕ
  pub timeout_ticks : ℕ
  pub node_uuid_by_slot : List ℕ
  pub op_changes : Map OpKey Op
  pub muted_roles : lib.texts.Set
  pub role_gains : Map Text lib.floats.Float
  pub role_attenuations : Map Text lib.floats.Float
  pub calls : List (Call lib)

module _ (lib : Libraries) where
  -- `NewBaseSpace`
  unfoldable pub new_base_space : ℕ → BaseSpace lib
  new_base_space timeout_ticks = record {
    nodes = [];
    open_to_change = false;
    changes_queue = [];
    output_count = 0;
    ticker = 0;
    timeout_ticks = timeout_ticks;
    node_uuid_by_slot = [];
    op_changes = [];
    muted_roles = lib.texts.empty;
    role_gains = [];
    role_attenuations = [];
    calls = [];
  }

  -- One turn of the loops over the roles: the value is taken when it is the first, or less.
  abbrev pub take_less : Option lib.floats.Float → Option lib.floats.Float → Option lib.floats.Float
  take_less none best = best
  take_less (some v) none = some v
  take_less (some v) (some b) = if lib.floats.ltb_float v b then some v else some b

  unfoldable pub least :
      Map Text lib.floats.Float → List Text → Option lib.floats.Float → Option lib.floats.Float
  least rules [] best = best
  least rules (role ∷ roles) best = least rules roles (take_less (lookup role rules) best)

  abbrev pub has_entries : Map Text lib.floats.Float → Bool
  has_entries [] = false
  has_entries (r ∷ rules) = true

  -- The three effects of the roles in `RefreshEncoderRoleEffects`
  unfoldable pub role_muted : lib.texts.Set → lib.texts.Set → Bool
  role_muted muted roles =
      if not (lib.texts.is_empty muted) && not (lib.texts.is_empty roles)
      then lib.texts.contains_any muted roles
      else false

  unfoldable pub role_rule : Map Text lib.floats.Float → lib.texts.Set → Option lib.floats.Float
  role_rule rules roles =
      if has_entries rules && not (lib.texts.is_empty roles)
      then least rules (lib.texts.elements roles) none
      else none

  abbrev pub or_one : Option lib.floats.Float → lib.floats.Float
  or_one none = lib.floats.one_float
  or_one (some g) = g

  -- `RefreshEncoderRoleEffects`
  unfoldable pub refresh_encoder_role_effects : BaseSpace lib → Encoder lib → Encoder lib
  refresh_encoder_role_effects space e =
      set_role_attenuation_override lib (role_rule space.role_attenuations e.roles) (
        set_role_gain_multiplier lib (or_one (role_rule space.role_gains e.roles))
          (set_space_role_muted lib (role_muted space.muted_roles e.roles) e))
