-- ===== src/Space/Encoder.antt =====
-- core/ambisonic/encoder.go: the control state of an encoder, and which peers a listener hears.
pub mod Audible
use panaudia.Base.{ℕ, Bool, true, false, not, ◌&&◌, ◌||◌, Option, none, some, eqb, if◌then◌else◌}
use panaudia.Base.Keys.{Text}
use panaudia.Space.Libraries.{Libraries}

-- `Encoder`, without the buffers of samples and the state of the reverb.
pub record Encoder (lib : Libraries) : Type 0 where
  pub uuid : ℕ
  pub position : lib.Position
  pub slot : ℕ
  pub has_input : Bool
  pub gain : lib.floats.Float
  pub gain_factor : lib.floats.Single
  pub attenuation : lib.floats.Float
  pub peer_attenuation_exponent : lib.floats.Float
  pub sub_spaces : lib.ids.Set
  pub mutes : lib.ids.Set
  pub solos : lib.ids.Set
  pub roles : lib.texts.Set
  pub mute_roles : lib.texts.Set
  pub space_muted : Bool
  pub space_role_muted : Bool
  pub role_gain_multiplier : lib.floats.Float
  pub role_attenuation_override : Option lib.floats.Float

module _ (lib : Libraries) where
  -- `float32(math.Pow(x, 0.5)) * SQRT_4_PI`
  abbrev pub factor : lib.floats.Float → lib.floats.Single
  factor x = lib.floats.scale_sqrt_4_pi (lib.floats.single (lib.floats.root x))

  -- `NewEncoder`
  unfoldable pub new_encoder : ℕ → Bool → lib.floats.Float → lib.floats.Float → ℕ → Encoder lib
  new_encoder uuid has_input gain attenuation slot = record {
    uuid = uuid;
    position = lib.origin;
    slot = slot;
    has_input = has_input;
    gain = gain;
    gain_factor = factor gain;
    attenuation = attenuation;
    peer_attenuation_exponent = lib.floats.halve attenuation;
    sub_spaces = lib.ids.empty;
    mutes = lib.ids.empty;
    solos = lib.ids.empty;
    roles = lib.texts.empty;
    mute_roles = lib.texts.empty;
    space_muted = false;
    space_role_muted = false;
    role_gain_multiplier = lib.floats.one_float;
    role_attenuation_override = none;
  }

  -- The factor that `recomputeGainFactor` stores: a negative product counts as 0.
  abbrev pub gain_factor_of : lib.floats.Float → lib.floats.Float → lib.floats.Single
  gain_factor_of gain multiplier =
      let effective = lib.floats.mul_float gain multiplier in
      factor (
        if lib.floats.ltb_float effective lib.floats.zero_float
        then lib.floats.zero_float
        else effective)

  -- The exponent that `recomputeAttenuationExponent` stores: the override replaces the entity's own.
  abbrev pub exponent_of : lib.floats.Float → Option lib.floats.Float → lib.floats.Float
  exponent_of attenuation none = lib.floats.halve attenuation
  exponent_of attenuation (some a) = lib.floats.halve a

  -- `recomputeGainFactor`
  unfoldable pub recompute_gain_factor : Encoder lib → Encoder lib
  recompute_gain_factor e = record e { gain_factor = gain_factor_of e.gain e.role_gain_multiplier }

  -- `recomputeAttenuationExponent`
  unfoldable pub recompute_attenuation_exponent : Encoder lib → Encoder lib
  recompute_attenuation_exponent e = record e {
    peer_attenuation_exponent = exponent_of e.attenuation e.role_attenuation_override;
  }

  -- `SetGain`
  unfoldable pub set_gain : lib.floats.Float → Encoder lib → Encoder lib
  set_gain gain e = recompute_gain_factor (record e { gain = gain })

  -- `SetAttenuation`
  unfoldable pub set_attenuation : lib.floats.Float → Encoder lib → Encoder lib
  set_attenuation attenuation e =
      recompute_attenuation_exponent (record e { attenuation = attenuation })

  -- `SetRoleGainMultiplier`: what is not above 0 counts as no multiplier.
  abbrev pub multiplier_of : lib.floats.Float → lib.floats.Float
  multiplier_of m = if lib.floats.leb_float m lib.floats.zero_float then lib.floats.one_float else m

  unfoldable pub set_role_gain_multiplier : lib.floats.Float → Encoder lib → Encoder lib
  set_role_gain_multiplier m e =
      recompute_gain_factor (record e { role_gain_multiplier = multiplier_of m })

  -- `SetRoleAttenuationOverride`
  unfoldable pub set_role_attenuation_override : Option lib.floats.Float → Encoder lib → Encoder lib
  set_role_attenuation_override att e =
      recompute_attenuation_exponent (record e { role_attenuation_override = att })

  -- `SetSpaceRoleMuted`, `SetSpaceMuted`
  unfoldable pub set_space_role_muted : Bool → Encoder lib → Encoder lib
  set_space_role_muted muted e = record e { space_role_muted = muted }

  unfoldable pub set_space_muted : Bool → Encoder lib → Encoder lib
  set_space_muted muted e = record e { space_muted = muted }

  -- `AddRole` and the like
  unfoldable pub add_role : Text → Encoder lib → Encoder lib
  add_role role e = record e { roles = lib.texts.add role e.roles }

  unfoldable pub remove_role : Text → Encoder lib → Encoder lib
  remove_role role e = record e { roles = lib.texts.remove role e.roles }

  unfoldable pub add_mute_role : Text → Encoder lib → Encoder lib
  add_mute_role role e = record e { mute_roles = lib.texts.add role e.mute_roles }

  unfoldable pub remove_mute_role : Text → Encoder lib → Encoder lib
  remove_mute_role role e = record e { mute_roles = lib.texts.remove role e.mute_roles }

  unfoldable pub add_mute : ℕ → Encoder lib → Encoder lib
  add_mute id e = record e { mutes = lib.ids.add id e.mutes }

  unfoldable pub remove_mute : ℕ → Encoder lib → Encoder lib
  remove_mute id e = record e { mutes = lib.ids.remove id e.mutes }

  unfoldable pub add_solo : ℕ → Encoder lib → Encoder lib
  add_solo id e = record e { solos = lib.ids.add id e.solos }

  unfoldable pub remove_solo : ℕ → Encoder lib → Encoder lib
  remove_solo id e = record e { solos = lib.ids.remove id e.solos }

  unfoldable pub add_sub_space : ℕ → Encoder lib → Encoder lib
  add_sub_space id e = record e { sub_spaces = lib.ids.add id e.sub_spaces }

  unfoldable pub remove_sub_space : ℕ → Encoder lib → Encoder lib
  remove_sub_space id e = record e { sub_spaces = lib.ids.remove id e.sub_spaces }

  -- `SetPosition`
  unfoldable pub set_position : lib.Position → Encoder lib → Encoder lib
  set_position p e = record e { position = p }

  -- `shouldIncludePeer`
  unfoldable pub should_include_peer : Encoder lib → Encoder lib → Bool
  should_include_peer e peer =
      if eqb peer.uuid e.uuid
      then false
      else if (not (lib.ids.is_empty e.sub_spaces) || not (lib.ids.is_empty peer.sub_spaces))
          && not (lib.ids.contains_any e.sub_spaces peer.sub_spaces)
      then false
      else if not (lib.ids.is_empty e.solos)
      then lib.ids.contains peer.uuid e.solos
      else if peer.space_muted
      then false
      else if peer.space_role_muted
      then false
      else if not (lib.texts.is_empty e.mute_roles)
          && (not (lib.texts.is_empty peer.roles) && lib.texts.contains_any e.mute_roles peer.roles)
      then false
      else not (lib.ids.contains peer.uuid e.mutes || lib.ids.contains e.uuid peer.mutes)
