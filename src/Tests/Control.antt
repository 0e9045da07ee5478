-- ===== src/Tests/Control.antt =====
-- core/commands with uuids written in unary.
use panaudia.Base.{ℕ, ◌/◌, ◌≡◌, refl, true, ◌||◌, [], ◌∷◌, ◌++◌, some, ltb, arith, replicate}
use panaudia.Base.Int.{ℤ, pos, negsuc}
use panaudia.Base.Keys.{Text, bytes, text_eq}
use panaudia.Base.Assoc.{Map, lookup, insert}
use panaudia.Tests.Unary.{unary}
use panaudia.Commands.{JsonLib, on, Op}
use panaudia.Commands.Roles.{contains, any_role, role_grants_command, is_command_allowed}
use panaudia.Commands.Catalog.{made, CommandSpec, kick_expiry, set_op}
use panaudia.Commands.Catalog.Expiry.{IsOver, kick_expiry_wraps}
use panaudia.Commands.Catalog.Keys.{ScopedAs}
use panaudia.Commands.Catalog.Specs.{
  command_specs, space_entity_mute, space_entity_unmute, space_entity_kick, space_entity_unkick,
  space_entity_set_gain, space_entity_set_attenuation, space_role_mute, space_role_unmute,
  space_role_kick, space_role_unkick, space_role_set_gain, space_role_unset_gain,
  space_role_set_attenuation, space_role_unset_attenuation, personal_entity_mute,
  personal_entity_unmute, personal_entity_solo, personal_entity_unsolo, personal_role_mute,
  personal_role_unmute,
}
use panaudia.Commands.Dispatch.{
  ok, registry, rejected, new_registry, add_specs, dispatch, default_role_permissions,
}
use panaudia.Commands.Dispatch.Outcome.{dispatch-trusted, dispatch-scope}

-- Arguments that are a uuid, with fixed values for the rest.
abbrev pub json : JsonLib
json = record {
  Raw = ℕ;
  Float = ℕ;
  ltb_float = ltb;
  zero_float = 0;
  three_float = 3;
  entity_id_args = λ r. some r;
  entity_gain_args = λ r. some (r, 2);
  entity_attenuation_args = λ r. some (r, 2);
  entity_kick_args = λ r. some (r, pos 5);
  role_args = λ r. some (bytes "guest");
  role_gain_args = λ r. some (bytes "guest", 2);
  role_attenuation_args = λ r. some (bytes "guest", 2);
  role_kick_args = λ r. some (bytes "guest", pos 5);
}

-- The registry of the two commands that the runs below use.
abbrev small : Map Text (CommandSpec ℕ ℕ)
small =
    (bytes "space.entity.mute", space_entity_mute unary json)
    ∷ (bytes "personal.entity.mute", personal_entity_mute unary json)
    ∷ []

muted : Op ℕ
muted = set_op unary json (bytes "entity") (replicate 4 b'f' ++ bytes ".muted") on

moderated :
    dispatch small
      (some default_role_permissions)
      (bytes "space.entity.mute")
      4
      2
      (bytes "moderator" ∷ [])
      9
    ≡ ok muted
unfolding dispatch lookup is_command_allowed role_grants_command any_role contains space_entity_mute
    muted
moderated = refl

dispatch-trusted_example :
    (contains (bytes "moderator" ∷ []) (bytes "admin")
      || contains (bytes "moderator" ∷ []) (bytes "moderator"))
    ≡ true
dispatch-trusted_example =
    dispatch-trusted unary json small (bytes "space.entity.mute") 4 2 (bytes "moderator" ∷ []) 9
      muted moderated refl

-- 300 years in minutes.
century_kick : kick_expiry 7_000_000 (pos 157_788_000) ≡ made (negsuc 8_979_464_073_702)
unfolding kick_expiry
century_kick = refl

kick_expiry_wraps_example :
    (t : ℤ) × ((kick_expiry 7_000_000 (pos 157_788_000) ≡ made t)
      × IsOver (7_000_000 / 1_000_000) t)
kick_expiry_wraps_example = kick_expiry_wraps 7_000_000 157_788_000 (omega arith) (omega arith)

abbrev pub all_commands : Map Text (CommandSpec ℕ ℕ)
all_commands = elim (new_registry (command_specs unary json)) [ registry r ↦ r | rejected e ↦ [] ]

pub all_commands_lem : new_registry (command_specs unary json) ≡ registry all_commands
unfolding new_registry add_specs command_specs lookup insert space_entity_mute space_entity_unmute
    space_entity_kick space_entity_unkick space_entity_set_gain space_entity_set_attenuation
    space_role_mute space_role_unmute space_role_kick space_role_unkick space_role_set_gain
    space_role_unset_gain space_role_set_attenuation space_role_unset_attenuation
    personal_entity_mute personal_entity_unmute personal_entity_solo personal_entity_unsolo
    personal_role_mute personal_role_unmute
all_commands_lem = refl

abbrev ignored : Op ℕ
ignored =
    set_op unary json (bytes "entity") (replicate 2 b'f' ++ (bytes ".mutes." ++ replicate 4 b'f'))
      on

anyone_mutes :
    dispatch all_commands (some default_role_permissions) (bytes "personal.entity.mute") 4 2 [] 9
    ≡ ok ignored
unfolding new_registry add_specs command_specs insert dispatch lookup is_command_allowed
    role_grants_command any_role contains space_entity_mute space_entity_unmute space_entity_kick
    space_entity_unkick space_entity_set_gain space_entity_set_attenuation space_role_mute
    space_role_unmute space_role_kick space_role_unkick space_role_set_gain space_role_unset_gain
    space_role_set_attenuation space_role_unset_attenuation personal_entity_mute
    personal_entity_unmute personal_entity_solo personal_entity_unsolo personal_role_mute
    personal_role_unmute
anyone_mutes = refl

dispatch-scope_example : ScopedAs unary json (bytes "personal.entity.mute") 2 ignored
dispatch-scope_example =
    dispatch-scope unary json all_commands default_role_permissions (bytes "personal.entity.mute") 4
      2 [] 9 ignored all_commands_lem anyone_mutes
