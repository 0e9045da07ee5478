-- ===== src/Commands/Catalog/Specs.antt =====
-- core/commands/defs.go: `commandSpecs`, one entry for each command.
use panaudia.Base.{List, [], ◌∷◌, ◌++◌}
use panaudia.Base.Keys.{bytes}
use panaudia.Commands.{UuidLib, JsonLib, on, millis, float}
use panaudia.Commands.Catalog.{
  ◌>>=◌, ◌>>◌, made, decode_args, require_entity, require_role, kick_expiry, CommandSpec,
  require_gain, require_attenuation, set_op, tombstone_op,
}

module _ (lib : UuidLib) (json : JsonLib) where
  open lib use {to_text}
  open json use {Raw, Float}

  unfoldable pub space_entity_mute : CommandSpec Raw Float
  space_entity_mute = record {
    name = bytes "space.entity.mute";
    build = λ raw my_uuid now. do
      id ← decode_args (json.entity_id_args raw)
      require_entity id
      made (set_op lib json (bytes "entity") (to_text id ++ bytes ".muted") on);
  }

  unfoldable pub space_entity_unmute : CommandSpec Raw Float
  space_entity_unmute = record {
    name = bytes "space.entity.unmute";
    build = λ raw my_uuid now. do
      id ← decode_args (json.entity_id_args raw)
      require_entity id
      made (tombstone_op lib json (bytes "entity") (to_text id ++ bytes ".muted"));
  }

  unfoldable pub space_entity_kick : CommandSpec Raw Float
  space_entity_kick = record {
    name = bytes "space.entity.kick";
    build = λ raw my_uuid now. do
      args ← decode_args (json.entity_kick_args raw)
      require_entity args.0
      ttl ← kick_expiry now args.1
      made (set_op lib json (bytes "entity") (to_text args.0 ++ bytes ".kicked") (millis ttl));
  }

  unfoldable pub space_entity_unkick : CommandSpec Raw Float
  space_entity_unkick = record {
    name = bytes "space.entity.unkick";
    build = λ raw my_uuid now. do
      id ← decode_args (json.entity_id_args raw)
      require_entity id
      made (tombstone_op lib json (bytes "entity") (to_text id ++ bytes ".kicked"));
  }

  unfoldable pub space_entity_set_gain : CommandSpec Raw Float
  space_entity_set_gain = record {
    name = bytes "space.entity.set_gain";
    build = λ raw my_uuid now. do
      args ← decode_args (json.entity_gain_args raw)
      require_entity args.0
      require_gain lib json args.1
      made (set_op lib json (bytes "entity") (to_text args.0 ++ bytes ".gain") (float args.1));
  }

  unfoldable pub space_entity_set_attenuation : CommandSpec Raw Float
  space_entity_set_attenuation = record {
    name = bytes "space.entity.set_attenuation";
    build = λ raw my_uuid now. do
      args ← decode_args (json.entity_attenuation_args raw)
      require_entity args.0
      require_attenuation lib json args.1
      made (
          set_op lib json (bytes "entity") (to_text args.0 ++ bytes ".attenuation") (float args.1));
  }

  unfoldable pub space_role_mute : CommandSpec Raw Float
  space_role_mute = record {
    name = bytes "space.role.mute";
    build = λ raw my_uuid now. do
      role ← decode_args (json.role_args raw)
      require_role role
      made (set_op lib json (bytes "space") (bytes "roles-muted." ++ role) on);
  }

  unfoldable pub space_role_unmute : CommandSpec Raw Float
  space_role_unmute = record {
    name = bytes "space.role.unmute";
    build = λ raw my_uuid now. do
      role ← decode_args (json.role_args raw)
      require_role role
      made (tombstone_op lib json (bytes "space") (bytes "roles-muted." ++ role));
  }

  unfoldable pub space_role_kick : CommandSpec Raw Float
  space_role_kick = record {
    name = bytes "space.role.kick";
    build = λ raw my_uuid now. do
      args ← decode_args (json.role_kick_args raw)
      require_role args.0
      ttl ← kick_expiry now args.1
      made (set_op lib json (bytes "space") (bytes "roles-kicked." ++ args.0) (millis ttl));
  }

  unfoldable pub space_role_unkick : CommandSpec Raw Float
  space_role_unkick = record {
    name = bytes "space.role.unkick";
    build = λ raw my_uuid now. do
      role ← decode_args (json.role_args raw)
      require_role role
      made (tombstone_op lib json (bytes "space") (bytes "roles-kicked." ++ role));
  }

  unfoldable pub space_role_set_gain : CommandSpec Raw Float
  space_role_set_gain = record {
    name = bytes "space.role.set_gain";
    build = λ raw my_uuid now. do
      args ← decode_args (json.role_gain_args raw)
      require_role args.0
      require_gain lib json args.1
      made (set_op lib json (bytes "space") (bytes "roles-gain." ++ args.0) (float args.1));
  }

  unfoldable pub space_role_unset_gain : CommandSpec Raw Float
  space_role_unset_gain = record {
    name = bytes "space.role.unset_gain";
    build = λ raw my_uuid now. do
      role ← decode_args (json.role_args raw)
      require_role role
      made (tombstone_op lib json (bytes "space") (bytes "roles-gain." ++ role));
  }

  unfoldable pub space_role_set_attenuation : CommandSpec Raw Float
  space_role_set_attenuation = record {
    name = bytes "space.role.set_attenuation";
    build = λ raw my_uuid now. do
      args ← decode_args (json.role_attenuation_args raw)
      require_role args.0
      require_attenuation lib json args.1
      made (set_op lib json (bytes "space") (bytes "roles-attenuation." ++ args.0) (float args.1));
  }

  unfoldable pub space_role_unset_attenuation : CommandSpec Raw Float
  space_role_unset_attenuation = record {
    name = bytes "space.role.unset_attenuation";
    build = λ raw my_uuid now. do
      role ← decode_args (json.role_args raw)
      require_role role
      made (tombstone_op lib json (bytes "space") (bytes "roles-attenuation." ++ role));
  }

  unfoldable pub personal_entity_mute : CommandSpec Raw Float
  personal_entity_mute = record {
    name = bytes "personal.entity.mute";
    build = λ raw my_uuid now. do
      id ← decode_args (json.entity_id_args raw)
      require_entity id
      made (
          set_op lib json (bytes "entity") (to_text my_uuid ++ (bytes ".mutes." ++ to_text id)) on);
  }

  unfoldable pub personal_entity_unmute : CommandSpec Raw Float
  personal_entity_unmute = record {
    name = bytes "personal.entity.unmute";
    build = λ raw my_uuid now. do
      id ← decode_args (json.entity_id_args raw)
      require_entity id
      made (
          tombstone_op lib json (bytes "entity")
            (to_text my_uuid ++ (bytes ".mutes." ++ to_text id)));
  }

  unfoldable pub personal_entity_solo : CommandSpec Raw Float
  personal_entity_solo = record {
    name = bytes "personal.entity.solo";
    build = λ raw my_uuid now. do
      id ← decode_args (json.entity_id_args raw)
      require_entity id
      made (
          set_op lib json (bytes "entity") (to_text my_uuid ++ (bytes ".solos." ++ to_text id)) on);
  }

  unfoldable pub personal_entity_unsolo : CommandSpec Raw Float
  personal_entity_unsolo = record {
    name = bytes "personal.entity.unsolo";
    build = λ raw my_uuid now. do
      id ← decode_args (json.entity_id_args raw)
      require_entity id
      made (
          tombstone_op lib json (bytes "entity")
            (to_text my_uuid ++ (bytes ".solos." ++ to_text id)));
  }

  unfoldable pub personal_role_mute : CommandSpec Raw Float
  personal_role_mute = record {
    name = bytes "personal.role.mute";
    build = λ raw my_uuid now. do
      role ← decode_args (json.role_args raw)
      require_role role
      made
          (set_op lib json (bytes "entity") (to_text my_uuid ++ (bytes ".mute-roles." ++ role)) on);
  }

  unfoldable pub personal_role_unmute : CommandSpec Raw Float
  personal_role_unmute = record {
    name = bytes "personal.role.unmute";
    build = λ raw my_uuid now. do
      role ← decode_args (json.role_args raw)
      require_role role
      made (
          tombstone_op lib json (bytes "entity")
            (to_text my_uuid ++ (bytes ".mute-roles." ++ role)));
  }

  unfoldable pub command_specs : List (CommandSpec Raw Float)
  unfolding space_entity_mute space_entity_unmute space_entity_kick space_entity_unkick
      space_entity_set_gain space_entity_set_attenuation space_role_mute space_role_unmute
      space_role_kick space_role_unkick space_role_set_gain space_role_unset_gain
      space_role_set_attenuation space_role_unset_attenuation personal_entity_mute
      personal_entity_unmute personal_entity_solo personal_entity_unsolo personal_role_mute
      personal_role_unmute
  command_specs =
      space_entity_mute ∷ space_entity_unmute ∷ space_entity_kick ∷ space_entity_unkick
      ∷ space_entity_set_gain ∷ space_entity_set_attenuation ∷ space_role_mute ∷ space_role_unmute
      ∷ space_role_kick ∷ space_role_unkick ∷ space_role_set_gain ∷ space_role_unset_gain
      ∷ space_role_set_attenuation ∷ space_role_unset_attenuation ∷ personal_entity_mute
      ∷ personal_entity_unmute ∷ personal_entity_solo ∷ personal_entity_unsolo ∷ personal_role_mute
      ∷ personal_role_unmute ∷ []
