-- ===== src/Commands/Dispatch.antt =====
-- core/commands/spec.go: the registry and `Dispatch`; core/commands/defs.go: the default registry and
-- the default table of roles.
pub mod Table
pub mod Outcome
use panaudia.Base.{
  ℕ, ◌≡◌, refl, Bool, true, false, ◌||◌, List, [], ◌∷◌, ◌⊎◌, Option, none, some, if◌then◌else◌,
  arith, All, take, subst, inl, inr, Bool-cases, Option-cases,
}
use panaudia.Base.Keys.{Text, bytes, text_eq, text_beq_iff, ◌==◌}
use panaudia.Base.Assoc.{Map, lookup, insert, lookup-insert}
use panaudia.Commands.{UuidLib, JsonLib, Op}
use panaudia.Commands.Roles.{
  Permissions, RolePermissions, contains, any_role, role_grants_command, is_command_allowed,
  everyone_role,
}
use panaudia.Commands.Catalog.{Built, made, failed, BuildError, CommandSpec}
use panaudia.Commands.Catalog.Keys.{ScopedAs, InScope, command_specs-InScope}
use panaudia.Commands.Catalog.Specs.{
  command_specs, space_entity_mute, space_entity_unmute, space_entity_kick, space_entity_unkick,
  space_entity_set_gain, space_entity_set_attenuation, space_role_mute, space_role_unmute,
  space_role_kick, space_role_unkick, space_role_set_gain, space_role_unset_gain,
  space_role_set_attenuation, space_role_unset_attenuation, personal_entity_mute,
  personal_entity_unmute, personal_entity_solo, personal_entity_unsolo, personal_role_mute,
  personal_role_unmute,
}

pub data DispatchError : Type 0 where
  unknown_command not_authorized : DispatchError
  invalid_arguments : BuildError → DispatchError

pub data Dispatched (F : Type 0) : Type 0 where
  ok : Op F → Dispatched F
  error : DispatchError → Dispatched F

pub data RegistryError : Type 0 where
  empty_name duplicate_name : RegistryError

pub data NewRegistry (R : Type 0) (F : Type 0) : Type 0 where
  registry : Map Text (CommandSpec R F) → NewRegistry R F
  rejected : RegistryError → NewRegistry R F

module _ {R : Type 0} {F : Type 0} where
  -- The loop of `NewRegistry` over the specs that are left. A Go `Build` may be nil, a function of
  -- the model may not.
  unfoldable pub add_specs : List (CommandSpec R F) → Map Text (CommandSpec R F) → NewRegistry R F
  add_specs [] m = registry m
  add_specs (s ∷ specs) m = if s.name == [] then rejected empty_name else elim (lookup s.name m) [
    | some old ↦ rejected duplicate_name
    | none ↦ add_specs specs (insert s.name s m)
  ]

  -- `NewRegistry`
  unfoldable pub new_registry : List (CommandSpec R F) → NewRegistry R F
  new_registry specs = add_specs specs []

  -- `Dispatch`; `none` for the authoriser is a nil one.
  unfoldable pub dispatch :
      Map Text (CommandSpec R F) → Option Permissions → Text → R → ℕ → List Text → ℕ → Dispatched F
  dispatch reg auth name args my_uuid my_roles now = elim (lookup name reg) [
    | none ↦ error unknown_command
    | some spec ↦ elim auth [
      | none ↦ error not_authorized
      | some p ↦
          if is_command_allowed p my_roles name
          then elim (spec.build args my_uuid now) [
            | made op ↦ ok op
            | failed e ↦ error (invalid_arguments e)
          ]
          else error not_authorized
    ]
  ]

-- `DefaultRolePermissions`
abbrev pub default_role_permissions : Permissions
default_role_permissions =
    (
      everyone_role,
      record {
        commands =
            bytes "personal.entity.mute"
            ∷ bytes "personal.entity.unmute"
            ∷ bytes "personal.role.mute"
            ∷ bytes "personal.role.unmute"
            ∷ [];
        read = [];
      },
    )
    ∷ (
      bytes "admin",
      record {
        commands =
            bytes "space.entity.mute"
            ∷ bytes "space.entity.unmute"
            ∷ bytes "space.entity.kick"
            ∷ bytes "space.entity.unkick"
            ∷ bytes "space.entity.set_gain"
            ∷ bytes "space.entity.set_attenuation"
            ∷ bytes "space.role.mute"
            ∷ bytes "space.role.unmute"
            ∷ bytes "space.role.kick"
            ∷ bytes "space.role.unkick"
            ∷ bytes "space.role.set_gain"
            ∷ bytes "space.role.unset_gain"
            ∷ bytes "space.role.set_attenuation"
            ∷ bytes "space.role.unset_attenuation"
            ∷ bytes "personal.entity.solo"
            ∷ bytes "personal.entity.unsolo"
            ∷ [];
        read = bytes "entity.all" ∷ bytes "space.read" ∷ [];
      },
    )
    ∷ (
      bytes "moderator",
      record {
        commands =
            bytes "space.entity.mute"
            ∷ bytes "space.entity.unmute"
            ∷ bytes "space.entity.kick"
            ∷ bytes "space.entity.unkick"
            ∷ bytes "personal.entity.solo"
            ∷ bytes "personal.entity.unsolo"
            ∷ [];
        read = bytes "entity.all" ∷ bytes "space.read" ∷ [];
      },
    )
    ∷ (
      bytes "performer",
      record {
        commands = bytes "personal.entity.solo" ∷ bytes "personal.entity.unsolo" ∷ [];
        read = [];
      },
    )
    ∷ (bytes "audience", record { commands = []; read = [] })
    ∷ []
