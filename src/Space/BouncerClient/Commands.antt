-- ===== src/Space/BouncerClient/Commands.antt =====
-- core/space/bouncer_client.go: `HandleControlMessage` and `HandleCommand`, from a message of the
-- control channel to the message that goes to the bouncer.
pub mod Sent
use panaudia.Base.{ℕ, Bool, Option, none, some, List, [], ◌∷◌, if◌then◌else◌, not}
use panaudia.Base.Keys.{Text, bytes, text_eq, ◌==◌}
use panaudia.Base.Assoc.{Map}
use panaudia.Commands.{Op, Value}
use panaudia.Commands.Roles.{Permissions}
use panaudia.Commands.Catalog.{CommandSpec}
use panaudia.Commands.Dispatch.{dispatch, ok, error}
use panaudia.StateCache.JsonOps.{JsonText, build_tombstone_op}
use panaudia.Space.BouncerClient.Publish.{BouncerCall, send_string}

-- encoding/json on control messages: `Marshal` of the message, `Unmarshal` into the command's name and
-- arguments, and `Marshal` of an operation with a value. `none` is an error.
pub record ControlLib (R : Type 0) (F : Type 0) : Type 1 where
  pub Message : Type 0
  pub marshal : Message → Option Text
  pub unmarshal : Text → Option (Text × R)
  pub write_value : Text → Value F → Option Text

-- The fields of `ControlMessage`
pub record ControlMessage (M : Type 0) : Type 0 where
  pub message_type : Text
  pub message : M

-- What `SetCommandHandler` installs; `none` is nil.
pub record CommandHandler (R : Type 0) (F : Type 0) : Type 0 where
  pub cmd_registry : Option (Map Text (CommandSpec R F))
  pub cmd_authorizer : Option Permissions

module _ {R : Type 0} {F : Type 0} (json : JsonText) (lib : ControlLib R F) where
  -- `BuildTombstoneOp` or `BuildOp` on an operation
  unfoldable pub encode_op : Op F → Option Text
  encode_op op =
      if op.tombstone then build_tombstone_op json op.key else lib.write_value op.key op.value

  -- The message of an operation
  unfoldable pub send_op : Op F → List BouncerCall
  send_op op = elim (encode_op op) [ none ↦ [] | some encoded ↦ send_string op.topic encoded ∷ [] ]

  module _ (handler : CommandHandler R F) (my_uuid : ℕ) (my_roles : List Text) (now : ℕ) where
    -- `HandleCommand`
    unfoldable pub handle_command : Text → R → List BouncerCall
    handle_command name args = elim handler.cmd_registry [
      | none ↦ []
      | some reg ↦ elim handler.cmd_authorizer [
        | none ↦ []
        | some auth ↦ elim (dispatch reg (some auth) name args my_uuid my_roles now) [
          | error e ↦ []
          | ok op ↦ send_op op
        ]
      ]
    ]

    -- `HandleControlMessage`
    unfoldable pub handle_control_message : ControlMessage lib.Message → List BouncerCall
    handle_control_message msg =
        if not (msg.message_type == bytes "command") then [] else elim (lib.marshal msg.message) [
          | none ↦ []
          | some inner ↦ elim (lib.unmarshal inner) [
            | none ↦ []
            | some (command, args) ↦ if command == [] then [] else handle_command command args
          ]
        ]
