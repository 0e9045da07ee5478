-- ===== src/Space/BouncerClient/Commands/Sent.antt =====
-- What a control message makes the client send.
use panaudia.Base.{
  ℕ, ◌≡◌, ◌⊎◌, inl, inr, refl, true, ◌||◌, some, List, [], Option-cases, Bool-cases, subst,
}
use panaudia.Base.Keys.{Text, bytes, text_eq, text_beq_iff, ◌==◌}
use panaudia.Base.Assoc.{Map}
use panaudia.Commands.{Op, UuidLib, JsonLib}
use panaudia.Commands.Roles.{Permissions, contains}
use panaudia.Commands.Catalog.{CommandSpec}
use panaudia.Commands.Catalog.Keys.{ScopedAs}
use panaudia.Commands.Catalog.Specs.{command_specs}
use panaudia.Commands.Dispatch.{
  Dispatched, DispatchError, dispatch, ok, error, new_registry, registry, default_role_permissions,
}
use panaudia.Commands.Dispatch.Table.{is_space}
use panaudia.Commands.Dispatch.Outcome.{dispatch-trusted, dispatch-scope}
use panaudia.StateCache.JsonOps.{JsonText}
use panaudia.Space.BouncerClient.Publish.{BouncerCall}
use panaudia.Space.BouncerClient.Commands.{
  ControlLib, ControlMessage, CommandHandler, send_op, handle_command, handle_control_message,
}

Dispatched-cases :
    {F : Type 0} (d : Dispatched F)
    → ((op : Op F) × (d ≡ ok op)) ⊎ ((e : DispatchError) × (d ≡ error e))
Dispatched-cases (ok op) = inl (op, refl)
Dispatched-cases (error e) = inr (e, refl)

module _ {R : Type 0} {F : Type 0} (lib : ControlLib R F) where
  -- The message names the command and its arguments.
  abbrev pub Says : ControlMessage lib.Message → Text → R → Type 0
  Says msg name args =
      (msg.message_type ≡ bytes "command")
      × ((inner : Text) × ((lib.marshal msg.message ≡ some inner)
            × (lib.unmarshal inner ≡ some (name, args))))

module _ {R : Type 0} {F : Type 0} (json : JsonText) (lib : ControlLib R F)
    (reg : Map Text (CommandSpec R F)) (auth : Permissions) (my_uuid : ℕ) (my_roles : List Text)
    (now : ℕ) where
  -- Either nothing is sent, or the message of an operation that the registry dispatched for the
  -- command.
  pub IsDispatched : Text → R → List BouncerCall → Type 0
  IsDispatched name args calls =
      (calls ≡ [])
      ⊎ ((op : Op F) × (dispatch reg (some auth) name args my_uuid my_roles now ≡ ok op)
          × (calls ≡ send_op json lib op))

  -- Nothing is sent, or what the command of the message dispatches.
  abbrev Answers : ControlMessage lib.Message → List BouncerCall → Type 0
  Answers msg calls =
      (calls ≡ [])
      ⊎ ((name : Text) × (args : R) × (Says lib msg name args × IsDispatched name args calls))

  abbrev installed : CommandHandler R F
  installed = record { cmd_registry = some reg; cmd_authorizer = some auth }

  handle_command-IsDispatched :
      (name : Text) (args : R)
      → IsDispatched name args (handle_command json lib installed my_uuid my_roles now name args)
  unfolding handle_command IsDispatched
  handle_command-IsDispatched name args =
      elim (Dispatched-cases (dispatch reg (some auth) name args my_uuid my_roles now)) [
        | inl (op, e) ↦ inr (op, e, rw (handle_command, e) refl)
        | inr (f, e) ↦ inl (rw (handle_command, e) refl)
      ]

  handle_control_message-IsDispatched :
      (msg : ControlMessage lib.Message)
      → Answers msg (handle_control_message json lib installed my_uuid my_roles now msg)
  unfolding handle_control_message IsDispatched
  handle_control_message-IsDispatched msg =
      elim (Bool-cases (msg.message_type == bytes "command")) [
        | inr n ↦ inl (rw (handle_control_message, n) refl)
        | inl c ↦ elim (Option-cases (lib.marshal msg.message)) [
          | inl e ↦ inl (rw (handle_control_message, c, e) refl)
          | inr (inner, e) ↦ elim (Option-cases (lib.unmarshal inner)) [
            | inl f ↦ inl (rw (handle_control_message, c, e, f) refl)
            | inr ((command, args), f) ↦ elim (Bool-cases (command == [])) [
              | inl z ↦ inl (rw (handle_control_message, c, e, f, z) refl)
              | inr z ↦
                  let says : Says lib msg command args =
                    ((text_beq_iff msg.message_type (bytes "command")).0 c, (inner, (e, f))) in
                  let same : handle_command json lib installed my_uuid my_roles now command args
                      ≡ handle_control_message json lib installed my_uuid my_roles now msg =
                    rw (handle_control_message, c, e, f, z) refl in
                  inr (
                    command,
                    args,
                    (
                      says,
                      subst (IsDispatched command args) same
                          (handle_command-IsDispatched command args),
                    ),
                  )
            ]
          ]
        ]
      ]

module _ (uuids : UuidLib) (args_json : JsonLib) (json : JsonText)
    (lib : ControlLib args_json.Raw args_json.Float) where
  -- With the default registry and the default table of roles, a control message makes the client send
  -- nothing, or the message of one operation of the command that it names: of a key of policy or, for a
  -- personal command, of a key under the caller's own uuid; and when the command is one on others, the
  -- caller is an admin or a moderator.
  pub handle_control_message_lem :
      (reg : Map Text (CommandSpec args_json.Raw args_json.Float)) (me : ℕ) (roles : List Text)
      (now : ℕ) (msg : ControlMessage lib.Message)
      → new_registry (command_specs uuids args_json) ≡ registry reg
      → let calls =
          handle_control_message json lib
            (record { cmd_registry = some reg; cmd_authorizer = some default_role_permissions })
            me
            roles
            now
            msg in
        (calls ≡ [])
        ⊎ ((name : Text) × (args : args_json.Raw) × (op : Op args_json.Float) × Says lib msg name
              args
            × (calls ≡ send_op json lib op)
            × ScopedAs uuids args_json name me op
            × (is_space name ≡ true
                → (contains roles (bytes "admin") || contains roles (bytes "moderator")) ≡ true))
  unfolding IsDispatched
  handle_control_message_lem reg me roles now msg r =
      elim (handle_control_message-IsDispatched json lib reg default_role_permissions me roles now
        msg) [
          | inl e ↦ inl e
          | inr (name, args, (says, inl e)) ↦ inl e
          | inr (name, args, (says, inr (op, d, s))) ↦ inr (
            name,
            args,
            op,
            says,
            s,
            dispatch-scope uuids args_json reg default_role_permissions name args me roles now op r
                d,
            dispatch-trusted uuids args_json reg name args me roles now op d,
          )
        ]
