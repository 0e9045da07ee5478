-- ===== src/Tests/Publishing.antt =====
-- core/space/bouncer_client.go: what one client, the node 2, publishes and takes away.
use panaudia.Base.{ℕ, ◌+◌, ◌-◌, ◌≡◌, ◌⊎◌, refl, true, false, ◌||◌, List, [], ◌∷◌, ◌++◌, some, ltb}
use panaudia.Base.Keys.{Text, bytes, text_eq}
use panaudia.Commands.{Op}
use panaudia.Commands.Roles.{contains}
use panaudia.Commands.Catalog.Keys.{ScopedAs}
use panaudia.Commands.Dispatch.{default_role_permissions}
use panaudia.Commands.Dispatch.Table.{is_space}
use panaudia.Space.BouncerClient.Receive.{new_receiver}
use panaudia.Space.BouncerClient.Publish.{
  WriteLib, InfoLib, NodeConfig, Publisher, send_data, announce_disappearance, send_entity,
  send_attributes, take_sent_keys,
}
use panaudia.Space.BouncerClient.Publish.Keys.{
  Step, entity_step, take_step, attributes_step, run, attributes_since, entity_since,
}
use panaudia.Space.BouncerClient.Publish.Sweep.{
  in_one, fresh, Sweeps, announce_disappearance-Sweeps,
}
use panaudia.Space.BouncerClient.Commands.{
  ControlLib, ControlMessage, CommandHandler, handle_control_message, send_op,
}
use panaudia.Space.BouncerClient.Commands.Sent.{Says, handle_control_message_lem}
use panaudia.Space.BouncerClient.Client.{
  BouncerClient, kick, depart, respond_all, Event, string_event, republish_event, control_event,
}
use panaudia.Space.BouncerClient.Client.Departed.{commanded, depart-OneKick}
use panaudia.Tests.Unary.{unary}
use panaudia.Tests.Listening.{kick_json, no_deadline, watch, hello}
use panaudia.Tests.Control.{json, all_commands, all_commands_lem}

-- Operations are their keys.
abbrev write : WriteLib
write = record { Value = ℕ; of_text = λ t. 1; of_true = 2; write_op = λ k v. some k }

abbrev info : InfoLib
info = record {
  Float = ℕ;
  Place = ℕ;
  zero_float = 0;
  one_hundredth = 1;
  add_float = λ a b. a + b;
  sub_float = λ a b. a - b;
  ltb_float = ltb;
  mean = λ a n. a;
  root_mean_square = λ s. 3;
  write_info = λ u p v g. u ∷ p ∷ v ∷ g ∷ [];
}

abbrev config : NodeConfig ℕ
config = record {
  name = bytes "ada";
  uuid = 2;
  attrs = [];
  roles = bytes "guest" ∷ [];
  sub_spaces = 3 ∷ [];
}

abbrev node : Publisher ℕ ℕ
node = record {
  place = 5;
  volume_counter = 0;
  volume_sum = 0;
  volume = 0;
  gone = 0;
  done = false;
  sent_keys = [];
  sent_entity_keys = [];
}

abbrev steps : List Step
steps = entity_step ∷ take_step ∷ attributes_step ∷ entity_step ∷ []

announce_disappearance-Sweeps_example :
    (attributes : List Text) × (entity : List Text) × Sweeps unary write kick_json info config
      (attributes_since unary write kick_json info config [] steps)
      attributes
    × Sweeps unary write kick_json info config
        (entity_since unary write kick_json info config [] steps)
        entity
    × ((announce_disappearance unary write kick_json info config (
          run unary write kick_json info config
            (fresh unary write kick_json info config node)
            steps)).1
        ≡ in_one (bytes "attributes") attributes
          ++ (in_one (bytes "entity") entity
              ++ (send_data (bytes "state") (2 ∷ 5 ∷ 0 ∷ 1 ∷ []) ∷ [])))
unfolding run send_entity send_attributes take_sent_keys
announce_disappearance-Sweeps_example =
    announce_disappearance-Sweeps unary write kick_json info config node steps

abbrev control : ControlLib ℕ ℕ
control = record {
  Message = ℕ;
  marshal = λ m. some (m ∷ []);
  unmarshal = λ t. some (bytes "space.entity.mute", 4);
  write_value = λ k v. some k;
}

abbrev mute : ControlMessage ℕ
mute = record { message_type = bytes "command"; message = 1 }

handle_control_message_lem_example :
    (handle_control_message kick_json control
        (record {
          cmd_registry = some all_commands;
          cmd_authorizer = some default_role_permissions;
        })
        2
        (bytes "admin" ∷ [])
        9
        mute
      ≡ [])
    ⊎ ((name : Text) × (args : ℕ) × (op : Op ℕ) × Says control mute name args
        × (handle_control_message kick_json control
              (record {
                cmd_registry = some all_commands;
                cmd_authorizer = some default_role_permissions;
              })
              2
              (bytes "admin" ∷ [])
              9
              mute
            ≡ send_op kick_json control op)
        × ScopedAs unary json name 2 op
        × (is_space name ≡ true
            → (contains (bytes "admin" ∷ []) (bytes "admin")
                || contains (bytes "admin" ∷ []) (bytes "moderator"))
              ≡ true))
handle_control_message_lem_example =
    handle_control_message_lem unary json kick_json control all_commands 2 (bytes "admin" ∷ []) 9
      mute all_commands_lem

-- The client with a writer
abbrev client : BouncerClient unary write kick_json info no_deadline config
client = record {
  publisher = node;
  watch = watch;
  receiver = record new_receiver { receive_sender = some 7; attached = true };
}

abbrev handler : CommandHandler ℕ ℕ
handler = record {
  cmd_registry = some all_commands;
  cmd_authorizer = some default_role_permissions;
}

abbrev events : List (Event ℕ)
events = string_event hello ∷ republish_event ∷ control_event 9 mute ∷ []

depart-OneKick_example :
    let sent = commanded unary write kick_json info no_deadline config control handler in
    let calls =
      respond_all unary write kick_json info no_deadline config control handler
        (depart unary write kick_json info no_deadline config client).0
        events in
    (calls ≡ sent events)
    ⊎ ((before after : List (Event ℕ)) × ((events ≡ before ++ after)
          × (calls ≡ sent before ++ (kick ∷ sent after))))
depart-OneKick_example =
    depart-OneKick unary write kick_json info no_deadline config control handler client events refl
      tt
