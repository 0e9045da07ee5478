-- ===== src/Space/BouncerClient/Client.antt =====
-- core/space/bouncer_client.go: the client whole. A call of `SendString` first watches for kicks and
-- then passes the message on; the departure publishes and then detaches the writer.
pub mod Departed
use panaudia.Base.{
  ℕ, Bool, true, false, Option, none, some, List, [], ◌∷◌, ◌++◌, if◌then◌else◌, map,
}
use panaudia.Base.Int.{ℤ}
use panaudia.Base.Keys.{Text, bytes}
use panaudia.Commands.{UuidLib}
use panaudia.StateCache.JsonOps.{JsonText}
use panaudia.Space.BouncerClient.Receive.{
  Pending, Receiver, WriterCall, new_receiver, receive_string, receive_data, detach,
  set_receive_sender,
}
use panaudia.Space.BouncerClient.Commands.{
  ControlLib, ControlMessage, CommandHandler, handle_control_message,
}
use panaudia.Space.BouncerClient.Kick.{KickWatch, watch_string}
use panaudia.Space.BouncerClient.Publish.{
  WriteLib, InfoLib, NodeConfig, BouncerCall, Publisher, quiesce, announce_disappearance, republish,
}

-- A call that the client makes: of its writer, of its bouncer, or of `kickFn`.
pub data ClientCall : Type 0 where
  to_writer : WriterCall → ClientCall
  to_bouncer : BouncerCall → ClientCall
  kick : ClientCall

-- A call of the client from outside: messages, `Republish`, `HandleControlMessage` with its time, and
-- `SetReceiveSender`.
pub data Event (M : Type 0) : Type 0 where
  string_event : Pending → Event M
  data_event : Pending → Event M
  republish_event : Event M
  control_event : ℕ → ControlMessage M → Event M
  sender_event : Option ℕ → Event M

module _ (uuids : UuidLib) (write : WriteLib) (json : JsonText) (info : InfoLib)
    (decode_millis : Text → Option ℤ) (config : NodeConfig write.Value) where
  -- `BouncerClient`
  pub record BouncerClient : Type 0 where
    pub publisher : Publisher info.Float info.Place
    pub watch : KickWatch
    pub receiver : Receiver

  -- The fields of a new client: `NewBouncerClient` before it starts its loop
  unfoldable pub new_bouncer_client : info.Place → BouncerClient
  new_bouncer_client place = record {
    publisher = record {
      place = place;
      volume_counter = 0;
      volume_sum = info.zero_float;
      volume = info.zero_float;
      gone = 0;
      done = false;
      sent_keys = [];
      sent_entity_keys = [];
    };
    watch = record { has_kick_fn = false; kick_fired = false; kick_gate = none };
    receiver = new_receiver;
  }

  -- `SendString`
  unfoldable pub send_string : BouncerClient → Pending → BouncerClient × List ClientCall
  send_string client p =
      let (watch, fired) =
        watch_string uuids json decode_millis config.uuid config.roles client.watch p.topic p.msg in
      let (receiver, calls) = receive_string client.receiver p in
      (
        record client { watch = watch; receiver = receiver },
        (if fired then kick ∷ [] else []) ++ map to_writer calls,
      )

  -- `SendData`
  unfoldable pub send_data : BouncerClient → Pending → BouncerClient × List ClientCall
  send_data client p =
      let (receiver, calls) = receive_data client.receiver p in
      (record client { receiver = receiver }, map to_writer calls)

  -- `Quiesce`
  unfoldable pub quiesce_client : BouncerClient → BouncerClient
  quiesce_client client = record client {
    publisher = quiesce uuids write json info config client.publisher;
    receiver = detach client.receiver;
  }

  -- `Depart`
  unfoldable pub depart : BouncerClient → BouncerClient × List ClientCall
  depart client =
      let (publisher, calls) =
        announce_disappearance uuids write json info config client.publisher in
      (quiesce_client (record client { publisher = publisher }), map to_bouncer calls)

  -- `Republish`
  unfoldable pub republish_client : BouncerClient → BouncerClient × List ClientCall
  republish_client client =
      let (publisher, calls) = republish uuids write json info config client.publisher in
      (record client { publisher = publisher }, map to_bouncer calls)

  -- `SetReceiveSender`
  unfoldable pub set_sender : BouncerClient → Option ℕ → BouncerClient × List ClientCall
  set_sender client sender =
      let (receiver, calls) = set_receive_sender client.receiver sender in
      (record client { receiver = receiver }, map to_writer calls)

  module _ {R : Type 0} {F : Type 0} (lib : ControlLib R F) (handler : CommandHandler R F) where
    -- `HandleControlMessage`
    unfoldable pub control : BouncerClient → ℕ → ControlMessage lib.Message → List ClientCall
    control client now msg =
        map to_bouncer (handle_control_message json lib handler config.uuid config.roles now msg)

    -- The calls from outside in their order
    unfoldable pub respond : BouncerClient → Event lib.Message → BouncerClient × List ClientCall
    respond client (string_event p) = send_string client p
    respond client (data_event p) = send_data client p
    respond client republish_event = republish_client client
    respond client (control_event now msg) = (client, control client now msg)
    respond client (sender_event sender) = set_sender client sender

    unfoldable pub respond_all : BouncerClient → List (Event lib.Message) → List ClientCall
    respond_all client [] = []
    respond_all client (e ∷ es) =
        let (next, calls) = respond client e in calls ++ respond_all next es
