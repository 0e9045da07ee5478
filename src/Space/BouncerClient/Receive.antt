-- ===== src/Space/BouncerClient/Receive.antt =====
-- core/space/bouncer_client.go, the receive side: `SendString`, `SendData`, `SetReceiveSender` and
-- `Quiesce`. A call holds `rsMu` while it reads and writes the state, so each is one step.
pub mod Delivery
pub mod Limits
use panaudia.Base.{
  ℕ, ◌+◌, Bool, true, false, not, ◌&&◌, Option, none, some, List, [], ◌∷◌, ◌++◌, map, if◌then◌else◌,
  length,
}
use panaudia.Base.Keys.{Text}
use panaudia.Space.Pending.{push}

-- `pendingString` and `pendingData`: a topic and the bytes of a message.
pub record Pending : Type 0 where
  pub topic : Text
  pub msg : Text

abbrev pub size : Pending → ℕ
size p = length p.msg

-- The fields of `BouncerClient` that `rsMu` guards; a writer is a number.
pub record Receiver : Type 0 where
  pub receive_sender : Option ℕ
  pub attached : Bool
  pub pending_strings : List Pending
  pub pending_data : List Pending
  pub pending_bytes : ℕ

-- The calls of a writer: `SendString` and `SendData`.
pub data WriterCall : Type 0 where
  send_string : ℕ → Pending → WriterCall
  send_data : ℕ → Pending → WriterCall

-- The receive side of a new client
abbrev pub new_receiver : Receiver
new_receiver = record {
  receive_sender = none;
  attached = false;
  pending_strings = [];
  pending_data = [];
  pending_bytes = 0;
}

-- `SendString` behind its watch for kicks
unfoldable pub receive_string : Receiver → Pending → Receiver × List WriterCall
receive_string client p = elim client.receive_sender [
  | some writer ↦ (client, send_string writer p ∷ [])
  | none ↦
      if client.attached
      then (client, [])
      else let (queue, left) = push size p client.pending_strings client.pending_bytes in
        (record client { pending_strings = queue; pending_bytes = left }, [])
]

-- `SendData`
unfoldable pub receive_data : Receiver → Pending → Receiver × List WriterCall
receive_data client p = elim client.receive_sender [
  | some writer ↦ (client, send_data writer p ∷ [])
  | none ↦
      if client.attached
      then (client, [])
      else let (queue, left) = push size p client.pending_data client.pending_bytes in
        (record client { pending_data = queue; pending_bytes = left }, [])
]

-- `SetReceiveSender`; `none` is the nil sender, with which the messages go on waiting.
unfoldable pub set_receive_sender : Receiver → Option ℕ → Receiver × List WriterCall
set_receive_sender client none = (record client { receive_sender = none; attached = true }, [])
set_receive_sender client (some writer) =
    if client.attached then (record client { receive_sender = some writer }, []) else (
      record {
        receive_sender = some writer;
        attached = true;
        pending_strings = [];
        pending_data = [];
        pending_bytes = 0;
      },
      map (send_string writer) client.pending_strings ++ map (send_data writer) client.pending_data,
    )

-- `Quiesce`, which detaches the sender
unfoldable pub detach : Receiver → Receiver
detach client = record client { receive_sender = none }

-- A call of the receive side
pub data Message : Type 0 where
  string_message : Pending → Message
  data_message : Pending → Message

-- The calls of the dispatcher, in their order, with what they make the writer receive
unfoldable pub receive : Receiver → Message → Receiver × List WriterCall
receive client (string_message p) = receive_string client p
receive client (data_message p) = receive_data client p

unfoldable pub receive_all : Receiver → List Message → Receiver × List WriterCall
receive_all client [] = (client, [])
receive_all client (m ∷ ms) =
    let (next, calls) = receive client m in
    let (last, more) = receive_all next ms in (last, calls ++ more)
