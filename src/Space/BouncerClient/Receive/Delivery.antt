-- ===== src/Space/BouncerClient/Receive/Delivery.antt =====
-- What waits for the writer of a connection, and what reaches it.
use panaudia.Base.{
  ℕ, ◌+◌, ◌≤◌, ◌≡◌, refl, sym, ap, ◌∙◌, true, some, List, [], ◌∷◌, ◌++◌, map, arith, subst,
  append_assoc, append-nil,
}
use panaudia.Space.Pending.{push, total, push-Pushed, push-fits, pending_max_bytes}
use panaudia.Space.BouncerClient.Receive.{
  Pending, size, Receiver, WriterCall, send_string, send_data, new_receiver, receive_string,
  receive_data, set_receive_sender, Message, string_message, data_message, receive, receive_all,
}

-- The strings and the data of a sequence of messages, in their order.
abbrev pub strings_of : List Message → List Pending
strings_of [] = []
strings_of (string_message p ∷ ms) = p ∷ strings_of ms
strings_of (data_message p ∷ ms) = strings_of ms

abbrev pub data_of : List Message → List Pending
data_of [] = []
data_of (string_message p ∷ ms) = data_of ms
data_of (data_message p ∷ ms) = p ∷ data_of ms

-- What a writer receives of them when it is attached
abbrev pub forwarded : ℕ → List Message → List WriterCall
forwarded writer [] = []
forwarded writer (string_message p ∷ ms) = send_string writer p ∷ forwarded writer ms
forwarded writer (data_message p ∷ ms) = send_data writer p ∷ forwarded writer ms

abbrev pub bytes_of : List Message → ℕ
bytes_of [] = 0
bytes_of (string_message p ∷ ms) = size p + bytes_of ms
bytes_of (data_message p ∷ ms) = size p + bytes_of ms

-- A client that waits for its writer
abbrev pub waiting : List Pending → List Pending → ℕ → Receiver
waiting strings messages n = record new_receiver {
  pending_strings = strings;
  pending_data = messages;
  pending_bytes = n;
}

-- The queues hold the newest of the strings and of the data that came, and the bytes are counted.
record Held (all_strings all_data strings messages : List Pending) (n : ℕ) : Type 0 where
  lost_strings : List Pending
  lost_data : List Pending
  strings_parts : all_strings ≡ lost_strings ++ strings
  data_parts : all_data ≡ lost_data ++ messages
  counted : n ≡ total size strings + total size messages

-- Messages that come before the writer give no call, and leave a client that holds the newest.
record Waited (ms : List Message) (client : Receiver) (all_strings all_data : List Pending)
    : Type 0 where
  strings : List Pending
  messages : List Pending
  n : ℕ
  run : receive_all client ms ≡ (waiting strings messages n, [])
  held : Held all_strings all_data strings messages n

longer :
    (S kept lost queue dropped : List Pending) (p : Pending)
    → S ≡ lost ++ kept
    → kept ++ (p ∷ []) ≡ dropped ++ queue
    → S ++ (p ∷ []) ≡ (lost ++ dropped) ++ queue
longer S kept lost queue dropped p h k =
    ap (λ t. t ++ (p ∷ [])) h
    ∙ append_assoc lost kept (p ∷ [])
    ∙ ap (λ t. lost ++ t) k
    ∙ sym (append_assoc lost dropped queue)

receive_all-Waited :
    (ms : List Message) (S D strings messages : List Pending) (n : ℕ)
    → Held S D strings messages n
    → Waited ms (waiting strings messages n) (S ++ strings_of ms) (D ++ data_of ms)
unfolding receive_all receive receive_string receive_data
receive_all-Waited [] S D strings messages n h = record {
  strings = strings;
  messages = messages;
  n = n;
  run = refl;
  held =
      subst (λ t. Held t (D ++ []) strings messages n) (sym (append-nil S))
        (subst (λ t. Held S t strings messages n) (sym (append-nil D)) h);
}
receive_all-Waited (string_message p ∷ ms) S D strings messages n h =
    let r = push-Pushed size p strings (total size messages) n h.counted in
    let (queue, left) = push size p strings n in
    let next = receive_all-Waited ms (S ++ (p ∷ [])) D queue messages left (record {
      lost_strings = h.lost_strings ++ r.dropped;
      lost_data = h.lost_data;
      strings_parts = longer S strings h.lost_strings queue r.dropped p h.strings_parts r.parts;
      data_parts = h.data_parts;
      counted = r.counted;
    }) in
    subst (λ t. Waited (string_message p ∷ ms) (waiting strings messages n) t (D ++ data_of ms))
      (append_assoc S (p ∷ []) (strings_of ms))
      (record {
        strings = next.strings;
        messages = next.messages;
        n = next.n;
        run = next.run;
        held = next.held;
      })
receive_all-Waited (data_message p ∷ ms) S D strings messages n h =
    let r = push-Pushed size p messages (total size strings) n (omega (arith, h.counted)) in
    let (queue, left) = push size p messages n in
    let next = receive_all-Waited ms S (D ++ (p ∷ [])) strings queue left (record {
      lost_strings = h.lost_strings;
      lost_data = h.lost_data ++ r.dropped;
      strings_parts = h.strings_parts;
      data_parts = longer D messages h.lost_data queue r.dropped p h.data_parts r.parts;
      counted = omega (arith, r.counted);
    }) in
    subst (λ t. Waited (data_message p ∷ ms) (waiting strings messages n) (S ++ strings_of ms) t)
      (append_assoc D (p ∷ []) (data_of ms))
      (record {
        strings = next.strings;
        messages = next.messages;
        n = next.n;
        run = next.run;
        held = next.held;
      })

nothing_yet : Held [] [] [] [] 0
unfolding total
nothing_yet = record {
  lost_strings = [];
  lost_data = [];
  strings_parts = refl;
  data_parts = refl;
  counted = refl;
}

-- A client with a writer
abbrev attached_to : ℕ → Receiver
attached_to writer = record new_receiver { receive_sender = some writer; attached = true }

receive_all_attached :
    (writer : ℕ) (ms : List Message)
    → receive_all (attached_to writer) ms ≡ (attached_to writer, forwarded writer ms)
unfolding receive_all receive receive_string receive_data
receive_all_attached writer [] = refl
receive_all_attached writer (string_message p ∷ ms) =
    ap (λ r. (r.0, send_string writer p ∷ r.1)) (receive_all_attached writer ms)
receive_all_attached writer (data_message p ∷ ms) =
    ap (λ r. (r.0, send_data writer p ∷ r.1)) (receive_all_attached writer ms)

-- What the writer of a new client receives, with messages before it comes and after.
unfoldable pub life : List Message → ℕ → List Message → List WriterCall
life before writer after =
    let (client, early) = receive_all new_receiver before in
    let (attached, flushed) = set_receive_sender client (some writer) in
    early ++ (flushed ++ (receive_all attached after).1)

-- Strings and data that a writer receives of those that waited
abbrev pub flushed_to : ℕ → List Pending → List Pending → List WriterCall
flushed_to writer strings messages =
    map (send_string writer) strings ++ map (send_data writer) messages

-- The newest of the strings and of the data that came before the writer
pub record Newest (before : List Message) (strings messages : List Pending) : Type 0 where
  pub lost_strings : List Pending
  pub lost_data : List Pending
  pub strings_parts : strings_of before ≡ lost_strings ++ strings
  pub data_parts : data_of before ≡ lost_data ++ messages

-- Of the messages that come before the writer, it receives the newest strings and then the newest data,
-- each in their order, and after them every later message.
pub life-Newest :
    (before : List Message) (writer : ℕ) (after : List Message)
    → (strings : List Pending) × (messages : List Pending) × Newest before strings messages
      × (life before writer after ≡ flushed_to writer strings messages ++ forwarded writer after)
unfolding life set_receive_sender
life-Newest before writer after =
    let w = receive_all-Waited before [] [] [] [] 0 nothing_yet in
    (
      w.strings,
      w.messages,
      record {
        lost_strings = w.held.lost_strings;
        lost_data = w.held.lost_data;
        strings_parts = w.held.strings_parts;
        data_parts = w.held.data_parts;
      },
      rw (life, w.run, receive_all_attached writer after) refl,
    )

receive_all-fits :
    (ms : List Message) (strings messages : List Pending) (n : ℕ)
    → n + bytes_of ms ≤ pending_max_bytes
    → receive_all (waiting strings messages n) ms
      ≡ (waiting (strings ++ strings_of ms) (messages ++ data_of ms) (n + bytes_of ms), [])
unfolding receive_all receive receive_string receive_data
receive_all-fits [] strings messages n h =
    let same : n ≡ n + 0 = omega arith in
    ap (λ t. (waiting t messages n, [])) (sym (append-nil strings))
    ∙ ap (λ t. (waiting (strings ++ []) t n, [])) (sym (append-nil messages))
    ∙ ap (λ t. (waiting (strings ++ []) (messages ++ []) t, [])) same
receive_all-fits (string_message p ∷ ms) strings messages n h =
    let same : n + size p + bytes_of ms ≡ n + (size p + bytes_of ms) = omega arith in
    ap (λ q. receive_all (waiting q.0 messages q.1) ms) (push-fits size p strings n (omega arith))
    ∙ receive_all-fits ms (strings ++ (p ∷ [])) messages (n + size p) (omega arith)
    ∙ ap (λ t. (waiting t (messages ++ data_of ms) (n + size p + bytes_of ms), []))
        (append_assoc strings (p ∷ []) (strings_of ms))
    ∙ ap (λ t. (waiting (strings ++ (p ∷ strings_of ms)) (messages ++ data_of ms) t, [])) same
receive_all-fits (data_message p ∷ ms) strings messages n h =
    let same : n + size p + bytes_of ms ≡ n + (size p + bytes_of ms) = omega arith in
    ap (λ q. receive_all (waiting strings q.0 q.1) ms) (push-fits size p messages n (omega arith))
    ∙ receive_all-fits ms strings (messages ++ (p ∷ [])) (n + size p) (omega arith)
    ∙ ap (λ t. (waiting (strings ++ strings_of ms) t (n + size p + bytes_of ms), []))
        (append_assoc messages (p ∷ []) (data_of ms))
    ∙ ap (λ t. (waiting (strings ++ strings_of ms) (messages ++ (p ∷ data_of ms)) t, [])) same

-- When the messages that come before the writer fit in the limit, the writer receives all of them, the
-- strings and then the data, each in their order, and after them every later message.
pub life-all :
    (before : List Message) (writer : ℕ) (after : List Message)
    → bytes_of before ≤ pending_max_bytes
    → life before writer after
      ≡ flushed_to writer (strings_of before) (data_of before) ++ forwarded writer after
unfolding life set_receive_sender
life-all before writer after h =
    rw (life, receive_all-fits before [] [] 0 (omega arith), receive_all_attached writer after) refl
