-- ===== src/Tests/Departing.antt =====
-- direct on one client that writes, and departs.
use panaudia.Base.{◌≡◌, refl, true, false, some, none, [], ◌∷◌, All, arith, replicate, ◌++◌}
use panaudia.Base.Keys.{Text, bytes, text_eq, nat_eq}
use panaudia.Base.Assoc.{lookup, insert}
use panaudia.StateCache.JsonOps.{JsonText}
use panaudia.Sessions.{Entry, live, departed, entry, new_registry, register}
use panaudia.Direct.{DirectBackend, StringMessage, handle_string_message}
use panaudia.Direct.Ownership.{IsOwn, handle_string_message-IsOwn}
use panaudia.Direct.Tracking.{IsFiled, handle_string_message-IsFiled}
use panaudia.Direct.Departure.{depart_node}
use panaudia.Direct.Departure.Once.{depart_node-once, depart_node_completes}
use panaudia.Direct.Reconciler.{Transports, reconcile_pass}
use panaudia.Direct.Reconciler.Healthy.{IsHealthy, IsYoung, reconcile_pass_healthy}
use panaudia.Sessions.{snapshot}
use panaudia.Base.{ℕ, arith}
use panaudia.Tests.Unary.{unary}

-- Messages that all read as an attribute of the node 2, and a list that is one such message.
abbrev attribute : Text
attribute = replicate 2 b'f' ++ bytes ".name"

abbrev json : JsonText
json = record {
  split = λ t. some (bytes "{}" ∷ []);
  read_op = λ t. some (record { key = attribute; tombstone = false });
  read_value = λ t. some (bytes "1");
  write_tombstone = λ k. some (bytes "{}");
}

abbrev backend : DirectBackend
backend = record {
  op_id_counter = record { next = 0 };
  conn_keys_by_subject = [];
  bouncers =
      (2, record { has_client = true; attribute_keys = attribute ∷ []; entity_keys = [] }) ∷ [];
  handlers = [];
  pending_free = [];
  sessions = (register new_registry 2 7 (bytes "moq") 100).2;
  has_space = true;
  has_kick_gate = true;
  calls = [];
}

abbrev message : StringMessage
message = record { topic = bytes "attributes"; msg = bytes "{}"; source_uuid = 2 }

handle_string_message-IsOwn_example :
    All (IsOwn unary 2) (handle_string_message unary json (λ t. true) backend message).calls
handle_string_message-IsOwn_example =
    handle_string_message-IsOwn unary json (λ t. true) backend message (λ z. omega arith) tt

handle_string_message-IsFiled_example :
    IsFiled unary (handle_string_message unary json (λ t. true) backend message)
handle_string_message-IsFiled_example =
    handle_string_message-IsFiled unary json (λ t. true) backend message tt

depart_node-once_example :
    depart_node json (depart_node json backend (some 1) (bytes "kicked")) (some 1) (bytes "timeout")
    ≡ depart_node json backend (some 1) (bytes "kicked")
depart_node-once_example = depart_node-once json backend 1 (bytes "kicked") (bytes "timeout")

abbrev admitted : Entry
admitted = record {
  uuid = 2;
  session = 7;
  transport = bytes "moq";
  generation = 1;
  admitted_at = 100;
  state = live;
  closes = 0;
}

is_admitted : entry backend.sessions 1 ≡ some admitted
unfolding register new_registry insert lookup
is_admitted = refl

depart_node_completes_example :
    ((z : Entry) × ((entry (depart_node json backend (some 1) (bytes "kicked")).sessions 1 ≡ some z)
        × (z.state ≡ departed)))
    × (lookup 2 (depart_node json backend (some 1) (bytes "kicked")).bouncers ≡ none)
    × (lookup 2 (depart_node json backend (some 1) (bytes "kicked")).conn_keys_by_subject ≡ none)
depart_node_completes_example =
    depart_node_completes json backend 1 admitted (bytes "kicked") is_admitted refl

abbrev steady : Transports
steady = record { alive = λ s. true; orphan_session = 0 }

healthy : All (IsHealthy unary json steady 1000 2 backend.sessions) (snapshot backend.sessions)
unfolding IsHealthy snapshot register new_registry insert
healthy = (λ x at is old. refl, tt)

young : (id : ℕ) → IsYoung unary json steady 1000 2 backend.sessions [] id
unfolding IsYoung lookup
young id none_there seen k = ground arith

reconcile_pass_healthy_example : (reconcile_pass unary json steady 1000 2 backend [] []).0 ≡ backend
reconcile_pass_healthy_example =
    reconcile_pass_healthy unary json steady 1000 2 backend [] [] (omega arith) healthy young
