-- ===== src/Tests/Listening.antt =====
-- core/space/bouncer_client.go on one client, the node 2.
use panaudia.Base.{
  ◌≡◌, ◌↔◌, refl, true, false, List, [], ◌∷◌, ◌++◌, Option, none, some, arith, replicate,
}
use panaudia.Base.Keys.{Text, bytes}
use panaudia.Base.Int.{ℤ}
use panaudia.StateCache.JsonOps.{JsonText}
use panaudia.Space.BouncerClient.Receive.{
  Pending, Message, string_message, data_message, new_receiver, receive_all,
}
use panaudia.Space.BouncerClient.Receive.Delivery.{life, life-all, flushed_to, forwarded}
use panaudia.Space.BouncerClient.Receive.Limits.{Held, receive_all_bound}
use panaudia.Commands.Scope.{cut}
use panaudia.StateCache.JsonOps.{parse_ops, parse_op, first_byte, is_space}
use panaudia.StateCache.Opened.{open_envelope}
use panaudia.StateCache.Wire.{decode, decode_topic, decode_key, decode_value, is_cache_envelope}
use panaudia.Space.KickGate.{split_entity_key}
use panaudia.Space.BouncerClient.Kick.{
  KickWatch, is_target, tee_gate, inspect_ops, fire, ops_of, is_idle, inspect_parsed,
  inspect_incoming_envelope, watch_string, kicks,
}
use panaudia.Space.BouncerClient.Kick.Targets.{Carries, inspect_incoming_envelope_iff}
use panaudia.Tests.Unary.{unary, count}

abbrev pub hello : Pending
hello = record { topic = bytes "attributes"; msg = bytes "hello" }

abbrev state : Pending
state = record { topic = bytes "state"; msg = bytes "xyz" }

abbrev early : List Message
early = data_message state ∷ string_message hello ∷ []

life-all_example :
    life early 7 (data_message state ∷ [])
    ≡ flushed_to 7 (hello ∷ []) (state ∷ []) ++ forwarded 7 (data_message state ∷ [])
life-all_example = life-all early 7 (data_message state ∷ []) (omega arith)

receive_all_bound_example : Held 5 (receive_all new_receiver early).0
receive_all_bound_example = receive_all_bound 5 early (omega arith) (omega arith, (omega arith, tt))

-- A JSON text reads as a kick of the node 2.
abbrev pub kick_json : JsonText
kick_json = record {
  split = λ t. none;
  read_op = λ t. some (record { key = replicate 2 b'f' ++ bytes ".kicked"; tombstone = false });
  read_value = λ t. some (bytes "0");
  write_tombstone = λ k. some k;
}

abbrev pub no_deadline : Text → Option ℤ
no_deadline t = none

abbrev pub watch : KickWatch
watch = record { has_kick_fn = true; kick_fired = false; kick_gate = none }

-- An envelope with `{}` in it
abbrev pub marked_envelope : Text
marked_envelope = 202 ∷ (replicate 19 0 ++ (2 ∷ bytes "{}"))

inspect_incoming_envelope_iff_example :
    ((inspect_incoming_envelope unary kick_json no_deadline 2 [] watch
        (bytes "entity")
        marked_envelope).1
      ≡ true)
    ↔ ((true ≡ true)
        × (false ≡ false)
        × Carries unary kick_json no_deadline 2 [] (bytes "entity") marked_envelope)
inspect_incoming_envelope_iff_example =
    inspect_incoming_envelope_iff unary kick_json no_deadline 2 [] watch (bytes "entity")
      marked_envelope

-- The envelope comes twice, and kicks once.
kicked_once :
    kicks unary kick_json no_deadline 2 [] watch
      ((bytes "entity", marked_envelope) ∷ (bytes "entity", marked_envelope) ∷ [])
    ≡ 1
unfolding kicks watch_string inspect_incoming_envelope inspect_parsed inspect_ops is_target tee_gate
    fire ops_of is_idle open_envelope is_cache_envelope decode decode_topic decode_key decode_value
    parse_ops parse_op first_byte is_space split_entity_key cut count
kicked_once = refl
