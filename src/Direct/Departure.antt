-- ===== src/Direct/Departure.antt =====
-- direct/depart.go: the one routine that every removal of a session comes to.
pub mod Once
use panaudia.Base.{
  ℕ, ◌≡◌, ◌≢◌, refl, sym, ap, ◌∙◌, Bool, true, false, not, ◌&&◌, Option, none, some, List, [], ◌∷◌,
  ◌++◌, inl, inr, arith, eqb, eqb_iff, Bool-cases, Option-cases, if◌then◌else◌,
}
use panaudia.Base.Keys.{Text, bytes, text_eq, nat_eq, ◌==◌}
use panaudia.Base.Assoc.{Map, lookup, insert, delete, lookup-insert, lookup-delete}
use panaudia.StateCache.JsonOps.{JsonText, build_tombstone_op, build_batch}
use panaudia.Sessions.{
  Registry, Entry, State, live, departing, departed, get, entry, put_entry, begin_entry,
  try_begin_departure, mark_entry, mark_departed, unregister, unregister_entry,
}
use panaudia.Direct.{
  DirectBackend, ConnectionHandler, Bouncer, Call, kill, quiesce, stop_bouncer, enqueue_string,
  enqueue_gone, delete_node, or_empty,
}

-- Keys by topic, as `announceDeparture` gathers them
abbrev KeysByTopic : Type 0
KeysByTopic = Map Text (Map Text Bool)

unfoldable pub add_key : Text → KeysByTopic → Text → KeysByTopic
add_key topic keys_by_topic key =
    insert topic (insert key true (or_empty (lookup topic keys_by_topic))) keys_by_topic

unfoldable pub add_keys : Text → KeysByTopic → List Text → KeysByTopic
add_keys topic keys_by_topic [] = keys_by_topic
add_keys topic keys_by_topic (key ∷ keys) = add_keys topic (add_key topic keys_by_topic key) keys

-- The sent keys of the bouncer's client, where it has one
unfoldable pub add_sent_keys : Option Bouncer → KeysByTopic → KeysByTopic
add_sent_keys none keys_by_topic = keys_by_topic
add_sent_keys (some bouncer) keys_by_topic =
    if bouncer.has_client
    then add_keys (bytes "entity")
        (add_keys (bytes "attributes") keys_by_topic bouncer.attribute_keys) bouncer.entity_keys
    else keys_by_topic

unfoldable pub present : Text → KeysByTopic → List Text
present topic keys_by_topic = elim (lookup topic keys_by_topic) [
  | none ↦ []
  | some keys ↦ topic ∷ []
]

unfoldable pub other_topics : KeysByTopic → List Text
other_topics [] = []
other_topics ((topic, keys) ∷ keys_by_topic) =
    let rest = other_topics keys_by_topic in
    if topic == bytes "attributes"
    then rest
    else if topic == bytes "entity"
    then rest
    else topic ∷ rest

-- `sweepTopicOrder`
unfoldable pub sweep_topic_order : KeysByTopic → List Text
sweep_topic_order keys_by_topic =
    present (bytes "attributes") keys_by_topic
    ++ (present (bytes "entity") keys_by_topic ++ other_topics keys_by_topic)

module _ (json : JsonText) where
  -- The tombstones of the keys; one that does not encode is left out.
  unfoldable pub tombstone_ops : Map Text Bool → List Text
  tombstone_ops [] = []
  tombstone_ops ((key, on) ∷ keys) =
      let rest = tombstone_ops keys in
      elim (build_tombstone_op json key) [ none ↦ rest | some tombstone ↦ tombstone ∷ rest ]

  unfoldable pub batch_of : List Text → Text
  batch_of [] = []
  batch_of (op ∷ []) = op
  batch_of (op ∷ next ∷ ops) = elim (build_batch (op ∷ next ∷ ops)) [
    | none ↦ []
    | some batch ↦ batch
  ]

  -- The loop over the topics
  unfoldable pub sweep_topics : KeysByTopic → List Text → List Call → List Call
  sweep_topics keys_by_topic [] calls = calls
  sweep_topics keys_by_topic (topic ∷ topics) calls =
      let batch = batch_of (tombstone_ops (or_empty (lookup topic keys_by_topic))) in
      sweep_topics keys_by_topic topics
        (if batch == [] then calls else enqueue_string topic batch ∷ calls)

  -- `announceDeparture`
  unfoldable pub announce_departure : DirectBackend → ℕ → Option Bouncer → List Call → List Call
  announce_departure backend uuid bouncer calls =
      let keys_by_topic =
        add_sent_keys bouncer (or_empty (lookup uuid backend.conn_keys_by_subject)) in
      enqueue_gone uuid ∷ sweep_topics keys_by_topic (sweep_topic_order keys_by_topic) calls

  -- A handler of another session that has not departed is not this departure's.
  unfoldable pub claimed : Registry → ℕ → Option ConnectionHandler → Option ConnectionHandler
  claimed sessions e none = none
  claimed sessions e (some handler) = elim handler.registry_entry [
    | none ↦ some handler
    | some other ↦ if eqb other e then some handler else elim (entry sessions other) [
      | none ↦ some handler
      | some x ↦ elim x.state [ live ↦ none | departing ↦ none | departed ↦ some handler ]
    ]
  ]

  unfoldable pub sever : ℕ → Option Bouncer → List Call → List Call
  sever uuid none calls = calls
  sever uuid (some bouncer) calls =
      stop_bouncer uuid ∷ (if bouncer.has_client then quiesce uuid ∷ calls else calls)

  -- The release of a claimed handler to the mixer's goroutine
  unfoldable pub release : DirectBackend → ℕ → Option ConnectionHandler → DirectBackend
  release backend uuid none = backend
  release backend uuid (some handler) = record backend {
    handlers = delete uuid backend.handlers;
    pending_free =
        insert uuid
          (elim (lookup uuid backend.pending_free) [ none ↦ [] | some waiting ↦ waiting ]
            ++ (record handler { is_active = false } ∷ []))
          backend.pending_free;
  }

  -- `DepartNode` for the winner of the departure
  unfoldable pub depart_won : DirectBackend → ℕ → Entry → Text → DirectBackend
  depart_won backend e x reason =
      let bouncer = lookup x.uuid backend.bouncers in
      let severed = sever x.uuid bouncer (kill x.session reason ∷ backend.calls) in
      let announced = announce_departure backend x.uuid bouncer severed in
      let released =
        release backend x.uuid (claimed backend.sessions e (lookup x.uuid backend.handlers)) in
      record released {
        calls = if backend.has_space then delete_node x.uuid ∷ announced else announced;
        bouncers = delete x.uuid backend.bouncers;
        conn_keys_by_subject = delete x.uuid backend.conn_keys_by_subject;
        sessions = mark_departed (unregister backend.sessions (some e)) e;
      }

  -- `DepartNode`
  unfoldable pub depart_node : DirectBackend → Option ℕ → Text → DirectBackend
  depart_node backend none reason = backend
  depart_node backend (some e) reason = elim (entry backend.sessions e) [
    | none ↦ backend
    | some x ↦
        let (won, begun) = try_begin_departure backend.sessions e in
        if won then depart_won (record backend { sessions = begun }) e x reason else backend
  ]
