-- ===== src/Space/BouncerClient/Client/Departed.antt =====
-- A client that has departed.
use panaudia.Base.{
  ◌≡◌, refl, sym, ap, ◌∙◌, map, append_assoc, none, some, inl, inr, ◌⊎◌, Bool, true, false, ◌||◌,
  List, [], ◌∷◌, ◌++◌, if◌then◌else◌, Option, arith,
}
use panaudia.Base.Int.{ℤ}
use panaudia.Base.Keys.{Text}
use panaudia.Commands.{UuidLib}
use panaudia.StateCache.JsonOps.{JsonText}
use panaudia.Space.BouncerClient.Receive.{Pending, Receiver, detach, set_receive_sender}
use panaudia.Space.BouncerClient.Commands.{ControlLib, CommandHandler, handle_control_message}
use panaudia.Space.BouncerClient.Receive.Limits.{receive_string-detach, receive_data-detach}
use panaudia.Space.BouncerClient.Kick.{KickWatch, watch_string}
use panaudia.Space.BouncerClient.Kick.Targets.{watch_string-Raises}
use panaudia.Space.BouncerClient.Publish.{
  WriteLib, InfoLib, NodeConfig, Publisher, quiesce, republish, announce_disappearance,
}
use panaudia.Space.BouncerClient.Client.{
  ClientCall, to_bouncer, kick, control, set_sender, BouncerClient, send_string, send_data,
  quiesce_client, depart, republish_client, Event, string_event, data_event, republish_event,
  control_event, sender_event, respond, respond_all,
}

module _ (uuids : UuidLib) (write : WriteLib) (json : JsonText) (info : InfoLib)
    (decode_millis : Text → Option ℤ) (config : NodeConfig write.Value) where
  abbrev stopped :
      Publisher info.Float info.Place
      → Receiver
      → KickWatch
      → BouncerClient uuids write json info decode_millis config
  stopped publisher receiver watch = record {
    publisher = quiesce uuids write json info config publisher;
    watch = watch;
    receiver = detach receiver;
  }

  module _ {R : Type 0} {F : Type 0} (lib : ControlLib R F) (handler : CommandHandler R F) where
    abbrev Events : Type 0
    Events = List (Event lib.Message)

    -- No writer comes.
    abbrev pub HasNoWriter : List (Event lib.Message) → Type 0
    HasNoWriter [] = Unit
    HasNoWriter (sender_event (some writer) ∷ events) = ⊥
    HasNoWriter (e ∷ events) = HasNoWriter events

    -- What the control messages among the events make the client send
    abbrev pub commanded : List (Event lib.Message) → List ClientCall
    commanded [] = []
    commanded (control_event now msg ∷ events) =
        map to_bouncer (handle_control_message json lib handler config.uuid config.roles now msg)
        ++ commanded events
    commanded (e ∷ events) = commanded events

    -- The calls are those of the control messages, and one kick between them at most, where none has
    -- been made.
    abbrev OneKick : Bool → Events → List ClientCall → Type 0
    OneKick fired events calls =
        (calls ≡ commanded events)
        ⊎ ((before after : Events) × ((events ≡ before ++ after)
              × (calls ≡ commanded before ++ (kick ∷ commanded after))
              × (fired ≡ false)))

    behind :
        (fired : Bool) (e : Event lib.Message) (events : Events) (c calls : List ClientCall)
        → ((es : Events) → commanded (e ∷ es) ≡ c ++ commanded es)
        → OneKick fired events calls
        → OneKick fired (e ∷ events) (c ++ calls)
    behind fired e events c calls h k = elim k [
      | inl q ↦ inl (ap (λ t. c ++ t) q ∙ sym (h events))
      | inr (before, after, (p, q, f)) ↦ inr (
        e ∷ before,
        after,
        (
          ap (λ t. e ∷ t) p,
          ap (λ t. c ++ t) q
              ∙ sym (append_assoc c (commanded before) (kick ∷ commanded after))
              ∙ ap (λ t. t ++ (kick ∷ commanded after)) (sym (h before)),
          f,
        ),
      )
    ]

    after_kick :
        (old new fired : Bool) (p : Pending) (events : Events) (calls : List ClientCall)
        → new ≡ (old || fired)
        → (fired ≡ true → old ≡ false)
        → OneKick new events calls
        → OneKick old (string_event p ∷ events) (((if fired then kick ∷ [] else []) ++ []) ++ calls)
    after_kick old new true p events calls a b h = elim h [
      | inl e ↦ inr ([], string_event p ∷ events, (refl, ap (λ t. kick ∷ t) e, b refl))
      | inr (before, after, (e, q, f)) ↦ ground (arith, a, f)
    ]
    after_kick old new false p events calls a b h =
        behind old (string_event p) events [] calls (λ es. refl)
          (elim h [
            | inl e ↦ inl e
            | inr (before, after, (e, q, f)) ↦
                let unfired : old ≡ false = ground (arith, a, f) in
                inr (before, after, (e, q, unfired))
          ])

    stopped-OneKick :
        (publisher : Publisher info.Float info.Place) (receiver : Receiver) (watch : KickWatch)
        (events : Events)
        → receiver.attached ≡ true
        → HasNoWriter events
        → OneKick watch.kick_fired events (
            respond_all uuids write json info decode_millis config lib handler
              (stopped publisher receiver watch)
              events)
    unfolding respond_all respond send_string send_data republish_client republish control
        set_sender set_receive_sender detach
    stopped-OneKick publisher receiver watch [] h s = inl refl
    stopped-OneKick publisher receiver watch (string_event p ∷ events) h s =
        let (next, fired) =
          watch_string uuids json decode_millis config.uuid config.roles watch p.topic p.msg in
        let (a, b) =
          watch_string-Raises uuids json decode_millis config.uuid config.roles watch p.topic
            p.msg in
        let rest = stopped-OneKick publisher receiver next events h s in
        rw (respond_all, receive_string-detach receiver p h)
          (after_kick watch.kick_fired next.kick_fired fired p events _ a b rest)
    stopped-OneKick publisher receiver watch (data_event p ∷ events) h s =
        rw (respond_all, receive_data-detach receiver p h)
          (behind watch.kick_fired (data_event p) events [] _ (λ es. refl)
            (stopped-OneKick publisher receiver watch events h s))
    stopped-OneKick publisher receiver watch (republish_event ∷ events) h s =
        behind watch.kick_fired republish_event events [] _ (λ es. refl)
          (stopped-OneKick publisher receiver watch events h s)
    stopped-OneKick publisher receiver watch (control_event now msg ∷ events) h s =
        behind watch.kick_fired (control_event now msg) events _ _ (λ es. refl)
          (stopped-OneKick publisher receiver watch events h s)
    stopped-OneKick publisher receiver watch (sender_event none ∷ events) h s =
        behind watch.kick_fired (sender_event none) events [] _ (λ es. refl)
          (stopped-OneKick publisher (record receiver { attached = true }) watch events refl s)
    stopped-OneKick publisher receiver watch (sender_event (some writer) ∷ events) h s = absurd s

    -- While no new writer is attached, a client that had a writer and has departed calls no writer, and
    -- of its bouncer only what control messages make it call, whatever messages come and however often
    -- it is told to republish; at most it is kicked once between them.
    pub depart-OneKick :
        (client : BouncerClient uuids write json info decode_millis config)
        (events : List (Event lib.Message))
        → client.receiver.attached ≡ true
        → HasNoWriter events
        → let calls =
            respond_all uuids write json info decode_millis config lib handler
              (depart uuids write json info decode_millis config client).0
              events in
          (calls ≡ commanded events)
          ⊎ ((before after : List (Event lib.Message)) × ((events ≡ before ++ after)
                × (calls ≡ commanded before ++ (kick ∷ commanded after))))
    unfolding depart quiesce_client announce_disappearance
    depart-OneKick client events h s =
        let publisher = (announce_disappearance uuids write json info config client.publisher).0 in
        elim (stopped-OneKick publisher client.receiver client.watch events h s) [
          | inl e ↦ inl e
          | inr (before, after, (p, q, f)) ↦ inr (before, after, (p, q))
        ]
