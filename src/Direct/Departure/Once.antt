-- ===== src/Direct/Departure/Once.antt =====
-- A departure happens once, and completes.
use panaudia.Base.{
  ℕ, ◌≡◌, ◌⊎◌, refl, ap, ◌∙◌, true, false, none, some, inl, inr, arith, eqb_iff, Bool-cases,
  Option-cases,
}
use panaudia.Base.Keys.{Text, nat_eq}
use panaudia.Base.Assoc.{lookup, lookup-insert, lookup-delete}
use panaudia.StateCache.JsonOps.{JsonText}
use panaudia.Sessions.{
  Registry, Entry, State, live, departing, departed, entry, begin_entry, try_begin_departure,
  mark_entry, mark_departed, unregister, unregister_entry,
}
use panaudia.Direct.{DirectBackend}
use panaudia.Direct.Departure.{depart_won, depart_node}

heap-unregister : (r : Registry) (e : ℕ) → (unregister r (some e)).heap ≡ r.heap
unfolding unregister unregister_entry
heap-unregister r e = ground arith

pub State-cases : (s : State) → (s ≡ live) ⊎ ((s ≡ departing) ⊎ (s ≡ departed))
State-cases live = inl refl
State-cases departing = inr (inl refl)
State-cases departed = inr (inr refl)

state-mark_entry : (x : Entry) → (mark_entry x).state ≡ departed
unfolding mark_entry
state-mark_entry x = elim (State-cases x.state) [
  | inl s ↦ rw (mark_entry, s) refl
  | inr (inl s) ↦ rw (mark_entry, s) refl
  | inr (inr s) ↦ rw (mark_entry, s) s
]

entry-mark_departed :
    (r : Registry) (e : ℕ) (x : Entry)
    → entry r e ≡ some x
    → entry (mark_departed r e) e ≡ some (mark_entry x)
unfolding mark_departed
entry-mark_departed r e x h =
    rw (mark_departed, h) (lookup-insert e e (mark_entry x) r.heap ∙ rw ((eqb_iff e e).1 refl) refl)

begun_entry :
    (r : Registry) (e : ℕ) (x : Entry)
    → entry r e ≡ some x
    → ((try_begin_departure r e).0 ≡ (begin_entry x).0)
      × (entry (try_begin_departure r e).1 e ≡ some (begin_entry x).1)
unfolding try_begin_departure
begun_entry r e x h =
    rw (try_begin_departure, h)
      (refl, lookup-insert e e (begin_entry x).1 r.heap ∙ rw ((eqb_iff e e).1 refl) refl)

won-live : (x : Entry) → x.state ≡ live → (begin_entry x).0 ≡ true
unfolding begin_entry
won-live x s = rw (begin_entry, s) refl

lost-departed : (x : Entry) → x.state ≡ departed → (begin_entry x).0 ≡ false
unfolding begin_entry
lost-departed x s = rw (begin_entry, s) refl

module _ (json : JsonText) where
  depart_won-departed :
      (b : DirectBackend) (e : ℕ) (x y : Entry) (reason : Text)
      → entry b.sessions e ≡ some x
      → (z : Entry) × ((entry (depart_won json b e y reason).sessions e ≡ some z)
          × (z.state ≡ departed))
  unfolding depart_won
  depart_won-departed b e x y reason h =
      let kept : entry (unregister b.sessions (some e)) e ≡ some x =
        ap (λ m. lookup e m) (heap-unregister b.sessions e) ∙ h in
      (
        mark_entry x,
        (entry-mark_departed (unregister b.sessions (some e)) e x kept, state-mark_entry x),
      )

  -- Who departs a departed session changes nothing.
  lost_again :
      (b : DirectBackend) (e : ℕ) (x : Entry) (reason : Text)
      → entry b.sessions e ≡ some x
      → (begin_entry x).0 ≡ false
      → depart_node json b (some e) reason ≡ b
  unfolding depart_node
  lost_again b e x reason h lost = rw (depart_node, h, (begun_entry b.sessions e x h).0, lost) refl

  gone :
      (b : DirectBackend) (e : ℕ) (reason : Text)
      → entry b.sessions e ≡ none
      → depart_node json b (some e) reason ≡ b
  unfolding depart_node
  gone b e reason n = rw (depart_node, n) refl

  depart_won-clears :
      (b : DirectBackend) (e : ℕ) (x : Entry) (reason : Text)
      → (lookup x.uuid (depart_won json b e x reason).bouncers ≡ none)
        × (lookup x.uuid (depart_won json b e x reason).conn_keys_by_subject ≡ none)
  unfolding depart_won
  depart_won-clears b e x reason =
      let self = (eqb_iff x.uuid x.uuid).1 refl in
      (
        lookup-delete x.uuid x.uuid b.bouncers ∙ rw self refl,
        lookup-delete x.uuid x.uuid b.conn_keys_by_subject ∙ rw self refl,
      )

  won_lem :
      (b : DirectBackend) (e : ℕ) (x : Entry) (reason : Text)
      → entry b.sessions e ≡ some x
      → (begin_entry x).0 ≡ true
      → depart_node json b (some e) reason
        ≡ depart_won json (record b { sessions = (try_begin_departure b.sessions e).1 }) e x reason
  unfolding depart_node
  won_lem b e x reason h won = rw (depart_node, h, (begun_entry b.sessions e x h).0, won) refl

  -- A departure happens once: `DepartNode` on an entry that it was called on before, by whomever and
  -- for whatever reason, does nothing at all.
  pub depart_node-once :
      (b : DirectBackend) (e : ℕ) (reason again : Text)
      → depart_node json (depart_node json b (some e) reason) (some e) again
        ≡ depart_node json b (some e) reason
  depart_node-once b e reason again = elim (Option-cases (entry b.sessions e)) [
    | inl n ↦ rw (gone b e reason n) (gone b e again n)
    | inr (x, h) ↦ elim (Bool-cases (begin_entry x).0) [
      | inl won ↦
          let begun = record b { sessions = (try_begin_departure b.sessions e).1 } in
          let (z, (at, over)) =
            depart_won-departed begun e (begin_entry x).1 x reason
              (begun_entry b.sessions e x h).1 in
          rw (won_lem b e x reason h won)
            (lost_again (depart_won json begun e x reason) e z again at (lost-departed z over))
      | inr lost ↦ rw (lost_again b e x reason h lost) (lost_again b e x again h lost)
    ]
  ]

  -- A departure of a live session completes: afterwards its entry has departed, and nothing of its
  -- node is left among the bouncers and the tracked keys.
  pub depart_node_completes :
      (b : DirectBackend) (e : ℕ) (x : Entry) (reason : Text)
      → entry b.sessions e ≡ some x
      → x.state ≡ live
      → ((z : Entry) × ((entry (depart_node json b (some e) reason).sessions e ≡ some z)
            × (z.state ≡ departed)))
        × (lookup x.uuid (depart_node json b (some e) reason).bouncers ≡ none)
        × (lookup x.uuid (depart_node json b (some e) reason).conn_keys_by_subject ≡ none)
  depart_node_completes b e x reason h s =
      let begun = record b { sessions = (try_begin_departure b.sessions e).1 } in
      rw (won_lem b e x reason h (won-live x s)) (
        depart_won-departed begun e (begin_entry x).1 x reason (begun_entry b.sessions e x h).1,
        (depart_won-clears begun e x reason).0,
        (depart_won-clears begun e x reason).1,
      )
