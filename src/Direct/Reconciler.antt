-- ===== src/Direct/Reconciler.antt =====
-- direct/reconciler.go: the sweep that departs dead sessions and orphaned state.
pub mod Healthy
use panaudia.Base.{
  ℕ, ◌≡◌, ◌≢◌, ◌⊎◌, ◌+◌, ◌≤◌, ◌<◌, refl, sym, ap, ◌∙◌, Bool, true, false, not, ◌&&◌, ◌||◌, Option,
  none, some, List, [], ◌∷◌, ◌++◌, All, inl, inr, arith, eqb, ltb, lt→ltb, subst, Bool-cases,
  Option-cases, if◌then◌else◌,
}
use panaudia.Base.Keys.{Text, bytes, text_eq, nat_eq, ◌==◌}
use panaudia.Base.Assoc.{Map, lookup, insert, delete, lookup-insert, lookup-delete}
use panaudia.StateCache.{Op}
use panaudia.StateCache.JsonOps.{JsonText}
use panaudia.Sessions.{
  Registry, Entry, State, live, departing, departed, get, entry, snapshot, register_orphan,
}
use panaudia.Commands.{UuidLib}
use panaudia.Direct.{DirectBackend}
use panaudia.Direct.Departure.{depart_node}
use panaudia.Direct.Departure.Once.{State-cases}

-- Sets of uuids, as Go's `map[uuid.UUID]bool`
unfoldable pub add_all {ℓ} : {V : Type ℓ} → Map ℕ V → Map ℕ Bool → Map ℕ Bool
add_all [] out = out
add_all ((id, v) ∷ m) out = add_all m (insert id true out)

-- The state of the reconciler that no one else has: how a session's transport answers `Alive`, and a
-- session that does nothing for orphans.
pub record Transports : Type 0 where
  pub alive : ℕ → Bool
  pub orphan_session : ℕ

module _ (lib : UuidLib) where
  -- One operation of the cache: of the existence markers of a uuid the one with the highest id counts.
  unfoldable pub take_marker : Map ℕ (ℕ × Bool) → Op → Map ℕ (ℕ × Bool)
  take_marker markers op =
      if not (op.topic == bytes "entity") then markers else elim (lib.parse op.key) [
        | none ↦ markers
        | some id ↦ elim (lookup id markers) [
          | none ↦ insert id (op.op_id, op.tombstone) markers
          | some latest ↦
              if ltb latest.0 op.op_id then insert id (op.op_id, op.tombstone) markers else markers
        ]
      ]

  unfoldable pub take_markers : Map ℕ (ℕ × Bool) → List Op → Map ℕ (ℕ × Bool)
  take_markers markers [] = markers
  take_markers markers (op ∷ ops) = take_markers (take_marker markers op) ops

  unfoldable pub add_markers : Map ℕ (ℕ × Bool) → Map ℕ Bool → Map ℕ Bool
  add_markers [] out = out
  add_markers ((id, m) ∷ markers) out =
      add_markers markers (if m.1 then out else insert id true out)

  -- `derivedUuids`, over the operations that the cache's `Snapshot` gives
  unfoldable pub derived_uuids : DirectBackend → List Op → Map ℕ Bool
  derived_uuids backend cached = add_markers (take_markers [] cached) (
      add_all backend.conn_keys_by_subject (add_all backend.bouncers (add_all backend.handlers [])))

  module _ (json : JsonText) (transports : Transports) (now min_age : ℕ) where
    -- The tests of the loop over the sessions: live, not young, and its transport dead
    unfoldable pub is_dead : Registry → ℕ → Bool
    is_dead sessions e = elim (entry sessions e) [
      | none ↦ false
      | some x ↦ elim x.state [
        | live ↦ not (ltb now (x.admitted_at + min_age)) && not (transports.alive x.session)
        | departing ↦ false
        | departed ↦ false
      ]
    ]

    unfoldable pub depart_dead : DirectBackend → List ℕ → DirectBackend
    depart_dead backend [] = backend
    depart_dead backend (e ∷ entries) =
        depart_dead
          (if is_dead backend.sessions e
            then depart_node json backend (some e) (bytes "reconciler")
            else backend)
          entries

    -- One derived uuid: state with an entry is no orphan, and an orphan ages before it is swept.
    unfoldable pub check_orphan : DirectBackend × Map ℕ ℕ → ℕ → DirectBackend × Map ℕ ℕ
    check_orphan (backend, first_seen) id = elim (get backend.sessions id) [
      | some e ↦ (backend, delete id first_seen)
      | none ↦ elim (lookup id first_seen) [
        | none ↦ (backend, insert id now first_seen)
        | some seen ↦
            let (orphan, sessions) =
              register_orphan backend.sessions id transports.orphan_session (bytes "orphan") now in
            if ltb now (seen + min_age) then (backend, first_seen) else (
              depart_node json (record backend { sessions = sessions }) orphan (bytes "reconciler"),
              delete id first_seen,
            )
      ]
    ]

    unfoldable pub check_orphans : DirectBackend × Map ℕ ℕ → Map ℕ Bool → DirectBackend × Map ℕ ℕ
    check_orphans state [] = state
    check_orphans state ((id, on) ∷ derived) = check_orphans (check_orphan state id) derived

    -- The last loop: what is not derived any more is forgotten.
    unfoldable pub forget : Map ℕ Bool → Map ℕ ℕ → Map ℕ ℕ
    forget derived [] = []
    forget derived ((id, seen) ∷ first_seen) =
        let rest = forget derived first_seen in
        elim (lookup id derived) [ none ↦ rest | some on ↦ (id, seen) ∷ rest ]

    -- `reconcilePass`, over what the cache's `Snapshot` gives after the first loop
    unfoldable pub reconcile_pass : DirectBackend → List Op → Map ℕ ℕ → DirectBackend × Map ℕ ℕ
    reconcile_pass backend cached first_seen =
        let swept = depart_dead backend (snapshot backend.sessions) in
        let derived = derived_uuids swept cached in
        let (after, seen) = check_orphans (swept, first_seen) derived in
        (after, forget derived seen)
