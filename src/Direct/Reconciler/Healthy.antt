-- ===== src/Direct/Reconciler/Healthy.antt =====
-- A pass of the reconciler over a healthy backend.
use panaudia.Base.{
  ℕ, ◌≡◌, ◌+◌, ◌≤◌, ◌<◌, refl, sym, Bool, true, false, none, some, List, [], ◌∷◌, All, inl, inr,
  arith, ltb, lt→ltb, subst, Bool-cases, Option-cases,
}
use panaudia.Base.Keys.{text_eq, nat_eq, ◌==◌}
use panaudia.Base.Assoc.{Map, lookup, insert, delete, lookup-insert, lookup-delete}
use panaudia.StateCache.{Op}
use panaudia.StateCache.JsonOps.{JsonText}
use panaudia.Sessions.{Registry, Entry, live, get, entry, snapshot}
use panaudia.Commands.{UuidLib}
use panaudia.Direct.{DirectBackend}
use panaudia.Direct.Departure.Once.{State-cases}
use panaudia.Direct.Reconciler.{
  Transports, derived_uuids, is_dead, depart_dead, check_orphan, check_orphans, reconcile_pass,
}

module _ (lib : UuidLib) where
  module _ (json : JsonText) (transports : Transports) (now min_age : ℕ) where
    -- The session is not live, or young, or its transport is alive.
    unfoldable pub IsHealthy : Registry → ℕ → Type 0
    IsHealthy sessions e =
        (x : Entry)
        → entry sessions e ≡ some x
        → x.state ≡ live
        → x.admitted_at + min_age ≤ now
        → transports.alive x.session ≡ true

    -- Derived state that has an entry, or that the reconciler has not known for long.
    unfoldable pub IsYoung : Registry → Map ℕ ℕ → ℕ → Type 0
    IsYoung sessions first_seen id =
        get sessions id ≡ none
        → (seen : ℕ) → lookup id first_seen ≡ some seen
        → now < seen + min_age

    healthy-lives :
        (sessions : Registry) (e : ℕ)
        → IsHealthy sessions e
        → is_dead lib json transports now min_age sessions e ≡ false
    unfolding is_dead IsHealthy
    healthy-lives sessions e h = elim (Option-cases (entry sessions e)) [
      | inl n ↦ rw (is_dead, n) refl
      | inr (x, n) ↦ elim (State-cases x.state) [
        | inl s ↦
            rw (is_dead, n, s)
              (elim (Bool-cases (ltb now (x.admitted_at + min_age))) [
                | inl y ↦ rw y refl
                | inr y ↦
                    let up : transports.alive x.session ≡ true = h x n s (ground (arith, y)) in
                    rw (y, up) refl
              ])
        | inr (inl s) ↦ rw (is_dead, n, s) refl
        | inr (inr s) ↦ rw (is_dead, n, s) refl
      ]
    ]

    depart_dead-healthy :
        (backend : DirectBackend) (entries : List ℕ)
        → All (IsHealthy backend.sessions) entries
        → depart_dead lib json transports now min_age backend entries ≡ backend
    unfolding depart_dead
    depart_dead-healthy backend [] h = refl
    depart_dead-healthy backend (e ∷ entries) h =
        rw (healthy-lives backend.sessions e h.0) (depart_dead-healthy backend entries h.1)

    -- What an orphan check leaves: the backend as it is, and no orphan that is known for long.
    LeavesAlone : DirectBackend → DirectBackend × Map ℕ ℕ → Type 0
    LeavesAlone backend (after, seen) =
        (after ≡ backend) × ((id : ℕ) → IsYoung backend.sessions seen id)

    check_orphan-LeavesAlone :
        (backend : DirectBackend) (first_seen : Map ℕ ℕ) (id : ℕ)
        → 0 < min_age
        → ((i : ℕ) → IsYoung backend.sessions first_seen i)
        → LeavesAlone backend
            (check_orphan lib json transports now min_age (backend, first_seen) id)
    unfolding check_orphan LeavesAlone IsYoung
    check_orphan-LeavesAlone backend first_seen id positive young =
        elim (Option-cases (get backend.sessions id)) [
          | inr (e, n) ↦
              rw (check_orphan, n)
                (refl, λ i none_there seen k. young i none_there seen (kept i seen k))
          | inl n ↦ elim (Option-cases (lookup id first_seen)) [
            | inl k ↦
                rw (check_orphan, n, k)
                  (refl, λ i none_there seen l. young_or_new i none_there seen l)
            | inr (t, k) ↦
                let fresh : ltb now (t + min_age) ≡ true =
                  lt→ltb now (t + min_age) (young id n t k) in
                rw (check_orphan, n, k, fresh) (refl, young)
          ]
        ]
      where
        kept :
            (i seen : ℕ)
            → lookup i (delete id first_seen) ≡ some seen
            → lookup i first_seen ≡ some seen
        kept i seen k = ground (arith, lookup-delete id i first_seen, k)

        young_or_new :
            (i : ℕ)
            → get backend.sessions i ≡ none
            → (seen : ℕ) → lookup i (insert id now first_seen) ≡ some seen
            → now < seen + min_age
        young_or_new i none_there seen l = elim (Bool-cases (id == i)) [
          | inl same ↦
              let at : seen ≡ now = ground (arith, lookup-insert id i now first_seen, l, same) in
              omega (arith, at)
          | inr other ↦
              young i none_there seen (ground (arith, lookup-insert id i now first_seen, l, other))
        ]

    check_orphans-LeavesAlone :
        (backend : DirectBackend) (state : DirectBackend × Map ℕ ℕ) (derived : Map ℕ Bool)
        → 0 < min_age
        → LeavesAlone backend state
        → LeavesAlone backend (check_orphans lib json transports now min_age state derived)
    unfolding check_orphans LeavesAlone
    check_orphans-LeavesAlone backend state [] positive h = h
    check_orphans-LeavesAlone backend (after, seen) ((id, on) ∷ derived) positive h =
        check_orphans-LeavesAlone backend
          (check_orphan lib json transports now min_age (after, seen) id) derived positive
          (subst
            (λ b. LeavesAlone backend (check_orphan lib json transports now min_age (b, seen) id))
            (sym h.0) (check_orphan-LeavesAlone backend seen id positive h.1))

    -- The reconciler touches nothing that is healthy: when every session that is live and not young has
    -- a live transport, and no state without a session has been known for the minimum age, a pass
    -- leaves the backend exactly as it was.
    pub reconcile_pass_healthy :
        (backend : DirectBackend) (cached : List Op) (first_seen : Map ℕ ℕ)
        → 0 < min_age
        → All (IsHealthy backend.sessions) (snapshot backend.sessions)
        → ((id : ℕ) → IsYoung backend.sessions first_seen id)
        → (reconcile_pass lib json transports now min_age backend cached first_seen).0 ≡ backend
    unfolding reconcile_pass LeavesAlone
    reconcile_pass_healthy backend cached first_seen positive healthy young =
        rw (depart_dead-healthy backend (snapshot backend.sessions) healthy)
          (check_orphans-LeavesAlone backend (backend, first_seen)
            (derived_uuids lib backend cached) positive (refl, young)).0
