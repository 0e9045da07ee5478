-- ===== src/Sessions/Admission.antt =====
-- core/sessions/admit.go: one session for each identity.
use panaudia.Base.{
  ℕ, ◌≡◌, ◌⊎◌, inl, inr, refl, Bool, true, false, not, ◌&&◌, Option, none, some, List, [], ◌∷◌,
  if◌then◌else◌, if_both, ltb, arith, Option-cases, Bool-cases,
}
use panaudia.Base.Keys.{Text, nat_eq}
use panaudia.Sessions.{
  live, departing, departed, Entry, Registry, new_registry, get, entry, register, register_orphan,
  unregister, try_begin_departure, mark_departed,
}
use panaudia.Sessions.Invariant.{Reach, Inv, Step, Step-Inv, Reach-Inv}

-- `AdmitOutcome`
pub record AdmitOutcome : Type 0 where
  pub is_ok : Bool
  pub waited : Bool
  pub evicted : Bool

abbrev pub is_live : Registry → ℕ → Bool
is_live r e = elim (entry r e) [
  | none ↦ false
  | some x ↦ elim x.state [ live ↦ true | departing ↦ false | departed ↦ false ]
]

abbrev pub HasDeparted : Registry → ℕ → Type 0
HasDeparted r e = (x : Entry) × (entry r e ≡ some x) × (x.state ≡ departed)

-- A call of the registry by one of its users
pub data Call : Type 0 where
  registers : ℕ → ℕ → Text → ℕ → Call
  orphans : ℕ → ℕ → Text → ℕ → Call
  unregisters : Option ℕ → Call
  begins : ℕ → Call
  marks : ℕ → Call

abbrev pub call : Registry → Call → Registry
call r (registers id session transport now) = (register r id session transport now).2
call r (orphans id session transport now) = (register_orphan r id session transport now).1
call r (unregisters e) = unregister r e
call r (begins e) = (try_begin_departure r e).1
call r (marks e) = mark_departed r e

unfoldable pub calls : Registry → List Call → Registry
calls r [] = r
calls r (c ∷ cs) = calls (call r c) cs

-- What the caller of `Admit` gives it, and what happens while it waits, as calls of the registry: those
-- of `kill` and of `forceDepart`, with what others call meanwhile, and those by others until the `k`th
-- `select` on the entry's channel and the timer returns. Whether that takes the timer, where the channel
-- is closed too.
pub record Surroundings : Type 0 where
  pub kill : Registry → ℕ → List Call
  pub force_depart : Registry → ℕ → List Call
  pub during : ℕ → Registry → ℕ → List Call
  pub takes_timer : ℕ → Registry → ℕ → Bool

-- The channel of an entry is closed.
abbrev pub is_closed : Registry → ℕ → Bool
is_closed r e = elim (entry r e) [ none ↦ false | some x ↦ ltb 0 x.closes ]

call-Inv : (r : Registry) (c : Call) → Inv r → Inv (call r c)
call-Inv r (registers id session transport now) v =
    Step-Inv (Step.registers id session transport now) v
call-Inv r (orphans id session transport now) v = Step-Inv (Step.orphans id session transport now) v
call-Inv r (unregisters e) v = Step-Inv (Step.unregisters e) v
call-Inv r (begins e) v = Step-Inv (Step.begins e) v
call-Inv r (marks e) v = Step-Inv (Step.marks e) v

calls-Inv : (cs : List Call) (r : Registry) → Inv r → Inv (calls r cs)
unfolding calls
calls-Inv [] r v = v
calls-Inv (c ∷ cs) r v = calls-Inv cs (call r c) (call-Inv r c v)

-- The channel is closed by the departure alone.
closed-HasDeparted : (r : Registry) (e : ℕ) → Inv r → is_closed r e ≡ true → HasDeparted r e
closed-HasDeparted r e v h = elim (Option-cases (entry r e)) [
  | inl n ↦ ground (arith, h, n)
  | inr (x, n) ↦ (
    x,
    n,
    elim (v.known e x n).3 [
      | inl (zero_closes, far) ↦ ground (arith, h, n, zero_closes)
      | inr (once, gone) ↦ gone
    ],
  )
]

module _ (w : Surroundings) where
  abbrev killed : Registry → ℕ → Registry
  killed r old = if is_live r old then calls r (w.kill r old) else r

  -- A `select`: whether it took the channel, and the registry by then.
  abbrev pub wait : ℕ → Registry → ℕ → Bool × Registry
  wait k r e =
      let next = calls r (w.during k r e) in
      (is_closed next e && not (w.takes_timer k next e), next)

  -- The first wait, and the second, after `forceDepart`.
  abbrev first : Registry → ℕ → Bool × Registry
  first r old = wait 0 (killed r old) old

  abbrev second : Registry → ℕ → Bool × Registry
  second r old = let next = (first r old).1 in wait 1 (calls next (w.force_depart next old)) old

  -- `Admit` where the registry holds an entry for the uuid.
  unfoldable pub admit_over : Registry → ℕ → AdmitOutcome × Registry
  admit_over r old =
      if (first r old).0
      then (record { is_ok = true; waited = true; evicted = is_live r old }, (first r old).1)
      else (
        record { is_ok = (second r old).0; waited = (second r old).0; evicted = is_live r old },
        (second r old).1,
      )

  -- `Admit`
  unfoldable pub admit : Registry → ℕ → AdmitOutcome × Registry
  admit r id = elim (get r id) [
    | none ↦ (record { is_ok = true; waited = false; evicted = false }, r)
    | some old ↦ admit_over r old
  ]

  wait-HasDeparted :
      (k : ℕ) (r : Registry) (e : ℕ) → Inv r → (wait k r e).0 ≡ true → HasDeparted (wait k r e).1 e
  wait-HasDeparted k r e v h =
      let next = calls r (w.during k r e) in
      closed-HasDeparted next e (calls-Inv (w.during k r e) r v) (ground (arith, h))

  killed-Inv : (r : Registry) (old : ℕ) → Inv r → Inv (killed r old)
  killed-Inv r old v = if_both Inv (is_live r old) (calls-Inv (w.kill r old) r v) v

  admit_over-HasDeparted :
      (r : Registry) (old : ℕ)
      → Inv r
      → (admit_over r old).0.is_ok ≡ true
      → HasDeparted (admit_over r old).1 old
  unfolding admit_over
  admit_over-HasDeparted r old v h = elim (Bool-cases (first r old).0) [
    | inl e ↦ rw e (wait-HasDeparted 0 (killed r old) old (killed-Inv r old v) e)
    | inr e ↦
        let next = (first r old).1 in
        let kept = calls-Inv (w.during 0 (killed r old) old) (killed r old) (killed-Inv r old v) in
        rw e (
          wait-HasDeparted 1 (calls next (w.force_depart next old)) old
            (calls-Inv (w.force_depart next old) next kept) (rw e at h))
  ]

  admit_over-evicted : (r : Registry) (old : ℕ) → (admit_over r old).0.evicted ≡ is_live r old
  unfolding admit_over
  admit_over-evicted r old = elim (Bool-cases (first r old).0) [ inl e ↦ rw e | inr e ↦ rw e ]

  -- From any registry that calls lead to, an admission goes ahead only when the identity is clear: no
  -- session was registered for it, or the one that was has departed by the time `Admit` returns.
  pub admit-clear :
      (r : Registry) (id : ℕ)
      → Reach new_registry r
      → (admit r id).0.is_ok ≡ true
      → (get r id ≡ none) ⊎ ((old : ℕ) × (get r id ≡ some old) × HasDeparted (admit r id).1 old)
  unfolding admit
  admit-clear r id reach = elim (Option-cases (get r id)) [
    | inl e ↦ λ h. inl e
    | inr (old, e) ↦
        rw (e, admit) (λ h. inr (old, refl, admit_over-HasDeparted r old (Reach-Inv reach) h))
  ]

  -- An admission says that it evicted exactly when there was a session and it was live.
  pub admit-evicted :
      (r : Registry) (id : ℕ)
      → (admit r id).0.evicted ≡ elim (get r id) [ none ↦ false | some old ↦ is_live r old ]
  unfolding admit
  admit-evicted r id = elim (Option-cases (get r id)) [
    | inl e ↦ rw (e, admit)
    | inr (old, e) ↦ rw (e, admit) (admit_over-evicted r old)
  ]
