-- ===== src/Space/Pending.antt =====
-- Messages that wait for a client's transport: the trimming of a queue, as in core/space/bouncer_client.go
-- and in core/panaudia_server/data_writer.go.
use panaudia.Base.{
  ℕ, ◌+◌, ◌-◌, ◌*◌, false, ◌≤◌, ◌≡◌, refl, sym, ap, ◌⊎◌, inl, inr, Bool-cases, List, [], ◌∷◌, ◌++◌,
  if◌then◌else◌, ltb, ltb→lt, arith, subst, append_assoc, ◌∙◌, ◌<◌, length, length-append,
}

-- `pendingMaxBytes`
abbrev pub pending_max_bytes : ℕ
pending_max_bytes = 1024 * 1024

module _ {A : Type 0} (size : A → ℕ) where
  unfoldable pub total : List A → ℕ
  total [] = 0
  total (x ∷ xs) = size x + total xs

  -- The loop before a message of `more` bytes is appended: the oldest go until the bytes that wait
  -- and the new ones fit.
  unfoldable pub evict : ℕ → List A → ℕ → List A × ℕ
  evict more [] waiting = ([], waiting)
  evict more (x ∷ xs) waiting =
      let rest = evict more xs (waiting - size x) in
      if ltb pending_max_bytes (waiting + more) then rest else (x ∷ xs, waiting)

  -- A message that is appended after the loop: the queue, and the bytes that wait.
  unfoldable pub push : A → List A → ℕ → List A × ℕ
  push x xs waiting =
      let (kept, left) = evict (size x) xs waiting in (kept ++ (x ∷ []), left + size x)

  pub total-append : (xs ys : List A) → total (xs ++ ys) ≡ total xs + total ys
  unfolding total
  total-append [] ys = omega arith
  total-append (x ∷ xs) ys = omega (arith, total-append xs ys)

  -- Nothing was dropped, or the last that was dropped would not fit beside `other` bytes and the
  -- messages behind it.
  abbrev pub IsGreedy : List A → List A → ℕ → Type 0
  IsGreedy dropped kept other =
      (dropped ≡ [])
      ⊎ ((start : List A) × (x : A) × ((dropped ≡ start ++ (x ∷ []))
            × (pending_max_bytes < size x + total kept + other)))

  -- The messages that are kept are the newest: they fit, or are a single one; one more would not fit;
  -- and the last is among them.
  pub record IsNewest (all lost kept : List A) : Type 0 where
    pub parts : all ≡ lost ++ kept
    pub fits : (total kept ≤ pending_max_bytes) ⊎ (length kept ≤ 1)
    pub greedy : IsGreedy lost kept 0
    pub some_kept : (all ≡ []) ⊎ (0 < length kept)

  -- What `evict` leaves of a queue that waits beside `other` bytes.
  record Trimmed (more : ℕ) (xs : List A) (other : ℕ) (kept : List A) (left : ℕ) : Type 0 where
    dropped : List A
    parts : xs ≡ dropped ++ kept
    counted : left ≡ total kept + other
    fits : (left + more ≤ pending_max_bytes) ⊎ (kept ≡ [])
    greedy : IsGreedy dropped kept (other + more)

  evict-Trimmed :
      (more other : ℕ) (xs : List A) (waiting : ℕ)
      → waiting ≡ total xs + other
      → Trimmed more xs other (evict more xs waiting).0 (evict more xs waiting).1
  unfolding evict total
  evict-Trimmed more other [] waiting h = record {
    dropped = [];
    parts = refl;
    counted = h;
    fits = inr refl;
    greedy = inl refl;
  }
  evict-Trimmed more other (x ∷ xs) waiting h =
      elim (Bool-cases (ltb pending_max_bytes (waiting + more))) [
        | inl c ↦
            let past : pending_max_bytes < waiting + more = ltb→lt _ _ c in
            let r = evict-Trimmed more other xs (waiting - size x) (omega arith) in
            rw (evict, c)
              (record {
                dropped = x ∷ r.dropped;
                parts = ap (λ t. x ∷ t) r.parts;
                counted = r.counted;
                fits = r.fits;
                greedy = elim r.greedy [
                  | inl e ↦
                      let all : total xs ≡ total (evict more xs (waiting - size x)).0 =
                        ap total
                          (r.parts ∙ ap (λ t. t ++ (evict more xs (waiting - size x)).0) e) in
                      inr ([], x, (ap (λ t. x ∷ t) e, omega (arith, past, h, all)))
                  | inr (start, y, (e, b)) ↦ inr (x ∷ start, y, (ap (λ t. x ∷ t) e, b))
                ];
              })
        | inr c ↦
            rw (evict, c)
              (record {
                dropped = [];
                parts = refl;
                counted = h;
                fits = inl (ground arith);
                greedy = inl refl;
              })
      ]

  -- What `push` makes of such a queue: the newest messages, all of them when they fit.
  pub record Pushed (x : A) (xs : List A) (other : ℕ) (queue : List A) (left : ℕ) : Type 0 where
    pub dropped : List A
    pub parts : xs ++ (x ∷ []) ≡ dropped ++ queue
    pub counted : left ≡ total queue + other
    pub fits : (left ≤ pending_max_bytes) ⊎ (queue ≡ x ∷ [])
    pub greedy : IsGreedy dropped queue other
    pub some_kept : 0 < length queue

  pub push-Pushed :
      (x : A) (xs : List A) (other waiting : ℕ)
      → waiting ≡ total xs + other
      → Pushed x xs other (push x xs waiting).0 (push x xs waiting).1
  unfolding push total
  push-Pushed x xs other waiting h =
      let (kept, left) = evict (size x) xs waiting in
      let r = evict-Trimmed (size x) other xs waiting h in
      record {
        dropped = r.dropped;
        parts =
            subst (λ t. t ++ (x ∷ []) ≡ r.dropped ++ (kept ++ (x ∷ []))) (sym r.parts)
              (append_assoc r.dropped kept (x ∷ []));
        counted = omega (arith, r.counted, total-append kept (x ∷ []));
        fits = elim r.fits [ inl f ↦ inl f | inr e ↦ inr (ap (λ t. t ++ (x ∷ [])) e) ];
        greedy = elim r.greedy [
          | inl e ↦ inl e
          | inr (start, y, (e, b)) ↦
              inr (start, y, (e, omega (arith, b, total-append kept (x ∷ []))))
        ];
        some_kept = omega (arith, length-append kept (x ∷ []));
      }

  -- Nothing is dropped for a message that fits.
  pub push-fits :
      (x : A) (xs : List A) (waiting : ℕ)
      → waiting + size x ≤ pending_max_bytes
      → push x xs waiting ≡ (xs ++ (x ∷ []), waiting + size x)
  unfolding push evict
  push-fits x [] waiting h = refl
  push-fits x (y ∷ xs) waiting h =
      let fits : ltb pending_max_bytes (waiting + size x) ≡ false = ground arith in
      rw (push, evict, fits) refl
