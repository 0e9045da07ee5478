-- ===== src/Writers/Channels/Opening.antt =====
-- What a channel sends that opens late.
use panaudia.Base.{
  ℕ, ◌≤◌, ◌≡◌, refl, sym, ap, subst, ◌∙◌, inl, inr, true, false, List, [], ◌∷◌, ◌++◌, length, arith,
  append_assoc, append-nil,
}
use panaudia.Base.Keys.{Text}
use panaudia.Space.Pending.{push, push-Pushed, total, total-append, IsNewest}
use panaudia.Writers.Channels.{Channel, new_channel, trim_pending, send_or_buffer, attach, send_all}

abbrev closed : List Text → ℕ → Channel
closed pending n = record { is_open = false; pending = pending; pending_bytes = n }

abbrev opened : Channel
opened = record { is_open = true; pending = []; pending_bytes = 0 }

-- Messages before the channel opens send nothing, and leave the newest; their bytes keep to the limit,
-- but for a single message that is longer.
record Queued (ms all : List Text) (start : Channel) : Type 0 where
  pending : List Text
  n : ℕ
  lost : List Text
  run : send_all start ms ≡ (closed pending n, [])
  newest : IsNewest length all lost pending
  counted : n ≡ total length pending

push-IsNewest :
    (m : Text) (pending : List Text) (n : ℕ) (before lost : List Text)
    → IsNewest length before lost pending
    → (c : n ≡ total length pending)
    → let r = push-Pushed length m pending 0 n (omega (arith, c)) in
      IsNewest length (before ++ (m ∷ [])) (lost ++ r.dropped) (push length m pending n).0
unfolding total
push-IsNewest m pending n before lost h c =
    let r = push-Pushed length m pending 0 n (omega (arith, c)) in
    let queue = (push length m pending n).0 in
    record {
      parts =
          ap (λ t. t ++ (m ∷ [])) h.parts
          ∙ append_assoc lost pending (m ∷ [])
          ∙ ap (λ t. lost ++ t) r.parts
          ∙ sym (append_assoc lost r.dropped queue);
      fits = elim r.fits [
        | inl k ↦ inl (omega (arith, r.counted))
        | inr k ↦ inr (subst (λ t. length t ≤ 1) (sym k) (omega arith))
      ];
      greedy = elim r.greedy [
        | inr (start, y, (e, b)) ↦
            inr (
              lost ++ start,
              y,
              (ap (λ t. lost ++ t) e ∙ sym (append_assoc lost start (y ∷ [])), b),
            )
        | inl e ↦
            let whole : pending ++ (m ∷ []) ≡ queue = r.parts ∙ ap (λ t. t ++ queue) e in
            let same : lost ++ r.dropped ≡ lost = ap (λ t. lost ++ t) e ∙ append-nil lost in
            elim h.greedy [
              | inl l ↦ inl (same ∙ l)
              | inr (start, y, (l, b)) ↦ inr (
                start,
                y,
                (
                  same ∙ l,
                  omega (arith, b, ap (total length) whole, total-append length pending (m ∷ [])),
                ),
              )
            ]
      ];
      some_kept = inr r.some_kept;
    }

send_all-Queued :
    (ms before pending : List Text) (n : ℕ) (lost : List Text)
    → IsNewest length before lost pending
    → n ≡ total length pending
    → Queued ms (before ++ ms) (closed pending n)
unfolding send_all send_or_buffer trim_pending
send_all-Queued [] before pending n lost h c = record {
  pending = pending;
  n = n;
  lost = lost;
  run = refl;
  newest = subst (λ t. IsNewest length t lost pending) (sym (append-nil before)) h;
  counted = c;
}
send_all-Queued (m ∷ ms) before pending n lost h c =
    let r = push-Pushed length m pending 0 n (omega (arith, c)) in
    let (queue, left) = push length m pending n in
    let next =
      send_all-Queued ms (before ++ (m ∷ [])) queue left (lost ++ r.dropped)
        (push-IsNewest m pending n before lost h c) (omega (arith, r.counted)) in
    record {
      pending = next.pending;
      n = next.n;
      lost = next.lost;
      run = next.run;
      newest =
          subst (λ t. IsNewest length t next.lost next.pending) (append_assoc before (m ∷ []) ms)
            next.newest;
      counted = next.counted;
    }

send_all-opened : (ms : List Text) → send_all opened ms ≡ (opened, ms)
unfolding send_all send_or_buffer
send_all-opened [] = refl
send_all-opened (m ∷ ms) = ap (λ r. (r.0, m ∷ r.1)) (send_all-opened ms)

-- What a new channel sends that is attached after the first messages
unfoldable pub channel_life : List Text → List Text → List Text
channel_life before after =
    let (ch, early) = send_all new_channel before in
    let (open_, flushed) = attach ch in early ++ (flushed ++ (send_all open_ after).1)

-- A channel that is attached late sends the newest of the messages that came before, and then every later message, all in their order.
pub channel_life_newest :
    (before after : List Text)
    → (lost kept : List Text) × IsNewest length before lost kept
      × (channel_life before after ≡ kept ++ after)
unfolding channel_life attach total
channel_life_newest before after =
    let start : IsNewest {A = Text} length [] [] [] = record {
      parts = refl;
      fits = inr (omega arith);
      greedy = inl refl;
      some_kept = inl refl;
    } in
    let q = send_all-Queued before [] [] 0 [] start refl in
    (q.lost, q.pending, q.newest, rw (channel_life, q.run, send_all-opened after) refl)
