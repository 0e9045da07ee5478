-- ===== src/Space/BouncerClient/Receive/Limits.antt =====
-- How much waits for a writer, and what a client that has quiesced still does.
use panaudia.Base.{
  ℕ, ◌+◌, ◌≤◌, ◌≡◌, refl, sym, ap, inl, inr, Bool, true, List, [], ◌∷◌, if◌then◌else◌, arith, subst,
}
use panaudia.Space.Pending.{push, total, push-Pushed, pending_max_bytes}
use panaudia.Space.BouncerClient.Receive.{
  Pending, size, Receiver, new_receiver, receive_string, receive_data, detach, Message,
  string_message, data_message, receive, receive_all,
}
use panaudia.Space.BouncerClient.Receive.Delivery.{waiting}

-- No message is longer than `most`.
abbrev pub IsWithin : ℕ → List Message → Type 0
IsWithin most [] = Unit
IsWithin most (string_message p ∷ ms) = (size p ≤ most) × IsWithin most ms
IsWithin most (data_message p ∷ ms) = (size p ≤ most) × IsWithin most ms

record Bounded (most : ℕ) (strings messages : List Pending) (n : ℕ) : Type 0 where
  counted : n ≡ total size strings + total size messages
  strings_fit : total size strings ≤ pending_max_bytes
  data_fit : total size messages ≤ pending_max_bytes
  bound : n ≤ pending_max_bytes + most

-- The queue that a message was appended to keeps to the limit, and so does the count up to the length
-- of one message.
push_bound :
    (most : ℕ) (p : Pending) (xs : List Pending) (other n : ℕ)
    → most ≤ pending_max_bytes
    → size p ≤ most
    → other ≤ pending_max_bytes
    → n ≡ total size xs + other
    → let (queue, left) = push size p xs n in
      (left ≡ total size queue + other)
      × (total size queue ≤ pending_max_bytes)
      × (left ≤ pending_max_bytes + most)
unfolding total
push_bound most p xs other n m s o h =
    let r = push-Pushed size p xs other n h in
    (
      r.counted,
      elim r.fits [
        | inl f ↦ omega (arith, r.counted)
        | inr e ↦ subst (λ t. total size t ≤ pending_max_bytes) (sym e) (omega arith)
      ],
      elim r.fits [
        | inl f ↦ omega arith
        | inr e ↦
            let alone : total size (push size p xs n).0 ≡ size p + 0 = ap (total size) e in
            omega (arith, r.counted, alone)
      ],
    )

-- The messages that wait have as many bytes as are counted, and exceed the limit by `most` at the most.
abbrev pub Held : ℕ → Receiver → Type 0
Held most client =
    (client.pending_bytes ≡ total size client.pending_strings + total size client.pending_data)
    × (total size client.pending_strings + total size client.pending_data
        ≤ pending_max_bytes + most)

receive_all-Bounded :
    (most : ℕ) (ms : List Message) (strings messages : List Pending) (n : ℕ)
    → most ≤ pending_max_bytes
    → IsWithin most ms
    → Bounded most strings messages n
    → Held most (receive_all (waiting strings messages n) ms).0
unfolding receive_all receive receive_string receive_data
receive_all-Bounded most [] strings messages n m h b =
    (b.counted, omega (arith, b.counted, b.bound))
receive_all-Bounded most (string_message p ∷ ms) strings messages n m h b =
    let (counted, fit, bound) =
      push_bound most p strings (total size messages) n m h.0 b.data_fit b.counted in
    let (queue, left) = push size p strings n in
    receive_all-Bounded most ms queue messages left m h.1
      (record { counted = counted; strings_fit = fit; data_fit = b.data_fit; bound = bound })
receive_all-Bounded most (data_message p ∷ ms) strings messages n m h b =
    let (counted, fit, bound) =
      push_bound most p messages (total size strings) n m h.0 b.strings_fit
        (omega (arith, b.counted)) in
    let (queue, left) = push size p messages n in
    receive_all-Bounded most ms strings queue left m h.1 (record {
      counted = omega (arith, counted);
      strings_fit = b.strings_fit;
      data_fit = fit;
      bound = bound;
    })

-- While the writer has not come, and no message is longer than `most` bytes, which is no more than the
-- limit, the bytes of the messages in the two queues exceed the limit by `most` at the most, and the
-- count of the client is their number.
pub receive_all_bound :
    (most : ℕ) (ms : List Message)
    → most ≤ pending_max_bytes
    → IsWithin most ms
    → Held most (receive_all new_receiver ms).0
unfolding total
receive_all_bound most ms m h = receive_all-Bounded most ms [] [] 0 m h (record {
  counted = refl;
  strings_fit = omega arith;
  data_fit = omega arith;
  bound = omega arith;
})

pub receive_string-detach :
    (client : Receiver) (p : Pending)
    → client.attached ≡ true
    → receive_string (detach client) p ≡ (detach client, [])
unfolding receive_string detach
receive_string-detach client p h =
    let (queue, left) = push size p client.pending_strings client.pending_bytes in
    let held = record (detach client) { pending_strings = queue; pending_bytes = left } in
    ap (λ (a : Bool). if a then (detach client, []) else (held, [])) h

pub receive_data-detach :
    (client : Receiver) (p : Pending)
    → client.attached ≡ true
    → receive_data (detach client) p ≡ (detach client, [])
unfolding receive_data detach
receive_data-detach client p h =
    let (queue, left) = push size p client.pending_data client.pending_bytes in
    let held = record (detach client) { pending_data = queue; pending_bytes = left } in
    ap (λ (a : Bool). if a then (detach client, []) else (held, [])) h
