-- ===== src/StateCache/Wire/Truncated.antt =====
-- An envelope that is cut off is refused.
use panaudia.Base.{
  ℕ, zero, suc, ◌+◌, ◌*◌, ◌<◌, ◌≤◌, ◌≡◌, refl, sym, ◌∙◌, ◌⊎◌, inl, inr, List, [], ◌∷◌, ◌++◌,
  append-nil, arith, length, length-append, length-drop, length-take, take, drop, get_or,
}
use panaudia.Base.Keys.{Text}
use panaudia.StateCache.{Op}
use panaudia.StateCache.Wire.{
  Coded, ok, refused, WireError, get_be, get_be_from, Fixed, encode, decode_value, decode_key,
  decode_topic, decode,
}
use panaudia.StateCache.Wire.Numbers.{take-append, drop-append, get_or-append}
use panaudia.StateCache.Wire.RoundTrip.{IsWritable, length-encode, decode-encode}

get_be_from-append :
    (acc k : ℕ) (xs ys : List ℕ)
    → k ≤ length xs
    → get_be_from acc k (xs ++ ys) ≡ get_be_from acc k xs
get_be_from-append acc zero xs ys h = refl
get_be_from-append acc (suc k) [] ys h = absurd (omega arith)
get_be_from-append acc (suc k) (x ∷ xs) ys h =
    get_be_from-append (acc * 256 + x) k xs ys (omega arith)

-- What is decoded is decoded the same with more bytes behind it, and fits in the bytes that it was read from.
module _ (h : Fixed) (more : List ℕ) {op : Op} where
  value_stable :
      (topic key : Text) (rest : List ℕ)
      → decode_value h topic key rest ≡ ok op
      → (decode_value h topic key (rest ++ more) ≡ ok op)
        × (op.topic ≡ topic)
        × (op.key ≡ key)
        × (4 + length op.value ≤ length rest)
  unfolding decode_value
  value_stable topic key rest e = ground (
    arith,
    get_be_from-append 0 4 rest more,
    drop-append 4 rest more,
    length-drop 4 rest,
    length-append rest more,
    length-append (drop 4 rest) more,
    take-append (get_be 4 rest) (drop 4 rest) more,
    length-take (get_be 4 rest) (drop 4 rest),
  )

  key_stable :
      (topic : Text) (rest : List ℕ)
      → decode_key h topic rest ≡ ok op
      → (decode_key h topic (rest ++ more) ≡ ok op)
        × (op.topic ≡ topic)
        × (6 + length op.key + length op.value ≤ length rest)
  unfolding decode_key
  key_stable topic rest e = ground (
    arith,
    get_be_from-append 0 2 rest more,
    drop-append 2 rest more,
    length-drop 2 rest,
    length-append rest more,
    length-append (drop 2 rest) more,
    take-append (get_be 2 rest) (drop 2 rest) more,
    drop-append (get_be 2 rest) (drop 2 rest) more,
    length-take (get_be 2 rest) (drop 2 rest),
    length-drop (get_be 2 rest) (drop 2 rest),
    value_stable topic (take (get_be 2 rest) (drop 2 rest)) (drop (get_be 2 rest) (drop 2 rest)),
  )

  topic_stable :
      (n : ℕ) (rest : List ℕ)
      → decode_topic h n rest ≡ ok op
      → (decode_topic h n (rest ++ more) ≡ ok op)
        × (6 + length op.topic + length op.key + length op.value ≤ length rest)
  unfolding decode_topic
  topic_stable n rest e = ground (
    arith,
    length-append rest more,
    take-append n rest more,
    drop-append n rest more,
    length-take n rest,
    length-drop n rest,
    key_stable (take n rest) (drop n rest),
  )

-- What is decoded is decoded the same with more bytes behind it, and its fields fit in the bytes that
-- it was read from.
pub decode-append :
    (bytes more : List ℕ) (op : Op)
    → decode bytes ≡ ok op
    → (decode (bytes ++ more) ≡ ok op)
      × (21 + length op.topic + length op.key + length op.value ≤ length bytes)
unfolding decode
decode-append bytes more op e = ground (
  arith,
  length-append bytes more,
  get_or-append bytes more 0 0,
  get_or-append bytes more 1 0,
  get_or-append bytes more 14 0,
  drop-append 2 bytes more,
  drop-append 10 bytes more,
  drop-append 15 bytes more,
  length-drop 2 bytes,
  length-drop 10 bytes,
  length-drop 15 bytes,
  get_be_from-append 0 8 (drop 2 bytes) more,
  get_be_from-append 0 4 (drop 10 bytes) more,
  topic_stable
      (record {
        flags = get_or bytes 1 0;
        op_id = get_be 8 (drop 2 bytes);
        node_id = get_be 4 (drop 10 bytes);
      })
      more {op = op} (get_or bytes 14 0) (drop 15 bytes),
)

Coded-cases :
    {A : Type 0} (c : Coded A) → ((a : A) × (c ≡ ok a)) ⊎ ((e : WireError) × (c ≡ refused e))
Coded-cases (ok a) = inl (a, refl)
Coded-cases (refused e) = inr (e, refl)

-- `Decode` refuses every envelope that is cut off before its end.
pub decode_truncated :
    (op : Op) (front back : List ℕ)
    → IsWritable op
    → encode op ≡ ok (front ++ back)
    → 0 < length back
    → (e : WireError) × (decode front ≡ refused e)
decode_truncated op front back w e h = elim (Coded-cases (decode front)) [
  | inr r ↦ r
  | inl (o, d) ↦
      let (whole, small) = decode-append front back o d in
      let again : decode (front ++ back) ≡ ok (record op { created_at = 0 }) =
        rw append-nil at (decode-encode op [] w e) in
      let same : ok o ≡ ok (record op { created_at = 0 }) = sym whole ∙ again in
      absurd (ground (arith, same, small, length-append front back, length-encode op e))
]
