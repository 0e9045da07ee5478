-- ===== src/StateCache/Wire/RoundTrip.antt =====
-- What `Encode` writes, `Decode` reads back; it refuses every part of it that is cut off.
use panaudia.Base.{
  ℕ, ◌+◌, ◌/◌, ◌%◌, ◌^◌, ◌<◌, ◌≤◌, ◌≡◌, refl, ap, sym, subst, ◌∙◌, Bool, true, false, List, [], ◌∷◌,
  ◌++◌, append_assoc, arith, length, length-append, eqb,
}
use panaudia.Base.Keys.{Text}
use panaudia.StateCache.{Op}
use panaudia.StateCache.Wire.{
  ok, put_be, get_be, flags_of, Fixed, envelope, envelope_tail, encode, decode_value, decode_key,
  decode_topic, decode,
}
use panaudia.StateCache.Wire.Numbers.{
  get_be-put_be2, get_be-put_be4, get_be-put_be8, take-append_length, drop-append_length,
}

module _ (h : Fixed) (junk : List ℕ) where
  abbrev decoded : Text → Text → Text → Op
  decoded topic key value = record {
    topic = topic;
    key = key;
    value = value;
    op_id = h.op_id;
    node_id = h.node_id;
    tombstone = eqb (h.flags % 2) 1;
    created_at = 0;
  }

  decode_value_lem :
      (topic key value : Text)
      → length value < 2 ^ 32
      → decode_value h topic key (put_be 4 (length value) ++ (value ++ junk))
        ≡ ok (decoded topic key value)
  unfolding decode_value
  decode_value_lem topic key value small = ground (
    arith,
    get_be-put_be4 (length value) (value ++ junk) small,
    length-append value junk,
    take-append_length value junk,
  )

  decode_key_lem :
      (topic key : Text) (rest : List ℕ)
      → length key < 2 ^ 16
      → decode_key h topic (put_be 2 (length key) ++ (key ++ rest)) ≡ decode_value h topic key rest
  unfolding decode_key
  decode_key_lem topic key rest small = ground (
    arith,
    get_be-put_be2 (length key) (key ++ rest) small,
    length-append key rest,
    take-append_length key rest,
    drop-append_length key rest,
  )

  decode_topic_lem :
      (topic : Text) (rest : List ℕ)
      → decode_topic h (length topic) (topic ++ rest) ≡ decode_key h topic rest
  unfolding decode_topic
  decode_topic_lem topic rest = ground (
    arith,
    length-append topic rest,
    take-append_length topic rest,
    drop-append_length topic rest,
  )

-- The fields that the wire has room for; the time of creation is not written.
pub record IsWritable (op : Op) : Type 0 where
  pub id_fits : op.op_id < 2 ^ 64
  pub node_fits : op.node_id < 2 ^ 32
  pub value_fits : length op.value < 2 ^ 32

encode_fits :
    (op : Op) {bytes : List ℕ}
    → encode op ≡ ok bytes
    → (length op.topic < 256) × (length op.key < 65536) × (envelope op ≡ bytes)
unfolding encode
encode_fits op e = ground arith

decode_fixed :
    (flags op_id node_id n : ℕ) (rest : List ℕ)
    → op_id < 2 ^ 64
    → node_id < 2 ^ 32
    → n < 256
    → 6 ≤ length rest
    → decode (0xca ∷ flags ∷ (put_be 8 op_id ++ (put_be 4 node_id ++ (put_be 1 n ++ rest))))
      ≡ decode_topic (record { flags = flags; op_id = op_id; node_id = node_id }) n rest
unfolding decode
decode_fixed flags op_id node_id n rest a b c r =
    ground arith
    ∙ ap
        (λ i.
          decode_topic (record { flags = flags; op_id = i; node_id = get_be 4 (put_be 4 node_id) })
            (n / 1 % 256) rest)
        (get_be-put_be8 op_id [] a)
    ∙ ap
        (λ i.
          decode_topic (record { flags = flags; op_id = op_id; node_id = i }) (n / 1 % 256) rest)
        (get_be-put_be4 node_id [] b)
    ∙ ap (λ k. decode_topic (record { flags = flags; op_id = op_id; node_id = node_id }) k rest)
        (omega arith)

length-envelope_tail :
    (op : Op) → length (envelope_tail op) ≡ length op.topic + length op.key + length op.value + 6
unfolding envelope_tail
length-envelope_tail op = omega (
  arith,
  length-append op.topic
      (put_be 2 (length op.key) ++ (op.key ++ (put_be 4 (length op.value) ++ op.value))),
  length-append op.key (put_be 4 (length op.value) ++ op.value),
)

pub length-envelope :
    (op : Op) → length (envelope op) ≡ 21 + length op.topic + length op.key + length op.value
unfolding envelope
length-envelope op = omega (arith, length-envelope_tail op)

abbrev header : Op → Fixed
header op = record { flags = flags_of op.tombstone; op_id = op.op_id; node_id = op.node_id }

tombstone_read : (t : Bool) → eqb (flags_of t % 2) 1 ≡ t
tombstone_read true = refl
tombstone_read false = refl

decode_tail :
    (op : Op) (junk : List ℕ)
    → length op.key < 2 ^ 16
    → length op.value < 2 ^ 32
    → decode_topic (header op) (length op.topic) (envelope_tail op ++ junk)
      ≡ ok (record op { created_at = 0 })
unfolding envelope_tail
decode_tail op junk k v = simp append_assoc (
    decode_topic_lem (header op) junk op.topic
      (put_be 2 (length op.key) ++ (op.key ++ (put_be 4 (length op.value) ++ (op.value ++ junk))))
    ∙ decode_key_lem (header op) junk op.topic op.key
        (put_be 4 (length op.value) ++ (op.value ++ junk)) k
    ∙ decode_value_lem (header op) junk op.topic op.key op.value v
    ∙ ap (λ t. ok (record op { tombstone = t; created_at = 0 })) (tombstone_read op.tombstone))

decode-envelope :
    (op : Op) (junk : List ℕ)
    → IsWritable op
    → length op.topic < 256
    → length op.key < 65536
    → decode (envelope op ++ junk) ≡ ok (record op { created_at = 0 })
unfolding envelope
decode-envelope op junk w t k =
    decode_fixed (flags_of op.tombstone) op.op_id op.node_id (length op.topic)
      (envelope_tail op ++ junk) w.id_fits w.node_fits t
      (omega (arith, length-append (envelope_tail op) junk, length-envelope_tail op))
    ∙ decode_tail op junk k w.value_fits

-- `Decode` reads back the operation that `Encode` wrote, whatever bytes follow it, but for its time of
-- creation, which is not written.
pub decode-encode :
    (op : Op) (junk : List ℕ) {bytes : List ℕ}
    → IsWritable op
    → encode op ≡ ok bytes
    → decode (bytes ++ junk) ≡ ok (record op { created_at = 0 })
decode-encode op junk w e =
    let (t, k, same) = encode_fits op e in
    subst (λ b. decode (b ++ junk) ≡ ok (record op { created_at = 0 })) same
      (decode-envelope op junk w t k)

pub length-encode :
    (op : Op) {bytes : List ℕ}
    → encode op ≡ ok bytes
    → length bytes ≡ 21 + length op.topic + length op.key + length op.value
length-encode op e = sym (ap length (encode_fits op e).2) ∙ length-envelope op
