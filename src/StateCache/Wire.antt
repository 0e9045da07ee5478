-- ===== src/StateCache/Wire.antt =====
-- core/statecache/wire.go: operations as bytes. What is left to read stands for `data[off:]`.
pub mod Numbers
pub mod RoundTrip
pub mod Truncated
use panaudia.Base.{
  ℕ, zero, suc, ◌+◌, ◌*◌, ◌/◌, ◌%◌, ◌^◌, Bool, true, false, not, ◌&&◌, List, [], ◌∷◌, ◌++◌, ltb,
  eqb, if◌then◌else◌, length, get_or, take, drop,
}
use panaudia.Base.Keys.{Text}
use panaudia.StateCache.{Op}

-- The errors of `Encode`, and the sentinel errors of `Decode`.
pub data WireError : Type 0 where
  topic_too_long key_too_long too_short unsupported_version topic_overrun key_overrun
        value_overrun :
      WireError

pub data Coded (A : Type 0) : Type 0 where
  ok : A → Coded A
  refused : WireError → Coded A

-- `wireVersion` and `minWireLen`
abbrev pub wire_version : ℕ
wire_version = 0xca

abbrev pub min_wire_len : ℕ
min_wire_len = 21

-- `binary.BigEndian.PutUint…` of `k` bytes, and `binary.BigEndian.Uint…`.
abbrev pub put_be : ℕ → ℕ → List ℕ
put_be zero v = []
put_be (suc k) v = (v / 256 ^ k % 256) ∷ put_be k v

abbrev pub get_be_from : ℕ → ℕ → List ℕ → ℕ
get_be_from acc zero xs = acc
get_be_from acc (suc k) [] = acc
get_be_from acc (suc k) (x ∷ xs) = get_be_from (acc * 256 + x) k xs

abbrev pub get_be : ℕ → List ℕ → ℕ
get_be k xs = get_be_from 0 k xs

-- `flags`
abbrev pub flags_of : Bool → ℕ
flags_of true = 1
flags_of false = 0

-- The part of the envelope behind the topic's length.
unfoldable pub envelope_tail : Op → List ℕ
envelope_tail op =
    op.topic ++ (put_be 2 (length op.key) ++ (op.key ++ (put_be 4 (length op.value) ++ op.value)))

unfoldable pub envelope : Op → List ℕ
envelope op =
    wire_version
    ∷ flags_of op.tombstone
    ∷ (put_be 8 op.op_id
        ++ (put_be 4 op.node_id ++ (put_be 1 (length op.topic) ++ envelope_tail op)))

-- `Encode`
unfoldable pub encode : Op → Coded (List ℕ)
encode op =
    if ltb 255 (length op.topic)
    then refused topic_too_long
    else if ltb 65535 (length op.key)
    then refused key_too_long
    else ok (envelope op)

-- The fixed fields that `Decode` has read when it comes to the topic.
pub record Fixed : Type 0 where
  pub flags : ℕ
  pub op_id : ℕ
  pub node_id : ℕ

-- `Decode` from the length of the value on.
unfoldable pub decode_value : Fixed → Text → Text → List ℕ → Coded Op
decode_value h topic key rest =
    if ltb (length rest) 4
    then refused too_short
    else if ltb (length (drop 4 rest)) (get_be 4 rest)
    then refused value_overrun
    else ok (record {
      topic = topic;
      key = key;
      value = take (get_be 4 rest) (drop 4 rest);
      op_id = h.op_id;
      node_id = h.node_id;
      tombstone = eqb (h.flags % 2) 1;
      created_at = 0;
    })

-- From the length of the key on.
unfoldable pub decode_key : Fixed → Text → List ℕ → Coded Op
decode_key h topic rest =
    if ltb (length rest) 2
    then refused too_short
    else if ltb (length (drop 2 rest)) (get_be 2 rest)
    then refused key_overrun
    else decode_value h topic (take (get_be 2 rest) (drop 2 rest))
        (drop (get_be 2 rest) (drop 2 rest))

-- From the topic on, which has `n` bytes.
unfoldable pub decode_topic : Fixed → ℕ → List ℕ → Coded Op
decode_topic h n rest =
    if ltb (length rest) n then refused topic_overrun else decode_key h (take n rest) (drop n rest)

-- `Decode`
unfoldable pub decode : List ℕ → Coded Op
decode bytes =
    if ltb (length bytes) min_wire_len
    then refused too_short
    else if not (eqb (get_or bytes 0 0) wire_version)
    then refused unsupported_version
    else decode_topic
        (record {
          flags = get_or bytes 1 0;
          op_id = get_be 8 (drop 2 bytes);
          node_id = get_be 4 (drop 10 bytes);
        })
        (get_or bytes 14 0) (drop 15 bytes)

-- `IsCacheEnvelope`
unfoldable pub is_cache_envelope : List ℕ → Bool
is_cache_envelope [] = false
is_cache_envelope (b ∷ bytes) = eqb b wire_version
