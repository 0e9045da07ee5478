-- ===== src/Tests/Envelope.antt =====
-- core/statecache/wire.go on one operation.
use panaudia.Base.{ℕ, ◌≡◌, refl, false, [], ◌∷◌, ◌++◌, List, arith, take, drop}
use panaudia.Base.Keys.{bytes}
use panaudia.StateCache.{Op}
use panaudia.StateCache.Wire.{WireError, ok, refused, encode, decode, envelope, envelope_tail}
use panaudia.StateCache.Wire.RoundTrip.{IsWritable, decode-encode}
use panaudia.StateCache.Wire.Truncated.{decode_truncated}

abbrev gain_op : Op
gain_op = record {
  topic = bytes "entity";
  key = bytes "a.gain";
  value = bytes "2";
  op_id = 300;
  node_id = 7;
  tombstone = false;
  created_at = 0;
}

writable : IsWritable gain_op
writable = record { id_fits = omega arith; node_fits = omega arith; value_fits = omega arith }

-- What `Encode` writes for it
abbrev written : List ℕ
written =
    (202 ∷ 0 ∷ 0 ∷ 0 ∷ 0 ∷ 0 ∷ 0 ∷ 0 ∷ 1 ∷ 44 ∷ 0 ∷ 0 ∷ 0 ∷ 7 ∷ 6 ∷ [])
    ++ (bytes "entity" ++ ((0 ∷ 6 ∷ []) ++ (bytes "a.gain" ++ ((0 ∷ 0 ∷ 0 ∷ 1 ∷ []) ++ bytes "2"))))

encoded : encode gain_op ≡ ok written
unfolding encode envelope envelope_tail
encoded = refl

decode-encode_example : decode (written ++ (9 ∷ [])) ≡ ok gain_op
decode-encode_example = decode-encode gain_op (9 ∷ []) writable encoded

decode_truncated_example : (e : WireError) × (decode (take 20 written) ≡ refused e)
decode_truncated_example =
    decode_truncated gain_op (take 20 written) (drop 20 written) writable encoded (omega arith)
