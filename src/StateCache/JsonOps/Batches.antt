-- ===== src/StateCache/JsonOps/Batches.antt =====
-- What `ParseOps` gives, and batches that `BuildBatch` made.
use panaudia.Base.{
  ℕ, ◌≡◌, refl, sym, ap, ◌∙◌, subst, false, some, List, [], ◌∷◌, ◌++◌, All, arith, append_assoc,
}
use panaudia.Base.Keys.{Text, text_eq, ◌==◌}
use panaudia.StateCache.JsonOps.{
  JsonOp, JsonText, parsed, parse_op, parse_all, parse_batch, parse_ops, build_batch, join_ops,
  raw_messages, first_byte, is_space,
}

-- A JSON array without white space: its first value, and the others, each behind a comma.
unfoldable pub others_text : List Text → Text
others_text [] = b']' ∷ []
others_text (v ∷ vs) = b',' ∷ (v ++ others_text vs)

abbrev pub array_text : Text → List Text → Text
array_text v vs = b'[' ∷ (v ++ others_text vs)

join_ops_lem :
    (op : Text) (ops : List Text) → join_ops (op ∷ ops) ++ (b']' ∷ []) ≡ op ++ others_text ops
unfolding join_ops others_text
join_ops_lem op [] = refl
join_ops_lem op (next ∷ ops) =
    append_assoc op (b',' ∷ join_ops (next ∷ ops)) (b']' ∷ [])
    ∙ ap (λ t. op ++ (b',' ∷ t)) (join_ops_lem next ops)

-- `BuildBatch` makes the array of its operations.
pub build_batch_lem :
    (op : Text) (ops : List Text) → build_batch (op ∷ ops) ≡ some (array_text op ops)
unfolding build_batch
build_batch_lem op ops = ap (λ t. some (b'[' ∷ t)) (join_ops_lem op ops)

none_built : (batch : Text) → build_batch [] ≡ some batch → ⊥
unfolding build_batch
none_built batch h = ground (arith, h)

-- White space neither begins nor ends the text.
abbrev pub IsTrimmed : Text → Type 0
IsTrimmed raw =
    ((c : ℕ) × (rest : Text) × ((raw ≡ c ∷ rest) × (is_space c ≡ false)))
    × ((start : Text) × (c : ℕ) × ((raw ≡ start ++ (c ∷ [])) × (is_space c ≡ false)))

module _ (json : JsonText) where
  -- The operation is what its raw message reads as, and has a key; no white space is around it.
  unfoldable pub IsRead : JsonOp × Text → Type 0
  IsRead (op, raw) = (json.read_op raw ≡ some op) × ((op.key == []) ≡ false) × IsTrimmed raw

  parse_op-lem : (op : JsonOp) (raw : Text) → IsRead (op, raw) → parse_op json raw ≡ parsed op
  unfolding IsRead parse_op
  parse_op-lem op raw (r, k, t) = rw (parse_op, r, k) refl

  parse_all-lem :
      (ops : List (JsonOp × Text)) → All IsRead ops → parse_all json (raw_messages ops) ≡ parsed ops
  unfolding parse_all
  parse_all-lem [] h = refl
  parse_all-lem ((op, raw) ∷ ops) h =
      rw (parse_all, parse_op-lem op raw h.0, parse_all-lem ops h.1) refl

  -- `json.Unmarshal` into a list of raw messages gives the values of an array.
  unfoldable pub SplitsArrays : Type 0
  SplitsArrays =
      (p : JsonOp × Text) (ps : List (JsonOp × Text))
      → All IsRead (p ∷ ps)
      → json.split (array_text p.1 (raw_messages ps)) ≡ some (raw_messages (p ∷ ps))

  -- A batch that `BuildBatch` made of readable operations with keys, with no white space around them,
  -- is parsed into the same operations, in their order, each with its own message, when the JSON
  -- library splits the text of an array into its values.
  pub parse_ops-build_batch :
      (ops : List (JsonOp × Text)) (batch : Text)
      → SplitsArrays
      → All IsRead ops
      → build_batch (raw_messages ops) ≡ some batch
      → parse_ops json batch ≡ parsed ops
  unfolding SplitsArrays parse_ops first_byte is_space parse_batch
  parse_ops-build_batch [] batch splits h b = absurd (none_built batch b)
  parse_ops-build_batch ((op, raw) ∷ ops) batch splits h b =
      let made : some (array_text raw (raw_messages ops)) ≡ some batch =
        sym (build_batch_lem raw (raw_messages ops)) ∙ b in
      let same : array_text raw (raw_messages ops) ≡ batch = ground (arith, made) in
      subst (λ t. parse_ops json t ≡ parsed ((op, raw) ∷ ops)) same
        (rw (parse_ops, parse_batch, splits (op, raw) ops h) (parse_all-lem ((op, raw) ∷ ops) h))
