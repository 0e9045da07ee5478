-- ===== src/StateCache/JsonOps.antt =====
-- core/statecache/jsonop.go: operations as JSON, alone or in a batch.
pub mod Batches
use panaudia.Base.{ℕ, Bool, ◌||◌, not, Option, none, some, List, [], ◌∷◌, ◌++◌, if◌then◌else◌, eqb}
use panaudia.Base.Keys.{Text, bytes, text_eq, ◌==◌}

-- `JsonOp`
pub record JsonOp : Type 0 where
  pub key : Text
  pub tombstone : Bool

-- encoding/json: `Unmarshal` into a list of raw messages, into a `JsonOp` and into the struct with the
-- one field `value` (`nil` is the empty text); `Marshal` of a tombstone. `none` is an error.
pub record JsonText : Type 0 where
  pub split : Text → Option (List Text)
  pub read_op : Text → Option JsonOp
  pub read_value : Text → Option Text
  pub write_tombstone : Text → Option Text

pub data ParseError : Type 0 where
  empty_message invalid_batch empty_batch invalid_op empty_key unexpected_byte : ParseError

pub data Parsed (A : Type 0) : Type 0 where
  parsed : A → Parsed A
  failed : ParseError → Parsed A

-- White space, for the scan of `ParseOps`
unfoldable pub is_space : ℕ → Bool
is_space c = eqb c 32 || (eqb c 9 || (eqb c 10 || eqb c 13))

-- The first byte that is not white space, and 0 without one.
unfoldable pub first_byte : Text → ℕ
first_byte [] = 0
first_byte (c ∷ s) = let rest = first_byte s in if is_space c then rest else c

module _ (json : JsonText) where
  -- One operation: its key is not empty.
  unfoldable pub parse_op : Text → Parsed JsonOp
  parse_op raw = elim (json.read_op raw) [
    | none ↦ failed invalid_op
    | some op ↦ if op.key == [] then failed empty_key else parsed op
  ]

  -- The loop over a batch: each operation with its raw message, up to the first error.
  unfoldable pub parse_all : List Text → Parsed (List (JsonOp × Text))
  parse_all [] = parsed []
  parse_all (raw ∷ raws) =
      let rest = parse_all raws in
      elim (parse_op raw) [
        | failed e ↦ failed e
        | parsed op ↦ elim rest [ failed e ↦ failed e | parsed ops ↦ parsed ((op, raw) ∷ ops) ]
      ]

  unfoldable pub parse_batch : Text → Parsed (List (JsonOp × Text))
  parse_batch msg = elim (json.split msg) [
    | none ↦ failed invalid_batch
    | some [] ↦ failed empty_batch
    | some (raw ∷ raws) ↦ parse_all (raw ∷ raws)
  ]

  -- `ParseOps`
  unfoldable pub parse_ops : Text → Parsed (List (JsonOp × Text))
  parse_ops msg =
      if msg == []
      then failed empty_message
      else if eqb (first_byte msg) b'['
      then parse_batch msg
      else if eqb (first_byte msg) b'{'
      then elim (parse_op msg) [ failed e ↦ failed e | parsed op ↦ parsed ((op, msg) ∷ []) ]
      else failed unexpected_byte

  -- `ExtractOpValue`
  unfoldable pub extract_op_value : Text → Text
  extract_op_value msg = elim (json.read_value msg) [ none ↦ [] | some v ↦ v ]

  -- `BuildTombstoneOp`
  unfoldable pub build_tombstone_op : Text → Option Text
  build_tombstone_op key = json.write_tombstone key

-- The raw messages of operations
abbrev pub raw_messages : List (JsonOp × Text) → List Text
raw_messages [] = []
raw_messages ((op, raw) ∷ ops) = raw ∷ raw_messages ops

-- The loop of `BuildBatch`
unfoldable pub join_ops : List Text → Text
join_ops [] = []
join_ops (op ∷ []) = op
join_ops (op ∷ next ∷ ops) = op ++ (b',' ∷ join_ops (next ∷ ops))

-- `BuildBatch`
unfoldable pub build_batch : List Text → Option Text
build_batch [] = none
build_batch (op ∷ ops) = some (b'[' ∷ (join_ops (op ∷ ops) ++ (b']' ∷ [])))
