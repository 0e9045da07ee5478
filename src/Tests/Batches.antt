-- ===== src/Tests/Batches.antt =====
-- core/statecache/jsonop.go with a JSON library that knows one operation, `{}`.
use panaudia.Base.{
  ◌≡◌, refl, ap, false, none, some, List, [], ◌∷◌, ◌++◌, All, inl, inr, arith, Bool-cases,
  if◌then◌else◌,
}
use panaudia.Base.Keys.{Text, bytes, text_eq, text_beq, text_beq_iff, ◌==◌}
use panaudia.StateCache.JsonOps.{
  JsonOp, JsonText, raw_messages, build_batch, join_ops, parse_ops, parsed, is_space,
}
use panaudia.StateCache.JsonOps.Batches.{
  IsTrimmed, IsRead, others_text, SplitsArrays, parse_ops-build_batch,
}

abbrev one_op : JsonOp
one_op = record { key = bytes "a"; tombstone = false }

-- The pieces of two bytes, each with one byte behind it
unfoldable pieces : Text → List Text
pieces (a ∷ b ∷ c ∷ s) = (a ∷ b ∷ []) ∷ pieces s
pieces (a ∷ b ∷ []) = []
pieces (a ∷ []) = []
pieces [] = []

abbrev braces : JsonText
braces = record {
  split = λ t. elim t [ [] ↦ none | c ∷ s ↦ some (pieces s) ];
  read_op = λ t. if t == bytes "{}" then some one_op else none;
  read_value = λ t. none;
  write_tombstone = λ k. none;
}

read_braces : (op : JsonOp) (raw : Text) → IsRead braces (op, raw) → raw ≡ bytes "{}"
unfolding IsRead
read_braces op raw h = elim (Bool-cases (text_beq raw (bytes "{}"))) [
  | inl e ↦ (text_beq_iff raw (bytes "{}")).0 e
  | inr e ↦ ground (arith, h.0, e)
]

pieces_joined :
    (op : JsonOp) (raw : Text) (ops : List (JsonOp × Text))
    → All (IsRead braces) ((op, raw) ∷ ops)
    → pieces (raw ++ others_text (raw_messages ops)) ≡ raw ∷ raw_messages ops
unfolding pieces others_text
pieces_joined op raw [] h = rw (read_braces op raw h.0) refl
pieces_joined op raw ((next, more) ∷ ops) h =
    rw (read_braces op raw h.0) (ap (λ r. bytes "{}" ∷ r) (pieces_joined next more ops h.1))

splits : SplitsArrays braces
unfolding SplitsArrays
splits (op, raw) ops h = ap some (pieces_joined op raw ops h)

abbrev two_ops : List (JsonOp × Text)
two_ops = (one_op, bytes "{}") ∷ (one_op, bytes "{}") ∷ []

braces-IsTrimmed : IsTrimmed (bytes "{}")
unfolding is_space
braces-IsTrimmed = ((b'{', b'}' ∷ [], (refl, refl)), (b'{' ∷ [], b'}', (refl, refl)))

both-IsRead : All (IsRead braces) two_ops
unfolding IsRead
both-IsRead = ((refl, refl, braces-IsTrimmed), ((refl, refl, braces-IsTrimmed), tt))

two_built : build_batch (raw_messages two_ops) ≡ some (bytes "[{},{}]")
unfolding build_batch join_ops
two_built = refl

parse_ops-build_batch_example : parse_ops braces (bytes "[{},{}]") ≡ parsed two_ops
parse_ops-build_batch_example =
    parse_ops-build_batch braces two_ops (bytes "[{},{}]") splits both-IsRead two_built
