-- ===== src/StateCache/Store/Spec.antt =====
-- What a reader makes of a list of operations: the one with the highest id for each key.
use panaudia.Base.{◌≡◌, refl, List, [], ◌∷◌, ◌++◌, Option, none, some, ltb, if◌then◌else◌, arith}
use panaudia.Base.Keys.{Text, ◌==◌, text_eq, text_beq_iff}
use panaudia.Base.Assoc.{Map, lookup, lookup-insert}
use panaudia.StateCache.{Op}
use panaudia.StateCache.Store.{composite_key, merge_op, merge_ops}

-- The better of what is known for the key `k` and one more operation; the earlier wins a tie.
unfoldable pub better : Text → Option Op → Op → Option Op
better k best op =
    if composite_key op == k
    then elim best [ none ↦ some op | some b ↦ if ltb b.op_id op.op_id then some op else some b ]
    else best

unfoldable pub winner_from : Option Op → Text → List Op → Option Op
winner_from best k [] = best
winner_from best k (op ∷ ops) = winner_from (better k best op) k ops

unfoldable pub winner : Text → List Op → Option Op
winner k ops = winner_from none k ops

pub winner_from-append :
    (best : Option Op) (k : Text) (xs ys : List Op)
    → winner_from best k (xs ++ ys) ≡ winner_from (winner_from best k xs) k ys
unfolding winner_from
winner_from-append best k [] ys = refl
winner_from-append best k (x ∷ xs) ys = winner_from-append (better k best x) k xs ys

lookup-merge_op :
    (k : Text) (m : Map Text Op) (op : Op) → lookup k (merge_op m op) ≡ better k (lookup k m) op
unfolding merge_op better
lookup-merge_op k m op =
    ground (arith, lookup-insert (composite_key op) k op m, text_beq_iff (composite_key op) k)

-- The merge of `Compact` keeps the winner of each key.
pub lookup-merge_ops :
    (k : Text) (ops : List Op) (m : Map Text Op)
    → lookup k (merge_ops m ops) ≡ winner_from (lookup k m) k ops
unfolding merge_ops winner_from
lookup-merge_ops k [] m = refl
lookup-merge_ops k (op ∷ ops) m =
    ground (arith, lookup-merge_ops k ops (merge_op m op), lookup-merge_op k m op)
