-- ===== src/StateCache/Store/Segments.antt =====
-- The two read loops over the ring, and what a write of one slot or one segment changes in them.
use panaudia.Base.{
  ℕ, zero, suc, ◌+◌, ◌*◌, ◌/◌, ◌%◌, ◌≤◌, ◌<◌, ◌≡◌, ◌≢◌, refl, sym, ◌∙◌, ap, List, [], ◌∷◌, ◌++◌,
  Option, none, some, arith, length, set, get_or-set_self, get_or-set_ne, append-nil, append_assoc,
}
use panaudia.StateCache.{Op}
use panaudia.StateCache.Store.{StateStore, segment_ops, segments_ops, slot_ops}
use native.Mathlib.Nat.{div-add-mod}

-- A slot written just past the filled ones is read last.
pub slot_ops-set :
    (slots : List (Option Op)) (op : Op) (j n c : ℕ)
    → j + n ≡ c
    → c < length slots
    → slot_ops (set slots c (some op)) j (suc n) ≡ slot_ops slots j n ++ (op ∷ [])
unfolding slot_ops
slot_ops-set slots op j zero c e h = ground (arith, get_or-set_self slots c (some op) none h)
slot_ops-set slots op j (suc n) c e h = ground (
  arith,
  get_or-set_ne slots c j (some op) none (omega arith),
  slot_ops-set slots op (suc j) n c (omega arith) h,
)

-- Two stores that agree on a range of segments read the same there.
pub segments_ops-congr :
    (s t : StateStore) (i n : ℕ)
    → ((j : ℕ) → i ≤ j → j < i + n → segment_ops s j ≡ segment_ops t j)
    → segments_ops s i n ≡ segments_ops t i n
unfolding segments_ops
segments_ops-congr s t i zero h = refl
segments_ops-congr s t i (suc n) h = ground (
  arith,
  h i (omega arith) (omega arith),
  segments_ops-congr s t (suc i) n (λ j a b. h j (omega arith) (omega arith)),
)

-- The last segment of the range is read last.
pub segments_ops-last :
    (s : StateStore) (i n : ℕ)
    → segments_ops s i (suc n) ≡ segments_ops s i n ++ segment_ops s (i + n)
unfolding segments_ops
segments_ops-last s i zero = let e : i + 0 ≡ i = omega arith in rw (e, append-nil)
segments_ops-last s i (suc n) =
    let e : suc i + n ≡ i + suc n = omega arith in
    ap (λ l. segment_ops s i ++ l)
      (segments_ops-last s (suc i) n ∙ ap (λ k. segments_ops s (suc i) n ++ segment_ops s k) e)
    ∙ sym (append_assoc (segment_ops s i) (segments_ops s (suc i) n) (segment_ops s (i + suc n)))

-- Two passes over one place of the ring differ in their epoch.
pub epoch_ne : (r i h : ℕ) → i < h → i % r ≡ h % r → i / r ≢ h / r
epoch_ne r i h lt e q = omega (arith, div-add-mod i r, div-add-mod h r, ap (λ (t : ℕ). r * t) q)

-- Fewer than `r` segments apart, two segments stand at different places.
pub place_ne : (r i h : ℕ) → i < h → h < i + r → i % r ≢ h % r
place_ne r i h lt near e = grind (arith, div-add-mod i r, div-add-mod h r)
