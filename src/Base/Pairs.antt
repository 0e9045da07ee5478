-- ===== src/Base/Pairs.antt =====
-- A predicate on the entries of an association list: keys with their values.
use mathlib.Core.Path.{◌≡◌, subst}
use mathlib.Core.Option.{some}
use mathlib.Core.List.{[], ◌∷◌}
use mathlib.Core.Logic.{inl, inr}
use native.Mathlib.Omega.{arith}
use panaudia.Base.Tests.{Bool-cases}
use panaudia.Base.Lists.{All}
use panaudia.Base.Keys.{Key, ◌==◌}
use panaudia.Base.Assoc.{Map, lookup, insert, delete}

module _ {ℓ κ μ} {K : Type ℓ} {V : Type κ} ⦃e : Key K⦄ (P : K × V → Type μ) where
  pub lookup-All : (k : K) (v : V) (m : Map K V) → All P m → lookup k m ≡ some v → P (k, v)
  unfolding lookup
  lookup-All k v [] h l = ground arith
  lookup-All k v ((j, w) ∷ m) h l = elim (Bool-cases (j == k)) [
    | inl c ↦
        let same : w ≡ v = ground arith in
        subst (λ x. P (k, x)) same (subst (λ i. P (i, w)) ((e.same_iff j k).0 c) h.0)
    | inr c ↦ lookup-All k v m h.1 (ground arith)
  ]

  pub insert-All : (k : K) (v : V) (m : Map K V) → All P m → P (k, v) → All P (insert k v m)
  unfolding insert
  insert-All k v [] h p = (p, tt)
  insert-All k v ((j, w) ∷ m) h p = elim (Bool-cases (j == k)) [
    | inl c ↦ rw c (p, h.1)
    | inr c ↦ rw c (h.0, insert-All k v m h.1 p)
  ]

  pub delete-All : (k : K) (m : Map K V) → All P m → All P (delete k m)
  unfolding delete
  delete-All k [] h = tt
  delete-All k ((j, w) ∷ m) h = elim (Bool-cases (j == k)) [
    | inl c ↦ rw c (delete-All k m h.1)
    | inr c ↦ rw c (h.0, delete-All k m h.1)
  ]
