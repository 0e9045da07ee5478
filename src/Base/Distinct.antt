-- ===== src/Base/Distinct.antt =====
-- Association lists with each key once, as Go's maps are, and filters on them.
use mathlib.Core.Path.{◌≡◌, refl, ap, sym, ◌∙◌}
use mathlib.Core.Bool.{Bool}
use mathlib.Core.Option.{Option, none, some}
use mathlib.Core.List.{[], ◌∷◌}
use mathlib.Core.Logic.{inl, inr}
use native.Mathlib.Omega.{arith}
use panaudia.Base.Tests.{if◌then◌else◌, Bool-cases}
use panaudia.Base.Keys.{Key, ◌==◌}
use panaudia.Base.Assoc.{Map, lookup, insert, delete, lookup-insert, lookup-delete}

abbrev pub filtered {κ} : {V : Type κ} → (V → Bool) → Option V → Option V
filtered p none = none
filtered p (some v) = if p v then some v else none

module _ {ℓ κ} {K : Type ℓ} {V : Type κ} ⦃e : Key K⦄ where
  abbrev pub Distinct : Map K V → Type κ
  Distinct [] = Unit
  Distinct ((k, v) ∷ m) = (lookup k m ≡ none) × Distinct m

  -- The entries whose value passes.
  unfoldable pub keep : (V → Bool) → Map K V → Map K V
  keep p [] = []
  keep p ((k, v) ∷ m) = let rest = keep p m in if p v then (k, v) ∷ rest else rest

  pub lookup-keep :
      (p : V → Bool) (k : K) (m : Map K V)
      → Distinct m
      → lookup k (keep p m) ≡ filtered p (lookup k m)
  unfolding lookup keep
  lookup-keep p k [] d = refl
  lookup-keep p k ((j, v) ∷ m) d =
      ground
        (arith, e.same_iff j k, lookup-keep p k m d.1, ap (λ i. lookup i m) {x = j} {y = k}, d.0)

  pub insert-Distinct : (k : K) (v : V) (m : Map K V) → Distinct m → Distinct (insert k v m)
  unfolding insert lookup
  insert-Distinct k v [] d = (refl, tt)
  insert-Distinct k v ((j, w) ∷ m) d = elim (Bool-cases (j == k)) [
    | inl h ↦ rw h (ap (λ i. lookup i m) (sym ((e.same_iff j k).0 h)) ∙ d.0, d.1)
    | inr h ↦ rw h (
      ground (arith, lookup-insert k j v m, e.same_iff j k, e.same_iff k j, d.0),
      insert-Distinct k v m d.1,
    )
  ]

  pub delete-Distinct : (k : K) (m : Map K V) → Distinct m → Distinct (delete k m)
  unfolding delete
  delete-Distinct k [] d = tt
  delete-Distinct k ((j, w) ∷ m) d = elim (Bool-cases (j == k)) [
    | inl h ↦ rw h (delete-Distinct k m d.1)
    | inr h ↦ rw h (
      ground (arith, lookup-delete k j m, e.same_iff k j, e.same_iff j k, d.0),
      delete-Distinct k m d.1,
    )
  ]

  pub keep-Distinct : (p : V → Bool) (m : Map K V) → Distinct m → Distinct (keep p m)
  unfolding keep
  keep-Distinct p [] d = tt
  keep-Distinct p ((j, w) ∷ m) d = elim (Bool-cases (p w)) [
    | inl h ↦ rw h (ground (arith, lookup-keep p j m d.1, d.0), keep-Distinct p m d.1)
    | inr h ↦ rw h (keep-Distinct p m d.1)
  ]
