-- ===== src/Base/Entries.antt =====
-- A predicate on the values of an association list.
use mathlib.Core.Path.{◌≡◌, subst}
use mathlib.Core.Option.{some}
use mathlib.Core.List.{[], ◌∷◌}
use mathlib.Core.Logic.{inl, inr}
use native.Mathlib.Omega.{arith}
use panaudia.Base.Tests.{Bool-cases}
use panaudia.Base.Lists.{All}
use panaudia.Base.Keys.{Key, ◌==◌}
use panaudia.Base.Assoc.{Map, lookup, insert, delete}

module _ {ℓ κ μ} {K : Type ℓ} {V : Type κ} ⦃e : Key K⦄ (P : V → Type μ) where
  abbrev pub Values : Map K V → Type μ
  Values m = All (λ p. P p.1) m

  pub lookup-Values : (k : K) (v : V) (m : Map K V) → Values m → lookup k m ≡ some v → P v
  unfolding lookup
  lookup-Values k v [] h l = ground arith
  lookup-Values k v ((j, w) ∷ m) h l = elim (Bool-cases (j == k)) [
    | inl c ↦ let same : w ≡ v = ground arith in subst P same h.0
    | inr c ↦ lookup-Values k v m h.1 (ground arith)
  ]

  pub insert-Values : (k : K) (v : V) (m : Map K V) → Values m → P v → Values (insert k v m)
  unfolding insert
  insert-Values k v [] h p = (p, tt)
  insert-Values k v ((j, w) ∷ m) h p = elim (Bool-cases (j == k)) [
    | inl c ↦ rw c (p, h.1)
    | inr c ↦ rw c (h.0, insert-Values k v m h.1 p)
  ]

  pub delete-Values : (k : K) (m : Map K V) → Values m → Values (delete k m)
  unfolding delete
  delete-Values k [] h = tt
  delete-Values k ((j, w) ∷ m) h = elim (Bool-cases (j == k)) [
    | inl c ↦ rw c (delete-Values k m h.1)
    | inr c ↦ rw c (h.0, delete-Values k m h.1)
  ]
