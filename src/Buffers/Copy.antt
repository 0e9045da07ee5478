-- ===== src/Buffers/Copy.antt =====
-- Go's `copy` on slices, and lists compared index by index.
use panaudia.Base.{
  ℕ, zero, suc, ◌+◌, ◌-◌, ◌%◌, ◌≤◌, ◌<◌, ◌≡◌, refl, sym, ◌∙◌, ap, ◌⊎◌, List, [], ◌∷◌, ◌++◌, Option,
  none, some, ltb, if◌then◌else◌, arith, length, get_elem?, get_or, set, take, drop, inl, inr,
}
use native.Mathlib.Nat.{mod-add-mod, mod-eq_of_lt, mod-eq-sub-mod, mod-lt}
use native.Mathlib.Decide.{dec_lt}

module _ {ℓ} {A : Type ℓ} where
  -- `copy(dst[i:], src)`: what does not fit is dropped.
  unfoldable pub overwrite : List A → ℕ → List A → List A
  overwrite [] i src = []
  overwrite (x ∷ xs) zero [] = x ∷ xs
  overwrite (x ∷ xs) zero (s ∷ src) = s ∷ overwrite xs zero src
  overwrite (x ∷ xs) (suc i) src = x ∷ overwrite xs i src

  pub length-overwrite :
      (xs : List A) (i : ℕ) (src : List A) → length (overwrite xs i src) ≡ length xs
  unfolding overwrite
  length-overwrite [] i src = refl
  length-overwrite (x ∷ xs) zero [] = refl
  length-overwrite (x ∷ xs) zero (s ∷ src) = ap suc (length-overwrite xs zero src)
  length-overwrite (x ∷ xs) (suc i) src = ap suc (length-overwrite xs i src)

  pub get_elem?-overwrite_in :
      (xs : List A) (i : ℕ) (src : List A) (k : ℕ)
      → k < length src
      → i + k < length xs
      → get_elem? (overwrite xs i src) (i + k) ≡ get_elem? src k
  unfolding overwrite
  get_elem?-overwrite_in [] i src k h b = absurd (omega arith)
  get_elem?-overwrite_in (x ∷ xs) zero [] k h b = absurd (omega arith)
  get_elem?-overwrite_in (x ∷ xs) zero (s ∷ src) zero h b = refl
  get_elem?-overwrite_in (x ∷ xs) zero (s ∷ src) (suc k) h b =
      let e : 0 + suc k ≡ suc (0 + k) = omega arith in
      rw e (get_elem?-overwrite_in xs 0 src k (omega arith) (omega arith))
  get_elem?-overwrite_in (x ∷ xs) (suc i) src k h b =
      let e : suc i + k ≡ suc (i + k) = omega arith in
      rw e (get_elem?-overwrite_in xs i src k h (omega arith))

  pub get_elem?-overwrite_out :
      (xs : List A) (i : ℕ) (src : List A) (k : ℕ)
      → (k < i) ⊎ (i + length src ≤ k)
      → get_elem? (overwrite xs i src) k ≡ get_elem? xs k
  unfolding overwrite
  get_elem?-overwrite_out [] i src k h = refl
  get_elem?-overwrite_out (x ∷ xs) zero [] k h = refl
  get_elem?-overwrite_out (x ∷ xs) zero (s ∷ src) zero h = absurd (omega arith)
  get_elem?-overwrite_out (x ∷ xs) zero (s ∷ src) (suc k) h =
      get_elem?-overwrite_out xs zero src k (omega arith)
  get_elem?-overwrite_out (x ∷ xs) (suc i) src zero h = refl
  get_elem?-overwrite_out (x ∷ xs) (suc i) src (suc k) h =
      get_elem?-overwrite_out xs i src k (omega arith)

  -- Lists that agree at every index are equal.
  pub eq_of_get_elem? : (xs ys : List A) → ((k : ℕ) → get_elem? xs k ≡ get_elem? ys k) → xs ≡ ys
  eq_of_get_elem? [] [] h = refl
  eq_of_get_elem? [] (y ∷ ys) h = cc (h 0)
  eq_of_get_elem? (x ∷ xs) [] h = cc (h 0)
  eq_of_get_elem? (x ∷ xs) (y ∷ ys) h = cc (h 0, eq_of_get_elem? xs ys (λ k. h (suc k)))

  pub get_elem?-take :
      (n : ℕ) (xs : List A) (k : ℕ)
      → get_elem? (take n xs) k ≡ (if ltb k n then get_elem? xs k else none)
  get_elem?-take zero xs k = ground arith
  get_elem?-take (suc n) [] k = ground arith
  get_elem?-take (suc n) (x ∷ xs) zero = ground arith
  get_elem?-take (suc n) (x ∷ xs) (suc k) = ground (arith, get_elem?-take n xs k)

  pub get_elem?-drop :
      (n : ℕ) (xs : List A) (k : ℕ) → get_elem? (drop n xs) k ≡ get_elem? xs (n + k)
  get_elem?-drop zero xs k = ap (get_elem? xs) (omega arith)
  get_elem?-drop (suc n) [] k = refl
  get_elem?-drop (suc n) (x ∷ xs) k =
      let e : suc n + k ≡ suc (n + k) = omega arith in rw e (get_elem?-drop n xs k)

  pub get_elem?-append :
      (xs ys : List A) (k : ℕ)
      → get_elem? (xs ++ ys) k
        ≡ (if ltb k (length xs) then get_elem? xs k else get_elem? ys (k - length xs))
  get_elem?-append [] ys k = let e : k - 0 ≡ k = omega arith in rw e (ground arith)
  get_elem?-append (x ∷ xs) ys zero = ground arith
  get_elem?-append (x ∷ xs) ys (suc k) =
      let e : suc k - suc (length xs) ≡ k - length xs = omega arith in
      rw e (ground (arith, get_elem?-append xs ys k))

  -- A read with a default is a read.
  get_or_lem :
      (xs : List A) (i : ℕ) (d : A)
      → get_or xs i d ≡ elim (get_elem? xs i) [ none ↦ d | some x ↦ x ]
  get_or_lem [] i d = refl
  get_or_lem (x ∷ xs) zero d = refl
  get_or_lem (x ∷ xs) (suc i) d = get_or_lem xs i d

  pub get_or-congr :
      (xs ys : List A) (i j : ℕ) (d : A)
      → get_elem? xs i ≡ get_elem? ys j
      → get_or xs i d ≡ get_or ys j d
  get_or-congr xs ys i j d e =
      get_or_lem xs i d
      ∙ ap (λ (o : Option A). elim o [ none ↦ d | some x ↦ x ]) e
      ∙ sym (get_or_lem ys j d)

  pub set-take_last :
      (n : ℕ) (xs : List A) (v : A)
      → n < length xs
      → set (take (suc n) xs) n v ≡ take n xs ++ (v ∷ [])
  set-take_last n [] v h = elim h [ ]
  set-take_last zero (x ∷ xs) v h = refl
  set-take_last (suc n) (x ∷ xs) v h = ap (◌∷◌ x) (set-take_last n xs v (omega arith))

  pub get_elem?-none : (xs : List A) (k : ℕ) → length xs ≤ k → get_elem? xs k ≡ none
  get_elem?-none [] k h = refl
  get_elem?-none (x ∷ xs) zero h = absurd (omega arith)
  get_elem?-none (x ∷ xs) (suc k) h = get_elem?-none xs k (omega arith)

-- A step of `d < c` along a ring of `c` places wraps at most once.
pub mod_step : (a d c : ℕ) → d < c → ((a + d) % c ≡ a % c + d) ⊎ ((a + d) % c + c ≡ a % c + d)
mod_step a d c h =
    let below : a % c < c = mod-lt a (omega arith) in
    let folded : (a % c + d) % c ≡ (a + d) % c = mod-add-mod a c d in
    elim (dec_lt (a % c + d) c) [
      | yes small ↦ inl (sym folded ∙ mod-eq_of_lt small)
      | no big ↦ inr (
          omega (
            arith,
            folded,
            mod-eq-sub-mod {n = a % c + d} {m = c} (omega arith),
            mod-eq_of_lt {n = a % c + d - c} {m = c} (omega arith),
          ))
    ]
