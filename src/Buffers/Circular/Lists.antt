-- ===== src/Buffers/Circular/Lists.antt =====
-- Positions in a ring, and the lists that stay of a queue when floats are dropped.
use native.Mathlib.Nat.{mod-lt, mod-add-mod, mod-eq_of_lt, mod-eq-sub-mod}
use panaudia.Base.{
  ℕ, zero, suc, ◌+◌, ◌-◌, ◌%◌, ◌≤◌, ◌<◌, ◌≡◌, refl, List, [], ◌∷◌, ◌++◌, drop, length, arith,
}

-- Where a position ends up that goes on by no more than the ring and passes its end
pub wrapped : (a d c : ℕ) → 0 < c → d ≤ c → c < a % c + d → (a + d) % c ≡ d - (c - a % c)
wrapped a d c pos h past =
    let below : a % c < c = mod-lt a pos in
    omega (
      arith,
      mod-add-mod a c d,
      mod-eq-sub-mod {n = a % c + d} {m = c} (omega arith),
      mod-eq_of_lt {n = a % c + d - c} {m = c} (omega arith),
    )

pub drop-append_in :
    {A : Type 0} (k : ℕ) (xs ys : List A) → k ≤ length xs → drop k (xs ++ ys) ≡ drop k xs ++ ys
drop-append_in zero xs ys h = refl
drop-append_in (suc k) [] ys h = elim h [ ]
drop-append_in (suc k) (x ∷ xs) ys h = drop-append_in k xs ys (omega arith)

pub drop-append_past :
    {A : Type 0} (k : ℕ) (xs ys : List A) → drop (length xs + k) (xs ++ ys) ≡ drop k ys
drop-append_past k [] ys = let e : 0 + k ≡ k = omega arith in rw e refl
drop-append_past k (x ∷ xs) ys =
    let e : suc (length xs) + k ≡ suc (length xs + k) = omega arith in
    rw e (drop-append_past k xs ys)

pub drop-all : {A : Type 0} (xs : List A) → drop (length xs) xs ≡ []
drop-all [] = refl
drop-all (x ∷ xs) = drop-all xs

pub drop-drop : {A : Type 0} (a b : ℕ) (xs : List A) → drop a (drop b xs) ≡ drop (b + a) xs
drop-drop a zero xs = let e : 0 + a ≡ a = omega arith in rw e refl
drop-drop zero (suc b) [] = let e : suc b + 0 ≡ suc (b + 0) = omega arith in rw e refl
drop-drop (suc a) (suc b) [] = let e : suc b + suc a ≡ suc (b + suc a) = omega arith in rw e refl
drop-drop a (suc b) (x ∷ xs) =
    let e : suc b + a ≡ suc (b + a) = omega arith in rw e (drop-drop a b xs)

-- The last `n` of a list
abbrev pub newest {ℓ} : {A : Type ℓ} → ℕ → List A → List A
newest n xs = drop (length xs - n) xs
