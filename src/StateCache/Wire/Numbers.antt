-- ===== src/StateCache/Wire/Numbers.antt =====
-- Numbers in big-endian bytes, in front of more bytes.
use panaudia.Base.{
  ℕ, zero, suc, ◌^◌, ◌<◌, ◌≤◌, ◌≡◌, refl, ap, List, [], ◌∷◌, ◌++◌, arith, length, take, drop,
  get_or,
}
use panaudia.StateCache.Wire.{put_be, get_be}

pub get_be-put_be2 : (v : ℕ) (xs : List ℕ) → v < 2 ^ 16 → get_be 2 (put_be 2 v ++ xs) ≡ v
get_be-put_be2 v xs h = omega arith

pub get_be-put_be4 : (v : ℕ) (xs : List ℕ) → v < 2 ^ 32 → get_be 4 (put_be 4 v ++ xs) ≡ v
get_be-put_be4 v xs h = omega arith

pub get_be-put_be8 : (v : ℕ) (xs : List ℕ) → v < 2 ^ 64 → get_be 8 (put_be 8 v ++ xs) ≡ v
get_be-put_be8 v xs h = omega arith

module _ {ℓ} {A : Type ℓ} where
  pub take-append_length : (xs ys : List A) → take (length xs) (xs ++ ys) ≡ xs
  take-append_length [] ys = refl
  take-append_length (x ∷ xs) ys = ap (◌∷◌ x) (take-append_length xs ys)

  pub drop-append_length : (xs ys : List A) → drop (length xs) (xs ++ ys) ≡ ys
  drop-append_length [] ys = refl
  drop-append_length (x ∷ xs) ys = drop-append_length xs ys

  -- Bytes behind do not matter to what is read in front.
  pub take-append : (n : ℕ) (xs ys : List A) → n ≤ length xs → take n (xs ++ ys) ≡ take n xs
  take-append zero xs ys h = refl
  take-append (suc n) [] ys h = absurd (omega arith)
  take-append (suc n) (x ∷ xs) ys h = ap (◌∷◌ x) (take-append n xs ys (omega arith))

  pub drop-append : (n : ℕ) (xs ys : List A) → n ≤ length xs → drop n (xs ++ ys) ≡ drop n xs ++ ys
  drop-append zero xs ys h = refl
  drop-append (suc n) [] ys h = absurd (omega arith)
  drop-append (suc n) (x ∷ xs) ys h = drop-append n xs ys (omega arith)

  pub get_or-append :
      (xs ys : List A) (i : ℕ) (d : A) → i < length xs → get_or (xs ++ ys) i d ≡ get_or xs i d
  get_or-append [] ys i d h = elim h [ ]
  get_or-append (x ∷ xs) ys zero d h = refl
  get_or-append (x ∷ xs) ys (suc i) d h = get_or-append xs ys i d (omega arith)
