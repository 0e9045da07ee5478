-- ===== src/Tests/Sets.antt =====
-- Sets as lists without repetition: golang-set for the tests.
use panaudia.Base.{
  ◌≡◌, ◌↔◌, refl, sym, ◌∙◌, Bool, true, false, not, ◌&&◌, ◌||◌, List, [], ◌∷◌, if◌then◌else◌, arith,
  inl, inr, Bool-cases,
}
use panaudia.Base.Keys.{Key}
use panaudia.Space.Libraries.{SetLib, any}

module _ {A : Type 0} (key : Key A) where
  abbrev pub has : A → List A → Bool
  has x xs = any (key.same x) xs

  unfoldable pub remove : A → List A → List A
  remove x [] = []
  remove x (y ∷ xs) = let rest = remove x xs in if key.same x y then rest else y ∷ rest

  unfoldable pub add : A → List A → List A
  add x xs = x ∷ remove x xs

  abbrev pub empty_test : List A → Bool
  empty_test [] = true
  empty_test (x ∷ xs) = false

  pub empty_test_iff : (s : List A) → (empty_test s ≡ true) ↔ (s ≡ [])
  empty_test_iff [] = (λ h. refl, λ h. refl)
  empty_test_iff (x ∷ xs) = ground arith

  same_comm : (x y : A) → key.same x y ≡ key.same y x
  same_comm x y = elim (Bool-cases (key.same x y)) [
    | inl e ↦ e ∙ sym ((key.same_iff y x).1 (sym ((key.same_iff x y).0 e)))
    | inr e ↦ elim (Bool-cases (key.same y x)) [
      | inr f ↦ e ∙ sym f
      | inl f ↦
          let back = (key.same_iff x y).1 (sym ((key.same_iff y x).0 f)) in ground (arith, back, e)
    ]
  ]

  pub has-remove : (x y : A) (s : List A) → has y (remove x s) ≡ (not (key.same x y) && has y s)
  unfolding remove
  has-remove x y [] = ground arith
  has-remove x y (z ∷ s) = elim (Bool-cases (key.same x z)) [
    | inl e ↦ elim (Bool-cases (key.same y z)) [
      | inl f ↦
          let one = (key.same_iff x y).1 ((key.same_iff x z).0 e ∙ sym ((key.same_iff y z).0 f)) in
          rw (e, f, one) (has-remove x y s ∙ rw one refl)
      | inr f ↦ rw (e, f) (has-remove x y s)
    ]
    | inr e ↦ elim (Bool-cases (key.same y z)) [
      | inl f ↦ elim (Bool-cases (key.same x y)) [
        | inl g ↦
            let one = (key.same_iff x z).1 ((key.same_iff x y).0 g ∙ (key.same_iff y z).0 f) in
            ground (arith, one, e)
        | inr g ↦ rw (e, f, g) refl
      ]
      | inr f ↦ rw (e, f) (has-remove x y s)
    ]
  ]

  pub has-add : (x y : A) (s : List A) → has y (add x s) ≡ (key.same x y || has y s)
  unfolding add
  has-add x y s = rw (has-remove x y s, same_comm y x) (absorb (key.same x y) (has y s))
    where
      absorb : (a b : Bool) → (a || (not a && b)) ≡ (a || b)
      absorb a b = ground arith

  abbrev pub list_sets : SetLib A key
  list_sets = record {
    Set = List A;
    empty = [];
    add = add;
    remove = remove;
    contains = has;
    contains_any = λ s t. any (λ x. has x s) t;
    is_empty = empty_test;
    elements = λ s. s;
    elements_empty = refl;
    is_empty_iff = empty_test_iff;
    contains-elements = λ x s. refl;
    contains-add = has-add;
    contains-remove = has-remove;
    contains_any_lem = λ s t. refl;
  }
