-- ===== src/Space/Libraries/Sets.antt =====
-- golang-set by its elements.
use panaudia.Base.{
  ◌≡◌, ◌↔◌, refl, sym, ap, ◌∙◌, Bool, true, false, List, [], ◌∷◌, inl, inr, Bool-cases, arith,
}
use panaudia.Base.Keys.{Key}
use panaudia.Space.Libraries.{SetLib, any}

any_of {ℓ} :
    {A : Type ℓ} (key : Key A) (p : A → Bool) (xs : List A)
    → any p xs ≡ true
    → (x : A) × ((p x ≡ true) × (any (key.same x) xs ≡ true))
any_of key p [] h = ground arith
any_of key p (x ∷ xs) h = elim (Bool-cases (p x)) [
  | inl e ↦ (x, (e, rw ((key.same_iff x x).1 refl) refl))
  | inr e ↦
      let (y, (k, l)) = any_of key p xs (ground arith) in
      (y, (k, elim (Bool-cases (key.same y x)) [ inl q ↦ rw q refl | inr q ↦ rw q l ]))
]

pub any_at {ℓ} :
    {A : Type ℓ} (key : Key A) (p : A → Bool) (x : A) (xs : List A)
    → p x ≡ true
    → any (key.same x) xs ≡ true
    → any p xs ≡ true
any_at key p x [] h l = l
any_at key p x (y ∷ xs) h l = elim (Bool-cases (key.same x y)) [
  | inl q ↦ rw (ap p (sym ((key.same_iff x y).0 q)) ∙ h) refl
  | inr q ↦ elim (Bool-cases (p y)) [
    | inl r ↦ rw r refl
    | inr r ↦ rw r (any_at key p x xs h (ground arith))
  ]
]

module _ {A : Type 0} {key : Key A} (lib : SetLib A key) where
  -- A set is empty when it contains nothing.
  pub is_empty_lem : (s : lib.Set) → (lib.is_empty s ≡ true) ↔ ((x : A) → lib.contains x s ≡ false)
  is_empty_lem s = (
    λ h x. lib.contains-elements x s ∙ ap (any (key.same x)) ((lib.is_empty_iff s).0 h),
    λ h.
        (lib.is_empty_iff s).1
          (none_left (lib.elements s) (λ x. sym (lib.contains-elements x s) ∙ h x)),
  )
    where
      none_left : (xs : List A) → ((x : A) → any (key.same x) xs ≡ false) → xs ≡ []
      none_left [] h = refl
      none_left (x ∷ xs) h = ground (arith, h x, (key.same_iff x x).1 refl)

  -- Two sets meet when some element is in both.
  pub contains_any_iff :
      (s t : lib.Set)
      → (lib.contains_any s t ≡ true)
        ↔ ((x : A) × ((lib.contains x s ≡ true) × (lib.contains x t ≡ true)))
  contains_any_iff s t = (
    λ h.
        let (x, (k, l)) =
          any_of key (λ x. lib.contains x s) (lib.elements t)
            (sym (lib.contains_any_lem s t) ∙ h) in
        (x, (k, lib.contains-elements x t ∙ l)),
    λ (x, (k, l)).
        lib.contains_any_lem s t
        ∙ any_at key (λ x. lib.contains x s) x (lib.elements t) k
            (sym (lib.contains-elements x t) ∙ l),
  )
