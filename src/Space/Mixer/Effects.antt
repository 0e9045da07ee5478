-- ===== src/Space/Mixer/Effects.antt =====
-- The effects of roles depend on the rules for the roles that are held, and on no others.
use panaudia.Base.{
  ◌≡◌, refl, sym, ap, ◌∙◌, Bool, true, false, Option, none, List, [], ◌∷◌, inl, inr, Bool-cases,
}
use panaudia.Base.Keys.{Text, text_eq, text_beq, text_beq_iff, Key}
use panaudia.Base.Assoc.{Map, lookup}
use panaudia.Space.Libraries.{Libraries, any}
use panaudia.Space.Libraries.Sets.{is_empty_lem, any_at}
use panaudia.Space.Mixer.{role_muted, role_rule, least, take_less}

any_none {ℓ} :
    {A : Type ℓ} (p : A → Bool) (xs : List A) → ((x : A) → p x ≡ false) → any p xs ≡ false
any_none p [] h = refl
any_none p (x ∷ xs) h = rw (h x) (any_none p xs h)

any_agree {ℓ} :
    {A : Type ℓ} (key : Key A) (p q : A → Bool) (xs : List A)
    → ((x : A) → any (key.same x) xs ≡ true → p x ≡ q x)
    → any p xs ≡ any q xs
any_agree key p q [] h = refl
any_agree key p q (x ∷ xs) h =
    rw
      (
        h x (rw ((key.same_iff x x).1 refl) refl),
        any_agree key p q xs
            (λ y k. h y (elim (Bool-cases (key.same y x)) [ inl e ↦ rw e refl | inr e ↦ rw e k ])),
      )
      refl

module _ (lib : Libraries) where
  least_agree :
      (a b : Map Text lib.floats.Float) (roles : List Text) (best : Option lib.floats.Float)
      → ((r : Text) → any (text_eq.same r) roles ≡ true → lookup r a ≡ lookup r b)
      → least lib a roles best ≡ least lib b roles best
  unfolding least
  least_agree a b [] best h = refl
  least_agree a b (r ∷ roles) best h = rw (h r (rw ((text_beq_iff r r).1 refl) refl)) (
      least_agree a b roles (take_less lib (lookup r b) best)
        (λ y k. h y (elim (Bool-cases (text_beq y r)) [ inl e ↦ rw e refl | inr e ↦ rw e k ])))

  least_empty :
      (roles : List Text) (best : Option lib.floats.Float) → least lib [] roles best ≡ best
  unfolding least lookup
  least_empty [] best = refl
  least_empty (r ∷ roles) best = least_empty roles best

  -- The guards of `RefreshEncoderRoleEffects` spare work and change no result.
  role_muted-any :
      (muted roles : lib.texts.Set)
      → role_muted lib muted roles
        ≡ any (λ r. lib.texts.contains r muted) (lib.texts.elements roles)
  unfolding role_muted
  role_muted-any muted roles = elim (Bool-cases (lib.texts.is_empty muted)) [
    | inl e ↦ rw e (
        sym (
          any_none (λ r. lib.texts.contains r muted) (lib.texts.elements roles)
            ((is_empty_lem lib.texts muted).0 e)))
    | inr e ↦ elim (Bool-cases (lib.texts.is_empty roles)) [
      | inl f ↦ rw (e, f) (rw ((lib.texts.is_empty_iff roles).0 f) refl)
      | inr f ↦ rw (e, f) (lib.texts.contains_any_lem muted roles)
    ]
  ]

  role_rule-least :
      (rules : Map Text lib.floats.Float) (roles : lib.texts.Set)
      → role_rule lib rules roles ≡ least lib rules (lib.texts.elements roles) none
  unfolding role_rule least
  role_rule-least [] roles = sym (least_empty (lib.texts.elements roles) none)
  role_rule-least (r ∷ rules) roles = elim (Bool-cases (lib.texts.is_empty roles)) [
    | inl f ↦ rw f (rw ((lib.texts.is_empty_iff roles).0 f) refl)
    | inr f ↦ rw f refl
  ]

  -- Two sets of rules that say the same of the roles that are held
  pub role_muted_agree :
      (a b roles : lib.texts.Set)
      → ((r : Text)
          → lib.texts.contains r roles ≡ true
          → lib.texts.contains r a ≡ lib.texts.contains r b)
      → role_muted lib a roles ≡ role_muted lib b roles
  role_muted_agree a b roles h =
      role_muted-any a roles
      ∙ (any_agree text_eq (λ r. lib.texts.contains r a) (λ r. lib.texts.contains r b)
            (lib.texts.elements roles) (λ r k. h r (lib.texts.contains-elements r roles ∙ k))
          ∙ sym (role_muted-any b roles))

  pub role_rule_agree :
      (a b : Map Text lib.floats.Float) (roles : lib.texts.Set)
      → ((r : Text) → lib.texts.contains r roles ≡ true → lookup r a ≡ lookup r b)
      → role_rule lib a roles ≡ role_rule lib b roles
  role_rule_agree a b roles h =
      role_rule-least a roles
      ∙ (least_agree a b (lib.texts.elements roles) none
            (λ r k. h r (lib.texts.contains-elements r roles ∙ k))
          ∙ sym (role_rule-least b roles))

  -- Who holds no role is under no rule.
  pub role_muted_none : (muted : lib.texts.Set) → role_muted lib muted lib.texts.empty ≡ false
  role_muted_none muted =
      role_muted-any muted lib.texts.empty
      ∙ ap (any (λ r. lib.texts.contains r muted)) lib.texts.elements_empty

  pub role_rule-none :
      (rules : Map Text lib.floats.Float) → role_rule lib rules lib.texts.empty ≡ none
  unfolding least
  role_rule-none rules =
      role_rule-least rules lib.texts.empty
      ∙ ap (λ roles. least lib rules roles none) lib.texts.elements_empty

  -- Who holds a muted role is muted.
  pub role_muted_holds :
      (muted roles : lib.texts.Set) (role : Text)
      → lib.texts.contains role muted ≡ true
      → lib.texts.contains role roles ≡ true
      → role_muted lib muted roles ≡ true
  role_muted_holds muted roles role m h =
      role_muted-any muted roles
      ∙ any_at text_eq (λ r. lib.texts.contains r muted) role (lib.texts.elements roles) m
          (sym (lib.texts.contains-elements role roles) ∙ h)
