-- ===== src/Space/BouncerClient/Kick/Names.antt =====
-- Whom an operation kicks: `is_target` as a condition on its topic and key.
use panaudia.Base.{
  ℕ, ◌≡◌, ◌≢◌, ◌↔◌, ◌⊎◌, inl, inr, refl, sym, ap, ◌∙◌, Bool, true, false, Option, none, some, List,
  [], ◌∷◌, ◌++◌, if◌then◌else◌, eqb, eqb_iff, take, drop, arith, Bool-cases, Some, take-drop,
}
use panaudia.Base.Keys.{Text, bytes, text_eq, text_beq_iff, ◌==◌}
use panaudia.Commands.{UuidLib}
use panaudia.Space.KickGate.{split_entity_key}
use panaudia.Space.BouncerClient.Kick.{has_role, is_target}

module _ (lib : UuidLib) where
  -- The key names a kick of the client: its own, or that of one of its roles.
  pub Kicks : ℕ → List Text → Text → Text → Type 0
  Kicks my_uuid my_roles topic key =
      ((topic ≡ bytes "entity") × (split_entity_key lib key ≡ some (my_uuid, bytes "kicked")))
      ⊎ ((topic ≡ bytes "space")
          × (key ≡ bytes "roles-kicked." ++ drop 13 key)
          × (drop 13 key ≢ [])
          × Some (λ r. r ≡ drop 13 key) my_roles)

has_role_iff :
    (role : Text) (roles : List Text) → (has_role role roles ≡ true) ↔ Some (λ r. r ≡ role) roles
unfolding has_role
has_role_iff role [] = (λ h. ground arith, λ h. absurd h)
has_role_iff role (r ∷ roles) =
    let same = text_beq_iff r role in
    let rest = has_role_iff role roles in
    (
      λ h. elim (Bool-cases (r == role)) [
        | inl e ↦ inl (same.0 e)
        | inr e ↦ inr (rest.0 (ground arith))
      ],
      λ s. elim s [ inl e ↦ rw (same.1 e) refl | inr s ↦ ground (arith, rest.1 s) ],
    )

prefix_iff :
    (key : Text)
    → (take 13 key == bytes "roles-kicked." ≡ true) ↔ (key ≡ bytes "roles-kicked." ++ drop 13 key)
prefix_iff key = (
  λ h.
      take-drop 13 key
      ∙ ap (λ t. t ++ drop 13 key) ((text_beq_iff (take 13 key) (bytes "roles-kicked.")).0 h),
  λ h. (text_beq_iff (take 13 key) (bytes "roles-kicked.")).1 (ap (take 13) h),
)

-- The tests of the space topic in their order, as a condition
role_tests :
    (a b c : Bool)
    → ((if a then if b then false else c else false) ≡ true)
      ↔ ((a ≡ true) × (b ≡ false) × (c ≡ true))
role_tests a b c = ground arith

role_iff :
    (key : Text) (roles : List Text)
    → ((if take 13 key == bytes "roles-kicked."
          then if drop 13 key == [] then false else has_role (drop 13 key) roles
          else false)
        ≡ true)
      ↔ ((key ≡ bytes "roles-kicked." ++ drop 13 key)
          × (drop 13 key ≢ [])
          × Some (λ r. r ≡ drop 13 key) roles)
role_iff key roles =
    let tests =
      role_tests (take 13 key == bytes "roles-kicked.") (drop 13 key == [])
        (has_role (drop 13 key) roles) in
    let empty = text_beq_iff (drop 13 key) [] in
    (
      λ h.
          let (a, b, c) = tests.0 h in
          (
            (prefix_iff key).0 a,
            λ e. ground (arith, empty.1 e),
            (has_role_iff (drop 13 key) roles).0 c,
          ),
      λ (a, b, c). tests.1 (
        (prefix_iff key).1 a,
        elim (Bool-cases (drop 13 key == [])) [ inl e ↦ absurd (b (empty.0 e)) | inr e ↦ e ],
        (has_role_iff (drop 13 key) roles).1 c,
      ),
    )

module _ (lib : UuidLib) where
  entity_not_space : bytes "entity" ≢ bytes "space"
  entity_not_space h = ground (arith, h)

  entity_iff :
      (my_uuid : ℕ) (o : Option (ℕ × Text))
      → ((elim o [
        | none ↦ false
        | some (id, rest) ↦ if rest == bytes "kicked" then eqb id my_uuid else false
      ])
          ≡ true)
        ↔ (o ≡ some (my_uuid, bytes "kicked"))
  entity_iff my_uuid none = (λ h. ground arith, λ h. ground arith)
  entity_iff my_uuid (some (id, rest)) = (
    λ h.
        let is_kick : rest ≡ bytes "kicked" =
          (text_beq_iff rest (bytes "kicked")).0 (ground arith) in
        let own : id ≡ my_uuid = (eqb_iff id my_uuid).0 (ground arith) in
        ap (λ i. some (i, rest)) own ∙ ap (λ t. some (my_uuid, t)) is_kick,
    λ h.
        let is_kick : rest ≡ bytes "kicked" = ground arith in
        let own : id ≡ my_uuid = ground arith in
        rw ((text_beq_iff rest (bytes "kicked")).1 is_kick, (eqb_iff id my_uuid).1 own) refl,
  )

  pub is_target_iff :
      (my_uuid : ℕ) (roles : List Text) (topic key : Text)
      → (is_target lib my_uuid roles topic key ≡ true) ↔ Kicks lib my_uuid roles topic key
  unfolding is_target Kicks
  is_target_iff my_uuid roles topic key = elim (Bool-cases (topic == bytes "entity")) [
    | inl e ↦ rw e (
        let (there, back) = entity_iff my_uuid (split_entity_key lib key) in
        let at : topic ≡ bytes "entity" = (text_beq_iff topic (bytes "entity")).0 e in
        (
          λ h. inl (at, there h),
          λ k. elim k [
            | inl (t, s) ↦ back s
            | inr (t, k, n, r) ↦ absurd (entity_not_space (sym at ∙ t))
          ],
        ))
    | inr e ↦ rw e (elim (Bool-cases (topic == bytes "space")) [
      | inl f ↦ rw f (
          let (there, back) = role_iff key roles in
          let at : topic ≡ bytes "space" = (text_beq_iff topic (bytes "space")).0 f in
          (
            λ h. let (a, b, c) = there h in inr (at, a, b, c),
            λ k. elim k [
              | inl (t, s) ↦ absurd (entity_not_space (sym t ∙ at))
              | inr (t, a, b, c) ↦ back (a, b, c)
            ],
          ))
      | inr f ↦ rw f (
        λ h. ground (arith, h),
        λ k. elim k [
          | inl (t, s) ↦ ground (arith, e, (text_beq_iff topic (bytes "entity")).1 t)
          | inr (t, a, b, c) ↦ ground (arith, f, (text_beq_iff topic (bytes "space")).1 t)
        ],
      )
    ])
  ]
