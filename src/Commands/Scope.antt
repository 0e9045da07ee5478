-- ===== src/Commands/Scope.antt =====
-- core/commands/scope.go: what a cached key's lifetime is tied to.
use panaudia.Base.{
  ℕ, ◌≡◌, ◌≢◌, refl, Bool, ◌||◌, [], ◌∷◌, ◌++◌, none, some, eqb, if◌then◌else◌, arith, All,
}
use panaudia.Base.Keys.{Text, bytes, text_eq, ◌==◌}
use panaudia.Commands.{UuidLib}

-- `KeyScope`
pub data KeyScope : Type 0 where
  connection policy : KeyScope

-- `strings.Cut(s, ".")`: what stands before the first dot, and what stands after it.
unfoldable pub cut : Text → Text × Text
cut [] = ([], [])
cut (c ∷ s) = let rest = cut s in if eqb c b'.' then ([], s) else (c ∷ rest.0, rest.1)

-- `entityPolicyFields`
unfoldable pub is_policy_field : Text → Bool
is_policy_field field =
    field == bytes "muted"
    || (field == bytes "kicked" || (field == bytes "gain" || field == bytes "attenuation"))

-- A text with no dot is cut off at the dot behind it.
pub cut-append : (s t : Text) → All (λ c. c ≢ b'.') s → cut (s ++ (b'.' ∷ t)) ≡ (s, t)
unfolding cut
cut-append [] t h = refl
cut-append (c ∷ s) t h = ground (arith, cut-append s t h.1, h.0)

pub cut-no_dot : (s : Text) → All (λ c. c ≢ b'.') s → cut s ≡ (s, [])
unfolding cut
cut-no_dot [] h = refl
cut-no_dot (c ∷ s) h = ground (arith, cut-no_dot s h.1, h.0)

module _ (lib : UuidLib) where
  -- `splitSubjectKey`
  unfoldable pub split_subject_key : Text → ℕ × Text
  split_subject_key key = elim (lib.parse (cut key).0) [
    | none ↦ (0, [])
    | some id ↦ (id, (cut (cut key).1).0)
  ]

  -- `ClassifyKey`
  unfoldable pub classify_key : Text → Text → KeyScope × ℕ
  classify_key topic key =
      let (subject, field) = split_subject_key key in
      if topic == bytes "space"
      then (policy, 0)
      else if topic == bytes "entity"
      then if is_policy_field field then (policy, subject) else (connection, subject)
      else (connection, subject)

  -- A key that starts with a uuid and a dot has that uuid for its subject, and the segment behind
  -- the dot for its field.
  pub split_subject_key_lem :
      (u : ℕ) (rest : Text) → split_subject_key (lib.to_text u ++ (b'.' ∷ rest)) ≡ (u, (cut rest).0)
  unfolding split_subject_key
  split_subject_key_lem u rest =
      ground (arith, cut-append (lib.to_text u) rest (lib.to_text_no_dot u), lib.parse-to_text u)
