-- ===== src/Space/Mixer/Cases.antt =====
-- What holds of every branch of an operation holds after it.
use panaudia.Base.{if_both}
use panaudia.Base.{ℕ, ◌≡◌, refl, Option, none, some, [], if◌then◌else◌}
use panaudia.Base.Keys.{Text, text_eq, ◌==◌}
use panaudia.StateCache.{Op}
use panaudia.Space.Libraries.{Libraries}
use panaudia.Space.Mixer.{BaseSpace}
use panaudia.Space.Mixer.Ops.{with_value, with_role, with_other, decode_op_value}

-- A predicate of what is done without an entry, and of what is done with the one that is found
pub found_both {ℓ κ} :
    {A : Type ℓ} (P : A → Type κ) {N : Type 0} (o : Option N) (x : A) (y : N → A)
    → (o ≡ none → P x)
    → ((n : N) → o ≡ some n → P (y n))
    → P (elim o [ none ↦ x | some n ↦ y n ])
found_both P none x y p q = p refl
found_both P (some n) x y p q = q n refl

module _ (lib : Libraries) where
  pub value_both :
      (P : BaseSpace lib → Type 0) (op : Op) (unset : BaseSpace lib)
      (change : lib.floats.Float → BaseSpace lib) (space : BaseSpace lib)
      → P unset
      → ((v : lib.floats.Float) → P (change v))
      → P space
      → P (with_value lib op unset change space)
  value_both P op unset change space u s p =
      if_both P op.tombstone u (decoded (decode_op_value lib op))
    where
      decoded : (o : Option lib.floats.Float) → P (elim o [ none ↦ space | some v ↦ change v ])
      decoded none = p
      decoded (some v) = s v

  pub role_both :
      (P : BaseSpace lib → Type 0) (op : Op) (role : Text) (unset change : Text → BaseSpace lib)
      (space : BaseSpace lib)
      → ((r : Text) → P (unset r))
      → ((r : Text) → P (change r))
      → P space
      → P (with_role lib op role unset change space)
  role_both P op role unset change space u s p =
      if_both P (role == []) p (if_both P op.tombstone (u role) (s role))

  pub other_both :
      (P : BaseSpace lib → Type 0) (op : Op) (other : Text) (unset change : ℕ → BaseSpace lib)
      (space : BaseSpace lib)
      → ((id : ℕ) → P (unset id))
      → ((id : ℕ) → P (change id))
      → P space
      → P (with_other lib op other unset change space)
  other_both P op other unset change space u s p = parsed (lib.uuids.parse other)
    where
      parsed :
          (o : Option ℕ)
          → P (elim o [ none ↦ space | some id ↦ if op.tombstone then unset id else change id ])
      parsed none = p
      parsed (some id) = if_both P op.tombstone (u id) (s id)
