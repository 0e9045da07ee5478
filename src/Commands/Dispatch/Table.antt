-- ===== src/Commands/Dispatch/Table.antt =====
-- The default table of roles: who may act on others.
use panaudia.Base.{
  ◌≡◌, refl, Bool, true, false, ◌||◌, List, [], ◌∷◌, ◌⊎◌, arith, All, take, subst, inl, inr,
  Bool-cases,
}
use panaudia.Base.Keys.{Text, bytes, text_eq, text_beq_iff, ◌==◌}
use panaudia.Base.Assoc.{lookup}
use panaudia.Commands.Roles.{
  Permissions, RolePermissions, contains, any_role, role_grants_command, is_command_allowed,
  everyone_role,
}
use panaudia.Commands.Dispatch.{default_role_permissions}

-- A command that acts on others.
abbrev pub is_space : Text → Bool
is_space name = take 6 name == bytes "space."

contains-All {ℓ} :
    (P : Text → Type ℓ) (xs : List Text) (x : Text) → All P xs → contains xs x ≡ true → P x
unfolding contains
contains-All P [] x h e = cc
contains-All P (y ∷ ys) x h e = elim (Bool-cases (y == x)) [
  | inl k ↦ subst P ((text_beq_iff y x).0 k) h.0
  | inr k ↦ contains-All P ys x h.1 (ground arith)
]

-- What `any_role` finds is a role of the holder.
any_role-contains :
    (grants : Text → Bool) (a b : Text) (roles : List Text)
    → ((r : Text) → grants r ≡ true → (r == a || r == b) ≡ true)
    → any_role grants roles ≡ true
    → (contains roles a || contains roles b) ≡ true
unfolding any_role contains
any_role-contains grants a b [] h e = cc
any_role-contains grants a b (r ∷ roles) h e = elim (Bool-cases (grants r)) [
  | inl k ↦ ground (arith, h r k)
  | inr k ↦ ground (arith, any_role-contains grants a b roles h (ground arith))
]

-- The roles that may hold a command that acts on others.
abbrev pub is_trusted : Text → Bool
is_trusted r = r == bytes "admin" || r == bytes "moderator"

-- A role of the table is trusted, or all its commands act on its holder only.
abbrev pub Bounded : Text × RolePermissions → Type 0
Bounded (r, perms) = (is_trusted r ≡ true) ⊎ All (λ x. is_space x ≡ false) perms.commands

table_grants :
    (p : Permissions) (name r : Text)
    → All Bounded p
    → is_space name ≡ true
    → role_grants_command p r name ≡ true
    → is_trusted r ≡ true
unfolding role_grants_command lookup
table_grants [] name r b h e = cc
table_grants ((q, perms) ∷ p) name r b h e = elim (Bool-cases (q == r)) [
  | inl k ↦ elim b.0 [
    | inl t ↦ subst (λ x. is_trusted x ≡ true) ((text_beq_iff q r).0 k) t
    | inr t ↦
        ground (arith, contains-All (λ x. is_space x ≡ false) perms.commands name t (ground arith))
  ]
  | inr k ↦ table_grants p name r b.1 h (ground arith)
]

default-Bounded : All Bounded default_role_permissions
default-Bounded = (
  inr (refl, (refl, (refl, (refl, tt)))),
  (inl refl, (inl refl, (inr (refl, (refl, tt)), (inr tt, tt)))),
)

-- With the default table, a command that acts on others is allowed only to an admin or a moderator.
pub default_role_permissions_lem :
    (roles : List Text) (name : Text)
    → is_space name ≡ true
    → is_command_allowed default_role_permissions roles name ≡ true
    → (contains roles (bytes "admin") || contains roles (bytes "moderator")) ≡ true
unfolding is_command_allowed
default_role_permissions_lem roles name h e =
    elim (Bool-cases (role_grants_command default_role_permissions everyone_role name)) [
      | inl k ↦
          ground
            (arith, table_grants default_role_permissions name everyone_role default-Bounded h k)
      | inr k ↦
          any_role-contains (λ r. role_grants_command default_role_permissions r name)
            (bytes "admin") (bytes "moderator") roles
            (λ r. table_grants default_role_permissions name r default-Bounded h) (ground arith)
    ]
