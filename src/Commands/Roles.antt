-- ===== src/Commands/Roles.antt =====
-- core/commands/spec.go: the authoriser. Its table maps a role to what the role grants.
use panaudia.Base.{
  ◌≡◌, refl, Bool, true, false, ◌&&◌, ◌||◌, List, [], ◌∷◌, ◌++◌, none, some, if◌then◌else◌, arith,
}
use panaudia.Base.Keys.{Text, bytes, text_eq, text_beq_iff, ◌==◌}
use panaudia.Base.Assoc.{Map, lookup}

-- `RolePermissions`
pub record RolePermissions : Type 0 where
  pub commands : List Text
  pub read : List Text

abbrev pub Permissions : Type 0
Permissions = Map Text RolePermissions

-- `for _, name := range names { if name == wanted { return true } }`
unfoldable pub contains : List Text → Text → Bool
contains [] x = false
contains (y ∷ ys) x = let rest = contains ys x in y == x || rest

-- `EveryoneRole`
abbrev pub everyone_role : Text
everyone_role = bytes "everyone"

-- `roleGrantsCommand` and `roleGrantsReadCap`
unfoldable pub role_grants_command : Permissions → Text → Text → Bool
role_grants_command p role command = elim (lookup role p) [
  | none ↦ false
  | some perms ↦ contains perms.commands command
]

pub role_grants_read_cap : Permissions → Text → Text → Bool
role_grants_read_cap p role cap_name = elim (lookup role p) [
  | none ↦ false
  | some perms ↦ contains perms.read cap_name
]

-- The loop over the holder's roles.
unfoldable pub any_role : (Text → Bool) → List Text → Bool
any_role grants [] = false
any_role grants (r ∷ roles) = let rest = any_role grants roles in grants r || rest

-- `IsCommandAllowed`
unfoldable pub is_command_allowed : Permissions → List Text → Text → Bool
is_command_allowed p roles command =
    if role_grants_command p everyone_role command
    then true
    else any_role (λ r. role_grants_command p r command) roles

-- `HasReadCap`
pub has_read_cap : Permissions → List Text → Text → Bool
has_read_cap p roles cap_name =
    if role_grants_read_cap p everyone_role cap_name
    then true
    else any_role (λ r. role_grants_read_cap p r cap_name) roles

-- `AllReadCaps`
abbrev pub all_read_caps : List Text
all_read_caps = bytes "entity.all" ∷ bytes "space.read" ∷ []

-- `ResolveReadCaps`: the caps that the set holds.
pub resolve_from : Permissions → List Text → List Text → List Text
resolve_from p roles [] = []
resolve_from p roles (c ∷ caps) =
    let rest = resolve_from p roles caps in if has_read_cap p roles c then c ∷ rest else rest

pub resolve_read_caps : Permissions → List Text → List Text
resolve_read_caps p roles = resolve_from p roles all_read_caps

-- More roles grant no less.
any_role-append :
    (grants : Text → Bool) (xs ys : List Text)
    → any_role grants (xs ++ ys) ≡ any_role grants xs || any_role grants ys
unfolding any_role
any_role-append grants [] ys = refl
any_role-append grants (x ∷ xs) ys = ground (arith, any_role-append grants xs ys)

-- A holder of the roles of two tickets may do exactly what either ticket allows.
pub is_command_allowed-append :
    (p : Permissions) (xs ys : List Text) (command : Text)
    → is_command_allowed p (xs ++ ys) command
      ≡ is_command_allowed p xs command || is_command_allowed p ys command
unfolding is_command_allowed
is_command_allowed-append p xs ys command =
    ground (arith, any_role-append (λ r. role_grants_command p r command) xs ys)

contains-resolve_from :
    (p : Permissions) (roles caps : List Text) (c : Text)
    → contains (resolve_from p roles caps) c ≡ contains caps c && has_read_cap p roles c
unfolding contains resolve_from
contains-resolve_from p roles [] c = refl
contains-resolve_from p roles (d ∷ caps) c =
    ground (arith, contains-resolve_from p roles caps c, text_beq_iff d c)

-- The set of resolved caps holds exactly the defined caps that the roles have.
pub contains-resolve_read_caps :
    (p : Permissions) (roles : List Text) (c : Text)
    → contains (resolve_read_caps p roles) c ≡ contains all_read_caps c && has_read_cap p roles c
unfolding resolve_read_caps
contains-resolve_read_caps p roles c = contains-resolve_from p roles all_read_caps c
