-- ===== src/Commands/Dispatch/Outcome.antt =====
-- What `Dispatch` lets through with the default registry.
use panaudia.Base.{
  ℕ, ◌≡◌, refl, true, ◌||◌, List, [], ◌∷◌, ◌⊎◌, some, arith, All, subst, inl, inr, Bool-cases,
  Option-cases,
}
use panaudia.Base.Keys.{Text, bytes, text_eq, text_beq_iff, ◌==◌}
use panaudia.Base.Assoc.{Map, lookup, insert, lookup-insert}
use panaudia.Commands.{UuidLib, JsonLib, Op}
use panaudia.Commands.Roles.{Permissions, contains, is_command_allowed}
use panaudia.Commands.Catalog.{Built, made, failed, BuildError, CommandSpec}
use panaudia.Commands.Catalog.Keys.{ScopedAs, InScope, command_specs-InScope}
use panaudia.Commands.Catalog.Specs.{
  command_specs, space_entity_mute, space_entity_unmute, space_entity_kick, space_entity_unkick,
  space_entity_set_gain, space_entity_set_attenuation, space_role_mute, space_role_unmute,
  space_role_kick, space_role_unkick, space_role_set_gain, space_role_unset_gain,
  space_role_set_attenuation, space_role_unset_attenuation, personal_entity_mute,
  personal_entity_unmute, personal_entity_solo, personal_entity_unsolo, personal_role_mute,
  personal_role_unmute,
}
use panaudia.Commands.Dispatch.{
  ok, registry, add_specs, new_registry, dispatch, default_role_permissions,
}
use panaudia.Commands.Dispatch.Table.{is_space, default_role_permissions_lem}

Built-cases :
    {A : Type 0} (m : Built A) → ((a : A) × (m ≡ made a)) ⊎ ((e : BuildError) × (m ≡ failed e))
Built-cases (made a) = inl (a, refl)
Built-cases (failed e) = inr (e, refl)

module _ (lib : UuidLib) (json : JsonLib) where
  open json use {Raw, Float}

  -- What is found in a registry of good specs is good, and is found under its name.
  abbrev Good : (CommandSpec Raw Float → Type 0) → Map Text (CommandSpec Raw Float) → Type 0
  Good P m = (n : Text) (s : CommandSpec Raw Float) → lookup n m ≡ some s → P s × (s.name ≡ n)

  insert-Good :
      (P : CommandSpec Raw Float → Type 0) (t : CommandSpec Raw Float)
      (m : Map Text (CommandSpec Raw Float))
      → P t
      → Good P m
      → Good P (insert t.name t m)
  insert-Good P t m h g n s f = elim (Bool-cases (t.name == n)) [
    | inl k ↦ (
      subst P (ground (arith, lookup-insert t.name n t m)) h,
      ground (arith, lookup-insert t.name n t m, text_beq_iff t.name n),
    )
    | inr k ↦ g n s (ground (arith, lookup-insert t.name n t m))
  ]

  add_specs-Good :
      (P : CommandSpec Raw Float → Type 0) (specs : List (CommandSpec Raw Float))
      (m r : Map Text (CommandSpec Raw Float))
      → All P specs
      → Good P m
      → add_specs specs m ≡ registry r
      → Good P r
  unfolding add_specs
  add_specs-Good P [] m r h g e = subst (Good P) (ground arith) g
  add_specs-Good P (t ∷ specs) m r h g e = elim (Bool-cases (t.name == [])) [
    | inl k ↦ λ n s f. ground arith
    | inr k ↦ elim (Option-cases (lookup t.name m)) [
      | inl l ↦
          add_specs-Good P specs (insert t.name t m) r h.1 (insert-Good P t m h.0 g) (ground arith)
      | inr l ↦ λ n s f. ground (arith, l.1)
    ]
  ]

  -- The catalog of commands makes a registry, and every command is found in it under its name.
  pub default_registry :
      (r : Map Text (CommandSpec Raw Float)) × (new_registry (command_specs lib json) ≡ registry r)
      × All (λ s. lookup s.name r ≡ some s) (command_specs lib json)
  unfolding new_registry add_specs command_specs lookup insert space_entity_mute space_entity_unmute
      space_entity_kick space_entity_unkick space_entity_set_gain space_entity_set_attenuation
      space_role_mute space_role_unmute space_role_kick space_role_unkick space_role_set_gain
      space_role_unset_gain space_role_set_attenuation space_role_unset_attenuation
      personal_entity_mute personal_entity_unmute personal_entity_solo personal_entity_unsolo
      personal_role_mute personal_role_unmute
  default_registry = (
    _,
    refl,
    (
      refl,
      (
        refl,
        (
          refl,
          (
            refl,
            (
              refl,
              (
                refl,
                (
                  refl,
                  (
                    refl,
                    (
                      refl,
                      (
                        refl,
                        (
                          refl,
                          (
                            refl,
                            (refl, (refl, (refl, (refl, (refl, (refl, (refl, (refl, tt)))))))),
                          ),
                        ),
                      ),
                    ),
                  ),
                ),
              ),
            ),
          ),
        ),
      ),
    ),
  )

  dispatch_cases :
      (reg : Map Text (CommandSpec Raw Float)) (auth : Permissions) (name : Text) (args : Raw)
      (me : ℕ) (roles : List Text) (now : ℕ) (op : Op Float)
      → dispatch reg (some auth) name args me roles now ≡ ok op
      → (is_command_allowed auth roles name ≡ true)
        × ((s : CommandSpec Raw Float) × (lookup name reg ≡ some s)
            × (s.build args me now ≡ made op))
  unfolding dispatch
  dispatch_cases reg auth name args me roles now op e = elim (Option-cases (lookup name reg)) [
    | inl k ↦ ground arith
    | inr (s, k) ↦ elim (Bool-cases (is_command_allowed auth roles name)) [
      | inl a ↦ elim (Built-cases (s.build args me now)) [
        | inl (o, b) ↦ (a, (s, k, ground arith))
        | inr (f, b) ↦ ground arith
      ]
      | inr a ↦ ground arith
    ]
  ]

  -- With the default table of roles, and any registry, a command that acts on others is made an
  -- operation only for a caller who is an admin or a moderator.
  pub dispatch-trusted :
      (reg : Map Text (CommandSpec Raw Float)) (name : Text) (args : Raw) (me : ℕ)
      (roles : List Text) (now : ℕ) (op : Op Float)
      → dispatch reg (some default_role_permissions) name args me roles now ≡ ok op
      → is_space name ≡ true
      → (contains roles (bytes "admin") || contains roles (bytes "moderator")) ≡ true
  dispatch-trusted reg name args me roles now op e h =
      default_role_permissions_lem roles name h
        (dispatch_cases reg default_role_permissions name args me roles now op e).0

  -- With the default registry and any table of roles, the operation that a personal command makes has
  -- a key under the caller's own uuid, which goes with the caller's connection; the operation of any
  -- other command has a key of policy, which no connection's end sweeps.
  pub dispatch-scope :
      (reg : Map Text (CommandSpec Raw Float)) (auth : Permissions) (name : Text) (args : Raw)
      (me : ℕ) (roles : List Text) (now : ℕ) (op : Op Float)
      → new_registry (command_specs lib json) ≡ registry reg
      → dispatch reg (some auth) name args me roles now ≡ ok op
      → ScopedAs lib json name me op
  unfolding new_registry lookup
  dispatch-scope reg auth name args me roles now op r e =
      let c = dispatch_cases reg auth name args me roles now op e in
      let good =
        add_specs-Good (InScope lib json) (command_specs lib json) [] reg
          (command_specs-InScope lib json) (λ n s f. cc) r name c.1.0 c.1.1 in
      subst (λ n. ScopedAs lib json n me op) good.1 (good.0 args me now op c.1.2)
