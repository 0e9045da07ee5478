-- ===== src/Commands/Catalog/Keys.antt =====
-- The keys that the commands write: whose they are, and how long they live.
use panaudia.Base.{ℕ, ◌≡◌, refl, Bool, true, false, ◌∷◌, ◌++◌, arith, All, take, subst}
use panaudia.Base.Int.{ℤ}
use panaudia.Base.Keys.{Text, bytes, text_eq, ◌==◌}
use panaudia.Commands.{UuidLib, JsonLib, Op, Value, on, absent, millis, float}
use panaudia.Commands.Scope.{
  connection, policy, cut, is_policy_field, split_subject_key_lem, classify_key,
}
use panaudia.Commands.Catalog.{
  Built, made, failed, ◌>>=◌, CommandSpec, decode_args, require_entity, require_role, set_op,
  kick_expiry, require_gain, require_attenuation,
}
use panaudia.Commands.Catalog.Specs.{
  command_specs, space_entity_mute, space_entity_unmute, space_entity_kick, space_entity_unkick,
  space_entity_set_gain, space_entity_set_attenuation, space_role_mute, space_role_unmute,
  space_role_kick, space_role_unkick, space_role_set_gain, space_role_unset_gain,
  space_role_set_attenuation, space_role_unset_attenuation, personal_entity_mute,
  personal_entity_unmute, personal_entity_solo, personal_entity_unsolo, personal_role_mute,
  personal_role_unmute,
}

-- Whatever is made satisfies `P`.
abbrev pub Makes {ℓ κ} : {A : Type ℓ} → (A → Type κ) → Built A → Type (ℓ ⊔ κ)
Makes {A} P m = (a : A) → m ≡ made a → P a

module _ {A B : Type 0} (P : B → Type 0) where
  bind-Makes : (m : Built A) (f : A → Built B) → ((a : A) → Makes P (f a)) → Makes P (m >>= f)
  bind-Makes (made a) f h b k = h a b k
  bind-Makes (failed e) f h b k = cc

made-Makes : {B : Type 0} (P : B → Type 0) (b : B) → P b → Makes P (made b)
made-Makes P b h a e = subst P (ground arith) h

-- `personal.…`
abbrev pub is_personal : Text → Bool
is_personal name = take 9 name == bytes "personal."

-- The first of a list, and the others.
infixr 5 ◌&◌
abbrev ◌&◌ : {A B : Type 0} → A → B → A × B
a & b = (a, b)

module _ (lib : UuidLib) (json : JsonLib) where
  open lib use {to_text}
  open json use {Raw, Float}

  -- A moderation rule: its key is never swept with a connection.
  abbrev pub IsPolicy : Op Float → Type 0
  IsPolicy op = (classify_key lib op.topic op.key).0 ≡ policy

  -- A preference of the caller: under the caller's own uuid, and swept with the caller's connection.
  abbrev pub IsPersonal : ℕ → Op Float → Type 0
  IsPersonal me op =
      (op.topic ≡ bytes "entity")
      × ((rest : Text) × (op.key ≡ to_text me ++ (b'.' ∷ rest)))
      × (classify_key lib op.topic op.key ≡ (connection, me))

  -- The scope that a command's name calls for.
  abbrev pub ScopedAs : Text → ℕ → Op Float → Type 0
  ScopedAs name me op = elim (is_personal name) [ true ↦ IsPersonal me op | false ↦ IsPolicy op ]

  abbrev pub InScope : CommandSpec Raw Float → Type 0
  InScope s = (raw : Raw) (me now : ℕ) → Makes (ScopedAs s.name me) (s.build raw me now)

  entity_policy :
      (id : ℕ) (field : Text)
      → is_policy_field (cut field).0 ≡ true
      → (classify_key lib (bytes "entity") (to_text id ++ (b'.' ∷ field))).0 ≡ policy
  unfolding classify_key
  entity_policy id field h = ground (arith, split_subject_key_lem lib id field)

  space_policy : (key : Text) → (classify_key lib (bytes "space") key).0 ≡ policy
  unfolding classify_key
  space_policy key = refl

  IsPersonal-key :
      (me : ℕ) (field : Text) (value : Value Float) (t : Bool)
      → is_policy_field (cut field).0 ≡ false
      → IsPersonal me (record {
        topic = bytes "entity";
        key = to_text me ++ (b'.' ∷ field);
        value = value;
        tombstone = t;
      })
  unfolding classify_key
  IsPersonal-key me field value t h =
      (refl, (field, refl), ground (arith, split_subject_key_lem lib me field))

  -- Two checks, then the operation; three checks, then the operation.
  two_checks :
      {A : Type 0} (P : Op Float → Type 0) (m : Built A) (check : A → Built (Unit {0}))
      (op : A → Op Float)
      → ((a : A) → P (op a))
      → Makes P (m >>= (λ a. check a >>= (λ _. made (op a))))
  two_checks P m check op h =
      bind-Makes P m _ (λ a. bind-Makes P (check a) _ (λ _. made-Makes P (op a) (h a)))

  three_checks :
      {A B : Type 0} (P : Op Float → Type 0) (m : Built A) (check : A → Built (Unit {0}))
      (more : A → Built B) (op : A → B → Op Float)
      → ((a : A) (b : B) → P (op a b))
      → Makes P (m >>= (λ a. check a >>= (λ _. more a >>= (λ b. made (op a b)))))
  three_checks P m check more op h = bind-Makes P m _ (λ a.
      bind-Makes P (check a) _ (λ _. bind-Makes P (more a) _ (λ b. made-Makes P (op a b) (h a b))))

  -- The commands that take an entity, or a role, and check nothing more.
  on_entity-Makes :
      (field : Text) (value : Value Float) (t : Bool) (raw : Raw)
      → is_policy_field (cut field).0 ≡ true
      → Makes IsPolicy (
          decode_args (json.entity_id_args raw) >>= (λ id. require_entity id >>= (λ _.
            made (record {
              topic = bytes "entity";
              key = to_text id ++ (b'.' ∷ field);
              value = value;
              tombstone = t;
            }))))
  on_entity-Makes field value t raw h =
      two_checks IsPolicy (decode_args (json.entity_id_args raw)) require_entity _
        (λ id. entity_policy id field h)

  on_role-Makes :
      (start : Text) (value : Value Float) (t : Bool) (raw : Raw)
      → Makes IsPolicy (
          decode_args (json.role_args raw) >>= (λ role. require_role role >>= (λ _.
            made (record {
              topic = bytes "space";
              key = start ++ role;
              value = value;
              tombstone = t;
            }))))
  on_role-Makes start value t raw =
      two_checks IsPolicy (decode_args (json.role_args raw)) require_role _
        (λ role. space_policy (start ++ role))

  -- The preferences of a caller, for an entity or for a role.
  own_entity-Makes :
      (field : Text) (value : Value Float) (t : Bool) (raw : Raw) (me : ℕ)
      → ((id : ℕ) → is_policy_field (cut (field ++ to_text id)).0 ≡ false)
      → Makes (IsPersonal me) (
          decode_args (json.entity_id_args raw) >>= (λ id. require_entity id >>= (λ _.
            made (record {
              topic = bytes "entity";
              key = to_text me ++ (b'.' ∷ (field ++ to_text id));
              value = value;
              tombstone = t;
            }))))
  own_entity-Makes field value t raw me h =
      two_checks (IsPersonal me) (decode_args (json.entity_id_args raw)) require_entity _
        (λ id. IsPersonal-key me (field ++ to_text id) value t (h id))

  own_role-Makes :
      (field : Text) (value : Value Float) (t : Bool) (raw : Raw) (me : ℕ)
      → ((role : Text) → is_policy_field (cut (field ++ role)).0 ≡ false)
      → Makes (IsPersonal me) (
          decode_args (json.role_args raw) >>= (λ role. require_role role >>= (λ _. made (record {
            topic = bytes "entity";
            key = to_text me ++ (b'.' ∷ (field ++ role));
            value = value;
            tombstone = t;
          }))))
  own_role-Makes field value t raw me h =
      two_checks (IsPersonal me) (decode_args (json.role_args raw)) require_role _
        (λ role. IsPersonal-key me (field ++ role) value t (h role))

  space_entity_kick-InScope : InScope (space_entity_kick lib json)
  unfolding space_entity_kick is_policy_field cut
  space_entity_kick-InScope raw me now =
      three_checks {A = ℕ × ℤ} {B = ℤ} IsPolicy (decode_args (json.entity_kick_args raw))
        (λ args. require_entity args.0) (λ args. kick_expiry now args.1)
        (λ args b. set_op lib json (bytes "entity") (to_text args.0 ++ bytes ".kicked") (millis b))
        (λ args _. entity_policy args.0 (bytes "kicked") refl)

  space_entity_set_gain-InScope : InScope (space_entity_set_gain lib json)
  unfolding space_entity_set_gain is_policy_field cut
  space_entity_set_gain-InScope raw me now =
      three_checks {A = ℕ × Float} {B = Unit {0}} IsPolicy (decode_args (json.entity_gain_args raw))
        (λ args. require_entity args.0) (λ args. require_gain lib json args.1)
        (λ args b.
          set_op lib json (bytes "entity") (to_text args.0 ++ bytes ".gain") (float args.1))
        (λ args _. entity_policy args.0 (bytes "gain") refl)

  space_entity_set_attenuation-InScope : InScope (space_entity_set_attenuation lib json)
  unfolding space_entity_set_attenuation is_policy_field cut
  space_entity_set_attenuation-InScope raw me now =
      three_checks {A = ℕ × Float} {B = Unit {0}} IsPolicy
        (decode_args (json.entity_attenuation_args raw)) (λ args. require_entity args.0)
        (λ args. require_attenuation lib json args.1)
        (λ args b.
          set_op lib json (bytes "entity") (to_text args.0 ++ bytes ".attenuation") (float args.1))
        (λ args _. entity_policy args.0 (bytes "attenuation") refl)

  space_role_kick-InScope : InScope (space_role_kick lib json)
  unfolding space_role_kick is_policy_field cut
  space_role_kick-InScope raw me now =
      three_checks {A = Text × ℤ} {B = ℤ} IsPolicy (decode_args (json.role_kick_args raw))
        (λ args. require_role args.0) (λ args. kick_expiry now args.1)
        (λ args b. set_op lib json (bytes "space") (bytes "roles-kicked." ++ args.0) (millis b))
        (λ args _. space_policy (bytes "roles-kicked." ++ args.0))

  space_role_set_gain-InScope : InScope (space_role_set_gain lib json)
  unfolding space_role_set_gain is_policy_field cut
  space_role_set_gain-InScope raw me now =
      three_checks {A = Text × Float} {B = Unit {0}} IsPolicy
        (decode_args (json.role_gain_args raw)) (λ args. require_role args.0)
        (λ args. require_gain lib json args.1)
        (λ args b. set_op lib json (bytes "space") (bytes "roles-gain." ++ args.0) (float args.1))
        (λ args _. space_policy (bytes "roles-gain." ++ args.0))

  space_role_set_attenuation-InScope : InScope (space_role_set_attenuation lib json)
  unfolding space_role_set_attenuation is_policy_field cut
  space_role_set_attenuation-InScope raw me now =
      three_checks {A = Text × Float} {B = Unit {0}} IsPolicy
        (decode_args (json.role_attenuation_args raw)) (λ args. require_role args.0)
        (λ args. require_attenuation lib json args.1)
        (λ args b.
          set_op lib json (bytes "space") (bytes "roles-attenuation." ++ args.0) (float args.1))
        (λ args _. space_policy (bytes "roles-attenuation." ++ args.0))

  -- Every command writes a key of the scope that its name promises: a space.* command writes policy,
  -- and a personal.* command writes under the uuid of its caller, swept with the caller's connection.
  pub command_specs-InScope : All InScope (command_specs lib json)
  unfolding command_specs space_entity_mute space_entity_unmute space_entity_kick
      space_entity_unkick space_entity_set_gain space_entity_set_attenuation space_role_mute
      space_role_unmute space_role_kick space_role_unkick space_role_set_gain space_role_unset_gain
      space_role_set_attenuation space_role_unset_attenuation personal_entity_mute
      personal_entity_unmute personal_entity_solo personal_entity_unsolo personal_role_mute
      personal_role_unmute is_policy_field cut
  command_specs-InScope =
      (λ raw me now. on_entity-Makes (bytes "muted") on false raw refl)
      & (λ raw me now. on_entity-Makes (bytes "muted") absent true raw refl)
      & space_entity_kick-InScope
      & (λ raw me now. on_entity-Makes (bytes "kicked") absent true raw refl)
      & space_entity_set_gain-InScope
      & space_entity_set_attenuation-InScope
      & (λ raw me now. on_role-Makes (bytes "roles-muted.") on false raw)
      & (λ raw me now. on_role-Makes (bytes "roles-muted.") absent true raw)
      & space_role_kick-InScope
      & (λ raw me now. on_role-Makes (bytes "roles-kicked.") absent true raw)
      & space_role_set_gain-InScope
      & (λ raw me now. on_role-Makes (bytes "roles-gain.") absent true raw)
      & space_role_set_attenuation-InScope
      & (λ raw me now. on_role-Makes (bytes "roles-attenuation.") absent true raw)
      & (λ raw me now. own_entity-Makes (bytes "mutes.") on false raw me (λ id. refl))
      & (λ raw me now. own_entity-Makes (bytes "mutes.") absent true raw me (λ id. refl))
      & (λ raw me now. own_entity-Makes (bytes "solos.") on false raw me (λ id. refl))
      & (λ raw me now. own_entity-Makes (bytes "solos.") absent true raw me (λ id. refl))
      & (λ raw me now. own_role-Makes (bytes "mute-roles.") on false raw me (λ role. refl))
      & (λ raw me now. own_role-Makes (bytes "mute-roles.") absent true raw me (λ role. refl))
      & tt
