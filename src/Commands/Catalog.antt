-- ===== src/Commands/Catalog.antt =====
-- core/commands/defs.go: the catalog of commands. Each `Build` decodes its arguments, checks them
-- and makes one operation; the time of the call is an argument.
pub mod Keys
pub mod Expiry
pub mod Specs
use panaudia.Base.{
  ℕ, ◌+◌, ◌*◌, ◌≡◌, Bool, true, false, ◌||◌, List, [], ◌∷◌, ◌++◌, Option, none, some, eqb,
  if◌then◌else◌,
}
use panaudia.Base.Int.{ℤ, pos, negsuc, is_negative, is_zero, signed64, floor_sum}
use panaudia.Base.Keys.{Text, bytes, text_eq, ◌==◌}
use panaudia.Commands.{UuidLib, JsonLib, Value, on, millis, float, absent, Op}

-- The errors of a `Build`, by what they complain of.
pub data BuildError : Type 0 where
  bad_args entity_required role_required out_of_range negative_mins : BuildError

pub data Built {ℓ} (A : Type ℓ) : Type ℓ where
  made : A → Built A
  failed : BuildError → Built A

infixl 5 ◌>>=◌ ◌>>◌
abbrev pub ◌>>=◌ {ℓ κ} : {A : Type ℓ} {B : Type κ} → Built A → (A → Built B) → Built B
made a >>= f = f a
failed e >>= f = failed e

abbrev pub ◌>>◌ {ℓ} : {B : Type ℓ} → Built (Unit {0}) → Built B → Built B
m >> k = m >>= λ _. k

-- `decodeArgs`
abbrev pub decode_args {ℓ} : {A : Type ℓ} → Option A → Built A
decode_args none = failed bad_args
decode_args (some a) = made a

-- `requireEntity`
abbrev pub require_entity : ℕ → Built (Unit {0})
require_entity id = if eqb id 0 then failed entity_required else made tt

-- `requireRole`
abbrev pub require_role : Text → Built (Unit {0})
require_role role = if role == [] then failed role_required else made tt

-- `time.Duration(mins) * time.Minute`, which wraps.
abbrev pub minutes : ℤ → ℤ
minutes (pos n) = signed64 (n * 60_000_000_000)
minutes (negsuc n) = pos 0

-- `kickExpiry`, `now` nanoseconds after 1970: the deadline in milliseconds, 0 for no expiry.
unfoldable pub kick_expiry : ℕ → ℤ → Built ℤ
kick_expiry now mins =
    if is_negative mins
    then failed negative_mins
    else if is_zero mins
    then made (pos 0)
    else made (floor_sum now (minutes mins) 1_000_000)

-- `CommandSpec`, with the time of the call as the last argument of `Build`.
pub record CommandSpec (R : Type 0) (F : Type 0) : Type 0 where
  pub name : Text
  pub build : R → ℕ → ℕ → Built (Op F)

module _ (lib : UuidLib) (json : JsonLib) where
  open lib use {to_text}
  open json use {Raw, Float, ltb_float}

  -- `requireGain` and `requireAttenuation`, whose bounds are 0 and 3.
  abbrev pub require_gain : Float → Built (Unit {0})
  require_gain g =
      if ltb_float g json.zero_float || ltb_float json.three_float g
      then failed out_of_range
      else made tt

  abbrev pub require_attenuation : Float → Built (Unit {0})
  require_attenuation a =
      if ltb_float a json.zero_float || ltb_float json.three_float a
      then failed out_of_range
      else made tt

  abbrev pub set_op : Text → Text → Value Float → Op Float
  set_op topic key value = record { topic = topic; key = key; value = value; tombstone = false }

  abbrev pub tombstone_op : Text → Text → Op Float
  tombstone_op topic key = record { topic = topic; key = key; value = absent; tombstone = true }
