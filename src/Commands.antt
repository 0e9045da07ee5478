-- ===== src/Commands.antt =====
-- core/commands: the named control commands. This file has the operation that a command makes and
-- what the commands take from the uuid and JSON libraries.
pub mod Scope
pub mod Roles
pub mod Catalog
pub mod Dispatch
use panaudia.Base.{ℕ, ◌≡◌, ◌≢◌, Bool, true, false, Option, some, none, All}
use panaudia.Base.Int.{ℤ}
use panaudia.Base.Keys.{Text}

-- github.com/google/uuid. A uuid is its 128-bit number, and `uuid.Nil` is 0. `String` writes
-- hexadecimal digits and dashes, and `Parse` reads what `String` wrote.
pub record UuidLib : Type 0 where
  pub parse : Text → Option ℕ
  pub to_text : ℕ → Text
  pub parse-to_text : (u : ℕ) → parse (to_text u) ≡ some u
  pub to_text_no_dot : (u : ℕ) → All (λ c. c ≢ b'.') (to_text u)

-- `json.Unmarshal` of the arguments into each of the shapes that the commands declare; `none` where
-- it fails. A field that is not there is zero. Floats are compared, and no more.
pub record JsonLib : Type 1 where
  pub Raw : Type 0
  pub Float : Type 0
  pub ltb_float : Float → Float → Bool
  pub zero_float : Float
  pub three_float : Float
  pub entity_id_args : Raw → Option ℕ
  pub entity_gain_args : Raw → Option (ℕ × Float)
  pub entity_attenuation_args : Raw → Option (ℕ × Float)
  pub entity_kick_args : Raw → Option (ℕ × ℤ)
  pub role_args : Raw → Option Text
  pub role_gain_args : Raw → Option (Text × Float)
  pub role_attenuation_args : Raw → Option (Text × Float)
  pub role_kick_args : Raw → Option (Text × ℤ)

-- The `Value` of an operation: `true`, a time in milliseconds or a float; `absent` with a tombstone.
pub data Value (F : Type 0) : Type 0 where
  on : Value F
  millis : ℤ → Value F
  float : F → Value F
  absent : Value F

-- `Op`
pub record Op (F : Type 0) : Type 0 where
  pub topic : Text
  pub key : Text
  pub value : Value F
  pub tombstone : Bool
