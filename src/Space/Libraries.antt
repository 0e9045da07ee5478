-- ===== src/Space/Libraries.antt =====
-- What the mixer takes from Go's floats, from encoding/json and from golang-set.
pub mod Sets
use panaudia.Base.{ℕ, ◌≡◌, ◌↔◌, Bool, true, false, not, ◌&&◌, ◌||◌, List, [], ◌∷◌, Option}
use panaudia.Base.Keys.{Text, Key, text_eq, nat_eq}
use panaudia.Commands.{UuidLib}

abbrev pub any {ℓ} : {A : Type ℓ} → (A → Bool) → List A → Bool
any p [] = false
any p (x ∷ xs) = p x || any p xs

-- github.com/deckarep/golang-set: `Add`, `Remove`, `Contains`, `ContainsAnyElement`, `IsEmpty`, and
-- the elements in the order in which `Iter` gives them.
pub record SetLib (A : Type 0) (key : Key A) : Type 1 where
  pub Set : Type 0
  pub empty : Set
  pub add : A → Set → Set
  pub remove : A → Set → Set
  pub contains : A → Set → Bool
  pub contains_any : Set → Set → Bool
  pub is_empty : Set → Bool
  pub elements : Set → List A
  pub elements_empty : elements empty ≡ []
  pub is_empty_iff : (s : Set) → (is_empty s ≡ true) ↔ (elements s ≡ [])
  pub contains-elements : (x : A) (s : Set) → contains x s ≡ any (key.same x) (elements s)
  pub contains-add : (x y : A) (s : Set) → contains y (add x s) ≡ (key.same x y || contains y s)
  pub contains-remove :
      (x y : A) (s : Set) → contains y (remove x s) ≡ (not (key.same x y) && contains y s)
  pub contains_any_lem : (s t : Set) → contains_any s t ≡ any (λ x. contains x s) (elements t)

-- The floats of the mixer, in the two widths that it uses: `<`, `<=`, `==`, `*`, `/ 2.0`,
-- `math.Pow(x, 0.5)`, the conversion to `float32` and the product with `SQRT_4_PI`. 1.0 is neutral.
pub record FloatLib : Type 1 where
  pub Float : Type 0
  pub Single : Type 0
  pub zero_float : Float
  pub one_float : Float
  pub ltb_float : Float → Float → Bool
  pub leb_float : Float → Float → Bool
  pub eqb_float : Float → Float → Bool
  pub mul_float : Float → Float → Float
  pub halve : Float → Float
  pub root : Float → Float
  pub single : Float → Single
  pub scale_sqrt_4_pi : Single → Single
  pub mul_one : (x : Float) → mul_float x one_float ≡ x
  pub one_positive : leb_float one_float zero_float ≡ false

pub record Libraries : Type 1 where
  -- `common.Position`, with its zero value, and `common.Rotation`: structs of floats, under Go's `==`.
  pub Position : Type 0
  pub Rotation : Type 0
  pub origin : Position
  pub no_rotation : Rotation
  pub same_position : Position → Position → Bool
  pub same_rotation : Rotation → Rotation → Bool
  pub floats : FloatLib
  pub texts : SetLib Text text_eq
  pub ids : SetLib ℕ nat_eq
  pub uuids : UuidLib
  -- `json.Unmarshal` of a value into a `float64`
  pub decode_float : Text → Option floats.Float
