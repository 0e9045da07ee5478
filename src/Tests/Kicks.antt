-- ===== src/Tests/Kicks.antt =====
-- core/space/kick_gate.go with two kicks.
use panaudia.Base.{◌≡◌, refl, true, false, [], ◌∷◌, none, some, arith}
use panaudia.Base.Int.{pos}
use panaudia.Base.Keys.{bytes, nat_eq, text_eq}
use panaudia.Base.Assoc.{lookup}
use panaudia.Space.KickGate.{KickGate, is_kicked, sweep_once, see, see_roles}
use panaudia.Space.KickGate.Valid.{IsValid, sweep_once-IsValid}
use panaudia.Space.KickGate.Answers.{is_kicked-sweep_once}
use panaudia.Tests.Unary.{unary}

-- The entity 4 is kicked until 90, and guests for good.
abbrev gate : KickGate
gate = record { entity = (4, pos 90) ∷ []; role = (bytes "guest", pos 0) ∷ [] }

gate-IsValid : IsValid gate
unfolding lookup
gate-IsValid = ((refl, tt), (refl, tt))

answers :
    (is_kicked gate 80 4 [] ≡ (true, some (pos 90))) × (is_kicked gate 90 4 [] ≡ (false, none))
unfolding is_kicked see see_roles lookup
answers = (refl, refl)

is_kicked-sweep_once_example :
    is_kicked (sweep_once unary gate 95).0 96 4 (bytes "guest" ∷ [])
    ≡ is_kicked gate 96 4 (bytes "guest" ∷ [])
is_kicked-sweep_once_example =
    is_kicked-sweep_once unary gate 95 96 4 (bytes "guest" ∷ []) gate-IsValid (omega arith)

sweep_once-IsValid_example : IsValid (sweep_once unary gate 95).0
sweep_once-IsValid_example = sweep_once-IsValid unary gate 95 gate-IsValid
