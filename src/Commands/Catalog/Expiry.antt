-- ===== src/Commands/Catalog/Expiry.antt =====
-- core/commands/defs.go: when a kick ends.
use panaudia.Base.{ℕ, ◌+◌, ◌*◌, ◌^◌, ◌≤◌, ◌<◌, ◌≡◌, ◌⊎◌, refl, true, false, arith, ◌/◌, eqb}
use panaudia.Base.Int.{ℤ, pos, signed64, floor_sum}
use panaudia.Space.KickGate.{expired}
use panaudia.Commands.Catalog.{made, kick_expiry}

-- The longest kick, in minutes, whose nanoseconds an `int64` holds.
abbrev pub longest : ℕ
longest = 153_722_867

-- A kick of at least one and at most `longest` minutes ends that many minutes after the call, to
-- the millisecond.
pub kick_expiry_lem :
    (now mins : ℕ)
    → 0 < mins
    → mins ≤ longest
    → kick_expiry now (pos mins) ≡ made (pos (now / 1_000_000 + mins * 60_000))
unfolding kick_expiry
kick_expiry_lem now mins h k = ground arith

-- The deadline is 0, which the gate takes for ever, or one that the gate takes for over.
abbrev pub IsOver : ℕ → ℤ → Type 0
IsOver now t = (t ≡ pos 0) ⊎ (expired now t ≡ true)

sum_wraps :
    (now n : ℕ)
    → 2 ^ 63 ≤ n
    → n ≤ 2 ^ 64
    → IsOver (now / 1_000_000) (floor_sum now (signed64 n) 1_000_000)
sum_wraps now n h k = ground arith

-- A kick of more than `longest` minutes, and of up to twice as many, is made, and has already ended by
-- then, unless its deadline comes out as 0, with which it never ends.
pub kick_expiry_wraps :
    (now mins : ℕ)
    → longest < mins
    → mins ≤ 2 * longest
    → (t : ℤ) × ((kick_expiry now (pos mins) ≡ made t) × IsOver (now / 1_000_000) t)
unfolding kick_expiry
kick_expiry_wraps now mins h k =
    let some_mins : eqb mins 0 ≡ false = ground arith in
    (
      floor_sum now (signed64 (mins * 60_000_000_000)) 1_000_000,
      (
        rw (kick_expiry, some_mins) refl,
        sum_wraps now (mins * 60_000_000_000) (omega arith) (omega arith),
      ),
    )
