-- ===== src/Buffers/Jitter/Levels.antt =====
-- The geometry that the constructor accepts, and the order of the operating levels.
use panaudia.Base.{ℕ, ◌+◌, ◌*◌, ◌≤◌, ◌<◌, ◌≡◌, Bool, true, arith}
use panaudia.Buffers.Jitter.{Geometry, Sizes, accepted, geometry_of, ring_capacity, levels}

-- What the rest of the buffer relies on. The ring is longer than the highest overrun line.
pub record IsSound (g : Geometry) : Type 0 where
  pub w_pos : 0 < g.w
  pub floor_pos : 0 < g.floor
  pub l_le : g.l_min ≤ g.l_max
  pub h_le : g.h_min ≤ g.h_max
  pub roomy : g.floor + g.l_max + 2 * g.w + g.h_max < g.capacity
  pub windows : 0 < g.window_reads
  pub reluctant : g.narrow_step ≤ g.widen_step

-- Accepted sizes give a sound geometry, with the initial allowances between their bounds.
pub geometry_of-IsSound :
    (z : Sizes) (d : Bool)
    → accepted z ≡ true
    → let g = geometry_of z d in
      IsSound g
      × (g.l_min ≤ z.l_init)
      × (z.l_init ≤ g.l_max)
      × (g.h_min ≤ z.h_init)
      × (z.h_init ≤ g.h_max)
unfolding accepted geometry_of ring_capacity
geometry_of-IsSound z d e = ground arith

-- In a sound geometry the levels are in the order floor, target, recovery point, drop line,
-- overrun line; the recovery point lies strictly below the overrun line and the overrun line
-- inside the ring, for all allowances up to their bounds.
pub levels_ordered :
    {g : Geometry} (l h : ℕ)
    → IsSound g
    → l ≤ g.l_max
    → h ≤ g.h_max
    → let (t, snap, drop, overrun) = levels g l h in
      (g.floor ≤ t) × (t < snap) × (snap ≤ drop) × (drop < overrun) × (overrun < g.capacity)
unfolding levels
levels_ordered l h v hl hh = omega arith
