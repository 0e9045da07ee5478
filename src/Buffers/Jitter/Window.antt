-- ===== src/Buffers/Jitter/Window.antt =====
-- The adaptive window: `adapt` and `decide`.
use panaudia.Base.{
  ℕ, zero, suc, ◌+◌, ◌-◌, ◌≤◌, ◌<◌, ◌≡◌, ◌⊎◌, refl, min, max, arith, eqb, if◌then◌else◌,
}
use panaudia.Buffers.Jitter.{Geometry, Control, decide_window, adapt, widen, narrow}
use panaudia.Buffers.Jitter.Levels.{IsSound}

-- The allowances lie between their bounds, and the count of reads inside the window.
pub record InBounds (g : Geometry) (c : Control) : Type 0 where
  pub l_from : g.l_min ≤ c.current_l
  pub l_to : c.current_l ≤ g.l_max
  pub h_from : g.h_min ≤ c.current_h
  pub h_to : c.current_h ≤ g.h_max
  pub reads : c.reads_this_window < g.window_reads

decide_window-InBounds :
    {g : Geometry} {c : Control} → IsSound g → InBounds g c → InBounds g (decide_window g c)
unfolding decide_window
decide_window-InBounds v b = ground arith

-- In a sound geometry `adapt` keeps the allowances within their bounds, and the count of reads
-- inside the window.
pub adapt-InBounds :
    {g : Geometry} {c : Control} → IsSound g → InBounds g c → InBounds g (adapt g c)
unfolding adapt decide_window
adapt-InBounds v b = ground arith

widen_lem : (step top a : ℕ) → a ≤ top → widen step top a ≡ min (a + step) top
widen_lem step top a h = ground arith

narrow_lem : (step bottom a : ℕ) → bottom ≤ a → narrow step bottom a ≡ max (a - step) bottom
narrow_lem step bottom a h = ground arith

-- In a sound geometry, with the allowances within their bounds: only where both counts reach the
-- threshold does `decide` widen, and then both sides, by the widening step up to the maximum;
-- otherwise neither side grows, and a side shrinks, by the narrowing step down to its minimum,
-- exactly when it had no correction at all.
pub decide_window_lem :
    {g : Geometry} {c : Control}
    → IsSound g
    → InBounds g c
    → let d = decide_window g c in
      ((g.widen_threshold ≤ c.insert_count)
        × (g.widen_threshold ≤ c.drop_count)
        × (d.current_l ≡ min (c.current_l + g.widen_step) g.l_max)
        × (d.current_h ≡ min (c.current_h + g.widen_step) g.h_max))
      ⊎ (((c.insert_count < g.widen_threshold) ⊎ (c.drop_count < g.widen_threshold))
          × (d.current_l ≡ (
              if eqb c.insert_count 0
              then max (c.current_l - g.narrow_step) g.l_min
              else c.current_l))
          × (d.current_h ≡ (
              if eqb c.drop_count 0
              then max (c.current_h - g.narrow_step) g.h_min
              else c.current_h)))
unfolding decide_window
decide_window_lem {g} {c} v b = ground (
  arith,
  widen_lem g.widen_step g.l_max c.current_l,
  widen_lem g.widen_step g.h_max c.current_h,
  narrow_lem g.narrow_step g.l_min c.current_l,
  narrow_lem g.narrow_step g.h_min c.current_h,
)

-- `adapt`, called by `n` reads with no correction between them.
pub adapts : Geometry → ℕ → Control → Control
adapts g zero c = c
adapts g (suc n) c = adapts g n (adapt g c)

-- Within a window the reads are only counted.
adapts_within :
    (g : Geometry) (n : ℕ) (c : Control)
    → c.reads_this_window + n < g.window_reads
    → adapts g n c ≡ record c { reads_this_window = c.reads_this_window + n }
unfolding adapts adapt
adapts_within g zero c h = ground arith
adapts_within g (suc n) c h =
    ground (arith, adapts_within g n (record c { reads_this_window = suc c.reads_this_window }))

adapts_last : (g : Geometry) (n : ℕ) (c : Control) → adapts g (suc n) c ≡ adapt g (adapts g n c)
unfolding adapts
adapts_last g zero c = refl
adapts_last g (suc n) c = adapts_last g n (adapt g c)

-- The decision reads the allowances and the two counts, and no other field.
decide_window-counts :
    (g : Geometry) (c : Control) (reads inserts drops : ℕ)
    → let d = decide_window g (record c {
      reads_this_window = reads;
      last_win_inserts = inserts;
      last_win_drops = drops;
    }) in
      (d.current_l ≡ (decide_window g c).current_l) × (d.current_h ≡ (decide_window g c).current_h)
unfolding decide_window
decide_window-counts g c reads inserts drops = (ground arith, ground arith)

-- The last read of a window.
adapt_full :
    (g : Geometry) (c : Control) (reads : ℕ)
    → suc reads ≡ g.window_reads
    → let d = decide_window g c in
      let e = adapt g (record c { reads_this_window = reads }) in
      (e.current_l ≡ d.current_l)
      × (e.current_h ≡ d.current_h)
      × (e.insert_count ≡ 0)
      × (e.drop_count ≡ 0)
      × (e.reads_this_window ≡ 0)
unfolding adapt
adapt_full g c reads e =
    ground (arith, decide_window-counts g c (suc reads) c.insert_count c.drop_count)

-- Where a window has at least one read, the reads of a window from its start decide once, on the
-- counts that it began with, and start the next window with no counts.
pub adapts_window :
    (g : Geometry) (c : Control)
    → 0 < g.window_reads
    → c.reads_this_window ≡ 0
    → let d = decide_window g c in
      let e = adapts g g.window_reads c in
      (e.current_l ≡ d.current_l)
      × (e.current_h ≡ d.current_h)
      × (e.insert_count ≡ 0)
      × (e.drop_count ≡ 0)
      × (e.reads_this_window ≡ 0)
adapts_window g c h z = ground (
  arith,
  adapts_last g (g.window_reads - 1) c,
  adapts_within g (g.window_reads - 1) c,
  adapt_full g c (g.window_reads - 1),
)
