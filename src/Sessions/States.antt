-- ===== src/Sessions/States.antt =====
-- The life of one entry: its state only moves forward, and its channel is closed with the last move.
use panaudia.Base.{ℕ, ◌<◌, ◌≡◌, ◌⊎◌}
use panaudia.Sessions.{State, live, departing, departed, Entry}

-- How far an entry has come.
abbrev pub rank : State → ℕ
rank live = 0
rank departing = 1
rank departed = 2

-- The channel is closed once the entry has departed, and only then.
abbrev pub ClosedOnce : Entry → Type 0
ClosedOnce x = (x.closes ≡ 0) × (rank x.state < 2) ⊎ (x.closes ≡ 1) × (x.state ≡ departed)
