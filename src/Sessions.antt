-- ===== src/Sessions.antt =====
-- core/sessions: the registry of client sessions and the life of an entry.
--
-- A node uuid is its 128-bit number. A pointer to an `Entry` is the entry's generation: entries are
-- made by `Register` and `RegisterOrphan` alone, each with a generation of its own (the counter does
-- not reach 2 ^ 64). The heap keeps entries that are registered no more, as their holders do.
pub mod States
pub mod Invariant
pub mod Departure
pub mod Admission
use panaudia.Base.{
  ℕ, suc, ◌+◌, Bool, true, false, List, [], ◌∷◌, Option, none, some, eqb, if◌then◌else◌, map,
}
use panaudia.Base.Keys.{Text, nat_eq}
use panaudia.Base.Assoc.{Map, lookup, insert, delete}

-- `State`
pub data State : Type 0 where
  live departing departed : State

-- `Entry`. `session` names the transport's handle, and `closes` counts the calls of
-- `close(e.departed)`, which panics when it is made twice.
pub record Entry : Type 0 where
  pub uuid : ℕ
  pub session : ℕ
  pub transport : Text
  pub generation : ℕ
  pub admitted_at : ℕ
  pub state : State
  pub closes : ℕ

-- `Registry`, with the entries that its pointers lead to.
pub record Registry : Type 0 where
  pub entries : Map ℕ ℕ
  pub gen : ℕ
  pub heap : Map ℕ Entry

-- `NewRegistry`
unfoldable pub new_registry : Registry
new_registry = record { entries = []; gen = 0; heap = [] }

-- `Get`
abbrev pub get : Registry → ℕ → Option ℕ
get r id = lookup id r.entries

-- The entry behind a pointer.
abbrev pub entry : Registry → ℕ → Option Entry
entry r e = lookup e r.heap

abbrev pub put_entry : Registry → ℕ → Entry → Registry
put_entry r e x = record r { heap = insert e x r.heap }

-- `TryBeginDeparture` of an entry: the compare-and-swap from Live to Departing.
unfoldable pub begin_entry : Entry → Bool × Entry
begin_entry x = elim x.state [
  | live ↦ (true, record x { state = departing })
  | departing ↦ (false, x)
  | departed ↦ (false, x)
]

unfoldable pub try_begin_departure : Registry → ℕ → Bool × Registry
try_begin_departure r e = elim (entry r e) [
  | none ↦ (false, r)
  | some x ↦ ((begin_entry x).0, put_entry r e (begin_entry x).1)
]

-- `MarkDeparted` of an entry: the channel is closed by the swap that comes first.
unfoldable pub mark_entry : Entry → Entry
mark_entry x = elim x.state [
  | departed ↦ x
  | live ↦ record x { state = departed; closes = suc x.closes }
  | departing ↦ record x { state = departed; closes = suc x.closes }
]

unfoldable pub mark_departed : Registry → ℕ → Registry
mark_departed r e = elim (entry r e) [ none ↦ r | some x ↦ put_entry r e (mark_entry x) ]

abbrev pub fresh_entry : Registry → ℕ → ℕ → Text → ℕ → Entry
fresh_entry r id session transport now = record {
  uuid = id;
  session = session;
  transport = transport;
  generation = suc r.gen;
  admitted_at = now;
  state = live;
  closes = 0;
}

abbrev pub install : Registry → ℕ → ℕ → Text → ℕ → Registry
install r id session transport now = record {
  entries = insert id (suc r.gen) r.entries;
  gen = suc r.gen;
  heap = insert (suc r.gen) (fresh_entry r id session transport now) r.heap;
}

-- `Register`, at the time `now`: the displaced entry, the new one and the registry.
unfoldable pub register : Registry → ℕ → ℕ → Text → ℕ → Option ℕ × ℕ × Registry
register r id session transport now = (get r id, suc r.gen, install r id session transport now)

-- `RegisterOrphan`, with a session of its own.
unfoldable pub register_orphan : Registry → ℕ → ℕ → Text → ℕ → Option ℕ × Registry
register_orphan r id session transport now = elim (get r id) [
  | some _ ↦ (none, r)
  | none ↦ (some (suc r.gen), install r id session transport now)
]

-- `Unregister`; a nil entry is `none`.
unfoldable pub unregister_entry : Registry → ℕ → Entry → Registry
unregister_entry r e x = elim (get r x.uuid) [
  | none ↦ r
  | some current ↦ if eqb current e then record r { entries = delete x.uuid r.entries } else r
]

unfoldable pub unregister : Registry → Option ℕ → Registry
unregister r none = r
unregister r (some e) = elim (entry r e) [ none ↦ r | some x ↦ unregister_entry r e x ]

-- `Snapshot`
unfoldable pub snapshot : Registry → List ℕ
snapshot r = map (λ p. p.1) r.entries
