-- ===== src/Tests/Clients.antt =====
-- core/sessions on registries with one client.
use panaudia.Base.{ℕ, ◌≡◌, ◌⊎◌, refl, true, false, none, some, [], ◌∷◌}
use panaudia.Base.Keys.{bytes, nat_eq}
use panaudia.Base.Assoc.{lookup, insert}
use panaudia.Sessions.{
  live, Entry, Registry, new_registry, get, entry, try_begin_departure, begin_entry, mark_departed,
  mark_entry, register,
}
use panaudia.Sessions.Invariant.{Step, Reach, here, next, Inv, Reach-Inv}
use panaudia.Sessions.Departure.{try_begin_departure-once}
use panaudia.Sessions.Admission.{
  marks, calls, Surroundings, HasDeparted, admit, admit_over, admit-clear,
}

-- A client with the uuid 7 connects, over its first entry.
abbrev joined : Registry
joined = (register new_registry 7 3 (bytes "webrtc") 0).2

abbrev client : Entry
client = record {
  uuid = 7;
  session = 3;
  transport = bytes "webrtc";
  generation = 1;
  admitted_at = 0;
  state = live;
  closes = 0;
}

joined_reached : Reach new_registry joined
joined_reached = next here (Step.registers 7 3 (bytes "webrtc") 0)

joined-Inv : Inv joined
joined-Inv = Reach-Inv joined_reached

client_found : entry joined 1 ≡ some client
unfolding register new_registry lookup insert
client_found = refl

Reach-Inv_example : Inv joined
Reach-Inv_example = Reach-Inv (next here (Step.registers 7 3 (bytes "webrtc") 0))

client_begins : (try_begin_departure joined 1).0 ≡ true
unfolding try_begin_departure begin_entry register new_registry lookup insert
client_begins = refl

try_begin_departure-once_example :
    (try_begin_departure (mark_departed (try_begin_departure joined 1).1 1) 1).0 ≡ false
try_begin_departure-once_example =
    try_begin_departure-once {r = joined} {s = mark_departed (try_begin_departure joined 1).1 1} 1
      joined-Inv client_begins (next here (Step.marks 1))

-- A transport whose handle does nothing, a departure that completes while the timer runs out, and no
-- calls by others.
abbrev surroundings : Surroundings
surroundings = record {
  kill = λ r e. [];
  force_depart = λ r e. marks e ∷ [];
  during = λ k r e. [];
  takes_timer = λ k r e. false;
}

admitted : (admit surroundings joined 7).0.is_ok ≡ true
unfolding admit admit_over calls mark_departed mark_entry register new_registry lookup insert
admitted = refl

admit-clear_example :
    (get joined 7 ≡ none)
    ⊎ ((old : ℕ) × (get joined 7 ≡ some old) × HasDeparted (admit surroundings joined 7).1 old)
admit-clear_example = admit-clear surroundings joined 7 joined_reached admitted
