-- ===== src/Tests/Unary.antt =====
-- Uuids in unary: a uuid library for the tests.
use panaudia.Base.{
  ℕ, zero, suc, ◌≡◌, ◌≢◌, refl, [], ◌∷◌, Option, none, some, eqb, if◌then◌else◌, arith, replicate,
  All-replicate,
}
use panaudia.Base.Keys.{Text}
use panaudia.Commands.{UuidLib}

unfoldable pub count : Text → Option ℕ
count [] = some 0
count (c ∷ s) = elim (count s) [ none ↦ none | some n ↦ if eqb c b'f' then some (suc n) else none ]

pub count-replicate : (u : ℕ) → count (replicate u b'f') ≡ some u
unfolding count
count-replicate zero = refl
count-replicate (suc u) = rw (count-replicate u) refl

abbrev pub unary : UuidLib
unary = record {
  parse = count;
  to_text = λ u. replicate u b'f';
  parse-to_text = count-replicate;
  to_text_no_dot = λ u. All-replicate (λ c. c ≢ b'.') u b'f' (omega arith);
}
