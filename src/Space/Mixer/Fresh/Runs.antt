-- ===== src/Space/Mixer/Fresh/Runs.antt =====
-- What reaches a space, in any order: changes, operations and ticks.
use panaudia.Base.{
  ℕ, ◌≡◌, sym, ap, ◌∙◌, true, false, some, List, [], ◌∷◌, All, inl, inr, arith, Bool-cases,
}
use panaudia.Base.Keys.{Text, nat_eq}
use panaudia.Base.Assoc.{lookup}
use panaudia.Base.Entries.{lookup-Values}
use panaudia.StateCache.{Op}
use panaudia.Space.Libraries.{Libraries}
use panaudia.Space.Encoder.{Encoder, should_include_peer}
use panaudia.Space.Encoder.Audible.{Hears, IsUnmuted, IsEmpty, should_include_peer_lem}
use panaudia.Space.Mixer.{Node, NodeChange, BaseSpace, new_base_space, role_muted}
use panaudia.Space.Mixer.Effects.{role_muted_holds}
use panaudia.Space.Mixer.Ops.{post_entity_op, post_space_op}
use panaudia.Space.Mixer.Nodes.{SourceManager, request, process}
use panaudia.Space.Mixer.Fresh.{IsCurrent, IsFresh, IsWellGained}
use panaudia.Space.Mixer.Fresh.Ticks.{request-IsFresh, process-IsFresh}

pub data Input (lib : Libraries) : Type 0 where
  input_change : NodeChange lib → Input lib
  input_entity : Op → Input lib
  input_space : Op → Input lib
  input_tick : Input lib

module _ (lib : Libraries) where
  unfoldable pub IsSound : Input lib → Type 0
  IsSound (input_change change) = IsWellGained lib change
  IsSound (input_entity op) = Unit
  IsSound (input_space op) = Unit
  IsSound input_tick = Unit

  unfoldable pub step : SourceManager → BaseSpace lib → Input lib → BaseSpace lib
  step manager space (input_change change) = request lib space change
  step manager space (input_entity op) = post_entity_op lib space op
  step manager space (input_space op) = post_space_op lib space op
  step manager space input_tick = process lib manager space

  unfoldable pub run : SourceManager → BaseSpace lib → List (Input lib) → BaseSpace lib
  run manager space [] = space
  run manager space (i ∷ inputs) = run manager (step manager space i) inputs

  step-IsFresh :
      (manager : SourceManager) (space : BaseSpace lib) (i : Input lib)
      → IsSound i
      → IsFresh lib space
      → IsFresh lib (step manager space i)
  unfolding step post_entity_op post_space_op IsSound
  step-IsFresh manager space (input_change change) s h =
      request-IsFresh lib manager space change s h
  step-IsFresh manager space (input_entity op) s h = h
  step-IsFresh manager space (input_space op) s h = h
  step-IsFresh manager space input_tick s h = process-IsFresh lib manager space h

  keeps-IsFresh :
      (manager : SourceManager) (space : BaseSpace lib) (inputs : List (Input lib))
      → All IsSound inputs
      → IsFresh lib space
      → IsFresh lib (run manager space inputs)
  unfolding run
  keeps-IsFresh manager space [] s h = h
  keeps-IsFresh manager space (i ∷ inputs) s h =
      keeps-IsFresh manager (step manager space i) inputs s.1 (step-IsFresh manager space i s.0 h)

  -- Whatever changes, operations and ticks a new space gets, in any order, every node has an encoder
  -- that caches exactly what the space's rules make of the roles it holds, when no node is added with
  -- a negative gain.
  pub run-IsFresh :
      (manager : SourceManager) (timeout_ticks : ℕ) (inputs : List (Input lib))
      → All IsSound inputs
      → IsFresh lib (run manager (new_base_space lib timeout_ticks) inputs)
  unfolding new_base_space
  run-IsFresh manager timeout_ticks inputs s =
      keeps-IsFresh manager (new_base_space lib timeout_ticks) inputs s (tt, tt)

  -- A muted role silences its holders: after any such run, a listener with no solos hears no node that
  -- holds a role which the space mutes.
  pub muted_role_silences :
      (manager : SourceManager) (timeout_ticks : ℕ) (inputs : List (Input lib)) (id : ℕ)
      (node : Node lib) (e listener : Encoder lib) (role : Text)
      → All IsSound inputs
      → lookup id (run manager (new_base_space lib timeout_ticks) inputs).nodes ≡ some node
      → node.encoder ≡ some e
      → lib.texts.contains role e.roles ≡ true
      → lib.texts.contains role (run manager (new_base_space lib timeout_ticks) inputs).muted_roles
        ≡ true
      → IsEmpty lib.ids listener.solos
      → should_include_peer lib listener e ≡ false
  unfolding Hears IsUnmuted
  muted_role_silences manager timeout_ticks inputs id node e listener role s n is held muted
        no_solos =
      let space = run manager (new_base_space lib timeout_ticks) inputs in
      let (cached, (same, effects)) =
        lookup-Values (IsCurrent lib space) id node space.nodes
          (run-IsFresh manager timeout_ticks inputs s).0 n in
      let one : cached ≡ e = ground (arith, sym same ∙ is) in
      let silent : e.space_role_muted ≡ true =
        ap (λ x. x.space_role_muted) (sym one)
        ∙ (effects.0
            ∙ (ap (λ x. role_muted lib space.muted_roles x.roles) one
                ∙ role_muted_holds lib space.muted_roles e.roles role muted held)) in
      elim (Bool-cases (should_include_peer lib listener e)) [
        | inr silence ↦ silence
        | inl heard ↦ elim ((should_include_peer_lem lib listener e).0 heard).2 [
          | inl soloed ↦ let none_soloed = no_solos e.uuid in ground (arith, none_soloed, soloed)
          | inr (n, unmuted) ↦ let loud = unmuted.1 in ground (arith, loud, silent)
        ]
      ]
