-- ===== src/Tracks/Names.antt =====
-- Which namespaces are recognized, and the tracks of a node among them.
use panaudia.Base.{
  ℕ, ◌≡◌, ◌↔◌, refl, ap, ◌∙◌, inl, inr, none, some, List, [], ◌∷◌, ◌++◌, arith, Bool-cases,
  Option-cases,
}
use panaudia.Base.Keys.{Text, text_eq, text_beq_iff, ◌==◌}
use panaudia.Commands.{UuidLib}
use panaudia.Tracks.{
  TrackType, audio_input, audio_output, state_input, state_output, attributes_output, entity_output,
  control_input, generate_track_names, behind, prefix_of, track_types, first_match,
  parse_track_namespace, validate_track_namespace, valid, unrecognized,
}

behind_lem :
    (prefix ns : List Text) (id : Text)
    → behind prefix ns ≡ some id
    → (rest : List Text) × (ns ≡ prefix ++ (id ∷ rest))
unfolding behind
behind_lem [] [] id h = ground (arith, h)
behind_lem [] (c ∷ ns) id h = let same : c ≡ id = ground (arith, h) in (ns, ap (λ t. t ∷ ns) same)
behind_lem (p ∷ prefix) [] id h = ground (arith, h)
behind_lem (p ∷ prefix) (c ∷ ns) id h = elim (Bool-cases (c == p)) [
  | inl e ↦
      let (rest, q) = behind_lem prefix ns id (ground (arith, h, e)) in
      (rest, ap (λ t. t ∷ ns) ((text_beq_iff c p).0 e) ∙ ap (λ t. p ∷ t) q)
  | inr e ↦ ground (arith, h, e)
]

first_match_lem :
    (types : List TrackType) (ns : List Text) (id : Text) (t : TrackType)
    → first_match types ns ≡ some (id, t)
    → (rest : List Text) × (ns ≡ prefix_of t ++ (id ∷ rest))
unfolding first_match
first_match_lem [] ns id t h = ground (arith, h)
first_match_lem (u ∷ types) ns id t h = elim (Option-cases (behind (prefix_of u) ns)) [
  | inl e ↦ first_match_lem types ns id t (ground (arith, h, e))
  | inr (found, e) ↦
      let same : found ≡ id = ground (arith, h, e) in
      let kind : u ≡ t = ground (arith, h, e) in
      let (rest, q) = behind_lem (prefix_of u) ns found e in
      (
        rest,
        q ∙ ap (λ i. prefix_of u ++ (i ∷ rest)) same ∙ ap (λ k. prefix_of k ++ (id ∷ rest)) kind,
      )
]

recognized :
    (id : Text) (t : TrackType) (rest : List Text)
    → parse_track_namespace (prefix_of t ++ (id ∷ rest)) ≡ some (id, t)
unfolding parse_track_namespace first_match behind
recognized id audio_input rest = refl
recognized id audio_output rest = refl
recognized id state_input rest = refl
recognized id state_output rest = refl
recognized id attributes_output rest = refl
recognized id entity_output rest = refl
recognized id control_input rest = refl

-- A namespace is read as a track of a node exactly when it begins with the components of the track's
-- type and the node id; what follows is not looked at.
pub parse_track_namespace_iff :
    (ns : List Text) (id : Text) (t : TrackType)
    → (parse_track_namespace ns ≡ some (id, t))
      ↔ ((rest : List Text) × (ns ≡ prefix_of t ++ (id ∷ rest)))
unfolding parse_track_namespace
parse_track_namespace_iff ns id t = (
  first_match_lem track_types ns id t,
  λ (rest, e). ap parse_track_namespace e ∙ recognized id t rest,
)

-- A namespace of the node validates against the node id.
pub IsTrackOf : Text → List Text → TrackType → Type 0
IsTrackOf id ns t =
    (parse_track_namespace ns ≡ some (id, t)) × (validate_track_namespace ns id ≡ valid)

track-IsTrackOf :
    (ns : List Text) (id : Text) (t : TrackType)
    → parse_track_namespace ns ≡ some (id, t)
    → IsTrackOf id ns t
unfolding validate_track_namespace IsTrackOf
track-IsTrackOf ns id t e = (e, rw (validate_track_namespace, e, (text_beq_iff id id).1 refl) refl)

-- Every track that is generated for a node is read back as its type with the node id and validates
-- for it, but for the track of the space, which is not recognized.
pub parse_track_namespace-generate_track_names :
    (lib : UuidLib) (node : ℕ)
    → let names = generate_track_names lib node in
      let id = lib.to_text node in
      IsTrackOf id names.audio_input_namespace audio_input
      × IsTrackOf id names.state_input_namespace state_input
      × IsTrackOf id names.control_input_namespace control_input
      × IsTrackOf id names.audio_output_namespace audio_output
      × IsTrackOf id names.state_output_namespace state_output
      × IsTrackOf id names.attributes_output_namespace attributes_output
      × IsTrackOf id names.entity_output_namespace entity_output
      × (parse_track_namespace names.space_output_namespace ≡ none)
      × (validate_track_namespace names.space_output_namespace id ≡ unrecognized)
unfolding generate_track_names parse_track_namespace first_match behind validate_track_namespace
parse_track_namespace-generate_track_names lib node =
    let id = lib.to_text node in
    (
      track-IsTrackOf _ id audio_input refl,
      track-IsTrackOf _ id state_input refl,
      track-IsTrackOf _ id control_input refl,
      track-IsTrackOf _ id audio_output refl,
      track-IsTrackOf _ id state_output refl,
      track-IsTrackOf _ id attributes_output refl,
      track-IsTrackOf _ id entity_output refl,
      refl,
      refl,
    )
