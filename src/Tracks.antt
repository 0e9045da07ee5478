-- ===== src/Tracks.antt =====
-- core/moq/tracks.go: the namespaces of a node's MOQ tracks. A namespace is a list of components.
pub mod Names
use panaudia.Base.{ℕ, Option, none, some, List, [], ◌∷◌, ◌++◌, if◌then◌else◌}
use panaudia.Base.Keys.{Text, bytes, text_eq, ◌==◌}
use panaudia.Commands.{UuidLib}

-- `TrackNames`
pub record TrackNames : Type 0 where
  pub audio_input_namespace : List Text
  pub state_input_namespace : List Text
  pub control_input_namespace : List Text
  pub audio_output_namespace : List Text
  pub state_output_namespace : List Text
  pub attributes_output_namespace : List Text
  pub entity_output_namespace : List Text
  pub space_output_namespace : List Text
  pub node_id : Text

-- The track types that `ParseTrackNamespace` tells apart
pub data TrackType : Type 0 where
  audio_input audio_output state_input state_output attributes_output entity_output control_input :
      TrackType

pub data Validity : Type 0 where
  valid unrecognized wrong_node : Validity

-- `GenerateTrackNamesFromUUID`; `GenerateTrackNames` does the same with the uuid of a `NodeConfig`.
unfoldable pub generate_track_names : UuidLib → ℕ → TrackNames
generate_track_names lib node =
    let id = lib.to_text node in
    record {
      audio_input_namespace = bytes "in" ∷ bytes "audio" ∷ bytes "opus-mono" ∷ id ∷ [];
      state_input_namespace = bytes "state" ∷ id ∷ [];
      control_input_namespace = bytes "in" ∷ bytes "control" ∷ id ∷ [];
      audio_output_namespace = bytes "out" ∷ bytes "audio" ∷ bytes "opus-stereo" ∷ id ∷ [];
      state_output_namespace = bytes "out" ∷ bytes "state" ∷ id ∷ [];
      attributes_output_namespace = bytes "out" ∷ bytes "attributes" ∷ id ∷ [];
      entity_output_namespace = bytes "out" ∷ bytes "entity" ∷ id ∷ [];
      space_output_namespace = bytes "out" ∷ bytes "space" ∷ id ∷ [];
      node_id = id;
    }

-- `joinNamespace`
unfoldable pub join_namespace : List Text → Text
join_namespace [] = []
join_namespace (c ∷ []) = c
join_namespace (c ∷ d ∷ ns) = c ++ (b'/' ∷ join_namespace (d ∷ ns))

-- `AudioInputTrackName`, `StateInputTrackName` and `AudioOutputTrackName`
abbrev pub audio_input_track_name : TrackNames → Text
audio_input_track_name t = b'/' ∷ join_namespace t.audio_input_namespace

abbrev pub state_input_track_name : TrackNames → Text
state_input_track_name t = b'/' ∷ join_namespace t.state_input_namespace

abbrev pub audio_output_track_name : TrackNames → Text
audio_output_track_name t = b'/' ∷ join_namespace t.audio_output_namespace

-- One test of `ParseTrackNamespace`: the component behind these, where there is one.
unfoldable pub behind : List Text → List Text → Option Text
behind [] [] = none
behind [] (id ∷ rest) = some id
behind (p ∷ prefix) [] = none
behind (p ∷ prefix) (c ∷ ns) = let rest = behind prefix ns in if c == p then rest else none

-- The components before the node id, by track type
abbrev pub prefix_of : TrackType → List Text
prefix_of audio_input = bytes "in" ∷ bytes "audio" ∷ bytes "opus-mono" ∷ []
prefix_of audio_output = bytes "out" ∷ bytes "audio" ∷ bytes "opus-stereo" ∷ []
prefix_of state_input = bytes "state" ∷ []
prefix_of state_output = bytes "out" ∷ bytes "state" ∷ []
prefix_of attributes_output = bytes "out" ∷ bytes "attributes" ∷ []
prefix_of entity_output = bytes "out" ∷ bytes "entity" ∷ []
prefix_of control_input = bytes "in" ∷ bytes "control" ∷ []

-- The tests in their order
abbrev pub track_types : List TrackType
track_types =
    audio_input ∷ audio_output ∷ state_input ∷ state_output ∷ attributes_output ∷ entity_output
    ∷ control_input ∷ []

unfoldable pub first_match : List TrackType → List Text → Option (Text × TrackType)
first_match [] ns = none
first_match (t ∷ types) ns =
    let rest = first_match types ns in
    elim (behind (prefix_of t) ns) [ none ↦ rest | some id ↦ some (id, t) ]

-- `ParseTrackNamespace`, with its two errors as one
unfoldable pub parse_track_namespace : List Text → Option (Text × TrackType)
parse_track_namespace ns = first_match track_types ns

-- `ValidateTrackNamespace`
unfoldable pub validate_track_namespace : List Text → Text → Validity
validate_track_namespace ns expected = elim (parse_track_namespace ns) [
  | none ↦ unrecognized
  | some (id, t) ↦ if id == expected then valid else wrong_node
]
