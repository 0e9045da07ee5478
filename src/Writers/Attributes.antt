-- ===== src/Writers/Attributes.antt =====
-- core/moq/moq_data_writer.go: `sendAttributes` up to the sending, for envelopes and for the plain
-- JSON of older senders. core/panaudia_server/data_writer.go has the same steps.
use panaudia.Base.{ℕ, not, ◌&&◌, ◌||◌, Option, none, some, List, [], ◌∷◌, if◌then◌else◌}
use panaudia.Base.Keys.{Text, nat_eq}
use panaudia.Commands.{UuidLib}
use panaudia.StateCache.JsonOps.{JsonText}
use panaudia.StateCache.Wire.{is_cache_envelope}
use panaudia.StateCache.Opened.{open_envelope}
use panaudia.Space.Libraries.{SetLib}
use panaudia.Writers.{View, uuid_visible, source_of}

-- What a type assertion meets in a JSON map: nothing or nil, another type, or the type it asserts.
pub data Field (A : Type 0) : Type 0 where
  absent other : Field A
  value : A → Field A

-- The fields that are read of plain JSON attributes
pub record Attributes : Type 0 where
  pub subspaces : Field (List (Field Text))
  pub uuid : Field Text

-- What becomes of the message: it is dropped, it is forwarded, or a type assertion or `MustParse` of a
-- uuid panics.
pub data Verdict (V : Type 0) : Type 0 where
  dropped panics : Verdict V
  forward : V → Verdict V

module _ (ids : SetLib ℕ nat_eq) (uuids : UuidLib) where
  -- The loop over the sender's subspaces, `none` for a panic
  unfoldable pub sender_set : List (Field Text) → ids.Set → Option ids.Set
  sender_set [] s = some s
  sender_set (absent ∷ fields) s = none
  sender_set (other ∷ fields) s = none
  sender_set (value t ∷ fields) s = elim (uuids.parse t) [
    | none ↦ none
    | some ss ↦ sender_set fields (ids.add ss s)
  ]

  -- The sender is remembered as a member
  unfoldable pub admit_sender : View ids → Field Text → Verdict (View ids)
  admit_sender view absent = panics
  admit_sender view other = panics
  admit_sender view (value t) = elim (uuids.parse t) [
    | none ↦ dropped
    | some id ↦ forward (record view { members = ids.add id view.members })
  ]

  -- The path of plain JSON
  unfoldable pub filter_plain : View ids → Attributes → Verdict (View ids)
  filter_plain view attributes = elim attributes.subspaces [
    | absent ↦
        if not (ids.is_empty view.sub_spaces) then dropped else admit_sender view attributes.uuid
    | other ↦ panics
    | value fields ↦ elim (sender_set fields ids.empty) [
      | none ↦ panics
      | some sender ↦
          if (not (ids.is_empty view.sub_spaces) || not (ids.is_empty sender))
            && not (ids.contains_any view.sub_spaces sender)
          then dropped
          else admit_sender view attributes.uuid
    ]
  ]

  -- `sendAttributes`: the view that the message leaves, where it is forwarded.
  unfoldable pub filter_attributes :
      JsonText → (Text → Option Attributes) → View ids → Text → Verdict (View ids)
  filter_attributes json read_attributes view payload =
      if is_cache_envelope payload
      then elim (open_envelope json payload) [
        | none ↦ dropped
        | some (envelope, ops) ↦ elim (source_of ids uuids ops) [
          | none ↦ dropped
          | some source ↦
              if uuid_visible ids view source
              then forward (record view { members = ids.add source view.members })
              else dropped
        ]
      ]
      else elim (read_attributes payload) [
        | none ↦ dropped
        | some attributes ↦ filter_plain view attributes
      ]
