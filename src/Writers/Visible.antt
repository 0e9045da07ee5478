-- ===== src/Writers/Visible.antt =====
-- Whose traffic a writer forwards.
use panaudia.Base.{
  ℕ, ◌≡◌, ◌≢◌, ◌↔◌, ◌⊎◌, inl, inr, refl, sym, ◌∙◌, Bool, true, false, ◌&&◌, ◌||◌, Option, some,
  List, if◌then◌else◌, arith, Bool-cases, Option-cases,
}
use panaudia.Base.Keys.{Text, nat_eq}
use panaudia.Base.Assoc.{lookup}
use panaudia.Commands.{UuidLib}
use panaudia.StateCache.{Op}
use panaudia.StateCache.JsonOps.{JsonOp, JsonText}
use panaudia.StateCache.Opened.{open_envelope}
use panaudia.StateCache.Wire.{is_cache_envelope}
use panaudia.Space.Libraries.{SetLib, Libraries}
use panaudia.Space.Libraries.Sets.{is_empty_lem, contains_any_iff}
use panaudia.Space.Encoder.{Encoder, should_include_peer}
use panaudia.Space.Encoder.Audible.{IsEmpty, CanMeet, IsUnmuted, Hears, should_include_peer_lem}
use panaudia.Writers.{View, uuid_visible, source_of}
use panaudia.Writers.Attributes.{Attributes, forward, filter_attributes}
use panaudia.Writers.Known.{knows_in, knows_set}

module _ (ids : SetLib ℕ nat_eq) where
  -- Neither is in a subspace, or there is one that both are in.
  abbrev pub Meets : ids.Set → Option ids.Set → Type 0
  Meets mine theirs =
      (IsEmpty ids mine × ((ss : ℕ) → knows_set ids theirs ss ≡ false))
      ⊎ ((ss : ℕ) × ((ids.contains ss mine ≡ true) × (knows_set ids theirs ss ≡ true)))

  tests :
      (w p c : Bool)
      → ((if w && p then true else if w || p then false else c) ≡ true)
        ↔ (((w ≡ true) × (p ≡ true)) ⊎ ((w ≡ false) × (p ≡ false) × (c ≡ true)))
  tests w p c = ground arith

  nonempty : (s : ids.Set) (x : ℕ) → ids.contains x s ≡ true → ids.is_empty s ≡ false
  nonempty s x h = elim (Bool-cases (ids.is_empty s)) [
    | inl e ↦ ground (arith, h, (is_empty_lem ids s).0 e x)
    | inr e ↦ e
  ]

  -- A writer forwards the traffic of a node exactly when neither it nor its client is in a subspace,
  -- or both are in a common one, as far as the view knows.
  pub uuid_visible_lem :
      (view : View ids) (node : ℕ)
      → (uuid_visible ids view node ≡ true)
        ↔ Meets view.sub_spaces (lookup node view.node_subspaces)
  unfolding uuid_visible
  uuid_visible_lem view node = elim (Option-cases (lookup node view.node_subspaces)) [
    | inl e ↦
        rw (uuid_visible, e)
          (
            λ h. inl ((is_empty_lem ids view.sub_spaces).0 h, λ ss. refl),
            λ m. elim m [
              | inl (i, n) ↦ (is_empty_lem ids view.sub_spaces).1 i
              | inr (ss, (a, b)) ↦ ground (arith, b)
            ],
          )
    | inr (set, e) ↦
        let (there, back) =
          tests (ids.is_empty view.sub_spaces) (ids.is_empty set)
            (ids.contains_any view.sub_spaces set) in
        let meet = contains_any_iff ids view.sub_spaces set in
        rw (uuid_visible, e)
          (
            λ h. elim (there h) [
              | inl (w, p) ↦
                  inl ((is_empty_lem ids view.sub_spaces).0 w, (is_empty_lem ids set).0 p)
              | inr (w, p, c) ↦ inr (meet.0 c)
            ],
            λ m. elim m [
              | inl (i, n) ↦
                  back (inl ((is_empty_lem ids view.sub_spaces).1 i, (is_empty_lem ids set).1 n))
              | inr (ss, (a, b)) ↦
                  back (inr (nonempty view.sub_spaces ss a, nonempty set ss b, meet.1 (ss, (a, b))))
            ],
          )
  ]

-- The writer of a listener and the mixer agree on who can meet, where they know the same subspaces.
uuid_visible-CanMeet :
    (lib : Libraries) (view : View lib.ids) (node : ℕ) (e peer : Encoder lib)
    → ((ss : ℕ) → lib.ids.contains ss view.sub_spaces ≡ lib.ids.contains ss e.sub_spaces)
    → ((ss : ℕ)
        → knows_in lib.ids view.node_subspaces node ss ≡ lib.ids.contains ss peer.sub_spaces)
    → (uuid_visible lib.ids view node ≡ true) ↔ CanMeet lib e peer
unfolding CanMeet
uuid_visible-CanMeet lib view node e peer mine theirs =
    let (there, back) = uuid_visible_lem lib.ids view node in
    (
      λ h. elim (there h) [
        | inl (i, n) ↦ inl (λ ss. sym (mine ss) ∙ i ss, λ ss. sym (theirs ss) ∙ n ss)
        | inr (ss, (a, b)) ↦ inr (ss, (sym (mine ss) ∙ a, sym (theirs ss) ∙ b))
      ],
      λ m. back (elim m [
        | inl (i, n) ↦ inl (λ ss. mine ss ∙ i ss, λ ss. theirs ss ∙ n ss)
        | inr (ss, (a, b)) ↦ inr (ss, (mine ss ∙ a, theirs ss ∙ b))
      ]),
    )

-- An attributes envelope whose operations are those of a node is forwarded.
abbrev pub Forwards :
    (lib : Libraries)
    → UuidLib
    → JsonText
    → (Text → Option Attributes)
    → View lib.ids
    → Text
    → Type 0
Forwards lib uuids json read_attributes view payload =
    (next : View lib.ids) × (filter_attributes lib.ids uuids json read_attributes view payload
      ≡ forward next)

envelope_lem :
    (json : JsonText) (payload : Text) (r : Op × List (JsonOp × Text))
    → open_envelope json payload ≡ some r
    → is_cache_envelope payload ≡ true
unfolding open_envelope
envelope_lem json payload r h = elim (Bool-cases (is_cache_envelope payload)) [
  | inl e ↦ e
  | inr e ↦ ground (arith, h, e)
]

filter_attributes-Forwards :
    (lib : Libraries) (uuids : UuidLib) (json : JsonText)
    (read_attributes : Text → Option Attributes) (view : View lib.ids) (payload : Text)
    (envelope : Op) (ops : List (JsonOp × Text)) (node : ℕ)
    → open_envelope json payload ≡ some (envelope, ops)
    → source_of lib.ids uuids ops ≡ some node
    → Forwards lib uuids json read_attributes view payload ↔ (uuid_visible lib.ids view node ≡ true)
unfolding filter_attributes
filter_attributes-Forwards lib uuids json read_attributes view payload envelope ops node o s =
    let marked = envelope_lem json payload (envelope, ops) o in
    elim (Bool-cases (uuid_visible lib.ids view node)) [
      | inl v ↦ rw (filter_attributes, marked, o, s, v) (λ h. refl, λ h. (_, refl))
      | inr v ↦
          rw (filter_attributes, marked, o, s, v)
            (λ (next, h). ground (arith, h), λ h. ground (arith, h))
    ]

-- The mixer and the writer of a listener agree on their peers. Where both know the same subspaces of
-- the listener and of a node, the mixer lets the listener hear the node exactly when the writer forwards
-- the node's attributes envelopes, the two are different, and the listener has soloed the node, or has
-- no solos and no mute stands between them.
pub should_include_peer-filter_attributes :
    (lib : Libraries) (uuids : UuidLib) (json : JsonText)
    (read_attributes : Text → Option Attributes) (view : View lib.ids) (e peer : Encoder lib)
    (payload : Text) (envelope : Op) (ops : List (JsonOp × Text)) (node : ℕ)
    → open_envelope json payload ≡ some (envelope, ops)
    → source_of lib.ids uuids ops ≡ some node
    → ((ss : ℕ) → lib.ids.contains ss view.sub_spaces ≡ lib.ids.contains ss e.sub_spaces)
    → ((ss : ℕ)
        → knows_in lib.ids view.node_subspaces node ss ≡ lib.ids.contains ss peer.sub_spaces)
    → (should_include_peer lib e peer ≡ true) ↔ (
        Forwards lib uuids json read_attributes view payload
        × (peer.uuid ≢ e.uuid)
        × ((lib.ids.contains peer.uuid e.solos ≡ true)
            ⊎ (IsEmpty lib.ids e.solos × IsUnmuted lib e peer)))
unfolding Hears
should_include_peer-filter_attributes lib uuids json read_attributes view e peer payload envelope
      ops node o s mine theirs =
    let hears = should_include_peer_lem lib e peer in
    let shows =
      filter_attributes-Forwards lib uuids json read_attributes view payload envelope ops node o
        s in
    let meets = uuid_visible-CanMeet lib view node e peer mine theirs in
    (
      λ h.
          let (apart, meet, let_through) = hears.0 h in
          (shows.1 (meets.1 meet), apart, let_through),
      λ (f, apart, let_through). hears.1 (apart, meets.0 (shows.0 f), let_through),
    )
