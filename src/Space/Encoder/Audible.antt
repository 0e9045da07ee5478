-- ===== src/Space/Encoder/Audible.antt =====
-- Who is heard: solos, mutes and subspaces.
use panaudia.Base.{
  ℕ, ◌≡◌, ◌≢◌, ◌↔◌, ◌⊎◌, inl, inr, refl, Bool, true, false, not, ◌&&◌, ◌||◌, eqb, eqb_iff, arith,
  Bool-cases, if◌then◌else◌,
}
use panaudia.Base.Keys.{Text, Key}
use panaudia.Space.Libraries.{Libraries, SetLib}
use panaudia.Space.Libraries.Sets.{is_empty_lem, contains_any_iff}
use panaudia.Space.Encoder.{Encoder, should_include_peer}

-- The set has no element.
abbrev pub IsEmpty : {A : Type 0} {key : Key A} (lib : SetLib A key) → lib.Set → Type 0
IsEmpty {A} lib s = (x : A) → lib.contains x s ≡ false

not_empty :
    {A : Type 0} {key : Key A} (lib : SetLib A key) (s : lib.Set) (x : A)
    → lib.contains x s ≡ true
    → lib.is_empty s ≡ false
not_empty lib s x h = elim (Bool-cases (lib.is_empty s)) [
  | inl i ↦ let no : lib.contains x s ≡ false = (is_empty_lem lib s).0 i x in ground arith
  | inr i ↦ i
]

-- The tests of `shouldIncludePeer` in their order, as a condition.
tests_iff :
    (q m n c sm rm mr x y : Bool)
    → ((if q
          then false
          else if m
          then false
          else if not n
          then c
          else if sm
          then false
          else if rm
          then false
          else if mr
          then false
          else not (x || y))
        ≡ true)
      ↔ ((q ≡ false)
          × (m ≡ false)
          × (((n ≡ false) × (c ≡ true))
              ⊎ ((n ≡ true)
                  × (sm ≡ false)
                  × (rm ≡ false)
                  × (mr ≡ false)
                  × (x ≡ false)
                  × (y ≡ false))))
tests_iff q m n c sm rm mr x y = ground arith

module _ (lib : Libraries) where
  -- Neither is in a subspace, or there is one that both are in.
  unfoldable pub CanMeet : Encoder lib → Encoder lib → Type 0
  CanMeet e peer =
      (IsEmpty lib.ids e.sub_spaces × IsEmpty lib.ids peer.sub_spaces)
      ⊎ ((id : ℕ) × ((lib.ids.contains id e.sub_spaces ≡ true)
            × (lib.ids.contains id peer.sub_spaces ≡ true)))

  -- No mute of the space, of a role or of either of the two stands between them.
  unfoldable pub IsUnmuted : Encoder lib → Encoder lib → Type 0
  IsUnmuted e peer =
      (peer.space_muted ≡ false)
      × (peer.space_role_muted ≡ false)
      × ((role : Text)
          → lib.texts.contains role e.mute_roles ≡ true
          → lib.texts.contains role peer.roles ≡ false)
      × (lib.ids.contains peer.uuid e.mutes ≡ false)
      × (lib.ids.contains e.uuid peer.mutes ≡ false)

  unfoldable pub Hears : Encoder lib → Encoder lib → Type 0
  Hears e peer =
      (peer.uuid ≢ e.uuid)
      × CanMeet e peer
      × ((lib.ids.contains peer.uuid e.solos ≡ true) ⊎ (IsEmpty lib.ids e.solos × IsUnmuted e peer))

  can_meet_lem :
      (e peer : Encoder lib)
      → (((not (lib.ids.is_empty e.sub_spaces) || not (lib.ids.is_empty peer.sub_spaces))
            && not (lib.ids.contains_any e.sub_spaces peer.sub_spaces))
          ≡ false)
        ↔ CanMeet e peer
  unfolding CanMeet
  can_meet_lem e peer =
      let any_iff = contains_any_iff lib.ids e.sub_spaces peer.sub_spaces in
      let none_here = is_empty_lem lib.ids e.sub_spaces in
      let none_there = is_empty_lem lib.ids peer.sub_spaces in
      (
        λ h. elim (Bool-cases (lib.ids.contains_any e.sub_spaces peer.sub_spaces)) [
          | inl a ↦ inr (any_iff.0 a)
          | inr a ↦ inl (none_here.0 (ground arith), none_there.0 (ground arith))
        ],
        λ c. elim c [
          | inl (here, there) ↦ rw (none_here.1 here, none_there.1 there) refl
          | inr shared ↦ ground (arith, any_iff.1 shared)
        ],
      )

  mute_roles_lem :
      (e peer : Encoder lib)
      → ((not (lib.texts.is_empty e.mute_roles)
            && (not (lib.texts.is_empty peer.roles)
                && lib.texts.contains_any e.mute_roles peer.roles))
          ≡ false)
        ↔ ((role : Text)
            → lib.texts.contains role e.mute_roles ≡ true
            → lib.texts.contains role peer.roles ≡ false)
  mute_roles_lem e peer =
      let any_iff = contains_any_iff lib.texts e.mute_roles peer.roles in
      (
        λ h role m. elim (Bool-cases (lib.texts.contains role peer.roles)) [
          | inr k ↦ k
          | inl k ↦
              let full_here : lib.texts.is_empty e.mute_roles ≡ false =
                not_empty lib.texts e.mute_roles role m in
              let full_there : lib.texts.is_empty peer.roles ≡ false =
                not_empty lib.texts peer.roles role k in
              ground (arith, any_iff.1 (role, (m, k)), full_here, full_there)
        ],
        λ h. elim (Bool-cases (lib.texts.contains_any e.mute_roles peer.roles)) [
          | inl a ↦ let (role, (m, k)) = any_iff.0 a in ground (arith, h role m)
          | inr a ↦ ground arith
        ],
      )

  -- A listener hears a peer exactly when they are two, can meet in the subspaces, and the listener
  -- either has soloed the peer, or has no solos and no mute stands between them.
  pub should_include_peer_lem :
      (e peer : Encoder lib) → (should_include_peer lib e peer ≡ true) ↔ Hears e peer
  unfolding should_include_peer Hears IsUnmuted
  should_include_peer_lem e peer =
      let meet = can_meet_lem e peer in
      let by_role = mute_roles_lem e peer in
      let no_solos = is_empty_lem lib.ids e.solos in
      let tests =
        tests_iff (eqb peer.uuid e.uuid)
          ((not (lib.ids.is_empty e.sub_spaces) || not (lib.ids.is_empty peer.sub_spaces))
            && not (lib.ids.contains_any e.sub_spaces peer.sub_spaces))
          (lib.ids.is_empty e.solos) (lib.ids.contains peer.uuid e.solos) peer.space_muted
          peer.space_role_muted
          (not (lib.texts.is_empty e.mute_roles)
            && (not (lib.texts.is_empty peer.roles)
                && lib.texts.contains_any e.mute_roles peer.roles))
          (lib.ids.contains peer.uuid e.mutes) (lib.ids.contains e.uuid peer.mutes) in
      (
        λ h.
            let (q, m, rest) = tests.0 h in
            (
              λ same. ground (arith, (eqb_iff peer.uuid e.uuid).1 same),
              meet.0 m,
              elim rest [
                | inl (n, c) ↦ inl c
                | inr (n, sm, rm, mr, x, y) ↦ inr (no_solos.0 n, (sm, rm, by_role.0 mr, x, y))
              ],
            ),
        λ (apart, m, either). tests.1 (
          elim (Bool-cases (eqb peer.uuid e.uuid)) [
            | inl q ↦ absurd (apart ((eqb_iff peer.uuid e.uuid).0 q))
            | inr q ↦ q
          ],
          meet.1 m,
          elim either [
            | inl c ↦ inl (not_empty lib.ids e.solos peer.uuid c, c)
            | inr (n, (sm, rm, mr, x, y)) ↦ inr (no_solos.1 n, sm, rm, by_role.1 mr, x, y)
          ],
        ),
      )
