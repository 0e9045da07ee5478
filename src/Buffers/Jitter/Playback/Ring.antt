-- ===== src/Buffers/Jitter/Playback/Ring.antt =====
-- The ring holds the most recent frames of the stream, each at its position modulo the capacity.
use native.Mathlib.Nat.{mod-lt}
use native.Mathlib.Decide.{dec_le, dec_lt}
use panaudia.Base.{
  ℕ, ◌+◌, ◌-◌, ◌%◌, ◌≤◌, ◌<◌, ◌≡◌, sym, ◌∙◌, ap, ◌⊎◌, inl, inr, List, ◌++◌, arith, length,
  get_elem?, take, drop, length-take, length-drop, length-append, le→leb, gt→leb, lt→ltb, ge→ltb,
}
use panaudia.Buffers.Copy.{
  overwrite, length-overwrite, get_elem?-overwrite_in, get_elem?-overwrite_out, eq_of_get_elem?,
  get_elem?-take, get_elem?-drop, get_elem?-append, get_elem?-none, mod_step,
}
use panaudia.Buffers.Jitter.{Frames}
use panaudia.Buffers.Jitter.Playback.{write_to_ring, read_from_ring}

module _ {A : Type 0} (xs : List A) (i : ℕ) (src : List A) (k : ℕ) where
  -- The two cases of a copy, at an index that is given by an equation.
  copied :
      (d : ℕ)
      → k ≡ i + d
      → d < length src
      → k < length xs
      → get_elem? (overwrite xs i src) k ≡ get_elem? src d
  copied d e h b = rw e (get_elem?-overwrite_in xs i src d h (omega arith))

  kept : (k < i) ⊎ (i + length src ≤ k) → get_elem? (overwrite xs i src) k ≡ get_elem? xs k
  kept h = get_elem?-overwrite_out xs i src k h

module _ (fs : Frames) where
  open fs use {Frame}

  pub length-write_to_ring :
      (cap : ℕ) (ring src : List Frame) (wp : ℕ)
      → length (write_to_ring fs cap ring src wp) ≡ length ring
  unfolding write_to_ring
  length-write_to_ring cap ring src wp = ground (
    arith,
    length-overwrite ring (wp % cap) src,
    length-overwrite ring (wp % cap) (take (cap - wp % cap) src),
    length-overwrite (overwrite ring (wp % cap) (take (cap - wp % cap) src)) 0
        (drop (cap - wp % cap) src),
  )

  module _ (cap : ℕ) (ring src : List Frame) (wp : ℕ) (sized : length ring ≡ cap)
      (fits : length src ≤ cap) (pos : 0 < cap) where
    start_lt : wp % cap < cap
    start_lt = mod-lt wp pos

    -- One copy, or two where the frames go round the end.
    written_at :
        (d : ℕ)
        → d < length src
        → get_elem? (write_to_ring fs cap ring src wp) ((wp + d) % cap) ≡ get_elem? src d
    unfolding write_to_ring
    written_at d h = elim (dec_le (wp % cap + length src) cap) [
      | yes whole ↦ rw (le→leb (wp % cap + length src) cap whole) (
          copied ring (wp % cap) src ((wp + d) % cap) d
            (omega (arith, mod_step wp d cap, mod-lt (wp + d) pos)) h
            (omega (arith, mod-lt (wp + d) pos)))
      | no split ↦ rw (gt→leb (wp % cap + length src) cap (omega arith)) (elim (dec_lt d first) [
        | yes early ↦
            kept front 0 (drop first src) ((wp + d) % cap)
              (inr (omega (arith, place, length-drop first src)))
            ∙ copied ring (wp % cap) (take first src) ((wp + d) % cap) d
                (omega (arith, place, in_ring)) (omega (arith, length-take first src))
                (omega (arith, in_ring))
            ∙ get_elem?-take first src d
            ∙ rw (lt→ltb d first early)
        | no late ↦
            copied front 0 (drop first src) ((wp + d) % cap) (d - first)
              (omega (arith, place, in_ring)) (omega (arith, length-drop first src))
              (omega (arith, in_ring, length-overwrite ring (wp % cap) (take first src)))
            ∙ get_elem?-drop first src (d - first)
            ∙ ap (get_elem? src) (omega arith)
      ])
    ]
      where
        first : ℕ
        first = cap - wp % cap

        front : List Frame
        front = overwrite ring (wp % cap) (take first src)

        place : ((wp + d) % cap ≡ wp % cap + d) ⊎ ((wp + d) % cap + cap ≡ wp % cap + d)
        place = mod_step wp d cap (omega arith)

        in_ring : (wp + d) % cap < cap
        in_ring = mod-lt (wp + d) pos

    kept_at :
        (p : ℕ)
        → p < wp
        → 0 < length src
        → wp + length src ≤ p + cap
        → get_elem? (write_to_ring fs cap ring src wp) (p % cap) ≡ get_elem? ring (p % cap)
    unfolding write_to_ring
    kept_at p h some_frames near = elim (dec_le (wp % cap + length src) cap) [
      | yes whole ↦
          rw (le→leb (wp % cap + length src) cap whole)
            (kept ring (wp % cap) src (p % cap) (omega (arith, place, wp_place, in_ring)))
      | no split ↦ rw (gt→leb (wp % cap + length src) cap (omega arith)) (
          kept (overwrite ring (wp % cap) (take first src)) 0 (drop first src) (p % cap)
            (inr (omega (arith, place, wp_place, length-drop first src)))
          ∙ kept ring (wp % cap) (take first src) (p % cap) (inl (omega (arith, place, wp_place))))
    ]
      where
        first : ℕ
        first = cap - wp % cap

        place :
            ((p + (wp - p)) % cap ≡ p % cap + (wp - p))
            ⊎ ((p + (wp - p)) % cap + cap ≡ p % cap + (wp - p))
        place = mod_step p (wp - p) cap (omega arith)

        wp_place : (p + (wp - p)) % cap ≡ wp % cap
        wp_place = ap (λ (t : ℕ). t % cap) (omega arith)

        in_ring : p % cap < cap
        in_ring = mod-lt p pos

  -- The ring agrees with the last `cap` frames of the stream.
  abbrev pub Holds : ℕ → List Frame → List Frame → Type 0
  Holds cap ring stream =
      (p : ℕ)
      → p < length stream
      → length stream ≤ p + cap
      → get_elem? ring (p % cap) ≡ get_elem? stream p

  module _ (cap : ℕ) (ring stream : List Frame) (sized : length ring ≡ cap) where
    -- Frames written at the end of the stream extend it.
    pub write_to_ring-Holds :
        (src : List Frame)
        → 0 < length src
        → length src ≤ cap
        → Holds cap ring stream
        → Holds cap (write_to_ring fs cap ring src (length stream)) (stream ++ src)
    write_to_ring-Holds src some_frames fits held p h near = elim (dec_lt p (length stream)) [
      | yes old ↦
          kept_at cap ring src (length stream) sized fits (omega arith) p old some_frames
            (omega (arith, lengths))
          ∙ held p old (omega (arith, lengths))
          ∙ sym (get_elem?-append stream src p ∙ rw (lt→ltb p (length stream) old))
      | no new ↦
          let e : length stream + (p - length stream) ≡ p = omega arith in
          ap (λ t. get_elem? (write_to_ring fs cap ring src (length stream)) (t % cap)) (sym e)
          ∙ written_at cap ring src (length stream) sized fits (omega arith) (p - length stream)
              (omega (arith, lengths))
          ∙ sym (get_elem?-append stream src p ∙ rw (ge→ltb p (length stream) (omega arith)))
    ]
      where
        lengths : length (stream ++ src) ≡ length stream + length src
        lengths = length-append stream src

    module _ (rp n : ℕ) (fits : n ≤ cap) (pos : 0 < cap) where
      read_at :
          (k : ℕ)
          → k < n
          → get_elem? (read_from_ring fs cap ring rp n) k ≡ get_elem? ring ((rp + k) % cap)
      unfolding read_from_ring
      read_at k h = elim (dec_le (rp % cap + n) cap) [
        | yes whole ↦ rw (le→leb (rp % cap + n) cap whole) (
            get_elem?-take n (drop (rp % cap) ring) k
            ∙ rw (lt→ltb k n h) (
                get_elem?-drop (rp % cap) ring k
                ∙ ap (get_elem? ring) (omega (arith, place, in_ring))))
        | no split ↦ rw (gt→leb (rp % cap + n) cap (omega arith)) (
            get_elem?-append (drop (rp % cap) ring) (take (n - (cap - rp % cap)) ring) k
            ∙ elim (dec_lt k (cap - rp % cap)) [
              | yes early ↦ rw (lt→ltb k (length (drop (rp % cap) ring)) (omega (arith, front))) (
                  get_elem?-drop (rp % cap) ring k
                  ∙ ap (get_elem? ring) (omega (arith, place, in_ring)))
              | no late ↦ rw (ge→ltb k (length (drop (rp % cap) ring)) (omega (arith, front))) (
                  get_elem?-take (n - (cap - rp % cap)) ring (k - length (drop (rp % cap) ring))
                  ∙ rw
                      (lt→ltb (k - length (drop (rp % cap) ring)) (n - (cap - rp % cap))
                        (omega (arith, front)))
                      (ap (get_elem? ring) (omega (arith, front, place, in_ring))))
            ])
      ]
        where
          place : ((rp + k) % cap ≡ rp % cap + k) ⊎ ((rp + k) % cap + cap ≡ rp % cap + k)
          place = mod_step rp k cap (omega arith)

          in_ring : (rp + k) % cap < cap
          in_ring = mod-lt (rp + k) pos

          front : length (drop (rp % cap) ring) ≡ cap - rp % cap
          front = length-drop (rp % cap) ring ∙ ap (λ t. t - rp % cap) sized

      pub length-read_from_ring : length (read_from_ring fs cap ring rp n) ≡ n
      unfolding read_from_ring
      length-read_from_ring = ground (
        arith,
        mod-lt rp pos,
        sized,
        length-drop (rp % cap) ring,
        length-take n (drop (rp % cap) ring),
        length-take (n - (cap - rp % cap)) ring,
        length-append (drop (rp % cap) ring) (take (n - (cap - rp % cap)) ring),
      )

    -- What is read is the stream from the read position on.
    pub read_from_ring_lem :
        (rp n : ℕ)
        → 0 < cap
        → Holds cap ring stream
        → rp + n ≤ length stream
        → length stream ≤ rp + cap
        → n ≤ cap
        → read_from_ring fs cap ring rp n ≡ take n (drop rp stream)
    read_from_ring_lem rp n pos held h near fits =
        eq_of_get_elem? (read_from_ring fs cap ring rp n) (take n (drop rp stream)) λ k.
          elim (dec_lt k n) [
            | yes lt ↦
                read_at rp n fits pos k lt
                ∙ held (rp + k) (omega arith) (omega arith)
                ∙ sym (
                    get_elem?-take n (drop rp stream) k
                    ∙ rw (lt→ltb k n lt) (get_elem?-drop rp stream k))
            | no ge ↦
                get_elem?-none (read_from_ring fs cap ring rp n) k
                  (omega (arith, length-read_from_ring rp n fits pos))
                ∙ sym (get_elem?-take n (drop rp stream) k ∙ rw (ge→ltb k n (omega arith)))
          ]
