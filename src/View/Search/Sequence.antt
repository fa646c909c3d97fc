-- ===== src/View/Search/Sequence.antt =====
-- src/pipeline/segmented_byte_view.h: `position_of_sequence` against a search of the joined bytes.
use xtd.Base.{
  ℕ, ◌+◌, ◌^◌, ◌≤◌, ◌<◌, ◌≡◌, refl, sym, ap, subst, ◌∙◌, ◌≢◌, ◌⊎◌, inl, inr, true, false, none,
  List, [], ◌∷◌, ◌++◌, append-nil, append_assoc, arith, dec_lt, ◌==◌, if◌then◌else◌, lt→ltb, le→ltb,
  Option-cases, length, flatten, length-append, size_mod, add_size_exact,
}
use xtd.Position.{Position}
use xtd.View.{View, is_single_segment}
use xtd.View.Slices.{IsValid, bytes}
use xtd.View.Search.{
  hit_or, search_index, position_of, boundary_search, sequence_loop, position_of_sequence,
}
use xtd.View.Search.Patterns.{search_index-short, search_index-le}
use xtd.View.Search.Seams.{search_index-fast}
use xtd.View.Search.Laws.{locate, search_index-one, position_of_lem}
use xtd.View.Search.Boundary.{around_end}

module _ (base : ℕ) (joined pattern : List ℕ) (long : 1 < length pattern)
    (fits : length pattern ≤ 2 ^ 63) (small : base + length joined < size_mod) where
  -- One round of the loop, in a view of more segments.
  round_many :
      (pre s r : List ℕ) (later : Position)
      → joined ≡ pre ++ (s ++ r)
      → later ≡ locate (base + (length pre + length s)) (search_index pattern r)
      → hit_or
          (base + length pre)
          (search_index pattern s)
          (hit_or base (boundary_search joined pattern (length pre) (length s)) later)
        ≡ locate (base + length pre) (search_index pattern (s ++ r))
  round_many pre s r later split rest = elim (Option-cases (search_index pattern s)) [
    | inl miss ↦
        rw miss (around_end base joined pattern long fits small pre s r later split miss rest)
    | inr (i, hit) ↦
        let inside : i + length pattern ≤ length s = search_index-le pattern s i hit in
        rw (hit, search_index-fast pattern s r i (omega arith) hit)
          (ap (λ n. record { offset = n; found = true })
            (add_size_exact (base + length pre) i
              (omega (arith, ap length split, length-append pre (s ++ r), length-append s r))))
  ]

  sequence_loop-many :
      (segments : List (List ℕ)) (pre : List ℕ)
      → joined ≡ pre ++ flatten segments
      → sequence_loop base false joined pattern segments (length pre)
        ≡ locate (base + length pre) (search_index pattern (flatten segments))
  unfolding sequence_loop
  sequence_loop-many [] pre split = rw (search_index-short pattern [] (omega arith))
  sequence_loop-many (s ∷ rest) pre split =
      let joined_rest : joined ≡ (pre ++ s) ++ flatten rest =
        split ∙ sym (append_assoc pre s (flatten rest)) in
      let total : length joined ≡ length pre + (length s + length (flatten rest)) =
        ap length split
        ∙ length-append pre (s ++ flatten rest)
        ∙ ap (λ n. length pre + n) (length-append s (flatten rest)) in
      let later : sequence_loop base false joined pattern rest (length pre + length s)
          ≡ locate (base + (length pre + length s)) (search_index pattern (flatten rest)) =
        subst
          (λ k.
            sequence_loop base false joined pattern rest k
            ≡ locate (base + k) (search_index pattern (flatten rest)))
          (length-append pre s) (sequence_loop-many rest (pre ++ s) joined_rest) in
      rw
        (
          add_size_exact (length pre) (length s) (omega arith),
          add_size_exact base (length pre) (omega arith),
        )
        (round_many pre s (flatten rest)
          (sequence_loop base false joined pattern rest (length pre + length s)) split later)

  -- In a view of one segment the loop stops after the search of that segment.
  sequence_loop-one :
      (s : List ℕ)
      → length s ≤ length joined
      → sequence_loop base true joined pattern (s ∷ []) 0 ≡ locate base (search_index pattern s)
  unfolding sequence_loop
  sequence_loop-one s h = elim (Option-cases (search_index pattern s)) [
    | inl miss ↦ rw miss
    | inr (i, hit) ↦
        let inside : i + length pattern ≤ length s = search_index-le pattern s i hit in
        rw (hit, add_size_exact base 0 (omega arith))
          (ap (λ n. record { offset = n; found = true })
            (add_size_exact (base + 0) i (omega arith) ∙ omega arith))
  ]

-- The loop from the first segment on, with the test of `is_single_segment` as it is made.
loop_all :
    (base : ℕ) (pattern : List ℕ) (segments : List (List ℕ))
    → 1 < length pattern
    → length pattern ≤ 2 ^ 63
    → base + length (flatten segments) < size_mod
    → sequence_loop base (length segments == 1) (flatten segments) pattern segments 0
      ≡ locate base (search_index pattern (flatten segments))
loop_all base pattern [] long fits small =
    sequence_loop-many base [] pattern long fits small [] [] refl
    ∙ ap (λ k. locate k (search_index pattern [])) (omega arith)
loop_all base pattern (s ∷ []) long fits small =
    sequence_loop-one base (s ++ []) pattern long fits small s (omega (arith, length-append s []))
    ∙ ap (λ xs. locate base (search_index pattern xs)) (sym (append-nil s))
loop_all base pattern (s ∷ s' ∷ rest) long fits small =
    let many : (length (s ∷ s' ∷ rest) == 1) ≡ false = ground arith in
    rw many (
      sequence_loop-many base (flatten (s ∷ s' ∷ rest)) pattern long fits small (s ∷ s' ∷ rest) []
        refl
      ∙ ap (λ k. locate k (search_index pattern (flatten (s ∷ s' ∷ rest)))) (omega arith))

-- `position_of_sequence` gives the position at which a non-empty sequence first stands in the joined
-- bytes of the view, across any number of segments' borders, and no position if it stands nowhere;
-- the empty sequence has no position. A sequence has at most 2^63 bytes, as any object has.
pub position_of_sequence_lem :
    (v : View) (pattern : List ℕ)
    → IsValid v
    → length pattern ≤ 2 ^ 63
    → ((pattern ≡ []) × (position_of_sequence v pattern ≡ locate v.begin_offset none))
      ⊎ ((pattern ≢ [])
          × (position_of_sequence v pattern
              ≡ locate v.begin_offset (search_index pattern (bytes v))))
unfolding position_of_sequence
position_of_sequence_lem v [] valid fits = inl (refl, refl)
position_of_sequence_lem v (b ∷ rest) valid fits = inr (λ e. cc, found)
  where
    found :
        position_of_sequence v (b ∷ rest)
        ≡ locate v.begin_offset (search_index (b ∷ rest) (bytes v))
    found = elim (dec_lt v.size (length (b ∷ rest))) [
      | yes over ↦ rw (
        lt→ltb v.size (length (b ∷ rest)) over,
        search_index-short (b ∷ rest) (bytes v) (omega (arith, valid)),
      )
      | no inside ↦ rw (le→ltb v.size (length (b ∷ rest)) (omega arith)) (guarded rest fits)
    ]
      where
        guarded :
            (rest : List ℕ)
            → length (b ∷ rest) ≤ 2 ^ 63
            → (if length (b ∷ rest) == 1
                then position_of v b
                else sequence_loop v.begin_offset
                    (is_single_segment v)
                    (flatten v.segments)
                    (b ∷ rest)
                    v.segments
                    0)
              ≡ locate v.begin_offset (search_index (b ∷ rest) (bytes v))
        guarded [] h =
            position_of_lem v b valid
            ∙ ap (locate v.begin_offset) (sym (search_index-one b (bytes v)))
        guarded (c ∷ more) h =
            let many : (length (b ∷ c ∷ more) == 1) ≡ false = ground arith in
            rw many (
              loop_all v.begin_offset (b ∷ c ∷ more) v.segments (omega arith) h
                (omega (arith, valid)))
