-- ===== src/View/Search/Boundary.antt =====
-- src/pipeline/segmented_byte_view.h: the search round the end of a segment, which
-- `position_of_sequence` makes.
use xtd.Base.{
  ℕ, ◌+◌, ◌-◌, ◌^◌, ◌≤◌, ◌<◌, min, ◌≡◌, refl, sym, ap, ◌∙◌, inl, inr, true, Option, none, some,
  List, ◌++◌, arith, ℕ_discrete, ◌==◌, ==_iff, Bool-cases, length, take, drop, length-append,
  length-take, length-drop, take_all, drop-zero, take-append, drop-append, drop-drop, drop_prefix,
  size_mod, add_size, sub_size, add_size_exact,
}
use mathlib.Core.Option
use xtd.Position.{Position}
use xtd.View.{subspan}
use xtd.View.Search.{hit_or, search_index, boundary_search}
use xtd.View.Search.Patterns.{or_else, shift, shift-shift, search_index-short, search_index-le}
use xtd.View.Search.Seams.{search_index-tail, search_index-split}
use xtd.View.Search.Laws.{locate, locate-shift}

-- The bytes round the end of a segment `s` that is `pre` bytes into the joined view: the last
-- `t` bytes of `s` and the first `m` bytes of what follows.
around_lem :
    (pre s r : List ℕ) (t m : ℕ)
    → t ≤ length s
    → subspan (pre ++ (s ++ r)) (length pre + (length s - t)) (t + m)
      ≡ drop (length s - t) s ++ take m r
around_lem pre s r t m h = ground (
  arith,
  sym (drop-drop (length s - t) (length pre) (pre ++ (s ++ r))),
  drop_prefix (length pre) pre (s ++ r) refl,
  drop-append (length s - t) s r,
  drop-zero (length s - t - length s) r,
  take-append (t + m) (drop (length s - t) s) r,
  length-drop (length s - t) s,
  take_all (t + m) (drop (length s - t) s),
)

-- Where no sum wraps, adding a base to a hit is a shift.
add-shift :
    (k : ℕ) (o : Option ℕ)
    → ((i : ℕ) → o ≡ some i → k + i < size_mod)
    → Option.map (λ i. add_size k i) o ≡ shift k o
add-shift k none h = refl
add-shift k (some i) h = ap some (add_size_exact k i (h i refl))

module _ (joined pattern pre s r : List ℕ) where
  -- The search round the end of a segment, with the offsets' arithmetic taken exactly.
  boundary_search_lem :
      joined ≡ pre ++ (s ++ r)
      → 1 < length pattern
      → length pattern ≤ 2 ^ 63
      → length joined < size_mod
      → (t : ℕ) → t ≡ min (length s) (length pattern - 1)
      → boundary_search joined pattern (length pre) (length s)
        ≡ shift
            (length pre + (length s - t))
            (search_index pattern (drop (length s - t) s ++ take (length pattern - 1) r))
  unfolding boundary_search
  boundary_search_lem split long fits small t at_most =
      rw (tail, offset, count)
        (elim (ℕ_discrete t 0) [
          | yes none_left ↦
              rw ((==_iff t 0).1 none_left, search_index-short pattern window (short none_left))
          | no more ↦ elim (Bool-cases (t == 0)) [
            | inl e ↦ absurd (more ((==_iff t 0).0 e))
            | inr e ↦ rw (e, cut) (add-shift from (search_index pattern window) exact)
          ]
        ])
    where
      total : length joined ≡ length pre + (length s + length r)
      total = omega (arith, ap length split, length-append pre (s ++ r), length-append s r)

      from : ℕ
      from = length pre + (length s - t)

      window : List ℕ
      window = drop (length s - t) s ++ take (length pattern - 1) r

      sized : length window ≡ t + min (length pattern - 1) (length r)
      sized = omega (
        arith,
        at_most,
        length-append (drop (length s - t) s) (take (length pattern - 1) r),
        length-drop (length s - t) s,
        length-take (length pattern - 1) r,
      )

      tail : min (length s) (sub_size (length pattern) 1) ≡ t
      tail = omega (arith, at_most, fits, long)

      offset : sub_size (add_size (length pre) (length s)) t ≡ from
      offset = omega (arith, at_most, total, small)

      count : sub_size (add_size t (length pattern)) 1 ≡ t + (length pattern - 1)
      count = omega (arith, at_most, fits, long)

      short : t ≡ 0 → length window < length pattern
      short e = omega (arith, sized, long, e)

      cut : subspan joined from (t + (length pattern - 1)) ≡ window
      cut = rw split (around_lem pre s r t (length pattern - 1) (omega (arith, at_most)))

      exact : (i : ℕ) → search_index pattern window ≡ some i → from + i < size_mod
      exact i e = omega (arith, sized, total, small, at_most, search_index-le pattern window i e)

shift-or_else :
    (k : ℕ) (o later : Option ℕ) → shift k (or_else o later) ≡ or_else (shift k o) (shift k later)
shift-or_else k none later = refl
shift-or_else k (some i) later = refl

-- After a segment without a hit, the first hit starts in its last bytes or in the rest.
search_index-seam :
    (pattern s r : List ℕ) (t : ℕ)
    → 0 < length pattern
    → t ≡ min (length s) (length pattern - 1)
    → search_index pattern s ≡ none
    → search_index pattern (s ++ r)
      ≡ or_else
          (shift
            (length s - t)
            (search_index pattern (drop (length s - t) s ++ take (length pattern - 1) r)))
          (shift (length s) (search_index pattern r))
search_index-seam pattern s r t h at_most miss =
    let tail : List ℕ = drop (length s - t) s in
    let sized : length s - t + length tail ≡ length s =
      omega (arith, at_most, length-drop (length s - t) s) in
    search_index-tail pattern s r t miss at_most
    ∙ ap (shift (length s - t)) (search_index-split pattern tail r h)
    ∙ shift-or_else (length s - t) (search_index pattern (tail ++ take (length pattern - 1) r))
        (shift (length tail) (search_index pattern r))
    ∙ ap
        (or_else
          (shift (length s - t) (search_index pattern (tail ++ take (length pattern - 1) r))))
        (shift-shift (length s - t) (length tail) (search_index pattern r)
          ∙ ap (λ k. shift k (search_index pattern r)) sized)

module _ (base : ℕ) (joined pattern : List ℕ) (long : 1 < length pattern)
    (fits : length pattern ≤ 2 ^ 63) (small : base + length joined < size_mod) where
  -- The search round the end of a segment without a hit, and then the rest of the loop.
  pub around_end :
      (pre s r : List ℕ) (later : Position)
      → joined ≡ pre ++ (s ++ r)
      → search_index pattern s ≡ none
      → later ≡ locate (base + (length pre + length s)) (search_index pattern r)
      → hit_or base (boundary_search joined pattern (length pre) (length s)) later
        ≡ locate (base + length pre) (search_index pattern (s ++ r))
  around_end pre s r later split miss rest =
      rw
        (
          boundary_search_lem joined pattern pre s r split long fits (omega arith) t refl,
          search_index-seam pattern s r t (omega arith) refl miss,
        )
        (decide (search_index pattern window) (λ i e. room i e))
    where
      t : ℕ
      t = min (length s) (length pattern - 1)

      window : List ℕ
      window = drop (length s - t) s ++ take (length pattern - 1) r

      room :
          (i : ℕ)
          → search_index pattern window ≡ some i
          → base + (length pre + (length s - t) + i) < size_mod
      room i e = omega (
        arith,
        search_index-le pattern window i e,
        length-append (drop (length s - t) s) (take (length pattern - 1) r),
        length-drop (length s - t) s,
        length-take (length pattern - 1) r,
        ap length split,
        length-append pre (s ++ r),
        length-append s r,
      )

      decide :
          (w : Option ℕ)
          → ((i : ℕ) → w ≡ some i → base + (length pre + (length s - t) + i) < size_mod)
          → hit_or base (shift (length pre + (length s - t)) w) later
            ≡ locate
                (base + length pre)
                (or_else (shift (length s - t) w) (shift (length s) (search_index pattern r)))
      decide none h =
          rest
          ∙ ap (λ k. locate k (search_index pattern r)) (omega arith)
          ∙ sym (locate-shift (base + length pre) (length s) (search_index pattern r))
      decide (some i) h =
          ap (λ n. record { offset = n; found = true })
            (add_size_exact base (length pre + (length s - t) + i) (h i refl) ∙ omega arith)
