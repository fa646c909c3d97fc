-- ===== src/View/Slices.antt =====
-- src/pipeline/segmented_byte_view.h: what a slice holds.
use xtd.Base.{
  ℕ, ◌+◌, ◌-◌, ◌≤◌, ◌<◌, min, max, ◌≡◌, refl, sym, ap, ◌∙◌, List, [], ◌∷◌, ◌++◌, arith, dec_lt,
  ℕ_discrete, le→leb, lt→leb, ==_iff, length, take, drop, flatten, length-append, length-take,
  length-drop, drop_all, take-zero, drop-zero, take-nil, drop-nil, take-append, drop-append,
  take-min, size_mod, sub_size, add_size_exact, ok, err, out_of_range,
}
use xtd.View.{View, validate_slice_range, slice_loop, make_slice_segments, slice_range}

-- The bytes that a view shows.
abbrev pub bytes : View → List ℕ
bytes v = flatten v.segments

-- The size is that of the segments together, and no offset into the view wraps.
pub record IsValid (v : View) : Type 0 where
  pub sized : length (bytes v) ≡ v.size
  pub small : v.begin_offset + v.size < size_mod

-- The part of one segment that a slice keeps, ahead of what it keeps of the rest.
cut_lem :
    (s r : List ℕ) (from to : ℕ)
    → from ≤ length s
    → from ≤ to
    → take (min (length s) to - from) (drop from s) ++ take (to - length s) r
      ≡ take (to - from) (drop from (s ++ r))
cut_lem s r from to h k = ground (
  arith,
  drop-append from s r,
  drop-zero (from - length s) r,
  take-append (to - from) (drop from s) r,
  length-drop from s,
  take-min (to - from) (drop from s),
)

-- The three branches of the loop's body.
module _ (s : List ℕ) (rest : List (List ℕ)) (base from to : ℕ) where
  slice_loop-skip :
      base + length s < size_mod
      → base + length s ≤ from
      → slice_loop (s ∷ rest) base from to ≡ slice_loop rest (base + length s) from to
  unfolding slice_loop
  slice_loop-skip small h =
      rw (add_size_exact base (length s) small, le→leb (base + length s) from h)

  slice_loop-stop :
      base + length s < size_mod
      → from < base + length s
      → to ≤ base
      → slice_loop (s ∷ rest) base from to ≡ []
  unfolding slice_loop
  slice_loop-stop small h k =
      rw (add_size_exact base (length s) small, lt→leb (base + length s) from h, le→leb to base k)

  slice_loop-keep :
      base + length s < size_mod
      → to < size_mod
      → from < base + length s
      → base < to
      → from ≤ to
      → slice_loop (s ∷ rest) base from to
        ≡ take (min (length s) (to - base) - (from - base)) (drop (from - base) s)
          ∷ slice_loop rest (base + length s) from to
  unfolding slice_loop
  slice_loop-keep small t h k o = rw (
    add_size_exact base (length s) small,
    lt→leb (base + length s) from h,
    lt→leb to base k,
    offset,
    count,
  )
    where
      offset : sub_size (max base from) base ≡ from - base
      offset = omega arith

      count :
          sub_size (min (base + length s) to) (max base from)
          ≡ min (length s) (to - base) - (from - base)
      count = omega arith

-- What the loop must return for the segments from `base` on.
abbrev Kept : List (List ℕ) → ℕ → ℕ → ℕ → List ℕ → Type 0
Kept segments base from to out =
    out ≡ take (to - max base from) (drop (from - base) (flatten segments))

Kept-step :
    (s : List ℕ) (rest : List (List ℕ)) (base from to : ℕ)
    → from ≤ to
    → to < size_mod
    → base + length s < size_mod
    → Kept rest (base + length s) from to (flatten (slice_loop rest (base + length s) from to))
    → Kept (s ∷ rest) base from to (flatten (slice_loop (s ∷ rest) base from to))
Kept-step s rest base from to h t small tail = elim (dec_lt from (base + length s)) [
  | no past ↦
      rw (slice_loop-skip s rest base from to small (omega arith))
        (ground (arith, drop-append (from - base) s (flatten rest), drop_all (from - base) s))
  | yes near ↦ elim (dec_lt base to) [
    | no over ↦ rw (slice_loop-stop s rest base from to small near (omega arith)) (
        sym (take-zero (to - max base from) (drop (from - base) (s ++ flatten rest)) (omega arith)))
    | yes inside ↦ rw (slice_loop-keep s rest base from to small t near inside h) (
        ground (
          arith,
          drop-zero (from - (base + length s)) (flatten rest),
          cut_lem s (flatten rest) (from - base) (to - base),
        ))
  ]
]

Kept-nil : (base from to : ℕ) → Kept [] base from to (flatten (slice_loop [] base from to))
unfolding slice_loop
Kept-nil base from to =
    sym (ap (take (to - max base from)) (drop-nil (from - base)) ∙ take-nil (to - max base from))

-- The loop keeps the bytes between the two offsets, wherever the segments' borders are.
flatten-slice_loop :
    (segments : List (List ℕ)) (base from to : ℕ)
    → from ≤ to
    → to < size_mod
    → base + length (flatten segments) < size_mod
    → Kept segments base from to (flatten (slice_loop segments base from to))
flatten-slice_loop [] base from to h t small = Kept-nil base from to
flatten-slice_loop (s ∷ rest) base from to h t small =
    Kept-step s rest base from to h t (omega (arith, length-append s (flatten rest))) (
      flatten-slice_loop rest (base + length s) from to h t
        (omega (arith, length-append s (flatten rest))))

-- `v'` shows the bytes of `v` between the absolute offsets `from` and `to`.
pub record IsSlice (v : View) (from to : ℕ) (v' : View) : Type 0 where
  pub shown : bytes v' ≡ take (to - from) (drop (from - v.begin_offset) (bytes v))
  pub starts : v'.begin_offset ≡ from
  pub count : v'.size ≡ to - from
  pub valid : IsValid v'

-- The two offsets lie inside the view, in order.
abbrev pub InRange : View → ℕ → ℕ → Type 0
InRange v from to = (v.begin_offset ≤ from) × (from ≤ to) × (to ≤ v.begin_offset + v.size)

cut_length :
    {v : View} (from to : ℕ)
    → IsValid v
    → InRange v from to
    → length (take (to - from) (drop (from - v.begin_offset) (bytes v))) ≡ to - from
cut_length {v} from to valid r = omega (
  arith,
  r,
  valid,
  length-take (to - from) (drop (from - v.begin_offset) (bytes v)),
  length-drop (from - v.begin_offset) (bytes v),
)

validate_slice_range-ok :
    {v : View} (from to : ℕ)
    → IsValid v
    → InRange v from to
    → validate_slice_range v from to ≡ ok tt
unfolding validate_slice_range
validate_slice_range-ok from to valid r = ground arith

pub validate_slice_range-err :
    {v : View} (from to : ℕ)
    → IsValid v
    → ¬ InRange v from to
    → validate_slice_range v from to ≡ err out_of_range
unfolding validate_slice_range
validate_slice_range-err from to valid r = ground arith

make_slice_segments-ok :
    {v : View} (from to : ℕ)
    → IsValid v
    → InRange v from to
    → (kept : List (List ℕ)) × (make_slice_segments v from to ≡ ok kept)
      × (flatten kept ≡ take (to - from) (drop (from - v.begin_offset) (bytes v)))
unfolding make_slice_segments
make_slice_segments-ok {v} from to valid r = elim (ℕ_discrete from to) [
  | yes same ↦ (
    [],
    rw (validate_slice_range-ok from to valid r, (==_iff from to).1 same),
    sym (take-zero (to - from) (drop (from - v.begin_offset) (bytes v)) (omega arith)),
  )
  | no differ ↦ (
    slice_loop v.segments v.begin_offset from to,
    ground (arith, validate_slice_range-ok from to valid r),
    ground (arith, flatten-slice_loop v.segments v.begin_offset from to, valid, r),
  )
]

pub slice_range-ok :
    {v : View} (from to : ℕ)
    → IsValid v
    → InRange v from to
    → (v' : View) × (slice_range v (record { begin = from; end = to }) ≡ ok v')
      × IsSlice v from to v'
unfolding slice_range
slice_range-ok {v} from to valid r =
    let (kept, made, shown) = make_slice_segments-ok from to valid r in
    (
      record { segments = kept; begin_offset = from; size = sub_size to from },
      rw made,
      record {
        shown = shown;
        starts = refl;
        count = omega (arith, r, valid);
        valid = record {
          sized = ap length shown ∙ cut_length from to valid r ∙ omega (arith, r, valid);
          small = omega (arith, r, valid);
        };
      },
    )
