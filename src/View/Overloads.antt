-- ===== src/View/Overloads.antt =====
-- src/pipeline/segmented_byte_view.h: the overloads of `slice` and `slice_in_place`.
use xtd.Base.{
  ℕ, ◌+◌, ◌-◌, ◌≡◌, refl, ◌⊎◌, inl, inr, arith, dec_lt, le→leb, lt→leb, add_size_exact,
  sub_size_exact, Result, ok, err, out_of_range,
}
use xtd.Position.{Position}
use xtd.View.{
  View, SliceRange, resolve_to, resolve_between, resolve_from, resolve_count, make_slice_segments,
  slice_range, slice_in_place_absolute, slice_to, slice_between, slice_from, slice_count,
  slice_in_place_to, slice_in_place_between, slice_in_place_from, slice_in_place_count,
}
use xtd.View.Slices.{IsValid, InRange, IsSlice, slice_range-ok, validate_slice_range-err}

-- What a request for the bytes between two offsets must return.
abbrev pub Sliced : View → ℕ → ℕ → Result View → Type 0
Sliced v from to out =
    (InRange v from to × ((v' : View) × (out ≡ ok v') × IsSlice v from to v'))
    ⊎ ((¬ InRange v from to) × (out ≡ err out_of_range))

dec_InRange : (v : View) (from to : ℕ) → Dec (InRange v from to)
dec_InRange v from to = elim (dec_lt from v.begin_offset) [
  | yes a ↦ no (λ r. omega arith)
  | no a ↦ elim (dec_lt to from) [
    | yes b ↦ no (λ r. omega arith)
    | no b ↦ elim (dec_lt (v.begin_offset + v.size) to) [
      | yes c ↦ no (λ r. omega arith)
      | no c ↦ yes (omega arith, omega arith, omega arith)
    ]
  ]
]

slice_range-err :
    {v : View} (from to : ℕ)
    → IsValid v
    → ¬ InRange v from to
    → slice_range v (record { begin = from; end = to }) ≡ err out_of_range
unfolding slice_range make_slice_segments
slice_range-err from to valid r = rw (validate_slice_range-err from to valid r)

-- Slicing between two offsets succeeds exactly if they lie inside the view in order, and then shows
-- exactly the bytes between them, starts at the first offset and is valid again; it throws
-- `std::out_of_range` otherwise.
pub slice_range-Sliced :
    (v : View) (from to : ℕ)
    → IsValid v
    → Sliced v from to (slice_range v (record { begin = from; end = to }))
slice_range-Sliced v from to valid = elim (dec_InRange v from to) [
  | yes r ↦ inl (r, slice_range-ok from to valid r)
  | no r ↦ inr (r, slice_range-err from to valid r)
]

slice_in_place_absolute-eq-slice_range :
    (v : View) (range : SliceRange) → slice_in_place_absolute v range ≡ slice_range v range
unfolding slice_in_place_absolute slice_range
slice_in_place_absolute-eq-slice_range v range = refl

slice_from-Sliced :
    (v : View) (n : ℕ) (stop : Position)
    → IsValid v
    → Sliced v (v.begin_offset + n) stop.offset (slice_from v n stop)
unfolding slice_from resolve_from
slice_from-Sliced v n stop valid = elim (dec_lt v.size n) [
  | yes over ↦ inr (λ r. omega (arith, r), rw (lt→leb n v.size over))
  | no fits ↦
      rw (le→leb n v.size (omega arith), add_size_exact v.begin_offset n (omega (arith, valid)))
        (slice_range-Sliced v (v.begin_offset + n) stop.offset valid)
]

slice_count-Sliced :
    (v : View) (n count : ℕ)
    → IsValid v
    → Sliced v (v.begin_offset + n) (v.begin_offset + n + count) (slice_count v n count)
unfolding slice_count resolve_count
slice_count-Sliced v n count valid = elim (dec_lt v.size n) [
  | yes over ↦ inr (λ r. omega (arith, r), rw (lt→leb n v.size over))
  | no fits ↦ elim (dec_lt (v.size - n) count) [
    | yes over ↦ inr (
      λ r. omega (arith, r),
      rw (
        le→leb n v.size (omega arith),
        sub_size_exact v.size n (omega arith) (omega (arith, valid)),
        lt→leb count (v.size - n) over,
      ),
    )
    | no inside ↦
        rw
          (
            le→leb n v.size (omega arith),
            sub_size_exact v.size n (omega arith) (omega (arith, valid)),
            le→leb count (v.size - n) (omega arith),
            add_size_exact v.begin_offset n (omega (arith, valid)),
            add_size_exact (v.begin_offset + n) count (omega (arith, valid)),
          )
          (slice_range-Sliced v (v.begin_offset + n) (v.begin_offset + n + count) valid)
  ]
]

-- Each overload of `slice` cuts between the offsets that its arguments stand for, counts from the
-- view's begin where it takes counts, and throws `std::out_of_range` for any range that leaves the
-- view; each overload of `slice_in_place` leaves the view that `slice` returns.
pub overloads-Sliced :
    (v : View) (start stop : Position) (n count : ℕ)
    → IsValid v
    → Sliced v v.begin_offset stop.offset (slice_to v stop)
      × Sliced v start.offset stop.offset (slice_between v start stop)
      × Sliced v (v.begin_offset + n) stop.offset (slice_from v n stop)
      × Sliced v (v.begin_offset + n) (v.begin_offset + n + count) (slice_count v n count)
      × (slice_in_place_to v stop ≡ slice_to v stop)
      × (slice_in_place_between v start stop ≡ slice_between v start stop)
      × (slice_in_place_from v n stop ≡ slice_from v n stop)
      × (slice_in_place_count v n count ≡ slice_count v n count)
unfolding slice_to slice_between slice_from slice_count slice_in_place_to slice_in_place_between
    slice_in_place_from slice_in_place_count resolve_to resolve_between slice_in_place_absolute
    slice_range
overloads-Sliced v start stop n count valid = (
  slice_range-Sliced v v.begin_offset stop.offset valid,
  slice_range-Sliced v start.offset stop.offset valid,
  slice_from-Sliced v n stop valid,
  slice_count-Sliced v n count valid,
  refl,
  refl,
  refl,
  refl,
)
