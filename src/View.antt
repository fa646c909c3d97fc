-- ===== src/View.antt =====
-- src/pipeline/segmented_byte_view.h: a read-only view of a run of bytes that lies in several
-- segments. A span is the list of its bytes. Here: the state, the sizes and the slices.
pub mod Slices
pub mod Overloads
pub mod Access
pub mod Search
pub mod Copy
use xtd.Base.{
  ℕ, zero, suc, ◌+◌, ◌-◌, ◌*◌, ◌/◌, ◌%◌, ◌^◌, ◌≤◌, ◌<◌, min, max, ◌≡◌, refl, sym, ap, ap₂, subst,
  ◌∙◌, ◌≡⟨◌⟩◌, ◌∎, ◌≢◌, ◌↔◌, ◌⊎◌, inl, inr, Bool, true, false, not, ◌&&◌, ◌||◌, Option, none, some,
  List, [], ◌∷◌, ◌++◌, map, append-nil, append_assoc, arith, dec_lt, ℕ_discrete, ltb, leb, ◌==◌,
  if◌then◌else◌, lt→ltb, le→ltb, le→leb, lt→leb, ltb→lt, ltb→le, ==_iff, Bool-cases, Option-cases,
  length, get_elem?, take, drop, flatten, push_back, length-append, length-push_back, length-take,
  length-drop, take-append-drop, take_all, drop_all, take-zero, drop-zero, take-nil, drop-nil,
  take-append, drop-append, drop-drop, take-min, take-take, take-add, drop-take, take_prefix,
  drop_prefix, get_elem?-append, get_elem?-append_left, get_elem?-is_some, flatten-append, size_mod,
  add_size, sub_size, add_size_exact, sub_size_exact, Error, Result, ok, err, out_of_range,
  invalid_argument, logic_error, undefined, ◌>>=◌, ◌>>◌, require,
}
use xtd.Position
use xtd.Position.{Position, at, sequence_offset}

pub record View : Type 0 where
  pub segments : List (List ℕ)
  pub begin_offset : ℕ
  pub size : ℕ

-- `slice_range`, in absolute offsets.
pub record SliceRange : Type 0 where
  pub begin : ℕ
  pub end : ℕ

-- The constructor that takes the segments and their total size, and the default one.
unfoldable pub of_segments : List (List ℕ) → ℕ → View
of_segments segments size = record { segments = segments; begin_offset = 0; size = size }

unfoldable pub empty_view : View
empty_view = record { segments = []; begin_offset = 0; size = 0 }

abbrev pub end_offset : View → ℕ
end_offset v = add_size v.begin_offset v.size

unfoldable pub begin : View → Position
unfolding at
begin v = at v.begin_offset

unfoldable pub end : View → Position
unfolding at
end v = at (end_offset v)

abbrev pub is_single_segment : View → Bool
is_single_segment v = length v.segments == 1

unfoldable pub empty : View → Bool
empty v = v.size == 0

unfoldable pub segment_count : View → ℕ
segment_count v = length v.segments

-- `segment.subspan(from, count)`
abbrev pub subspan : List ℕ → ℕ → ℕ → List ℕ
subspan s from count = take count (drop from s)

unfoldable pub validate_slice_range : View → ℕ → ℕ → Result (Unit {0})
validate_slice_range v slice_begin slice_end = do
  require (leb slice_begin slice_end) out_of_range
  require (leb v.begin_offset slice_begin && leb slice_begin (end_offset v)) out_of_range
  require (leb v.begin_offset slice_end && leb slice_end (end_offset v)) out_of_range

unfoldable pub validate_relative_slice : View → ℕ → ℕ → Result (Unit {0})
validate_relative_slice v begin_offset size = do
  require (leb begin_offset v.size) out_of_range
  require (leb size (sub_size v.size begin_offset)) out_of_range

-- The four overloads of `resolve_slice_range`.
unfoldable pub resolve_to : View → Position → Result SliceRange
unfolding sequence_offset
resolve_to v stop = ok (record { begin = v.begin_offset; end = sequence_offset stop })

unfoldable pub resolve_between : View → Position → Position → Result SliceRange
unfolding sequence_offset
resolve_between v start stop =
    ok (record { begin = sequence_offset start; end = sequence_offset stop })

unfoldable pub resolve_from : View → ℕ → Position → Result SliceRange
unfolding sequence_offset
resolve_from v begin_offset stop = do
  require (leb begin_offset v.size) out_of_range
  ok (record { begin = add_size v.begin_offset begin_offset; end = sequence_offset stop })

unfoldable pub resolve_count : View → ℕ → ℕ → Result SliceRange
unfolding validate_relative_slice
resolve_count v begin_offset size = do
  validate_relative_slice v begin_offset size
  let absolute_begin = add_size v.begin_offset begin_offset
  ok (record { begin = absolute_begin; end = add_size absolute_begin size })

-- The loop of `make_slice_segments`, from `segment_begin` on.
unfoldable pub slice_loop : List (List ℕ) → ℕ → ℕ → ℕ → List (List ℕ)
slice_loop [] segment_begin slice_begin slice_end = []
slice_loop (segment ∷ rest) segment_begin slice_begin slice_end =
    let segment_end = add_size segment_begin (length segment) in
    let later = slice_loop rest segment_end slice_begin slice_end in
    let overlap_begin = max segment_begin slice_begin in
    let overlap_end = min segment_end slice_end in
    if leb segment_end slice_begin
    then later
    else if leb slice_end segment_begin
    then []
    else subspan segment (sub_size overlap_begin segment_begin) (sub_size overlap_end overlap_begin)
      ∷ later

unfoldable pub make_slice_segments : View → ℕ → ℕ → Result (List (List ℕ))
unfolding validate_slice_range slice_loop
make_slice_segments v slice_begin slice_end = do
  validate_slice_range v slice_begin slice_end
  ok (
      if slice_begin == slice_end
      then []
      else slice_loop v.segments v.begin_offset slice_begin slice_end)

-- The slicing constructor. `slice_in_place_absolute` assigns the same three fields, and assigns
-- none if `make_slice_segments` throws; its result here is the view as it is afterwards.
unfoldable pub slice_range : View → SliceRange → Result View
unfolding make_slice_segments
slice_range v range = do
  segments ← make_slice_segments v range.begin range.end
  ok (record {
    segments = segments;
    begin_offset = range.begin;
    size = sub_size range.end range.begin;
  })

unfoldable pub slice_in_place_absolute : View → SliceRange → Result View
unfolding make_slice_segments
slice_in_place_absolute v range = do
  segments ← make_slice_segments v range.begin range.end
  ok (record v {
    segments = segments;
    begin_offset = range.begin;
    size = sub_size range.end range.begin;
  })

-- The four overloads of `slice`.
unfoldable pub slice_to : View → Position → Result View
slice_to v stop = resolve_to v stop >>= slice_range v

unfoldable pub slice_between : View → Position → Position → Result View
slice_between v start stop = resolve_between v start stop >>= slice_range v

unfoldable pub slice_from : View → ℕ → Position → Result View
slice_from v begin_offset stop = resolve_from v begin_offset stop >>= slice_range v

unfoldable pub slice_count : View → ℕ → ℕ → Result View
slice_count v begin_offset size = resolve_count v begin_offset size >>= slice_range v

-- The four overloads of `slice_in_place`.
unfoldable pub slice_in_place_to : View → Position → Result View
slice_in_place_to v stop = resolve_to v stop >>= slice_in_place_absolute v

unfoldable pub slice_in_place_between : View → Position → Position → Result View
slice_in_place_between v start stop = resolve_between v start stop >>= slice_in_place_absolute v

unfoldable pub slice_in_place_from : View → ℕ → Position → Result View
slice_in_place_from v begin_offset stop =
    resolve_from v begin_offset stop >>= slice_in_place_absolute v

unfoldable pub slice_in_place_count : View → ℕ → ℕ → Result View
slice_in_place_count v begin_offset size =
    resolve_count v begin_offset size >>= slice_in_place_absolute v
