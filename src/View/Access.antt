-- ===== src/View/Access.antt =====
-- src/pipeline/segmented_byte_view.h: the three subscript operators.
pub mod Laws
use xtd.Base.{
  ℕ, zero, suc, ◌+◌, ◌-◌, ◌*◌, ◌/◌, ◌%◌, ◌^◌, ◌≤◌, ◌<◌, min, max, ◌≡◌, refl, sym, ap, ap₂, subst,
  ◌∙◌, ◌≡⟨◌⟩◌, ◌∎, ◌≢◌, ◌↔◌, ◌⊎◌, inl, inr, Bool, true, false, not, ◌&&◌, ◌||◌, Option, none, some,
  List, [], ◌∷◌, ◌++◌, map, append-nil, append_assoc, arith, dec_lt, ℕ_discrete, ltb, leb, ◌==◌,
  if◌then◌else◌, lt→ltb, le→ltb, le→leb, lt→leb, ltb→lt, ltb→le, ==_iff, Bool-cases, Option-cases,
  length, get_elem?, take, drop, flatten, push_back, length-append, length-push_back, length-take,
  length-drop, take-append-drop, take_all, drop_all, take-zero, drop-zero, take-nil, drop-nil,
  take-append, drop-append, drop-drop, take-min, take-take, take-add, drop-take, take_prefix,
  drop_prefix, get_elem?-append, get_elem?-append_left, get_elem?-is_some, flatten-append, size_mod,
  add_size, sub_size, add_size_exact, sub_size_exact, Error, Result, ok, err, out_of_range,
  invalid_argument, logic_error, undefined, ◌>>=◌, ◌>>◌, require,
}
use mathlib.Core.List.{reverse}
use xtd.Position.{Position, sequence_offset}
use xtd.View.{View, end_offset}

-- `segment[i]`, undefined outside the span.
abbrev pub read_byte : List ℕ → ℕ → Result ℕ
read_byte segment i = elim (get_elem? segment i) [ none ↦ err undefined | some b ↦ ok b ]

-- The loop from the last segment to the first; its end is `std::unreachable()`.
unfoldable pub from_end_loop : List (List ℕ) → ℕ → Result ℕ
from_end_loop [] remaining = err undefined
from_end_loop (segment ∷ rest) remaining =
    let earlier = from_end_loop rest (sub_size remaining (length segment)) in
    if ltb remaining (length segment)
    then read_byte segment (sub_size (sub_size (length segment) 1) remaining)
    else earlier

-- `operator[](from_end)`
unfoldable pub get_from_end : View → ℕ → Result ℕ
unfolding from_end_loop
get_from_end v offset = do
  require (ltb 0 offset && leb offset v.size) out_of_range
  from_end_loop (reverse v.segments) (sub_size offset 1)

-- The loop from the first segment on.
unfoldable pub index_loop : List (List ℕ) → ℕ → ℕ → Result ℕ
index_loop [] segment_begin index = err undefined
index_loop (segment ∷ rest) segment_begin index =
    let segment_end = add_size segment_begin (length segment) in
    let later = index_loop rest segment_end index in
    if ltb index segment_end then read_byte segment (sub_size index segment_begin) else later

-- `operator[](std::size_t)`
unfoldable pub get_index : View → ℕ → Result ℕ
unfolding index_loop
get_index v index = do require (ltb index v.size) out_of_range; index_loop v.segments 0 index

-- `operator[](position)`
unfoldable pub get_position : View → Position → Result ℕ
unfolding sequence_offset
get_position v pos = do
  let absolute_offset = sequence_offset pos
  require (leb v.begin_offset absolute_offset && ltb absolute_offset (end_offset v)) out_of_range
  get_index v (sub_size absolute_offset v.begin_offset)
