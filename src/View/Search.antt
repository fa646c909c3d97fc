-- ===== src/View/Search.antt =====
-- src/pipeline/segmented_byte_view.h: the searches `position_of`, `position_of_any` and
-- `position_of_sequence`.
pub mod Patterns
pub mod Seams
pub mod Laws
pub mod Boundary
pub mod Sequence
pub mod First
use xtd.Base.{
  ℕ, zero, suc, ◌+◌, ◌-◌, ◌*◌, ◌/◌, ◌%◌, ◌^◌, ◌≤◌, ◌<◌, min, max, ◌≡◌, refl, sym, ap, ap₂, subst,
  ◌∙◌, ◌≡⟨◌⟩◌, ◌∎, ◌≢◌, ◌↔◌, ◌⊎◌, inl, inr, Bool, true, false, not, ◌&&◌, ◌||◌, Option, none, some,
  List, [], ◌∷◌, ◌++◌, map, append-nil, append_assoc, arith, dec_lt, ℕ_discrete, ltb, leb, ◌==◌,
  if◌then◌else◌, lt→ltb, le→ltb, le→leb, lt→leb, ltb→lt, ltb→le, ==_iff, Bool-cases, Option-cases,
  length, get_elem?, take, drop, flatten, push_back, length-append, length-push_back, length-take,
  length-drop, take-append-drop, take_all, drop_all, take-zero, drop-zero, take-nil, drop-nil,
  take-append, drop-append, drop-drop, take-min, take-take, take-add, drop-take, take_prefix,
  drop_prefix, get_elem?-append, get_elem?-append_left, get_elem?-is_some, flatten-append, size_mod,
  add_size, sub_size, add_size_exact, sub_size_exact, Error, Result, ok, err, out_of_range,
  invalid_argument, logic_error, undefined, ◌>>=◌, ◌>>◌, require,
}
use mathlib.Core.Option
use xtd.Position.{Position, at, nowhere}
use xtd.View.{View, is_single_segment, subspan}

-- `memchr` and `std::ranges::find_first_of`: the first index of a byte that passes the test.
unfoldable pub find_index : (ℕ → Bool) → List ℕ → Option ℕ
find_index p [] = none
find_index p (x ∷ xs) =
    let later = Option.map suc (find_index p xs) in if p x then some 0 else later

-- Whether `xs` begins with the bytes of `pattern`.
unfoldable pub starts_with : List ℕ → List ℕ → Bool
starts_with [] xs = true
starts_with (p ∷ ps) [] = false
starts_with (p ∷ ps) (x ∷ xs) = (p == x) && starts_with ps xs

-- `std::ranges::search`: the first index at which the pattern stands.
unfoldable pub search_index : List ℕ → List ℕ → Option ℕ
search_index pattern [] = if starts_with pattern [] then some 0 else none
search_index pattern (x ∷ xs) =
    let later = Option.map suc (search_index pattern xs) in
    if starts_with pattern (x ∷ xs) then some 0 else later

-- Whether a byte is one of `values`.
unfoldable pub one_of : List ℕ → ℕ → Bool
one_of [] b = false
one_of (v ∷ vs) b = (b == v) || one_of vs b

-- `return position{base + index}` on a hit; else the loop goes on.
abbrev pub hit_or : ℕ → Option ℕ → Position → Position
hit_or base (some i) later = record { offset = add_size base i; found = true }
hit_or base none later = later

-- The loop over the segments: the first hit of `find` in a segment, at its absolute offset.
unfoldable pub find_loop : (List ℕ → Option ℕ) → List (List ℕ) → ℕ → Position
unfolding nowhere
find_loop find [] offset = nowhere
find_loop find (segment ∷ rest) offset =
    let later = find_loop find rest (add_size offset (length segment)) in
    hit_or offset (find segment) later

-- `position_of(std::byte)`
unfoldable pub position_of : View → ℕ → Position
unfolding nowhere
position_of v value =
    if v.size == 0
    then nowhere
    else find_loop (find_index (λ b. b == value)) v.segments v.begin_offset

-- `position_of_any(std::span<const std::byte>)`
unfoldable pub position_of_any : View → List ℕ → Position
unfolding nowhere
position_of_any v [] = nowhere
position_of_any v (value ∷ []) = position_of v value
position_of_any v (value ∷ others) =
    find_loop (find_index (one_of (value ∷ others))) v.segments v.begin_offset

-- The loop of `position_of_sequence`. `joined` is `m_segments | std::views::join`.
module _ (joined sequence : List ℕ) where
  -- The search in the bytes around the end of a segment.
  unfoldable pub boundary_search : ℕ → ℕ → Option ℕ
  boundary_search segment_offset segment_size =
      let tail_size = min segment_size (sub_size (length sequence) 1) in
      let boundary_offset = sub_size (add_size segment_offset segment_size) tail_size in
      let boundary_size = sub_size (add_size tail_size (length sequence)) 1 in
      if tail_size == 0
      then none
      else Option.map (λ i. add_size boundary_offset i)
          (search_index sequence (subspan joined boundary_offset boundary_size))

module _ (begin_offset : ℕ) (single : Bool) (joined sequence : List ℕ) where
  unfoldable pub sequence_loop : List (List ℕ) → ℕ → Position
  unfolding nowhere
  sequence_loop [] segment_offset = nowhere
  sequence_loop (segment ∷ rest) segment_offset =
      let later = sequence_loop rest (add_size segment_offset (length segment)) in
      let around =
        hit_or begin_offset (boundary_search joined sequence segment_offset (length segment))
          later in
      hit_or (add_size begin_offset segment_offset) (search_index sequence segment)
        (if single then nowhere else around)

-- `position_of_sequence(std::span<const std::byte>)`
unfoldable pub position_of_sequence : View → List ℕ → Position
unfolding nowhere
position_of_sequence v [] = nowhere
position_of_sequence v (b ∷ sequence) =
    if ltb v.size (length (b ∷ sequence))
    then nowhere
    else if length (b ∷ sequence) == 1
    then position_of v b
    else sequence_loop v.begin_offset (is_single_segment v) (flatten v.segments) (b ∷ sequence)
        v.segments 0
