-- ===== src/Tests/Bytes.antt =====
-- src/pipeline/position.h, data_segment.h, segmented_byte_view.h: runs.
use xtd.Base.{
  ◌+◌, ◌-◌, ◌≤◌, ◌<◌, ◌≡◌, refl, ◌⊎◌, true, none, some, [], ◌∷◌, arith, ◌==◌, ok, err, out_of_range,
  invalid_argument, logic_error,
}
use xtd.Position.{
  Position, advance, retreat, pre_increment, pre_decrement, post_increment, post_decrement,
}
use xtd.Position.Laws.{retreat-advance}
use xtd.Segment.{Segment, copy_from}
use xtd.Segment.Bounds.{Copied, copy_from_lem, advance_read_lem}
use xtd.Segment.Bounds
use xtd.View.{
  View, slice_to, slice_between, slice_from, slice_count, slice_in_place_to, slice_in_place_between,
  slice_in_place_from, slice_in_place_count,
}
use xtd.View.Slices.{bytes, IsValid}
use xtd.View.Overloads.{Sliced, overloads-Sliced}
use xtd.View.Access.{get_index, get_position, get_from_end}
use xtd.View.Access.Laws.{Reads, subscripts_lem}
use xtd.View.Search.{
  position_of, position_of_any, position_of_sequence, sequence_loop, search_index, starts_with,
  boundary_search, one_of,
}
use xtd.View.Search.First.{
  FindsFirst, Hits, Stands, position_of_sequence-FindsFirst, position_of-FindsFirst,
}
use xtd.View.Copy.{copy_to, to_string, as_string_view, copy_to_pointer, copy_to_value}
use xtd.View.Copy.Laws.{filled, copy_to_lem, to_string_lem}
use xtd.View.Copy.Overloads.{copy_to-overloads}

abbrev fifth : Position
fifth = record { offset = 5; found = true }

abbrev third : Position
third = record { offset = 13; found = true }

retreat-advance_example :
    (retreat (advance fifth 3) 3 ≡ fifth)
    × (advance (retreat fifth 3) 3 ≡ fifth)
    × (pre_decrement (post_increment fifth).1 ≡ fifth)
    × (pre_increment (post_decrement fifth).1 ≡ fifth)
retreat-advance_example = retreat-advance fifth 3 (omega arith) (omega arith)

-- 7 and 8 to read, room for one more
abbrev block : Segment
block = record {
  memory = 0 ∷ 7 ∷ 8 ∷ 0 ∷ [];
  writable_at = 3;
  writable_size = 1;
  readable_at = 1;
  readable_size = 2;
  capacity = 4;
}

block-IsValid : Bounds.IsValid block
block-IsValid = omega arith

copy_from_example : Copied block (9 ∷ 6 ∷ []) 2 (copy_from block (9 ∷ 6 ∷ []) 2)
copy_from_example = copy_from_lem (9 ∷ 6 ∷ []) 2 block-IsValid (omega arith)

-- 1 2 | 3 | 4 5 6 at offset 10
abbrev sample : View
sample = record {
  segments = (1 ∷ 2 ∷ []) ∷ (3 ∷ []) ∷ (4 ∷ 5 ∷ 6 ∷ []) ∷ [];
  begin_offset = 10;
  size = 6;
}

sample-IsValid : IsValid sample
sample-IsValid = record { sized = refl; small = omega arith }

abbrev twelfth : Position
twelfth = record { offset = 12; found = true }

overloads_example :
    Sliced sample 10 13 (slice_to sample third)
    × Sliced sample 12 13 (slice_between sample twelfth third)
    × Sliced sample 11 13 (slice_from sample 1 third)
    × Sliced sample 11 15 (slice_count sample 1 4)
    × (slice_in_place_to sample third ≡ slice_to sample third)
    × (slice_in_place_between sample twelfth third ≡ slice_between sample twelfth third)
    × (slice_in_place_from sample 1 third ≡ slice_from sample 1 third)
    × (slice_in_place_count sample 1 4 ≡ slice_count sample 1 4)
overloads_example = overloads-Sliced sample twelfth third 1 4 sample-IsValid

position_of_sequence_example :
    FindsFirst sample
      (Stands (2 ∷ 3 ∷ 4 ∷ []) (bytes sample))
      (position_of_sequence sample (2 ∷ 3 ∷ 4 ∷ []))
position_of_sequence_example =
    position_of_sequence-FindsFirst sample (2 ∷ 3 ∷ 4 ∷ []) sample-IsValid (omega arith)
      (omega arith)

position_of_sequence_run :
    position_of_sequence sample (2 ∷ 3 ∷ 4 ∷ []) ≡ record { offset = 11; found = true }
unfolding position_of_sequence sequence_loop search_index starts_with boundary_search
position_of_sequence_run = refl

position_of_example :
    FindsFirst sample (Hits (λ b. b == 4) (bytes sample)) (position_of sample 4)
    × FindsFirst sample
        (Hits (one_of (9 ∷ 5 ∷ [])) (bytes sample))
        (position_of_any sample (9 ∷ 5 ∷ []))
position_of_example = position_of-FindsFirst sample 4 (9 ∷ 5 ∷ []) sample-IsValid

copy_to_example :
    copy_to sample (0 ∷ 0 ∷ 0 ∷ 0 ∷ []) ≡ ok (4, filled (bytes sample) 4 (0 ∷ 0 ∷ 0 ∷ 0 ∷ []))
copy_to_example = copy_to_lem sample (0 ∷ 0 ∷ 0 ∷ 0 ∷ []) sample-IsValid

to_string_example :
    (to_string sample ≡ ok (1 ∷ 2 ∷ 3 ∷ 4 ∷ 5 ∷ 6 ∷ [])) × (as_string_view sample ≡ err logic_error)
to_string_example = to_string_lem sample sample-IsValid

copy_to-overloads_example :
    (copy_to_pointer sample (some (0 ∷ 0 ∷ 0 ∷ [])) 2
      ≡ ok (2, filled (bytes sample) 2 (0 ∷ 0 ∷ 0 ∷ [])))
    × (copy_to_pointer sample none 2 ≡ err invalid_argument)
    × (copy_to_value sample (0 ∷ 0 ∷ 0 ∷ []) ≡ ok (true, 1 ∷ 2 ∷ 3 ∷ []))
copy_to-overloads_example = copy_to-overloads sample (0 ∷ 0 ∷ 0 ∷ []) 2 sample-IsValid (omega arith)

subscripts_example :
    (((2 < 6) × Reads (bytes sample) 2 (get_index sample 2))
      ⊎ ((6 ≤ 2) × (get_index sample 2 ≡ err out_of_range)))
    × (((10 ≤ 13) × (13 < 10 + 6) × Reads (bytes sample) (13 - 10) (get_position sample third))
        ⊎ ((¬ ((10 ≤ 13) × (13 < 10 + 6))) × (get_position sample third ≡ err out_of_range)))
    × (((0 < 2) × (2 ≤ 6) × Reads (bytes sample) (6 - 2) (get_from_end sample 2))
        ⊎ ((¬ ((0 < 2) × (2 ≤ 6))) × (get_from_end sample 2 ≡ err out_of_range)))
subscripts_example = subscripts_lem sample 2 third sample-IsValid
