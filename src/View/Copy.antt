-- ===== src/View/Copy.antt =====
-- src/pipeline/segmented_byte_view.h: copying the bytes out, and the conversions to text.
pub mod Laws
pub mod Overloads
use xtd.Base.{
  ℕ, zero, suc, ◌+◌, ◌-◌, ◌*◌, ◌/◌, ◌%◌, ◌^◌, ◌≤◌, ◌<◌, min, max, ◌≡◌, refl, sym, ap, ap₂, subst,
  ◌∙◌, ◌≡⟨◌⟩◌, ◌∎, ◌≢◌, ◌↔◌, ◌⊎◌, inl, inr, Bool, true, false, not, ◌&&◌, ◌||◌, Option, none, some,
  List, [], ◌∷◌, ◌++◌, map, append-nil, append_assoc, arith, dec_lt, ℕ_discrete, ltb, leb, ◌==◌,
  if◌then◌else◌, lt→ltb, le→ltb, le→leb, lt→leb, ltb→lt, ltb→le, ==_iff, Bool-cases, Option-cases,
  length, get_elem?, take, drop, flatten, push_back, length-append, length-push_back, length-take,
  length-drop, take-append-drop, take_all, drop_all, take-zero, drop-zero, take-nil, drop-nil,
  take-append, drop-append, drop-drop, take-min, take-take, take-add, drop-take, take_prefix,
  drop_prefix, get_elem?-append, get_elem?-append_left, get_elem?-is_some, flatten-append, size_mod,
  add_size, sub_size, add_size_exact, sub_size_exact, Error, Result, ok, err, out_of_range,
  invalid_argument, logic_error, undefined, ◌>>=◌, ◌>>◌, require,
}
use xtd.Base.Memory.{overwrite}
use xtd.View.{View, empty, is_single_segment, subspan}

-- The loop of `copy_to`: the number of bytes copied and the destination as it is left.
unfoldable pub copy_loop : List (List ℕ) → ℕ → ℕ → List ℕ → ℕ × List ℕ
copy_loop [] target_size copied destination = (copied, destination)
copy_loop (segment ∷ rest) target_size copied destination =
    let chunk_size = min (length segment) (sub_size target_size copied) in
    let further =
      copy_loop rest target_size (add_size copied chunk_size)
        (overwrite destination copied (subspan segment 0 chunk_size)) in
    if copied == target_size then (copied, destination) else further

-- `m_segments.front()`, undefined where there is none.
unfoldable pub first_segment : View → Result (List ℕ)
first_segment v = elim v.segments [ [] ↦ err undefined | s ∷ rest ↦ ok s ]

-- `copy_to(std::span<std::byte>)`. The result has the destination as it is left.
unfoldable pub copy_to : View → List ℕ → Result (ℕ × List ℕ)
unfolding copy_loop first_segment
copy_to v destination =
    let target_size = min (length destination) v.size in
    let single : Result (ℕ × List ℕ) = do
      front ← first_segment v
      ok (target_size, overwrite destination 0 (subspan front 0 target_size))
    in if target_size == 0
      then ok (0, destination)
      else if is_single_segment v
      then single
      else ok (copy_loop v.segments target_size 0 destination)

-- `copy_to(std::byte*, std::size_t)`: no pointer, or one to `destination_size` bytes or more.
unfoldable pub copy_to_pointer : View → Option (List ℕ) → ℕ → Result (ℕ × List ℕ)
copy_to_pointer v none destination_size = do
  require (destination_size == 0) invalid_argument
  copy_to v []
copy_to_pointer v (some block) destination_size = do
  (copied, written) ← copy_to v (take destination_size block)
  ok (copied, written ++ drop destination_size block)

-- `copy_to(T&)`: the value is the bytes of `destination`, `sizeof(T)` of them.
unfoldable pub copy_to_value : View → List ℕ → Result (Bool × List ℕ)
copy_to_value v destination = do
  require (leb (length destination) v.size) out_of_range
  (copied, written) ← copy_to v destination
  ok (copied == length destination, written)

-- `as_string_view()`: `m_size` bytes from the front segment's first on.
unfoldable pub as_string_view : View → Result (List ℕ)
unfolding first_segment
as_string_view v = do
  require (is_single_segment v) logic_error
  front ← first_segment v
  ok (take v.size front)

-- The loop of `to_string`.
unfoldable pub append_loop : List (List ℕ) → List ℕ → List ℕ
append_loop [] result = result
append_loop (segment ∷ rest) result = append_loop rest (result ++ segment)

unfoldable pub to_string : View → Result (List ℕ)
unfolding append_loop first_segment empty
to_string v =
    let single : Result (List ℕ) = do front ← first_segment v; ok (take v.size front)
    in if empty v
      then ok []
      else if is_single_segment v
      then single
      else ok (append_loop v.segments [])
