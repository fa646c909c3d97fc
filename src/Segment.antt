-- ===== src/Segment.antt =====
-- src/pipeline/data_segment.h: one fixed-size buffer with a readable and a writable part.
-- A span is an offset into `memory` and a size. The memory comes from an allocator, so its first
-- content is anything.
pub mod Bounds
use xtd.Base.{
  ℕ, zero, suc, ◌+◌, ◌-◌, ◌*◌, ◌/◌, ◌%◌, ◌^◌, ◌≤◌, ◌<◌, min, max, ◌≡◌, refl, sym, ap, ap₂, subst,
  ◌∙◌, ◌≡⟨◌⟩◌, ◌∎, ◌≢◌, ◌↔◌, ◌⊎◌, inl, inr, Bool, true, false, not, ◌&&◌, ◌||◌, Option, none, some,
  List, [], ◌∷◌, ◌++◌, map, append-nil, append_assoc, arith, dec_lt, ℕ_discrete, ltb, leb, ◌==◌,
  if◌then◌else◌, lt→ltb, le→ltb, le→leb, lt→leb, ltb→lt, ltb→le, ==_iff, Bool-cases, Option-cases,
  length, get_elem?, take, drop, flatten, push_back, length-append, length-push_back, length-take,
  length-drop, take-append-drop, take_all, drop_all, take-zero, drop-zero, take-nil, drop-nil,
  take-append, drop-append, drop-drop, take-min, take-take, take-add, drop-take, take_prefix,
  drop_prefix, get_elem?-append, get_elem?-append_left, get_elem?-is_some, flatten-append, size_mod,
  add_size, sub_size, add_size_exact, sub_size_exact, Error, Result, ok, err, out_of_range,
  invalid_argument, logic_error, undefined, ◌>>=◌, ◌>>◌, require,
}
use xtd.Base.Memory.{overwrite}

pub record Segment : Type 0 where
  pub memory : List ℕ
  pub writable_at : ℕ
  pub writable_size : ℕ
  pub readable_at : ℕ
  pub readable_size : ℕ
  pub capacity : ℕ

-- The constructor, over the block that `resource.allocate` returned.
unfoldable pub create : List ℕ → ℕ → Segment
create block buffer_size = record {
  memory = block;
  writable_at = 0;
  writable_size = buffer_size;
  readable_at = 0;
  readable_size = 0;
  capacity = buffer_size;
}

-- The bytes of the readable span.
abbrev pub readable_bytes : Segment → List ℕ
readable_bytes s = take s.readable_size (drop s.readable_at s.memory)

unfoldable pub full : Segment → Bool
full s = s.writable_size == 0

unfoldable pub advance_read : Segment → ℕ → Result Segment
advance_read s size =
    if ltb s.readable_size size
    then err out_of_range
    else ok (record s {
      readable_at = add_size s.readable_at size;
      readable_size = sub_size s.readable_size size;
    })

-- `source` points at `size` bytes or more.
unfoldable pub copy_from : Segment → List ℕ → ℕ → ℕ × Segment
copy_from s source size =
    let to_copy_size = min s.writable_size size in
    (
      to_copy_size,
      record s {
        memory = overwrite s.memory s.writable_at (take to_copy_size source);
        readable_size = add_size s.readable_size to_copy_size;
        writable_at = add_size s.writable_at to_copy_size;
        writable_size = sub_size s.writable_size to_copy_size;
      },
    )
