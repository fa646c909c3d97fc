-- ===== src/Segment/Bounds.antt =====
-- src/pipeline/data_segment.h: the spans stay inside the buffer, and what each call does to the
-- readable bytes.
use xtd.Base.{
  ℕ, ◌+◌, ◌≤◌, ◌<◌, min, ◌≡◌, refl, ap, ◌∙◌, ◌⊎◌, inl, inr, List, [], ◌++◌, arith, dec_lt, lt→ltb,
  le→ltb, length, take, drop, length-take, length-drop, drop-drop, drop-take, size_mod, add_size,
  sub_size, ok, err, out_of_range,
}
use xtd.Base.Memory.{overwrite, length-overwrite, window-overwrite}
use xtd.Segment.{Segment, create, readable_bytes, advance_read, copy_from}

-- The readable span ends where the writable span begins, and that ends with the buffer.
pub record IsValid (s : Segment) : Type 0 where
  pub block : length s.memory ≡ s.capacity
  pub seam : s.readable_at + s.readable_size ≡ s.writable_at
  pub ends : s.writable_at + s.writable_size ≡ s.capacity
  pub small : s.capacity < size_mod

pub create-IsValid :
    (block : List ℕ) (size : ℕ)
    → length block ≡ size
    → size < size_mod
    → IsValid (create block size)
unfolding create
create-IsValid block size h k = omega arith

-- A new segment has no readable byte, and its whole buffer is writable.
pub create_empty :
    (block : List ℕ) (size : ℕ)
    → (readable_bytes (create block size) ≡ [])
      × ((create block size).readable_size ≡ 0)
      × ((create block size).writable_size ≡ size)
      × ((create block size).capacity ≡ size)
unfolding create
create_empty block size = (refl, refl, refl, refl)

pub length-readable_bytes : {s : Segment} → IsValid s → length (readable_bytes s) ≡ s.readable_size
length-readable_bytes {s} v = omega (
  arith,
  length-take s.readable_size (drop s.readable_at s.memory),
  length-drop s.readable_at s.memory,
)

-- What one `copy_from` of `size` bytes out of `source` leaves behind.
pub record Copied (s : Segment) (source : List ℕ) (size : ℕ) (out : ℕ × Segment) : Type 0 where
  pub count : out.0 ≡ min s.writable_size size
  pub bytes : readable_bytes out.1 ≡ readable_bytes s ++ take out.0 source
  pub valid : IsValid out.1
  pub grown : out.1.readable_size ≡ s.readable_size + out.0
  pub room : out.1.writable_size + out.0 ≡ s.writable_size
  pub same : out.1.capacity ≡ s.capacity

-- `copy_from` copies as many bytes as fit, appends exactly those to the readable bytes, and keeps
-- the spans inside the buffer.
pub copy_from_lem :
    {s : Segment} (source : List ℕ) (size : ℕ)
    → IsValid s
    → size ≤ length source
    → Copied s source size (copy_from s source size)
unfolding copy_from
copy_from_lem {s} source size v h = record {
  count = refl;
  bytes =
      ap (λ k. take k (drop s.readable_at (overwrite s.memory s.writable_at chunk))) sized
      ∙ window-overwrite s.memory chunk s.readable_at s.readable_size s.writable_at v.seam
          (omega (arith, long, v));
  valid = record {
    block = kept;
    seam = omega (arith, v);
    ends = omega (arith, v);
    small = v.small;
  };
  grown = omega (arith, v);
  room = omega (arith, v);
  same = refl;
}
  where
    n : ℕ
    n = min s.writable_size size

    chunk : List ℕ
    chunk = take n source

    long : length chunk ≡ n
    long = omega (arith, length-take n source)

    sized : add_size s.readable_size n ≡ s.readable_size + length chunk
    sized = omega (arith, long, v)

    kept : length (overwrite s.memory s.writable_at chunk) ≡ s.capacity
    kept = omega (arith, v, long, length-overwrite s.memory chunk s.writable_at)

-- What is left of a segment when `size` readable bytes have been consumed.
pub record Advanced (s : Segment) (size : ℕ) (s' : Segment) : Type 0 where
  pub bytes : readable_bytes s' ≡ drop size (readable_bytes s)
  pub valid : IsValid s'
  pub shrunk : s'.readable_size + size ≡ s.readable_size
  pub room : s'.writable_size ≡ s.writable_size
  pub same : s'.capacity ≡ s.capacity

pub advance_read-ok :
    {s : Segment} (size : ℕ)
    → IsValid s
    → size ≤ s.readable_size
    → (s' : Segment) × (advance_read s size ≡ ok s') × Advanced s size s'
unfolding advance_read
advance_read-ok {s} size v h = (s', rw (le→ltb s.readable_size size h), left)
  where
    s' : Segment
    s' = record s {
      readable_at = add_size s.readable_at size;
      readable_size = sub_size s.readable_size size;
    }

    window : readable_bytes s' ≡ drop size (readable_bytes s)
    window = ground (
      arith,
      v,
      drop-take size s.readable_size (drop s.readable_at s.memory),
      drop-drop size s.readable_at s.memory,
    )

    left : Advanced s size s'
    left = record {
      bytes = window;
      valid = record { block = v.block; seam = omega (arith, v); ends = v.ends; small = v.small };
      shrunk = omega (arith, v);
      room = refl;
      same = refl;
    }

-- `advance_read` drops exactly `size` readable bytes, leaves the writable part alone and keeps the
-- spans inside the buffer; for more bytes than are readable it throws `std::out_of_range`.
pub advance_read_lem :
    {s : Segment} (size : ℕ)
    → IsValid s
    → ((size ≤ s.readable_size)
        × ((s' : Segment) × (advance_read s size ≡ ok s') × Advanced s size s'))
      ⊎ ((s.readable_size < size) × (advance_read s size ≡ err out_of_range))
unfolding advance_read
advance_read_lem {s} size v = elim (dec_lt s.readable_size size) [
  | yes over ↦ inr (over, rw (lt→ltb s.readable_size size over))
  | no fits ↦ inl (omega arith, advance_read-ok size v (omega arith))
]
