-- ===== src/Pipeline/Chunk.antt =====
-- src/pipeline/pipeline_impl.h: one round of the inner loop of `write`.
use xtd.Base.{
  ℕ, ◌+◌, ◌*◌, ◌≤◌, ◌<◌, ◌≡◌, refl, ap, subst, ◌∙◌, ◌⊎◌, inl, inr, true, false, some, List, [],
  ◌++◌, arith, ℕ_discrete, leb, if◌then◌else◌, ==_iff, ne→==, Option-cases, length, take, push_back,
  length-push_back, length-take, add_size,
}
use xtd.Segment
use xtd.Segment.{Segment, readable_bytes}
use xtd.Segment.Bounds
use xtd.Pipeline.State.{
  Pipeline, back, set_back, tail_room, has_writable_tail, segment_allocation_capacity,
  writer_available_capacity,
}
use xtd.Pipeline.Write.{get_segment, copy_into, copy_chunk}
use xtd.Pipeline.Invariant.{IsLive}
use xtd.Pipeline.Deque.{
  Grown, push_back-Grown, set_back-Grown, length-set_back, back-push_back, set_back-push_back,
  back-AllUsed,
}

-- What the copy of `n` bytes leaves: the segments and their number have changed, nothing else.
pub record Chunked (p : Pipeline) (bytes : List ℕ) (n : ℕ) (out : ℕ × Pipeline) : Type 0 where
  pub count : out.0 ≡ n
  pub grown : Grown p.buffer_size p.segments (take n bytes) out.1.segments
  pub held : out.1.actual_buffered_size ≡ length out.1.segments * p.buffer_size
  pub bounded : out.1.actual_buffered_size ≤ p.pause_writer_threshold
  pub frame :
      out.1
      ≡ record p { segments = out.1.segments; actual_buffered_size = out.1.actual_buffered_size }

-- Where the room of the writer comes from.
pub tail_cases :
    (p : Pipeline)
    → ((s : Segment) × (back p.segments ≡ some s)
        × (0 < s.writable_size)
        × (has_writable_tail p ≡ true)
        × (writer_available_capacity p ≡ s.writable_size))
      ⊎ ((has_writable_tail p ≡ false)
          × (writer_available_capacity p
              ≡ (if leb p.buffer_size (segment_allocation_capacity p) then p.buffer_size else 0)))
unfolding writer_available_capacity
tail_cases p = elim (Option-cases (back p.segments)) [
  | inl e ↦
      let shut : has_writable_tail p ≡ false = rw (e, has_writable_tail) in inr (shut, rw shut)
  | inr (s, e) ↦ elim (ℕ_discrete s.writable_size 0) [
    | yes no_room ↦
        let shut : has_writable_tail p ≡ false =
          rw (e, has_writable_tail, (==_iff s.writable_size 0).1 no_room) in
        inr (shut, rw shut)
    | no room ↦
        let wide : has_writable_tail p ≡ true =
          rw (e, has_writable_tail, ne→== s.writable_size 0 room) in
        inl (s, e, omega arith, wide, rw wide (rw (e, tail_room)))
  ]
]

get_segment-tail :
    (allocate : Pipeline → List ℕ) (p : Pipeline)
    → has_writable_tail p ≡ true
    → get_segment allocate p ≡ p
unfolding get_segment
get_segment-tail allocate p wide = rw wide

get_segment-new :
    (allocate : Pipeline → List ℕ) (p : Pipeline)
    → has_writable_tail p ≡ false
    → get_segment allocate p ≡ record p {
      segments = push_back p.segments (Segment.create (allocate p) p.buffer_size);
      actual_buffered_size = add_size p.actual_buffered_size p.buffer_size;
    }
unfolding get_segment
get_segment-new allocate p shut = rw shut

-- The copy into the segment that `get_segment` returned.
copy_chunk-at :
    (allocate : Pipeline → List ℕ) (p q : Pipeline) (s : Segment) (bytes : List ℕ) (n : ℕ)
    → get_segment allocate p ≡ q
    → back q.segments ≡ some s
    → copy_chunk allocate p bytes n ≡ (
      (Segment.copy_from s bytes n).0,
      record q { segments = set_back q.segments (Segment.copy_from s bytes n).1 },
    )
unfolding copy_chunk
copy_chunk-at allocate p q s bytes n e f = ap (λ r. copy_into r bytes n) e ∙ rw (f, copy_into)

module _ (allocate : Pipeline → List ℕ) (p : Pipeline) (live : IsLive p) (bytes : List ℕ) where
  pub chunk_in_tail :
      (s : Segment) (n : ℕ)
      → back p.segments ≡ some s
      → has_writable_tail p ≡ true
      → n ≤ s.writable_size
      → n ≤ length bytes
      → Chunked p bytes n (copy_chunk allocate p bytes n)
  chunk_in_tail s n e wide room fits =
      rw (copy_chunk-at allocate p p s bytes n same_segment e) (record {
        count = all;
        grown =
            set_back-Grown p.buffer_size p.segments s s' (take n bytes) live.used e copied.valid
              (copied.same ∙ known.1)
              (copied.bytes ∙ ap (λ k. readable_bytes s ++ take k bytes) all)
              (omega (arith, copied.grown, all, length-take n bytes));
        held = rw (length-set_back p.segments s') live.actual;
        bounded = live.bounded;
        frame = refl;
      })
    where
      same_segment : get_segment allocate p ≡ p
      same_segment = get_segment-tail allocate p wide

      known : Bounds.IsValid s × (s.capacity ≡ p.buffer_size)
      known = back-AllUsed p.buffer_size p.segments s live.used e

      s' : Segment
      s' = (Segment.copy_from s bytes n).1

      copied : Bounds.Copied s bytes n (Segment.copy_from s bytes n)
      copied = Bounds.copy_from_lem bytes n known.0 fits

      all : (Segment.copy_from s bytes n).0 ≡ n
      all = omega (arith, copied.count)

  pub chunk_in_new :
      (n : ℕ)
      → length (allocate p) ≡ p.buffer_size
      → has_writable_tail p ≡ false
      → p.actual_buffered_size + p.buffer_size ≤ p.pause_writer_threshold
      → 0 < n
      → n ≤ p.buffer_size
      → n ≤ length bytes
      → Chunked p bytes n (copy_chunk allocate p bytes n)
  chunk_in_new n block shut room some_bytes most fits =
      rw (copy_chunk-at allocate p q s bytes n opened (back-push_back p.segments s)) (
        rw (set_back-push_back p.segments s s') (record {
          count = all;
          grown =
              subst (λ k. Grown p.buffer_size p.segments k (push_back p.segments s')) written
                (push_back-Grown p.buffer_size p.segments s' live.used copied.valid
                  (copied.same ∙ fresh.3) (omega (arith, copied.grown, all, fresh.1, some_bytes)));
          held = rw (length-push_back p.segments s') (omega (arith, live.actual, live.small, room));
          bounded = omega (arith, live, room);
          frame = refl;
        }))
    where
      s : Segment
      s = Segment.create (allocate p) p.buffer_size

      q : Pipeline
      q = record p {
        segments = push_back p.segments s;
        actual_buffered_size = add_size p.actual_buffered_size p.buffer_size;
      }

      opened : get_segment allocate p ≡ q
      opened = get_segment-new allocate p shut

      fresh :
          (readable_bytes s ≡ [])
          × (s.readable_size ≡ 0)
          × (s.writable_size ≡ p.buffer_size)
          × (s.capacity ≡ p.buffer_size)
      fresh = Bounds.create_empty (allocate p) p.buffer_size

      valid : Bounds.IsValid s
      valid = Bounds.create-IsValid (allocate p) p.buffer_size block live.narrow

      s' : Segment
      s' = (Segment.copy_from s bytes n).1

      copied : Bounds.Copied s bytes n (Segment.copy_from s bytes n)
      copied = Bounds.copy_from_lem bytes n valid fits

      all : (Segment.copy_from s bytes n).0 ≡ n
      all = omega (arith, copied.count, fresh.2)

      written : readable_bytes s' ≡ take n bytes
      written =
          copied.bytes
          ∙ ap (λ k. readable_bytes s ++ take k bytes) all
          ∙ ap (λ k. k ++ take n bytes) fresh.0
