-- ===== src/Pipeline/Advancing.antt =====
-- src/pipeline/pipeline_impl.h: `advance` as a whole, and when it lets the writer go on.
use xtd.Base.{
  ℕ, ◌+◌, ◌-◌, ◌*◌, ◌≤◌, ◌<◌, ◌≡◌, refl, ◌⊎◌, inl, inr, Bool, true, false, not, ◌&&◌, ◌||◌, List,
  arith, dec_lt, Bool-cases, length, drop, sub_size, ok, err, out_of_range, invalid_argument,
  logic_error,
}
use xtd.Position.{Position}
use xtd.Segment.{Segment}
use xtd.Pipeline.State.{Pipeline, should_resume_writer}
use xtd.Pipeline.Advance.{settle, advance}
use xtd.Pipeline.Invariant.{contents, total-le, IsLive}
use xtd.Pipeline.Consume.{Consumed, consume_loop_lem}

-- What an accepted call leaves, and whether it notifies the writer.
pub record Advanced (p : Pipeline) (consumed examined : ℕ) (out : Pipeline × Bool) : Type 0 where
  pub live : IsLive out.0
  pub dropped : contents out.0 ≡ drop consumed (contents p)
  pub counted : out.0.buffered_size + consumed ≡ p.buffered_size
  pub looked_at : out.0.examined_size ≡ examined - consumed
  pub closed : (out.0.has_pending_read ≡ false) × (out.0.pending_read_size ≡ 0)
  pub paused : out.0.writer_paused ≡ (p.writer_paused && not (should_resume_writer out.0))
  pub notified : out.1 ≡ (p.writer_paused && not out.0.writer_paused)
  pub fixed : out.0 ≡ record p {
    segments = out.0.segments;
    buffered_size = out.0.buffered_size;
    actual_buffered_size = out.0.actual_buffered_size;
    examined_size = out.0.examined_size;
    pending_read_size = out.0.pending_read_size;
    has_pending_read = out.0.has_pending_read;
    writer_paused = out.0.writer_paused;
  }

-- The end of an accepted call, from what the loop left.
settle-Advanced :
    {p : Pipeline} (consumed examined : ℕ) (left : List Segment × ℕ × ℕ)
    → IsLive p
    → consumed ≤ examined
    → examined ≤ p.pending_read_size
    → Consumed p.buffer_size p.segments consumed left
    → Advanced p consumed examined (settle p consumed examined left)
unfolding settle should_resume_writer
settle-Advanced {p} consumed examined (segments, buffered, actual) live order inside c = record {
  live = record {
    used = c.used;
    buffered = c.buffered;
    actual = c.held;
    bounded = omega (arith, fewer, live.bounded, live.actual, c.held);
    positive = live.positive;
    small = live.small;
    narrow = live.narrow;
    pending = omega arith;
    examined = omega (arith, exact, live.pending, live.buffered, c.counted, c.buffered);
  };
  dropped = c.dropped;
  counted = omega (arith, c.counted, c.buffered, live.buffered);
  looked_at = exact;
  closed = (refl, refl);
  paused = refl;
  notified = refl;
  fixed = refl;
}
  where
    fewer : length segments * p.buffer_size ≤ length p.segments * p.buffer_size
    fewer = grind (arith, c.fewer)

    exact : sub_size examined consumed ≡ examined - consumed
    exact = omega (
      arith,
      live.pending,
      live.buffered,
      live.actual,
      live.bounded,
      live.small,
      total-le p.buffer_size p.segments live.used,
    )

advance_accepts :
    {p : Pipeline} (consumed examined : Position)
    → IsLive p
    → consumed.offset ≤ examined.offset
    → (p.reader_completed || not p.has_pending_read) ≡ false
    → examined.offset ≤ p.pending_read_size
    → (out : Pipeline × Bool) × (advance p consumed examined ≡ ok out)
      × Advanced p consumed.offset examined.offset out
unfolding advance
advance_accepts {p} consumed examined live order open_read inside =
    let size = total-le p.buffer_size p.segments live.used in
    let (left, found, c) =
      consume_loop_lem p.buffer_size p.segments consumed.offset p.buffered_size
        p.actual_buffered_size live.used (omega (arith, live)) live.buffered
        (omega (arith, live, size)) live.actual (omega (arith, live)) in
    (
      settle p consumed.offset examined.offset left,
      ground (arith, found),
      settle-Advanced consumed.offset examined.offset left live order inside c,
    )

-- `advance` throws `std::invalid_argument` if the examined position lies before the consumed one,
-- then `std::logic_error` if the reader is completed or no read is pending, then
-- `std::out_of_range` if the examined position lies beyond the last read; any other call drops
-- exactly the consumed bytes from the front, keeps the counters and bounds right, closes the read,
-- and notifies the writer exactly when it ends a pause.
pub advance_lem :
    {p : Pipeline} (consumed examined : Position)
    → IsLive p
    → ((examined.offset < consumed.offset) × (advance p consumed examined ≡ err invalid_argument))
      ⊎ ((consumed.offset ≤ examined.offset)
          × ((p.reader_completed || not p.has_pending_read) ≡ true)
          × (advance p consumed examined ≡ err logic_error))
      ⊎ ((consumed.offset ≤ examined.offset)
          × ((p.reader_completed || not p.has_pending_read) ≡ false)
          × (p.pending_read_size < examined.offset)
          × (advance p consumed examined ≡ err out_of_range))
      ⊎ ((consumed.offset ≤ examined.offset)
          × ((p.reader_completed || not p.has_pending_read) ≡ false)
          × (examined.offset ≤ p.pending_read_size)
          × ((out : Pipeline × Bool) × (advance p consumed examined ≡ ok out)
              × Advanced p consumed.offset examined.offset out))
unfolding advance
advance_lem {p} consumed examined live = elim (dec_lt examined.offset consumed.offset) [
  | yes under ↦ inl (under, ground arith)
  | no order ↦ elim (Bool-cases (p.reader_completed || not p.has_pending_read)) [
    | inl shut ↦ inr (inl (omega arith, shut, ground arith))
    | inr open_read ↦ elim (dec_lt p.pending_read_size examined.offset) [
      | yes over ↦ inr (inr (inl (omega arith, open_read, over, ground arith)))
      | no inside ↦ inr (
          inr (
            inr (
              omega arith,
              open_read,
              omega arith,
              advance_accepts consumed examined live (omega arith) open_read (omega arith),
            )))
    ]
  ]
]

-- With a resume threshold below the segment size no call of `advance` ends a pause, not even one
-- that consumes every buffered byte: the test compares the segment size with the threshold.
pub advance-stuck :
    (p : Pipeline) (consumed examined : Position) (out : Pipeline × Bool)
    → p.resume_writer_threshold < p.buffer_size
    → p.writer_paused ≡ true
    → advance p consumed examined ≡ ok out
    → (out.0.writer_paused ≡ true) × (out.1 ≡ false)
unfolding advance settle should_resume_writer
advance-stuck p consumed examined out low paused e = ground arith
