-- ===== src/Pipeline/Transfer/Turn.antt =====
-- src/pipeline/pipeline_impl.h: the reader takes all there is and leaves the pipeline idle.
use xtd.Base.{
  ℕ, ◌*◌, ◌≤◌, ◌<◌, ◌≡◌, refl, ap, ◌∙◌, inl, inr, Bool, true, false, not, ◌&&◌, List, [], ◌∷◌, ◌++◌,
  arith, ltb, leb, lt→ltb, le→leb, length, take, length-take, ok, ◌>>=◌,
}
use xtd.Position.{Position}
use xtd.View.{of_segments, end}
use xtd.View.Slices.{bytes}
use xtd.Segment.{Segment}
use xtd.Pipeline.State.{Pipeline, should_resume_writer, data_available, is_any_completed}
use xtd.Pipeline.Read.{reading, got, make_readable_view, snapshot, wait_for_data, read_step}
use xtd.Pipeline.Advance.{advance}
use xtd.Pipeline.Invariant.{contents, stored, total, AllUsed, IsLive, contents_bounds}
use xtd.Pipeline.Rounds.{Written}
use xtd.Pipeline.Reading.{make_readable_view_lem, IsLive-read}
use xtd.Pipeline.Advancing.{Advanced, advance_lem}
use xtd.Pipeline.Transfer.{consume_all}
use xtd.Pipeline.Transfer.Progress.{IsIdle}

-- A pipeline that is idle but for the bytes in it, and perhaps paused.
pub record IsFilled (p : Pipeline) : Type 0 where
  pub live : IsLive p
  pub running : is_any_completed p ≡ false
  pub unread : p.has_pending_read ≡ false
  pub unexamined : p.examined_size ≡ 0
  pub enough : p.buffer_size ≤ p.pause_writer_threshold
  pub low : p.buffer_size ≤ p.resume_writer_threshold
  pub more : 0 < p.buffered_size

-- The pipeline once a read has shown all that it holds.
abbrev shown : Pipeline → Pipeline
shown p = record p {
  reader_waiting = false;
  has_pending_read = true;
  pending_read_size = (make_readable_view p.segments).size;
}

read_all_lem :
    (p : Pipeline)
    → IsFilled p
    → read_step p (reading 0) false ≡ (
      shown p,
      got (record {
        buffer = make_readable_view p.segments;
        completed = p.writer_completed;
        cancelled = false;
      }),
    )
unfolding read_step wait_for_data data_available snapshot is_any_completed
read_all_lem p filled =
    let some_bytes : ltb p.examined_size p.buffered_size ≡ true =
      lt→ltb p.examined_size p.buffered_size (omega (arith, filled.unexamined, filled.more)) in
    ground (arith, filled.running, filled.unread, some_bytes)

stored_nil :
    (size : ℕ) (segments : List Segment)
    → AllUsed size segments
    → total segments ≡ 0
    → segments ≡ []
stored_nil size [] used none_left = refl
stored_nil size (s ∷ rest) used none_left = absurd (omega (arith, used.2))

-- Consuming all that was shown leaves the pipeline idle, with the writer let out of its pause.
consumed-IsIdle :
    (p : Pipeline) (n : ℕ) (out : Pipeline × Bool)
    → IsFilled p
    → n ≡ p.buffered_size
    → Advanced (shown p) n n out
    → IsIdle out.0
unfolding should_resume_writer is_any_completed
consumed-IsIdle p n out filled same a = record {
  live = a.live;
  clear = clear;
  running = ap is_any_completed a.fixed ∙ filled.running;
  unpaused = a.paused ∙ ap (λ b. p.writer_paused && not b) resumes ∙ never p.writer_paused;
  unread = a.closed.0;
  unexamined = omega (arith, a.looked_at);
  enough = omega (arith, size, pause, filled.enough);
  low = omega (arith, size, resume, filled.low);
}
  where
    clear : out.0.segments ≡ []
    clear =
        stored_nil out.0.buffer_size out.0.segments a.live.used
          (omega (arith, a.live.buffered, a.counted, same))

    size : out.0.buffer_size ≡ p.buffer_size
    size = ap (λ (q : Pipeline). q.buffer_size) a.fixed

    pause : out.0.pause_writer_threshold ≡ p.pause_writer_threshold
    pause = ap (λ (q : Pipeline). q.pause_writer_threshold) a.fixed

    resume : out.0.resume_writer_threshold ≡ p.resume_writer_threshold
    resume = ap (λ (q : Pipeline). q.resume_writer_threshold) a.fixed

    none_held : length out.0.segments * out.0.buffer_size ≡ 0
    none_held = ap (λ l. length l * out.0.buffer_size) clear ∙ omega arith

    resumes : should_resume_writer out.0 ≡ true
    resumes =
        let low : leb out.0.buffer_size out.0.resume_writer_threshold ≡ true =
          le→leb out.0.buffer_size out.0.resume_writer_threshold
            (omega (arith, size, resume, filled.low)) in
        let empty : ltb out.0.actual_buffered_size out.0.pause_writer_threshold ≡ true =
          lt→ltb out.0.actual_buffered_size out.0.pause_writer_threshold
            (omega (arith, a.live.actual, none_held, pause, filled.enough, filled.live.positive)) in
        ground (arith, low, empty)

    never : (b : Bool) → (b && false) ≡ false
    never true = refl
    never false = refl

module _ (p : Pipeline) (filled : IsFilled p) where
  abbrev upto : Position
  upto = end (make_readable_view p.segments)

  seen :
      (bytes (make_readable_view p.segments) ≡ contents p)
      × (upto.offset ≡ p.buffered_size)
      × ((make_readable_view p.segments).size ≡ p.buffered_size)
  unfolding end make_readable_view of_segments
  seen =
      let (all, counted, valid) = make_readable_view_lem filled.live in
      (all, omega (arith, counted, valid.small), counted)

  consumed_lem :
      (out : Pipeline × Bool) × (advance (shown p) upto upto ≡ ok out)
      × Advanced (shown p) upto.offset upto.offset out
  unfolding is_any_completed
  consumed_lem = elim (advance_lem upto upto live) [
    | inl (under, e) ↦ absurd (omega arith)
    | inr (inl (order, shut, e)) ↦ absurd (ground (arith, shut, filled.running))
    | inr (inr (inl (order, free, over, e))) ↦ absurd (omega (arith, over, seen))
    | inr (inr (inr (order, free, inside, found))) ↦ found
  ]
    where
      live : IsLive (shown p)
      live =
          IsLive-read false true (make_readable_view p.segments).size filled.live
            (omega (arith, seen))

  -- The reader's turn: it gets all that the pipeline holds, and leaves it idle.
  pub turn_lem :
      (q : Pipeline) × (consume_all (read_step p (reading 0) false) ≡ ok (q, contents p)) × IsIdle q
  unfolding consume_all
  turn_lem =
      let (out, e, a) = consumed_lem in
      (
        out.0,
        ap consume_all (read_all_lem p filled)
            ∙ ap (λ r. r >>= λ o. ok (o.0, bytes (make_readable_view p.segments))) e
            ∙ ap (λ b. ok (out.0, b)) seen.0,
        consumed-IsIdle p upto.offset out filled seen.1 a,
      )

-- What a section of `write` leaves is for the reader to consume.
pub progressed-IsFilled :
    {p : Pipeline} (bytes : List ℕ) (n : ℕ) (q : Pipeline)
    → IsIdle p
    → 0 < n
    → n ≤ length bytes
    → Written p bytes n q
    → IsFilled q × (contents q ≡ take n bytes)
unfolding is_any_completed
progressed-IsFilled {p} bytes n q idle some_n fits w = (
  record {
    live = w.live;
    running = ap is_any_completed w.fixed ∙ idle.running;
    unread = ap (λ (r : Pipeline). r.has_pending_read) w.fixed ∙ idle.unread;
    unexamined = ap (λ (r : Pipeline). r.examined_size) w.fixed ∙ idle.unexamined;
    enough = omega (
      arith,
      idle.enough,
      ap (λ (r : Pipeline). r.buffer_size) w.fixed,
      ap (λ (r : Pipeline). r.pause_writer_threshold) w.fixed,
    );
    low = omega (
      arith,
      idle.low,
      ap (λ (r : Pipeline). r.buffer_size) w.fixed,
      ap (λ (r : Pipeline). r.resume_writer_threshold) w.fixed,
    );
    more = omega (arith, (contents_bounds w.live).0, ap length held, length-take n bytes);
  },
  held,
)
  where
    held : contents q ≡ take n bytes
    held = w.appended ∙ ap (λ s. stored s ++ take n bytes) idle.clear
