-- ===== src/Pipeline/State.antt =====
-- src/pipeline/pipeline_impl.h: the state of a pipeline and the tests on it.
use xtd.Base.{
  ℕ, Bool, false, not, ◌&&◌, ◌||◌, Option, none, some, List, [], ◌∷◌, ltb, leb, ◌==◌, if◌then◌else◌,
  sub_size,
}
use xtd.Segment
use xtd.Segment.{Segment}
use xtd.Pipeline.Options.{ValidatedOptions}

-- The mutex and the condition variables are not in the state: each function below runs while its
-- caller holds `m_mutex`.
pub record Pipeline : Type 0 where
  pub segments : List Segment
  pub pause_writer_threshold : ℕ
  pub resume_writer_threshold : ℕ
  pub buffer_size : ℕ
  pub buffered_size : ℕ
  pub actual_buffered_size : ℕ
  pub examined_size : ℕ
  pub pending_read_size : ℕ
  pub reader_waiting : Bool
  pub has_pending_read : Bool
  pub writer_completed : Bool
  pub reader_completed : Bool
  pub writer_paused : Bool

-- The constructor over validated options.
unfoldable pub create : ValidatedOptions → Pipeline
create options = record {
  segments = [];
  pause_writer_threshold = options.pause_writer_threshold;
  resume_writer_threshold = options.resume_writer_threshold;
  buffer_size = options.buffer_size;
  buffered_size = 0;
  actual_buffered_size = 0;
  examined_size = 0;
  pending_read_size = 0;
  reader_waiting = false;
  has_pending_read = false;
  writer_completed = false;
  reader_completed = false;
  writer_paused = false;
}

-- `data_available_predicate` and `space_available_predicate`, which the waits test.
unfoldable pub data_available : Pipeline → ℕ → Bool
data_available p min_size =
    p.writer_completed
    || (ltb p.examined_size p.buffered_size && (min_size == 0 || leb min_size p.buffered_size))

abbrev pub space_available : Pipeline → Bool
space_available p = not p.writer_paused

unfoldable pub should_resume_writer : Pipeline → Bool
should_resume_writer p =
    leb p.buffer_size p.resume_writer_threshold
    && ltb p.actual_buffered_size p.pause_writer_threshold

-- `m_segments.back()`
abbrev pub back : List Segment → Option Segment
back [] = none
back (s ∷ []) = some s
back (s ∷ s' ∷ rest) = back (s' ∷ rest)

abbrev pub set_back : List Segment → Segment → List Segment
set_back [] b = []
set_back (s ∷ []) b = b ∷ []
set_back (s ∷ s' ∷ rest) b = s ∷ set_back (s' ∷ rest) b

-- The writable bytes of `m_segments.back()`; 0 where there is none or it is full.
unfoldable pub tail_room : List Segment → ℕ
tail_room segments = elim (back segments) [ none ↦ 0 | some s ↦ s.writable_size ]

-- `!m_segments.empty() && !m_segments.back().full()`
unfoldable pub has_writable_tail : Pipeline → Bool
unfolding Segment.full
has_writable_tail p = elim (back p.segments) [ none ↦ false | some s ↦ not (Segment.full s) ]

unfoldable pub segment_allocation_capacity : Pipeline → ℕ
segment_allocation_capacity p =
    if ltb p.actual_buffered_size p.pause_writer_threshold
    then sub_size p.pause_writer_threshold p.actual_buffered_size
    else 0

unfoldable pub writer_available_capacity : Pipeline → ℕ
unfolding has_writable_tail tail_room segment_allocation_capacity
writer_available_capacity p =
    if has_writable_tail p
    then tail_room p.segments
    else if leb p.buffer_size (segment_allocation_capacity p)
    then p.buffer_size
    else 0

unfoldable pub should_pause_writer : Pipeline → Bool
unfolding has_writable_tail segment_allocation_capacity
should_pause_writer p =
    not (has_writable_tail p) && ltb (segment_allocation_capacity p) p.buffer_size

unfoldable pub is_any_completed : Pipeline → Bool
is_any_completed p = p.writer_completed || p.reader_completed
