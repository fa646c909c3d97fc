-- ===== src/Pipeline/Read.antt =====
-- src/pipeline/pipeline_impl.h: `read_at_least`; src/pipeline/read_result.h, pipe_reader.h.
use xtd.Base.{
  ℕ, Bool, true, false, ◌||◌, List, [], ◌∷◌, ◌==◌, if◌then◌else◌, push_back, add_size, Error,
  logic_error,
}
use xtd.Segment.{Segment, readable_bytes}
use xtd.View.{View, of_segments, empty_view}
use xtd.Pipeline.State.{Pipeline, data_available}

pub record ReadResult : Type 0 where
  pub buffer : View
  pub completed : Bool
  pub cancelled : Bool

-- The loop of `make_readable_view`.
unfoldable pub collect : List Segment → List (List ℕ) → ℕ → List (List ℕ) × ℕ
collect [] readable_segments total_size = (readable_segments, total_size)
collect (s ∷ rest) readable_segments total_size =
    if s.readable_size == 0
    then collect rest readable_segments total_size
    else collect rest (push_back readable_segments (readable_bytes s))
        (add_size total_size s.readable_size)

unfoldable pub make_readable_view : List Segment → View
unfolding collect of_segments
make_readable_view segments =
    let (readable_segments, total_size) = collect segments [] 0 in
    of_segments readable_segments total_size

-- `read_result(bool)`
unfoldable pub cancelled_result : Bool → ReadResult
unfolding empty_view
cancelled_result cancelled = record {
  buffer = empty_view;
  completed = false;
  cancelled = cancelled;
}

-- Where the reader is: before the call, inside the wait for data, or back with a result.
pub data ReaderPc : Type 0 where
  reading : ℕ → ReaderPc
  waiting : ℕ → ReaderPc
  got : ReadResult → ReaderPc
  refused : Error → ReaderPc

-- From the return of the wait on. `stopped` is what `stop_token.stop_requested()` says.
unfoldable pub snapshot : Pipeline → Bool → Pipeline × ReaderPc
unfolding make_readable_view cancelled_result
snapshot p stopped =
    if stopped
    then (p, got (cancelled_result true))
    else let view = make_readable_view p.segments in
      (
        record p { has_pending_read = true; pending_read_size = view.size },
        got (record { buffer = view; completed = p.writer_completed; cancelled = false }),
      )

-- The wait for data: it returns if there is data for the reader or a stop is requested, and else
-- gives the lock up with `m_reader_waiting` set.
unfoldable pub wait_for_data : Pipeline → ℕ → Bool → Pipeline × ReaderPc
unfolding data_available snapshot
wait_for_data p min_size stopped =
    if data_available p min_size || stopped
    then snapshot (record p { reader_waiting = false }) stopped
    else (record p { reader_waiting = true }, waiting min_size)

-- One step of `read_at_least`.
unfoldable pub read_step : Pipeline → ReaderPc → Bool → Pipeline × ReaderPc
unfolding wait_for_data
read_step p (reading min_size) stopped =
    if p.has_pending_read
    then (p, refused logic_error)
    else if p.reader_completed
    then (p, refused logic_error)
    else if p.writer_completed
    then snapshot p stopped
    else wait_for_data p min_size stopped
read_step p (waiting min_size) stopped = wait_for_data p min_size stopped
read_step p (got result) stopped = (p, got result)
read_step p (refused e) stopped = (p, refused e)
