-- ===== src/Pipeline/Advance.antt =====
-- src/pipeline/pipeline_impl.h: `advance`; the three overloads of src/pipeline/pipe_reader.h.
use xtd.Base.{
  ℕ, Bool, false, not, ◌&&◌, List, [], ◌∷◌, ltb, leb, ◌==◌, if◌then◌else◌, sub_size, Result, ok,
  err, out_of_range, invalid_argument, logic_error, undefined, ◌>>=◌, ◌>>◌, require,
}
use xtd.Position.{Position, sequence_offset}
use xtd.Segment
use xtd.Segment.{Segment}
use xtd.View.{View, begin, end}
use xtd.Pipeline.State.{Pipeline, should_resume_writer}

-- The loop that drops consumed bytes from the front: `m_segments`, `m_buffered_size` and
-- `m_actual_buffered_size` as it leaves them. `front()` of an empty deque is undefined.
unfoldable pub consume_loop : ℕ → List Segment → ℕ → ℕ → ℕ → Result (List Segment × ℕ × ℕ)
unfolding Segment.advance_read
consume_loop buffer_size [] remaining buffered actual =
    if remaining == 0 then ok ([], buffered, actual) else err undefined
consume_loop buffer_size (head ∷ rest) remaining buffered actual =
    let readable_size = head.readable_size in
    let part : Result (List Segment × ℕ × ℕ) = do
      head' ← Segment.advance_read head remaining
      ok (head' ∷ rest, sub_size buffered remaining, actual)
    in let later =
        consume_loop buffer_size rest (sub_size remaining readable_size)
          (sub_size buffered readable_size) (sub_size actual buffer_size) in
      if remaining == 0
      then ok (head ∷ rest, buffered, actual)
      else if ltb remaining readable_size
      then part
      else later

-- The rest of `advance` after the loop: the examined size, the pause and the end of the read, with
-- whether the writer is to be notified.
unfoldable pub settle : Pipeline → ℕ → ℕ → List Segment × ℕ × ℕ → Pipeline × Bool
settle p consumed examined (segments, buffered, actual) =
    let q : Pipeline = record p {
      segments = segments;
      buffered_size = buffered;
      actual_buffered_size = actual;
      examined_size = sub_size examined consumed;
      pending_read_size = 0;
      has_pending_read = false;
    } in
    let paused = p.writer_paused && not (should_resume_writer q) in
    (record q { writer_paused = paused }, p.writer_paused && not paused)

unfoldable pub advance : Pipeline → Position → Position → Result (Pipeline × Bool)
unfolding sequence_offset
advance p consumed examined = do
  let consumed_offset = sequence_offset consumed
  let examined_offset = sequence_offset examined
  require (leb consumed_offset examined_offset) invalid_argument
  require (not p.reader_completed) logic_error
  require p.has_pending_read logic_error
  require (leb examined_offset p.pending_read_size) out_of_range
  left ←
      consume_loop p.buffer_size p.segments consumed_offset p.buffered_size p.actual_buffered_size
  ok (settle p consumed_offset examined_offset left)

-- `pipe_reader::advance(position)` and `pipe_reader::advance(segmented_byte_view)`
unfoldable pub advance_to : Pipeline → Position → Result (Pipeline × Bool)
advance_to p consumed = advance p consumed consumed

unfoldable pub advance_past : Pipeline → View → Result (Pipeline × Bool)
unfolding begin end
advance_past p sequence = advance p (begin sequence) (end sequence)
