-- ===== src/Pipeline/Complete.antt =====
-- src/pipeline/pipeline_impl.h: `complete_writer`, `complete_reader` and the destructor. Each
-- notifies all waiters of both condition variables.
use xtd.Base.{true, false}
use xtd.Pipeline.State.{Pipeline}

unfoldable pub complete_writer : Pipeline → Pipeline
complete_writer p = record p { writer_paused = false; writer_completed = true }

-- The segments themselves stay in the deque.
unfoldable pub complete_reader : Pipeline → Pipeline
complete_reader p = record p {
  reader_completed = true;
  has_pending_read = false;
  writer_paused = false;
  pending_read_size = 0;
  buffered_size = 0;
  actual_buffered_size = 0;
  examined_size = 0;
}

unfoldable pub destroy : Pipeline → Pipeline
unfolding complete_writer complete_reader
destroy p = complete_reader (complete_writer p)
