-- ===== src/Tests/Pipes.antt =====
-- src/pipeline/pipeline_impl.h: runs of a pipeline with segments of four bytes.
use xtd.Base.{
  ℕ, zero, suc, ◌+◌, ◌*◌, ◌≤◌, ◌<◌, ◌≡◌, refl, ◌⊎◌, Bool, true, false, not, ◌||◌, List, [], ◌∷◌,
  arith, length, ok, err, out_of_range, invalid_argument, logic_error,
}
use xtd.Position.{Position, sequence_offset}
use xtd.Segment.{advance_read}
use xtd.Pipeline.Options.{PipeOptions, ValidatedOptions, fixed_pool_resource, validate_options}
use xtd.Pipeline.State.{Pipeline, create, is_any_completed, should_resume_writer}
use xtd.Pipeline.Write.{entering, asleep, failed, write_step}
use xtd.Pipeline.Read.{reading, waiting, refused, read_step}
use xtd.Pipeline.Advance.{advance, consume_loop, settle}
use xtd.Pipeline.Complete.{complete_writer, complete_reader}
use xtd.Pipeline.Invariant.{contents, IsLive, validate_options_lem}
use xtd.Pipeline.Writing.{Moved, write_step_lem, cancelled_write-spins}
use xtd.Pipeline.Reading.{Answered, read_step_lem}
use xtd.Pipeline.Advancing.{Advanced, advance_lem, advance-stuck}
use xtd.Pipeline.Closing.{
  GivesOut, IsCancelled, completed_reader-sleeps, completed_writer-throws, completed_reader-refuses,
  completed_writer-drains,
}
use xtd.Pipeline.Transfer.{transfer}
use xtd.Pipeline.Transfer.Progress.{IsIdle}
use xtd.Pipeline.Transfer.Ending.{transfer_lem}
use xtd.Pools.Pooled.Moves.{
  Moves, one_side, reader_completes, unmoved, and_then, pooled_segments_lem,
}
use xtd.Pipeline.Stream.{World, InOrder, Steps, done, after, call, write, wrote, start}
use xtd.Pipeline.Stream.Order.{stream_lem}

abbrev zeros : ℕ → List ℕ
zeros zero = []
zeros (suc n) = 0 ∷ zeros n

length-zeros : (n : ℕ) → length (zeros n) ≡ n
length-zeros zero = refl
length-zeros (suc n) = omega (arith, length-zeros n)

abbrev allocate : Pipeline → List ℕ
allocate p = zeros p.buffer_size

blocks : (q : Pipeline) → length (allocate q) ≡ q.buffer_size
blocks q = length-zeros q.buffer_size

abbrev never : ℕ → Bool
never copied = false

abbrev always : ℕ → Bool
always copied = true

abbrev options : PipeOptions
options = record {
  buffer_size = 4;
  resume_writer_threshold = 4;
  pause_writer_threshold = 8;
  allocator = fixed_pool_resource;
}

abbrev checked : ValidatedOptions
checked = record {
  buffer_size = 4;
  pause_writer_threshold = 8;
  resume_writer_threshold = 4;
  max_pooled_segments = 2;
  allocator = fixed_pool_resource;
}

accepted : validate_options options ≡ ok checked
unfolding validate_options
accepted = refl

validate_options_example :
    (((0 < 4) × (0 < 8) × (4 ≤ 8))
      × ((v : ValidatedOptions) × (validate_options options ≡ ok v)
          × (v.buffer_size ≡ 4)
          × (v.pause_writer_threshold ≡ 8)
          × (v.resume_writer_threshold ≡ 4)
          × (8 ≤ v.max_pooled_segments * 4)
          × (v.max_pooled_segments * 4 < 8 + 4)))
    ⊎ ((¬ ((0 < 4) × (0 < 8) × (4 ≤ 8))) × (validate_options options ≡ err invalid_argument))
validate_options_example = validate_options_lem options (omega arith)

-- 1 2 3 in the first segment, a read pending
abbrev held : Pipeline
held = record {
  segments =
      (record {
        memory = 1 ∷ 2 ∷ 3 ∷ 0 ∷ [];
        writable_at = 3;
        writable_size = 1;
        readable_at = 0;
        readable_size = 3;
        capacity = 4;
      })
      ∷ [];
  pause_writer_threshold = 8;
  resume_writer_threshold = 3;
  buffer_size = 4;
  buffered_size = 3;
  actual_buffered_size = 4;
  examined_size = 0;
  pending_read_size = 3;
  reader_waiting = false;
  has_pending_read = true;
  writer_completed = false;
  reader_completed = false;
  writer_paused = false;
}

abbrev stuck : Pipeline
stuck = record held { writer_paused = true }

abbrev free : Pipeline
free = record held { has_pending_read = false; pending_read_size = 0 }

held-IsLive : IsLive held
held-IsLive = ground arith

free-IsLive : IsLive free
free-IsLive = ground arith

abbrev payload : List ℕ
payload = 4 ∷ 5 ∷ 6 ∷ []

write_step_example :
    Moved never held payload 0 (write_step allocate never held (entering payload 0))
    × Moved never held payload 0 (write_step allocate never held (asleep payload 0))
write_step_example = write_step_lem allocate never blocks held payload 0 held-IsLive (omega arith)

cancelled_write-spins_example :
    (write_step allocate always stuck (entering payload 0) ≡ (stuck, entering payload 0, false))
    × (write_step allocate always stuck (asleep payload 0) ≡ (stuck, entering payload 0, false))
unfolding is_any_completed
cancelled_write-spins_example =
    cancelled_write-spins allocate always stuck payload 0 (omega arith) refl refl refl

read_step_example :
    ((((false || false) ≡ true) × (read_step free (reading 0) false ≡ (free, refused logic_error)))
      ⊎ (((false || false) ≡ false) × Answered free 0 false (read_step free (reading 0) false)))
    × Answered free 0 false (read_step free (waiting 0) false)
read_step_example = read_step_lem 0 false free-IsLive

abbrev first : Position
first = record { offset = 1; found = true }

abbrev last : Position
last = record { offset = 3; found = true }

advance_example :
    ((3 < 1) × (advance held first last ≡ err invalid_argument))
    ⊎ ((1 ≤ 3) × ((false || not true) ≡ true) × (advance held first last ≡ err logic_error))
    ⊎ ((1 ≤ 3)
        × ((false || not true) ≡ false)
        × (3 < 3)
        × (advance held first last ≡ err out_of_range))
    ⊎ ((1 ≤ 3)
        × ((false || not true) ≡ false)
        × (3 ≤ 3)
        × ((out : Pipeline × Bool) × (advance held first last ≡ ok out) × Advanced held 1 3 out))
advance_example = advance_lem first last held-IsLive

-- Everything consumed, and the writer still paused.
abbrev emptied : Pipeline
emptied = record stuck {
  segments = [];
  buffered_size = 0;
  actual_buffered_size = 0;
  pending_read_size = 0;
  has_pending_read = false;
}

advance-emptied : advance stuck last last ≡ ok (emptied, false)
unfolding advance consume_loop settle should_resume_writer sequence_offset advance_read
advance-emptied = refl

advance-stuck_example : (true ≡ true) × (false ≡ false)
advance-stuck_example =
    advance-stuck stuck last last (emptied, false) (omega arith) refl advance-emptied

completed_writer_example :
    (write_step allocate never (complete_writer stuck) (entering payload 0)
      ≡ (complete_writer stuck, failed logic_error, false))
    × (write_step allocate never (complete_writer stuck) (asleep payload 0)
        ≡ (complete_writer stuck, failed logic_error, false))
completed_writer_example = completed_writer-throws allocate never stuck payload 0 (omega arith)

completed_reader_example :
    (write_step allocate never (complete_reader held) (entering payload 0)
      ≡ (complete_reader held, failed logic_error, false))
    × (write_step allocate never (complete_reader held) (asleep payload 0)
        ≡ (complete_reader held, failed logic_error, false))
    × (read_step (complete_reader held) (reading 0) false
        ≡ (complete_reader held, refused logic_error))
    × (advance (complete_reader held) first last ≡ err logic_error)
    × (contents (complete_reader held) ≡ 1 ∷ 2 ∷ 3 ∷ [])
unfolding complete_reader
completed_reader_example =
    completed_reader-refuses allocate never held payload 0 0 false first last (omega arith)

completed_writer-drains_example :
    (GivesOut (contents free) (read_step (complete_writer free) (reading 9) false)
      × GivesOut (contents free) (read_step (complete_writer free) (waiting 9) false))
    × IsCancelled (contents free) (read_step (complete_writer free) (reading 9) true)
    × IsCancelled (contents free) (read_step (complete_writer free) (waiting 9) true)
completed_writer-drains_example = completed_writer-drains 9 free-IsLive refl refl

completed_reader-sleeps_example :
    (read_step (complete_reader free) (waiting 9) false
      ≡ (record (complete_reader free) { reader_waiting = true }, waiting 9))
    × (read_step (record (complete_reader free) { reader_waiting = true }) (waiting 9) false
        ≡ (record (complete_reader free) { reader_waiting = true }, waiting 9))
completed_reader-sleeps_example = completed_reader-sleeps free 9 refl

abbrev called : World
called = record (start (create checked)) {
  writer = entering payload 0;
  payload = payload;
  sent = [];
}

abbrev stepped : World
stepped = wrote called (write_step allocate never called.pipe called.writer)

steps : Steps allocate (start (create checked)) stepped
unfolding start
steps =
    after
      (after (done (start (create checked)))
        (call (start (create checked)) payload 0 refl (omega arith)))
      (write called never)

stream_example : InOrder stepped
stream_example =
    stream_lem allocate blocks options checked (omega arith) (omega arith) accepted steps

-- After the write the reader completes its side, and the writer takes another step.
abbrev closed : World
closed = record stepped { pipe = complete_reader stepped.pipe }

abbrev refused_write : World
refused_write = wrote closed (write_step allocate never closed.pipe closed.writer)

moves : Moves allocate (start (create checked)) refused_write
unfolding start
moves =
    and_then
      (and_then
        (and_then
          (and_then (unmoved (start (create checked)))
            (one_side (call (start (create checked)) payload 0 refl (omega arith))))
          (one_side (write called never)))
        (reader_completes stepped))
      (one_side (write closed never))

pooled_segments_example : length refused_write.pipe.segments ≤ 2
pooled_segments_example =
    pooled_segments_lem allocate blocks options checked (omega arith) (omega arith) accepted moves

-- nothing in it, segments of four bytes
abbrev vacant : Pipeline
vacant = record held {
  segments = [];
  resume_writer_threshold = 4;
  buffered_size = 0;
  actual_buffered_size = 0;
  pending_read_size = 0;
  has_pending_read = false;
}

vacant-IsIdle : IsIdle vacant
unfolding is_any_completed
vacant-IsIdle = record {
  live = ground arith;
  clear = refl;
  running = refl;
  unpaused = refl;
  unread = refl;
  unexamined = refl;
  enough = omega arith;
  low = omega arith;
}

-- nine bytes go through segments of four in three rounds
abbrev nine : List ℕ
nine = 1 ∷ 2 ∷ 3 ∷ 4 ∷ 5 ∷ 6 ∷ 7 ∷ 8 ∷ 9 ∷ []

transfer_example : transfer allocate 10 vacant (entering nine 0) [] ≡ ok (9, nine)
transfer_example = transfer_lem allocate blocks vacant nine vacant-IsIdle (omega arith)
