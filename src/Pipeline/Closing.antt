-- ===== src/Pipeline/Closing.antt =====
-- src/pipeline/pipeline_impl.h: a pipeline one side of which is completed.
use xtd.Base.{
  ℕ, zero, suc, ◌+◌, ◌<◌, ◌≡◌, refl, ◌∙◌, inl, inr, Bool, true, false, List, [], ◌∷◌, arith, leb,
  if◌then◌else◌, length, err, invalid_argument, logic_error,
}
use xtd.Position.{Position}
use xtd.Pipeline.State.{Pipeline, data_available, is_any_completed}
use xtd.Pipeline.Write.{threw, entering, asleep, failed, write_step, after_wait, inner_loop}
use xtd.Pipeline.Read.{reading, waiting, refused, read_step, wait_for_data}
use xtd.Pipeline.Advance.{advance}
use xtd.Pipeline.Complete.{complete_writer, complete_reader}
use xtd.View.Slices.{bytes, IsValid}
use xtd.Pipeline.Read.{ReaderPc, got}
use xtd.Pipeline.Reading.{Answered, read_step_lem}
use xtd.Pipeline.Invariant.{contents, IsLive}

completed_loop :
    (allocate : Pipeline → List ℕ) (stop : ℕ → Bool) (fuel : ℕ) (p : Pipeline) (bytes : List ℕ)
    (copied : ℕ) (notify : Bool)
    → 0 < fuel
    → 0 < length bytes
    → p.writer_paused ≡ false
    → is_any_completed p ≡ true
    → inner_loop allocate stop fuel p bytes copied notify ≡ threw p
unfolding inner_loop
completed_loop allocate stop zero p bytes copied notify some_fuel some_bytes free completed =
    absurd (omega arith)
completed_loop allocate stop (suc fuel) p bytes copied notify some_fuel some_bytes free completed =
    ground (arith, free, completed)

-- Once the writer is completed, a call of `write` with bytes throws `std::logic_error`, and so does
-- a writer that was asleep, waiting for space: it wakes, since completing ends the pause.
pub completed_writer-throws :
    (allocate : Pipeline → List ℕ) (stop : ℕ → Bool) (p : Pipeline) (bytes : List ℕ) (copied : ℕ)
    → 0 < length bytes
    → let q = complete_writer p in
      (write_step allocate stop q (entering bytes copied) ≡ (q, failed logic_error, false))
      × (write_step allocate stop q (asleep bytes copied) ≡ (q, failed logic_error, false))
unfolding write_step after_wait complete_writer is_any_completed
completed_writer-throws allocate stop p [] copied some_bytes = absurd (omega arith)
completed_writer-throws allocate stop p (b ∷ bytes) copied some_bytes =
    let loop =
      completed_loop allocate stop (length (b ∷ bytes) + 1) (complete_writer p) (b ∷ bytes) copied
        false (omega arith) (omega arith) refl refl in
    (refl, ground (arith, loop))

-- Once the reader is completed, a call of `write` with bytes, a sleeping writer and a call of `read`
-- throw `std::logic_error`, `advance` throws in every case, and the buffered segments stay as they
-- were.
pub completed_reader-refuses :
    (allocate : Pipeline → List ℕ) (stop : ℕ → Bool) (p : Pipeline) (bytes : List ℕ) (copied : ℕ)
    (min_size : ℕ) (stopped : Bool) (consumed examined : Position)
    → 0 < length bytes
    → let q = complete_reader p in
      (write_step allocate stop q (entering bytes copied) ≡ (q, failed logic_error, false))
      × (write_step allocate stop q (asleep bytes copied) ≡ (q, failed logic_error, false))
      × (read_step q (reading min_size) stopped ≡ (q, refused logic_error))
      × (advance q consumed examined
          ≡ (if leb consumed.offset examined.offset then err logic_error else err invalid_argument))
      × (contents q ≡ contents p)
unfolding write_step after_wait complete_reader is_any_completed read_step advance
completed_reader-refuses allocate stop p [] copied min_size stopped consumed examined some_bytes =
    absurd (omega arith)
completed_reader-refuses allocate stop p (b ∷ bytes) copied min_size stopped consumed examined
      some_bytes =
    let any : is_any_completed (complete_reader p) ≡ true = ground arith in
    let loop =
      completed_loop allocate stop (length (b ∷ bytes) + 1) (complete_reader p) (b ∷ bytes) copied
        false (omega arith) (omega arith) refl any in
    (ground (arith, any), ground (arith, loop), refl, ground arith, refl)

-- A reader that was asleep in `read` when the reader is completed, with the writer not completed
-- and no stop requested, does not come out of its wait: woken, it goes back to sleep, and so again
-- each time after that, since the wait does not look at whether the reader is completed.
pub completed_reader-sleeps :
    (p : Pipeline) (min_size : ℕ)
    → p.writer_completed ≡ false
    → let q = record (complete_reader p) { reader_waiting = true } in
      (read_step (complete_reader p) (waiting min_size) false ≡ (q, waiting min_size))
      × (read_step q (waiting min_size) false ≡ (q, waiting min_size))
unfolding read_step complete_reader wait_for_data data_available
completed_reader-sleeps p min_size running = (ground (arith, running), ground (arith, running))

-- A read that gives out bytes, and one that a stop ends.
abbrev pub GivesOut : List ℕ → Pipeline × ReaderPc → Type 0
GivesOut left (q, got r) =
    (bytes r.buffer ≡ left)
    × IsValid r.buffer
    × (r.completed ≡ true)
    × (r.cancelled ≡ false)
    × (q.has_pending_read ≡ true)
    × (q.pending_read_size ≡ r.buffer.size)
    × (contents q ≡ left)
GivesOut left (q, reading m) = ⊥
GivesOut left (q, waiting m) = ⊥
GivesOut left (q, refused e) = ⊥

abbrev pub IsCancelled : List ℕ → Pipeline × ReaderPc → Type 0
IsCancelled left (q, got r) = (bytes r.buffer ≡ []) × (r.cancelled ≡ true) × (contents q ≡ left)
IsCancelled left (q, reading m) = ⊥
IsCancelled left (q, waiting m) = ⊥
IsCancelled left (q, refused e) = ⊥

Answered-GivesOut :
    (p : Pipeline) (min_size : ℕ) (out : Pipeline × ReaderPc)
    → p.writer_completed ≡ true
    → Answered p min_size false out
    → GivesOut (contents p) out
Answered-GivesOut p min_size (q, reading m) c a = a
Answered-GivesOut p min_size (q, waiting m) c a = absurd (cc (c, a.2.0))
Answered-GivesOut p min_size (q, got r) c (live, kept, result) = elim result [
  | inl (stop, cancelled, nothing, same) ↦ absurd (cc stop)
  | inr (go, data_there, cancelled, completed, shown, valid, pending, size) ↦
      (shown, valid, completed ∙ c, cancelled, pending, size, kept)
]
Answered-GivesOut p min_size (q, refused e) c a = a

Answered-IsCancelled :
    (p : Pipeline) (min_size : ℕ) (out : Pipeline × ReaderPc)
    → Answered p min_size true out
    → IsCancelled (contents p) out
Answered-IsCancelled p min_size (q, reading m) a = a
Answered-IsCancelled p min_size (q, waiting m) a = absurd (cc a.1)
Answered-IsCancelled p min_size (q, got r) (live, kept, result) = elim result [
  | inl (stop, cancelled, nothing, same) ↦ (nothing, cancelled, kept)
  | inr (go, data_there, cancelled, completed, shown, valid, pending, size) ↦ absurd (cc go)
]
Answered-IsCancelled p min_size (q, refused e) a = a

-- Once the writer of a live pipeline is completed, no read waits, however many bytes it asks for,
-- neither a new call nor one that was asleep: without a stop it gives out, as completed and in order,
-- exactly the bytes that were written and not consumed, and opens the pending read over them; with a
-- stop it gives a cancelled empty result and the bytes stay. No read is pending and the reader is
-- not completed.
pub completed_writer-drains :
    {p : Pipeline} (min_size : ℕ)
    → IsLive p
    → p.has_pending_read ≡ false
    → p.reader_completed ≡ false
    → let q = complete_writer p in
      (GivesOut (contents p) (read_step q (reading min_size) false)
        × GivesOut (contents p) (read_step q (waiting min_size) false))
      × IsCancelled (contents p) (read_step q (reading min_size) true)
      × IsCancelled (contents p) (read_step q (waiting min_size) true)
unfolding complete_writer
completed_writer-drains {p} min_size live free running = (
  (
    Answered-GivesOut (complete_writer p) min_size _ refl (called false),
    Answered-GivesOut (complete_writer p) min_size _ refl (read_step_lem min_size false closed).1,
  ),
  Answered-IsCancelled (complete_writer p) min_size _ (called true),
  Answered-IsCancelled (complete_writer p) min_size _ (read_step_lem min_size true closed).1,
)
  where
    closed : IsLive (complete_writer p)
    closed = record {
      used = live.used;
      buffered = live.buffered;
      actual = live.actual;
      bounded = live.bounded;
      positive = live.positive;
      small = live.small;
      narrow = live.narrow;
      pending = live.pending;
      examined = live.examined;
    }

    called :
        (stopped : Bool)
        → Answered
            (complete_writer p)
            min_size
            stopped
            (read_step (complete_writer p) (reading min_size) stopped)
    called stopped = elim (read_step_lem min_size stopped closed).0 [
      | inl (shut, e) ↦ absurd (ground (arith, shut, free, running))
      | inr (open_, a) ↦ a
    ]
