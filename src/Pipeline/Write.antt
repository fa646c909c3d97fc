-- ===== src/Pipeline/Write.antt =====
-- src/pipeline/pipeline_impl.h: `get_segment` and `write`; src/pipeline/pipe_writer.h.
use xtd.Base.{
  ℕ, zero, suc, ◌+◌, min, Bool, true, false, ◌||◌, Option, none, some, List, [], ◌∷◌, ltb, ◌==◌,
  if◌then◌else◌, length, take, drop, push_back, add_size, Error, logic_error, undefined,
}
use xtd.Segment
use xtd.Segment.{Segment}
use xtd.Pipeline.State.{
  Pipeline, back, set_back, space_available, has_writable_tail, writer_available_capacity,
  should_pause_writer, is_any_completed,
}

-- How the inner loop of `write` ends: it leaves with bytes still to write or none (`left`), returns
-- because a stop was requested (`cancelled`, with the bytes copied), or throws. `left` also says
-- whether the reader is to be notified once the lock is released; on the other ways out nobody is.
pub data WriteExit : Type 0 where
  left : Pipeline → List ℕ → ℕ → Bool → WriteExit
  cancelled : Pipeline → ℕ → WriteExit
  threw : Pipeline → WriteExit
  out_of_fuel : WriteExit

-- The copy into the last segment.
unfoldable pub copy_into : Pipeline → List ℕ → ℕ → ℕ × Pipeline
copy_into p bytes requested_size = elim (back p.segments) [
  | none ↦ (0, p)
  | some s ↦
      let (copy_size, s') = Segment.copy_from s bytes requested_size in
      (copy_size, record p { segments = set_back p.segments s' })
]

-- `allocate` is the block that `m_allocator` hands out in a state.
module _ (allocate : Pipeline → List ℕ) where
  unfoldable pub get_segment : Pipeline → Pipeline
  get_segment p = if has_writable_tail p then p else record p {
    segments = push_back p.segments (Segment.create (allocate p) p.buffer_size);
    actual_buffered_size = add_size p.actual_buffered_size p.buffer_size;
  }

  -- `get_segment().copy_from(data.data(), requested_size)`
  unfoldable pub copy_chunk : Pipeline → List ℕ → ℕ → ℕ × Pipeline
  unfolding copy_into
  copy_chunk p bytes requested_size = copy_into (get_segment p) bytes requested_size

-- The end of a round: the counters, the note for the reader, and the pause.
unfoldable pub account : Pipeline → ℕ → Pipeline
account p copy_size =
    let q : Pipeline = record p { buffered_size = add_size p.buffered_size copy_size } in
    if should_pause_writer q then record q { writer_paused = true } else q

-- `stop` is whether a stop is seen requested at the test made when so many bytes have been copied.
module _ (allocate : Pipeline → List ℕ) (stop : ℕ → Bool) where
  -- The inner loop, on fuel.
  unfoldable pub inner_loop : ℕ → Pipeline → List ℕ → ℕ → Bool → WriteExit
  unfolding copy_chunk account writer_available_capacity is_any_completed
  inner_loop zero p bytes copied notify = out_of_fuel
  inner_loop (suc fuel) p bytes copied notify =
      let available_capacity = writer_available_capacity p in
      let requested_size = min (length bytes) available_capacity in
      let chunk = copy_chunk allocate p bytes requested_size in
      let next =
        inner_loop fuel (account chunk.1 chunk.0) (drop chunk.0 bytes) (add_size copied chunk.0)
          (notify || p.reader_waiting) in
      if length bytes == 0 || p.writer_paused
      then left p bytes copied notify
      else if is_any_completed p
      then threw p
      else if stop copied
      then cancelled p copied
      else if available_capacity == 0
      then left (record p { writer_paused = true }) bytes copied notify
      else next

-- Where the writer is between two of its steps. `asleep` is inside the wait for space.
pub data WriterPc : Type 0 where
  entering : List ℕ → ℕ → WriterPc
  asleep : List ℕ → ℕ → WriterPc
  returned : ℕ → WriterPc
  failed : Error → WriterPc

module _ (allocate : Pipeline → List ℕ) (stop : ℕ → Bool) where
  -- What the writer does once the wait for space has returned, up to the release of the lock.
  unfoldable pub after_wait : Pipeline → List ℕ → ℕ → Pipeline × WriterPc × Bool
  unfolding inner_loop
  after_wait p bytes copied =
      elim (inner_loop allocate stop (length bytes + 1) p bytes copied false) [
        | left q rest total notify ↦ (q, entering rest total, notify)
        | cancelled q total ↦ (q, returned total, false)
        | threw q ↦ (q, failed logic_error, false)
        | out_of_fuel ↦ (p, failed undefined, false)
      ]

  -- One step of `write`, from taking the lock to giving it up. The wait returns if there is space
  -- or a stop is requested; `space_available.wait` looks at both under the lock.
  unfoldable pub write_step : Pipeline → WriterPc → Pipeline × WriterPc × Bool
  unfolding after_wait is_any_completed
  write_step p (entering [] copied) = (p, returned copied, false)
  write_step p (entering (b ∷ bytes) copied) =
      if is_any_completed p
      then (p, failed logic_error, false)
      else if space_available p || stop copied
      then after_wait p (b ∷ bytes) copied
      else (p, asleep (b ∷ bytes) copied, false)
  write_step p (asleep bytes copied) =
      if space_available p || stop copied
      then after_wait p bytes copied
      else (p, asleep bytes copied, false)
  write_step p (returned copied) = (p, returned copied, false)
  write_step p (failed e) = (p, failed e, false)

-- `pipe_writer::write` on a pointer and a length: a null pointer writes nothing.
unfoldable pub write_start : Option (List ℕ) → ℕ → WriterPc
write_start none len = if ltb 0 len then returned 0 else entering [] 0
write_start (some block) len = entering (take len block) 0
