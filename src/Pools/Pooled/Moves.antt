-- ===== src/Pools/Pooled/Moves.antt =====
-- src/pipeline/pipeline_impl.h: the segments of a pipeline whose reader may also complete its side.
use xtd.Base.{
  ℕ, zero, suc, ◌+◌, ◌≤◌, ◌<◌, ◌≡◌, refl, sym, ap, subst, ◌∙◌, ◌≢◌, ◌⊎◌, inl, inr, Bool, true,
  false, ◌||◌, List, [], ◌∷◌, arith, ◌==◌, if_cases, length, size_mod, ok, count,
}
use xtd.Pipeline.Options.{PipeOptions, ValidatedOptions, validate_options}
use xtd.Pipeline.State.{Pipeline, create, is_any_completed}
use xtd.Pipeline.Write.{
  left, threw, inner_loop, WriterPc, entering, asleep, returned, failed, after_wait, write_step,
}
use xtd.Pipeline.Read.{ReaderPc, reading, waiting, got, refused, snapshot, wait_for_data, read_step}
use xtd.Position.{Position}
use xtd.Pipeline.Advance.{advance}
use xtd.Pipeline.Complete.{complete_writer, complete_reader}
use xtd.Pipeline.Stream.{
  World, Step, call, write, begin_read, read, consume, complete, Steps, done, after, start,
}
use xtd.Pools.Pooled.{streamed_segments_lem}

-- A step of either side, or the reader's `complete`, which may come at any time.
pub data Move (allocate : Pipeline → List ℕ) : World → World → Type 0 where
  one_side : {v w : World} → Step allocate v w → Move allocate v w
  reader_completes : (w : World) → Move allocate w (record w { pipe = complete_reader w.pipe })

-- Zero or more moves.
pub data Moves (allocate : Pipeline → List ℕ) : World → World → Type 0 where
  unmoved : (w : World) → Moves allocate w w
  and_then : {u v w : World} → Moves allocate u v → Move allocate v w → Moves allocate u w

module _ (allocate : Pipeline → List ℕ) (stop : ℕ → Bool) (p : Pipeline) where
  closed_loop :
      (fuel : ℕ) (bytes : List ℕ) (copied : ℕ) (notify : Bool)
      → 0 < fuel
      → is_any_completed p ≡ true
      → (inner_loop allocate stop fuel p bytes copied notify ≡ left p bytes copied notify)
        ⊎ (inner_loop allocate stop fuel p bytes copied notify ≡ threw p)
  unfolding inner_loop
  closed_loop zero bytes copied notify some_fuel closed = absurd (omega arith)
  closed_loop (suc fuel) bytes copied notify some_fuel closed =
      if_cases (λ out. (out ≡ left p bytes copied notify) ⊎ (out ≡ threw p))
        ((length bytes == 0) || p.writer_paused) _ _ (λ _. inl refl)
        λ _. inr (ground (arith, closed))

  closed_wait :
      (bytes : List ℕ) (copied : ℕ)
      → is_any_completed p ≡ true
      → (after_wait allocate stop p bytes copied).0 ≡ p
  unfolding after_wait
  closed_wait bytes copied closed =
      elim (closed_loop (length bytes + 1) bytes copied false (omega arith) closed) [
        | inl e ↦ ground (arith, e)
        | inr e ↦ ground (arith, e)
      ]

  -- A writer leaves a pipeline alone one side of which is completed.
  closed_write : (pc : WriterPc) → is_any_completed p ≡ true → (write_step allocate stop p pc).0 ≡ p
  unfolding write_step
  closed_write (entering [] copied) closed = refl
  closed_write (entering (b ∷ bytes) copied) closed = ground (arith, closed)
  closed_write (asleep bytes copied) closed =
      let e = closed_wait bytes copied closed in ground (arith, e)
  closed_write (returned copied) closed = refl
  closed_write (failed e) closed = refl

-- The reader stays completed, and the segments are the same.
abbrev Keeps : Pipeline → Pipeline → Type 0
Keeps p q = (q.reader_completed ≡ true) × (q.segments ≡ p.segments)

closed_read :
    (p : Pipeline) (pc : ReaderPc) (stopped : Bool)
    → p.reader_completed ≡ true
    → Keeps p (read_step p pc stopped).0
unfolding read_step wait_for_data snapshot
closed_read p (reading min_size) stopped shut = ground (arith, shut)
closed_read p (waiting min_size) stopped shut = ground (arith, shut)
closed_read p (got r) stopped shut = (shut, refl)
closed_read p (refused e) stopped shut = (shut, refl)

closed_advance :
    (p : Pipeline) (upto examined : Position) (out : Pipeline × Bool)
    → p.reader_completed ≡ true
    → advance p upto examined ≢ ok out
unfolding advance
closed_advance p upto examined out shut e = ground (arith, shut, e)

Step-Keeps :
    {allocate : Pipeline → List ℕ} {v w : World}
    → Step allocate v w
    → v.pipe.reader_completed ≡ true
    → Keeps v.pipe w.pipe
unfolding complete_writer is_any_completed
Step-Keeps (call w bytes count at small) shut = (shut, refl)
Step-Keeps {allocate} (write w stop) shut =
    let same = closed_write allocate stop w.pipe w.writer (ground (arith, shut)) in
    (ap (λ (q : Pipeline). q.reader_completed) same ∙ shut, ap (λ (q : Pipeline). q.segments) same)
Step-Keeps (begin_read w min_size) shut = (shut, refl)
Step-Keeps (read w stopped) shut = closed_read w.pipe w.reader stopped shut
Step-Keeps (consume w upto examined out e) shut =
    absurd (closed_advance w.pipe upto examined out shut e)
Step-Keeps (complete w) shut = (shut, refl)

-- Either the reader has not completed its side, or the segments are those of when it did.
Moves-cases :
    {allocate : Pipeline → List ℕ} {u w : World} (most : ℕ)
    → ((v : World) → Steps allocate u v → length v.pipe.segments ≤ most)
    → Moves allocate u w
    → Steps allocate u w ⊎ ((w.pipe.reader_completed ≡ true) × (length w.pipe.segments ≤ most))
unfolding complete_reader
Moves-cases most few (unmoved w) = inl (done w)
Moves-cases most few (and_then moves (one_side step)) = elim (Moves-cases most few moves) [
  | inl steps ↦ inl (after steps step)
  | inr (shut, held) ↦
      let kept = Step-Keeps step shut in
      inr (kept.0, subst (λ x. length x ≤ most) (sym kept.1) held)
]
Moves-cases most few (and_then moves (reader_completes w)) = elim (Moves-cases most few moves) [
  | inl steps ↦ inr (refl, few _ steps)
  | inr (shut, held) ↦ inr (refl, held)
]

-- The pipeline never holds more segments than the number of blocks that its memory resource is made
-- for, whatever the order of the steps of a writer and a reader on a pipeline newly made with
-- accepted options, each side's `complete` included, at any time. Every allocation gives a block of the
-- pipeline's buffer size, and the sizes in the options are below 2 ^ 64.
pub pooled_segments_lem :
    (allocate : Pipeline → List ℕ)
    → ((q : Pipeline) → length (allocate q) ≡ q.buffer_size)
    → {w : World} (o : PipeOptions) (v : ValidatedOptions) → o.pause_writer_threshold < size_mod
    → o.buffer_size < size_mod
    → validate_options o ≡ ok v
    → Moves allocate (start (create v)) w
    → length w.pipe.segments ≤ v.max_pooled_segments
pooled_segments_lem allocate blocks o v small narrow accepted moves =
    elim (Moves-cases v.max_pooled_segments
      (λ v' steps. streamed_segments_lem allocate blocks o v small narrow accepted steps) moves) [
        | inl steps ↦ streamed_segments_lem allocate blocks o v small narrow accepted steps
        | inr (shut, held) ↦ held
      ]
