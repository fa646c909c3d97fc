-- ===== src/Pools/Pooled.antt =====
-- src/pipeline/pipeline_impl.h: a pipeline never needs more blocks than its memory resource is made
-- for.
pub mod Moves
use xtd.Base.{
  ℕ, zero, suc, ◌+◌, ◌*◌, ◌≤◌, ◌<◌, min, ◌≡◌, refl, sym, ap, ◌∙◌, inl, inr, Bool, false, ◌||◌, List,
  [], ◌∷◌, arith, dec_lt, ◌==◌, if_cases, length, drop, size_mod, add_size, ok, logic_error,
  undefined,
}
use native.Mathlib.Nat.{mul-le-mul_right}
use xtd.Pipeline.Options.{PipeOptions, ValidatedOptions, validate_options}
use xtd.Pipeline.State.{Pipeline, create, is_any_completed, writer_available_capacity}
use xtd.Pipeline.Write.{
  WriteExit, left, cancelled, threw, out_of_fuel, copy_into, get_segment, copy_chunk, account,
  inner_loop, WriterPc, entering, asleep, returned, failed, after_wait, write_step,
}
use xtd.Pipeline.Read.{ReaderPc, reading, waiting, got, refused, snapshot, wait_for_data, read_step}
use xtd.Position.{Position}
use xtd.Pipeline.Advance.{advance, settle}
use xtd.Pipeline.Complete.{complete_writer}
use xtd.Pipeline.Invariant.{IsLive, validate_options_lem}
use xtd.Pipeline.Stream.{
  World, call, write, begin_read, read, consume, complete, Steps, done, after, start,
}
use xtd.Pipeline.Stream.Order.{stream_lem}

-- The two sizes that the constructor fixes.
abbrev Fixed : Pipeline → Pipeline → Type 0
Fixed p q = (q.buffer_size ≡ p.buffer_size) × (q.pause_writer_threshold ≡ p.pause_writer_threshold)

chunk-Fixed :
    (allocate : Pipeline → List ℕ) (p : Pipeline) (bytes : List ℕ) (n : ℕ)
    → Fixed p (copy_chunk allocate p bytes n).1
unfolding copy_chunk get_segment copy_into
chunk-Fixed allocate p bytes n = ground arith

account-Fixed : (p : Pipeline) (n : ℕ) → Fixed p (account p n)
unfolding account
account-Fixed p n = ground arith

abbrev LeavesFixed : Pipeline → WriteExit → Type 0
LeavesFixed p (left q rest total notify) = Fixed p q
LeavesFixed p (cancelled q total) = Fixed p q
LeavesFixed p (threw q) = Fixed p q
LeavesFixed p out_of_fuel = Unit {0}

LeavesFixed-trans :
    (p q : Pipeline) (out : WriteExit) → Fixed p q → LeavesFixed q out → LeavesFixed p out
LeavesFixed-trans p q (left r rest total notify) f g = omega (arith, f, g)
LeavesFixed-trans p q (cancelled r total) f g = omega (arith, f, g)
LeavesFixed-trans p q (threw r) f g = omega (arith, f, g)
LeavesFixed-trans p q out_of_fuel f g = tt

module _ (allocate : Pipeline → List ℕ) (stop : ℕ → Bool) where
  loop-LeavesFixed :
      (fuel : ℕ) (p : Pipeline) (bytes : List ℕ) (copied : ℕ) (notify : Bool)
      → LeavesFixed p (inner_loop allocate stop fuel p bytes copied notify)
  unfolding inner_loop
  loop-LeavesFixed zero p bytes copied notify = tt
  loop-LeavesFixed (suc fuel) p bytes copied notify =
      if_cases (LeavesFixed p) ((length bytes == 0) || p.writer_paused) _ _ (λ _. (refl, refl))
        λ _.
          if_cases (LeavesFixed p) (is_any_completed p) _ _ (λ _. (refl, refl))
            λ _.
              if_cases (LeavesFixed p) (stop copied) _ _ (λ _. (refl, refl))
                λ _.
                  if_cases (LeavesFixed p) (writer_available_capacity p == 0) _ _
                    (λ _. (refl, refl))
                    λ _.
                      let n : ℕ = min (length bytes) (writer_available_capacity p) in
                      let out : ℕ × Pipeline = copy_chunk allocate p bytes n in
                      let same : Fixed p (account out.1 out.0) =
                        omega (arith, chunk-Fixed allocate p bytes n, account-Fixed out.1 out.0) in
                      LeavesFixed-trans p (account out.1 out.0) _ same (
                        loop-LeavesFixed fuel (account out.1 out.0) (drop out.0 bytes)
                          (add_size copied out.0) (notify || p.reader_waiting))

  waited-Fixed :
      (p : Pipeline) (bytes : List ℕ) (copied : ℕ)
      → Fixed p (after_wait allocate stop p bytes copied).0
  unfolding after_wait
  waited-Fixed p bytes copied =
      exit (inner_loop allocate stop (length bytes + 1) p bytes copied false)
        (loop-LeavesFixed (length bytes + 1) p bytes copied false)
    where
      exit :
          (out : WriteExit)
          → LeavesFixed p out
          → Fixed p
              (elim out as (λ _. Pipeline × WriterPc × Bool) [
                | left q rest total notify ↦ (q, entering rest total, notify)
                | cancelled q total ↦ (q, returned total, false)
                | threw q ↦ (q, failed logic_error, false)
                | out_of_fuel ↦ (p, failed undefined, false)
              ]).0
      exit (left q rest total notify) f = f
      exit (cancelled q total) f = f
      exit (threw q) f = f
      exit out_of_fuel f = (refl, refl)

  write-Fixed : (p : Pipeline) (pc : WriterPc) → Fixed p (write_step allocate stop p pc).0
  unfolding write_step
  write-Fixed p (entering [] copied) = (refl, refl)
  write-Fixed p (entering (b ∷ bytes) copied) =
      let f = waited-Fixed p (b ∷ bytes) copied in ground (arith, f)
  write-Fixed p (asleep bytes copied) = let f = waited-Fixed p bytes copied in ground (arith, f)
  write-Fixed p (returned copied) = (refl, refl)
  write-Fixed p (failed e) = (refl, refl)

read-Fixed : (p : Pipeline) (pc : ReaderPc) (stopped : Bool) → Fixed p (read_step p pc stopped).0
unfolding read_step wait_for_data snapshot
read-Fixed p (reading min_size) stopped = ground arith
read-Fixed p (waiting min_size) stopped = ground arith
read-Fixed p (got r) stopped = (refl, refl)
read-Fixed p (refused e) stopped = (refl, refl)

advance-Fixed :
    (p : Pipeline) (upto examined : Position) (out : Pipeline × Bool)
    → advance p upto examined ≡ ok out
    → Fixed p out.0
unfolding advance settle
advance-Fixed p upto examined out e = ground (arith, e)

Steps-Fixed :
    {allocate : Pipeline → List ℕ} {v w : World} → Steps allocate v w → Fixed v.pipe w.pipe
unfolding complete_writer
Steps-Fixed (done w) = (refl, refl)
Steps-Fixed (after steps (call w bytes total at small)) = Steps-Fixed steps
Steps-Fixed {allocate} (after steps (write w stop)) =
    omega (arith, Steps-Fixed steps, write-Fixed allocate stop w.pipe w.writer)
Steps-Fixed (after steps (begin_read w min_size)) = Steps-Fixed steps
Steps-Fixed (after steps (read w stopped)) =
    omega (arith, Steps-Fixed steps, read-Fixed w.pipe w.reader stopped)
Steps-Fixed (after steps (consume w upto examined out e)) =
    omega (arith, Steps-Fixed steps, advance-Fixed w.pipe upto examined out e)
Steps-Fixed (after steps (complete w)) = Steps-Fixed steps

-- As long as the reader does not complete its side.
pub streamed_segments_lem :
    (allocate : Pipeline → List ℕ)
    → ((q : Pipeline) → length (allocate q) ≡ q.buffer_size)
    → {w : World} (o : PipeOptions) (v : ValidatedOptions) → o.pause_writer_threshold < size_mod
    → o.buffer_size < size_mod
    → validate_options o ≡ ok v
    → Steps allocate (start (create v)) w
    → length w.pipe.segments ≤ v.max_pooled_segments
unfolding start create
streamed_segments_lem allocate blocks {w} o v small narrow accepted steps =
    elim (validate_options_lem o small) [
      | inr (bad, error) ↦ absurd (ground (arith, accepted, error))
      | inl (good, (v', found, size, pause, resume, enough, least)) ↦
          let same : v' ≡ v = ground (arith, accepted, found) in
          let live = (stream_lem allocate blocks o v small narrow accepted steps).live in
          let fixed = Steps-Fixed steps in fits v' same size pause enough live fixed
    ]
  where
    fits :
        (v' : ValidatedOptions)
        → v' ≡ v
        → v'.buffer_size ≡ o.buffer_size
        → v'.pause_writer_threshold ≡ o.pause_writer_threshold
        → o.pause_writer_threshold ≤ v'.max_pooled_segments * o.buffer_size
        → IsLive w.pipe
        → (w.pipe.buffer_size ≡ v.buffer_size)
          × (w.pipe.pause_writer_threshold ≡ v.pause_writer_threshold)
        → length w.pipe.segments ≤ v.max_pooled_segments
    fits v' same size pause enough live fixed =
        let wide : w.pipe.buffer_size ≡ o.buffer_size =
          fixed.0 ∙ sym (ap (λ (x : ValidatedOptions). x.buffer_size) same) ∙ size in
        let high = ap (λ (x : ValidatedOptions). x.pause_writer_threshold) same in
        let most = ap (λ (x : ValidatedOptions). x.max_pooled_segments) same in
        let held = ap (λ (k : ℕ). length w.pipe.segments * k) wide in
        elim (dec_lt v.max_pooled_segments (length w.pipe.segments)) [
          | no fits_in ↦ omega arith
          | yes over ↦
              let one_more : suc v.max_pooled_segments * o.buffer_size
                  ≤ length w.pipe.segments * o.buffer_size =
                mul-le-mul_right o.buffer_size over in
              let kept = ap (λ (k : ℕ). k * o.buffer_size) most in
              absurd (
                omega (
                  arith, one_more, kept, held, high, wide, live.actual, live.bounded, live.positive,
                  pause, enough, fixed,
                ))
        ]
