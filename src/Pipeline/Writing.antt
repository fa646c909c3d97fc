-- ===== src/Pipeline/Writing.antt =====
-- src/pipeline/pipeline_impl.h: the steps of `write` as a whole.
use xtd.Base.{
  ℕ, zero, suc, ◌+◌, ◌≤◌, ◌<◌, ◌≡◌, refl, ◌⊎◌, inl, inr, Bool, true, false, ◌||◌, List, [], ◌∷◌,
  arith, if◌then◌else◌, if_cases, length, drop, size_mod, logic_error, undefined,
}
use xtd.Pipeline.State.{Pipeline, space_available, is_any_completed}
use xtd.Pipeline.Write.{
  WriteExit, left, cancelled, threw, out_of_fuel, inner_loop, WriterPc, entering, asleep, returned,
  failed, after_wait, write_step,
}
use xtd.Pipeline.Invariant.{IsLive}
use xtd.Pipeline.Rounds.{Written, Written-refl}
use xtd.Pipeline.WriteLoop.{Ends, inner_loop-Ends}

-- What a step may leave, from a state `p` with the bytes to write and the count of those copied.
abbrev pub Moved : (ℕ → Bool) → Pipeline → List ℕ → ℕ → Pipeline × WriterPc × Bool → Type 0
Moved stop p bytes copied (q, entering rest count, notify) =
    (k : ℕ) × (k ≤ length bytes)
    × (rest ≡ drop k bytes)
    × (count ≡ copied + k)
    × Written p bytes k q
    × ((k ≡ length bytes) ⊎ (q.writer_paused ≡ true))
Moved stop p bytes copied (q, asleep rest count, notify) =
    (q ≡ p) × (rest ≡ bytes) × (count ≡ copied) × (p.writer_paused ≡ true) × (stop copied ≡ false)
Moved stop p bytes copied (q, returned count, notify) =
    (k : ℕ) × (k ≤ length bytes)
    × (count ≡ copied + k)
    × Written p bytes k q
    × ((k ≡ length bytes) ⊎ (stop count ≡ true))
Moved stop p bytes copied (q, failed e, notify) =
    (k : ℕ) × (k ≤ length bytes)
    × Written p bytes k q
    × (is_any_completed q ≡ true)
    × (e ≡ logic_error)

module _ (allocate : Pipeline → List ℕ) (stop : ℕ → Bool)
    (blocks : (q : Pipeline) → length (allocate q) ≡ q.buffer_size) where
  after_wait-Moved :
      (p : Pipeline) (bytes : List ℕ) (copied : ℕ)
      → IsLive p
      → copied + length bytes < size_mod
      → Moved stop p bytes copied (after_wait allocate stop p bytes copied)
  unfolding after_wait
  after_wait-Moved p bytes copied live small =
      exit (inner_loop allocate stop (length bytes + 1) p bytes copied false) (
        inner_loop-Ends allocate stop blocks (length bytes + 1) p bytes copied false live
          (omega arith) small)
    where
      exit :
          (out : WriteExit)
          → Ends stop p bytes copied out
          → Moved stop p bytes copied (elim out [
            | left q rest total notify ↦ (q, entering rest total, notify)
            | cancelled q total ↦ (q, returned total, false)
            | threw q ↦ (q, failed logic_error, false)
            | out_of_fuel ↦ (p, failed undefined, false)
          ])
      exit (left q rest total notify) e = e
      exit (cancelled q total) (k, fewer, count, w, stopped) =
          (k, omega arith, count, w, inr stopped)
      exit (threw q) (k, most, w, completed) = (k, most, w, completed, refl)
      exit out_of_fuel e = absurd e

  woken-Moved :
      (p : Pipeline) (bytes : List ℕ) (copied : ℕ)
      → IsLive p
      → copied + length bytes < size_mod
      → Moved stop p bytes copied (
          if space_available p || stop copied
          then after_wait allocate stop p bytes copied
          else (p, asleep bytes copied, false))
  woken-Moved p bytes copied live small =
      if_cases (Moved stop p bytes copied) (space_available p || stop copied) _ _
        (λ _. after_wait-Moved p bytes copied live small)
        λ shut. (refl, refl, refl, ground (arith, shut), ground (arith, shut))

  -- A step of `write` that takes the lock, be it to enter the outer loop or on waking from the wait
  -- for space, keeps the pipeline live and appends some number of the bytes still to write, from
  -- the front, to what the pipeline holds, counting exactly these. It goes round the outer loop
  -- only with nothing left or the writer paused, falls asleep only with nothing changed, the writer
  -- paused and no stop requested, returns only with all bytes written or a stop requested, and
  -- throws only if one side is completed.
  pub write_step_lem :
      (p : Pipeline) (bytes : List ℕ) (copied : ℕ)
      → IsLive p
      → copied + length bytes < size_mod
      → Moved stop p bytes copied (write_step allocate stop p (entering bytes copied))
        × Moved stop p bytes copied (write_step allocate stop p (asleep bytes copied))
  unfolding write_step
  write_step_lem p [] copied live small = (
    (0, omega arith, omega arith, Written-refl [] live, inl refl),
    woken-Moved p [] copied live small,
  )
  write_step_lem p (b ∷ bytes) copied live small = (
    if_cases (Moved stop p (b ∷ bytes) copied) (is_any_completed p) _ _
        (λ completed. (0, omega arith, Written-refl (b ∷ bytes) live, completed, refl))
        (λ _. woken-Moved p (b ∷ bytes) copied live small),
    woken-Moved p (b ∷ bytes) copied live small,
  )

paused_loop :
    (allocate : Pipeline → List ℕ) (stop : ℕ → Bool) (fuel : ℕ) (p : Pipeline) (bytes : List ℕ)
    (copied : ℕ) (notify : Bool)
    → 0 < fuel
    → p.writer_paused ≡ true
    → inner_loop allocate stop fuel p bytes copied notify ≡ left p bytes copied notify
unfolding inner_loop
paused_loop allocate stop zero p bytes copied notify some_fuel paused = absurd (omega arith)
paused_loop allocate stop (suc fuel) p bytes copied notify some_fuel paused = ground (arith, paused)

-- While the writer is paused and neither side is completed, a writer with bytes left and a stop
-- requested goes round the outer loop without changing anything, whether it enters or was asleep.
pub cancelled_write-spins :
    (allocate : Pipeline → List ℕ) (stop : ℕ → Bool) (p : Pipeline) (bytes : List ℕ) (copied : ℕ)
    → 0 < length bytes
    → p.writer_paused ≡ true
    → is_any_completed p ≡ false
    → stop copied ≡ true
    → (write_step allocate stop p (entering bytes copied) ≡ (p, entering bytes copied, false))
      × (write_step allocate stop p (asleep bytes copied) ≡ (p, entering bytes copied, false))
unfolding write_step after_wait
cancelled_write-spins allocate stop p [] copied some_bytes paused running stopped =
    absurd (omega arith)
cancelled_write-spins allocate stop p (b ∷ bytes) copied some_bytes paused running stopped =
    let loop =
      paused_loop allocate stop (length (b ∷ bytes) + 1) p (b ∷ bytes) copied false (omega arith)
        paused in
    (ground (arith, running, stopped, loop), ground (arith, stopped, loop))
