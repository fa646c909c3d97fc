-- ===== src/Pipeline/Transfer/Ending.antt =====
-- src/pipeline/pipeline_impl.h: `write` returns if the reader goes on consuming.
use xtd.Base.{
  ℕ, zero, suc, ◌+◌, ◌-◌, ◌≤◌, ◌<◌, ◌≡◌, sym, ap, ap₂, ◌∙◌, List, [], ◌∷◌, ◌++◌, append-nil,
  append_assoc, arith, length, take, drop, length-drop, take-append-drop, size_mod, Result, ok,
  ◌>>=◌,
}
use xtd.Pipeline.State.{Pipeline}
use xtd.Pipeline.Write.{entering, write_step}
use xtd.Pipeline.Invariant.{contents}
use xtd.Pipeline.Transfer.{after_section, transfer}
use xtd.Pipeline.Transfer.Progress.{IsIdle, progress_lem}
use xtd.Pipeline.Transfer.Turn.{turn_lem, progressed-IsFilled}

module _ (allocate : Pipeline → List ℕ)
    (blocks : (q : Pipeline) → length (allocate q) ≡ q.buffer_size) where
  -- The count and the bytes after one more turn of both.
  more_lem :
      (n copied : ℕ) (source received held : List ℕ)
      → held ≡ take n source
      → n ≤ length source
      → ◌≡◌ {A = Result (ℕ × List ℕ)}
          (ok (copied + n + length (drop n source), (received ++ held) ++ drop n source))
          (ok (copied + length source, received ++ source))
  more_lem n copied source received held e fits =
      ap₂ (λ k (l : List ℕ). ok (k, l)) (omega (arith, length-drop n source))
        (append_assoc received held (drop n source)
          ∙ ap (λ l. received ++ l) (ap (λ l. l ++ drop n source) e ∙ take-append-drop n source))

  transfer-ok :
      (fuel : ℕ) (p : Pipeline) (source : List ℕ) (copied : ℕ) (received : List ℕ)
      → IsIdle p
      → length source < fuel
      → copied + length source < size_mod
      → transfer allocate fuel p (entering source copied) received
        ≡ ok (copied + length source, received ++ source)
  unfolding transfer after_section write_step
  transfer-ok zero p source copied received idle enough small = absurd (omega arith)
  transfer-ok (suc fuel) p [] copied received idle enough small =
      ap₂ (λ k (l : List ℕ). ok (k, l)) (omega arith) (sym (append-nil received))
  transfer-ok (suc fuel) p (b ∷ source) copied received idle enough small =
      let r = progress_lem allocate blocks (b ∷ source) copied idle (omega arith) small in
      let (filled, held) =
        progressed-IsFilled (b ∷ source) r.count r.state idle r.some_copied r.at_most r.written in
      let (q, e, again) = turn_lem r.state filled in
      let rest : length (drop r.count (b ∷ source)) ≡ length (b ∷ source) - r.count =
        length-drop r.count (b ∷ source) in
      ap (λ out. after_section (λ p' pc l. transfer allocate fuel p' pc l) out received) r.result
      ∙ ap
          (λ o. o >>= λ out.
            transfer allocate fuel out.0 (entering (drop r.count (b ∷ source)) (copied + r.count))
              (received ++ out.1))
          e
      ∙ transfer-ok fuel q (drop r.count (b ∷ source)) (copied + r.count)
          (received ++ contents r.state) again (omega (arith, rest, r.some_copied, r.at_most))
          (omega (arith, rest, r.at_most))
      ∙ more_lem r.count copied (b ∷ source) received (contents r.state) held r.at_most

-- A `write` of any bytes on an idle pipeline with a reader that after every section reads and
-- consumes all that is there returns: after at most one more section than there are bytes it gives
-- their number, and the reader has got exactly these bytes, in order. A pipeline is idle here when it
-- satisfies the invariant, is empty, not paused and not completed, with no read pending and nothing
-- examined, and when both its thresholds are at least the size of a segment. The blocks of the
-- memory resource have that size, and the length of the bytes is below 2^64.
pub transfer_lem :
    (allocate : Pipeline → List ℕ)
    → ((q : Pipeline) → length (allocate q) ≡ q.buffer_size)
    → (p : Pipeline) (source : List ℕ) → IsIdle p
    → length source < size_mod
    → transfer allocate (length source + 1) p (entering source 0) [] ≡ ok (length source, source)
transfer_lem allocate blocks p source idle small =
    transfer-ok allocate blocks (length source + 1) p source 0 [] idle (omega arith) (omega arith)
    ∙ ap (λ n. ok (n, source)) (omega arith)
