-- ===== src/Pipeline/WriteLoop.antt =====
-- src/pipeline/pipeline_impl.h: the inner loop of `write` as a whole.
use xtd.Base.{
  ℕ, zero, suc, ◌+◌, ◌-◌, ◌≤◌, ◌<◌, min, ◌≡◌, refl, sym, subst, ◌∙◌, ◌⊎◌, inl, inr, Bool, true,
  false, ◌||◌, List, arith, ◌==◌, if_cases, length, drop, length-drop, drop-drop, size_mod,
  add_size,
}
use xtd.Pipeline.State.{Pipeline, writer_available_capacity, is_any_completed}
use xtd.Pipeline.Write.{
  WriteExit, left, cancelled, threw, out_of_fuel, copy_chunk, account, inner_loop,
}
use xtd.Pipeline.Invariant.{IsLive}
use xtd.Pipeline.Chunk.{Chunked}
use xtd.Pipeline.Rounds.{
  Written, round_copies, account-Written, Written-refl, Written-trans, Written-paused,
}

-- How the loop may end, from a state `p` with the bytes to write and the count of those copied.
abbrev pub Ends : (ℕ → Bool) → Pipeline → List ℕ → ℕ → WriteExit → Type 0
Ends stop p bytes copied (left q rest count notify) =
    (k : ℕ) × (k ≤ length bytes)
    × (rest ≡ drop k bytes)
    × (count ≡ copied + k)
    × Written p bytes k q
    × ((k ≡ length bytes) ⊎ (q.writer_paused ≡ true))
Ends stop p bytes copied (cancelled q count) =
    (k : ℕ) × (k < length bytes) × (count ≡ copied + k) × Written p bytes k q × (stop count ≡ true)
Ends stop p bytes copied (threw q) =
    (k : ℕ) × (k ≤ length bytes) × Written p bytes k q × (is_any_completed q ≡ true)
Ends stop p bytes copied out_of_fuel = ⊥

-- What holds of the loop after a round that copied `n` bytes holds of the loop before it.
Ends-round :
    (stop : ℕ → Bool) {p q : Pipeline} (bytes : List ℕ) (copied n : ℕ) (out : WriteExit)
    → n ≤ length bytes
    → Written p bytes n q
    → Ends stop q (drop n bytes) (copied + n) out
    → Ends stop p bytes copied out
Ends-round stop bytes copied n (left r rest count notify) fits w (k, most, e, c, w', done) = (
  n + k,
  omega (arith, length-drop n bytes),
  e ∙ drop-drop k n bytes,
  omega arith,
  Written-trans bytes n k w w',
  elim done [ inl all ↦ inl (omega (arith, length-drop n bytes)) | inr paused ↦ inr paused ],
)
Ends-round stop bytes copied n (cancelled r count) fits w (k, most, c, w', stopped) =
    (n + k, omega (arith, length-drop n bytes), omega arith, Written-trans bytes n k w w', stopped)
Ends-round stop bytes copied n (threw r) fits w (k, most, w', e) =
    (n + k, omega (arith, length-drop n bytes), Written-trans bytes n k w w', e)
Ends-round stop bytes copied n out_of_fuel fits w e = e

not_done :
    (bytes : List ℕ) (paused : Bool) → ((length bytes == 0) || paused) ≡ false → 0 < length bytes
not_done bytes paused e = ground arith

not_zero : (n : ℕ) → (n == 0) ≡ false → 0 < n
not_zero n e = ground arith

-- Leaving at once, with nothing copied.
Ends-left :
    (stop : ℕ → Bool) {p : Pipeline} (bytes : List ℕ) (copied : ℕ) (notify : Bool)
    → IsLive p
    → ((length bytes == 0) || p.writer_paused) ≡ true
    → Ends stop p bytes copied (left p bytes copied notify)
Ends-left stop {p} bytes copied notify live test =
    (0, omega arith, refl, omega arith, Written-refl bytes live, out)
  where
    out : (0 ≡ length bytes) ⊎ (p.writer_paused ≡ true)
    out = ground arith

module _ (allocate : Pipeline → List ℕ) (stop : ℕ → Bool)
    (blocks : (q : Pipeline) → length (allocate q) ≡ q.buffer_size) where
  -- The loop ends within the fuel that it is given, on every way out as it should.
  pub inner_loop-Ends :
      (fuel : ℕ) (p : Pipeline) (bytes : List ℕ) (copied : ℕ) (notify : Bool)
      → IsLive p
      → length bytes < fuel
      → copied + length bytes < size_mod
      → Ends stop p bytes copied (inner_loop allocate stop fuel p bytes copied notify)
  unfolding inner_loop
  inner_loop-Ends zero p bytes copied notify live enough small = absurd (omega arith)
  inner_loop-Ends (suc fuel) p bytes copied notify live enough small =
      if_cases E ((length bytes == 0) || p.writer_paused) _ _
        (λ test. Ends-left stop bytes copied notify live test)
        λ test.
          if_cases E (is_any_completed p) _ _
            (λ completed. (0, omega arith, Written-refl bytes live, completed))
            λ open_ended.
              if_cases E (stop copied) _ _
                (λ stopped. (
                  0,
                  not_done bytes p.writer_paused test,
                  omega arith,
                  Written-refl bytes live,
                  stopped,
                ))
                λ going.
                  if_cases E (writer_available_capacity p == 0) _ _
                    (λ full. (
                      0,
                      omega arith,
                      refl,
                      omega arith,
                      Written-paused bytes 0 (Written-refl bytes live),
                      inr refl,
                    ))
                    λ room.
                      let n : ℕ = min (length bytes) (writer_available_capacity p) in
                      let out : ℕ × Pipeline = copy_chunk allocate p bytes n in
                      let q : Pipeline = account out.1 out.0 in
                      let more : 0 < length bytes = not_done bytes p.writer_paused test in
                      let wide : 0 < writer_available_capacity p =
                        not_zero (writer_available_capacity p) room in
                      let chunk : Chunked p bytes n out =
                        round_copies allocate bytes live (blocks p) more wide in
                      let w : Written p bytes out.0 q =
                        subst (λ k. Written p bytes k q) (sym chunk.count)
                          (account-Written live bytes n (omega arith) out chunk) in
                      let some_copied : 0 < out.0 = omega (arith, chunk.count) in
                      let fits : out.0 ≤ length bytes = omega (arith, chunk.count) in
                      let exact : add_size copied out.0 ≡ copied + out.0 = omega arith in
                      let rest : length (drop out.0 bytes) ≡ length bytes - out.0 =
                        length-drop out.0 bytes in
                      Ends-round stop bytes copied out.0 _ fits w (
                        subst
                          (λ c. Ends stop q (drop out.0 bytes) c (
                            inner_loop allocate stop fuel q (drop out.0 bytes)
                              (add_size copied out.0) (notify || p.reader_waiting)))
                          exact
                          (inner_loop-Ends fuel q (drop out.0 bytes) (add_size copied out.0)
                            (notify || p.reader_waiting) w.live (omega arith) (omega arith)))
    where
      E : WriteExit → Type 0
      E = Ends stop p bytes copied
