-- ===== src/Pipeline/Transfer/Progress.antt =====
-- src/pipeline/pipeline_impl.h: on an empty pipeline a section of `write` puts bytes in.
use xtd.Base.{
  ℕ, suc, ◌+◌, ◌*◌, ◌≤◌, ◌<◌, min, ◌≡◌, refl, sym, ap, ap₂, subst, ◌∙◌, Bool, true, false, ◌||◌,
  none, List, [], ◌∷◌, arith, leb, ◌==◌, le→leb, ne→==, if_cases, length, drop, length-drop,
  drop-drop, size_mod, add_size, add_size_exact, logic_error, undefined,
}
use xtd.Pipeline.State.{
  Pipeline, back, has_writable_tail, segment_allocation_capacity, writer_available_capacity,
  is_any_completed,
}
use xtd.Pipeline.Write.{
  WriteExit, left, cancelled, threw, out_of_fuel, copy_chunk, account, inner_loop, WriterPc,
  entering, returned, failed, after_wait, write_step,
}
use xtd.Pipeline.Invariant.{IsLive}
use xtd.Pipeline.Chunk.{Chunked}
use xtd.Pipeline.Rounds.{
  allocation_capacity_lem, Written, Written-trans, round_copies, account-Written,
}
use xtd.Pipeline.WriteLoop.{Ends, inner_loop-Ends}

-- An empty pipeline with nobody at work, whose thresholds let a segment in and a writer out of a
-- pause.
pub record IsIdle (p : Pipeline) : Type 0 where
  pub live : IsLive p
  pub clear : p.segments ≡ []
  pub running : is_any_completed p ≡ false
  pub unpaused : p.writer_paused ≡ false
  pub unread : p.has_pending_read ≡ false
  pub unexamined : p.examined_size ≡ 0
  pub enough : p.buffer_size ≤ p.pause_writer_threshold
  pub low : p.buffer_size ≤ p.resume_writer_threshold

room_lem : {p : Pipeline} → IsIdle p → 0 < writer_available_capacity p
unfolding writer_available_capacity has_writable_tail
room_lem {p} idle =
    let none_last : back p.segments ≡ none = ap back idle.clear in
    let shut : has_writable_tail p ≡ false = ground (arith, none_last) in
    let none_held : length p.segments * p.buffer_size ≡ 0 =
      ap (λ l. length l * p.buffer_size) idle.clear ∙ omega arith in
    let known = allocation_capacity_lem idle.live in
    let fits : leb p.buffer_size (segment_allocation_capacity p) ≡ true =
      le→leb p.buffer_size (segment_allocation_capacity p)
        (omega (arith, known, none_held, idle.live.actual, idle.enough)) in
    rw (shut, fits) idle.live.positive

-- What a section of `write` with bytes left does then: it puts in one byte or more.
pub record Progressed (p : Pipeline) (bytes : List ℕ) (copied : ℕ)
    (out : Pipeline × WriterPc × Bool) : Type 0 where
  pub count : ℕ
  pub state : Pipeline
  pub notify : Bool
  pub some_copied : 0 < count
  pub at_most : count ≤ length bytes
  pub result : out ≡ (state, entering (drop count bytes) (copied + count), notify)
  pub written : Written p bytes count state

abbrev exit_of : Pipeline → WriteExit → Pipeline × WriterPc × Bool
exit_of p out = elim out [
  | left q rest total notify ↦ (q, entering rest total, notify)
  | cancelled q total ↦ (q, returned total, false)
  | threw q ↦ (q, failed logic_error, false)
  | out_of_fuel ↦ (p, failed undefined, false)
]

exit_lem :
    {p q : Pipeline} (bytes : List ℕ) (copied n : ℕ) (out : WriteExit)
    → is_any_completed p ≡ false
    → 0 < n
    → n ≤ length bytes
    → Written p bytes n q
    → Ends (λ _. false) q (drop n bytes) (copied + n) out
    → Progressed p bytes copied (exit_of p out)
unfolding is_any_completed
exit_lem {p} {q} bytes copied n (left r rest total notify) running some_n fits w
      (k, most, e, c, w', done) =
    record {
      count = n + k;
      state = r;
      notify = notify;
      some_copied = omega arith;
      at_most = omega (arith, length-drop n bytes);
      result = ap₂ (λ b t. (r, entering b t, notify)) (e ∙ drop-drop k n bytes) (c ∙ omega arith);
      written = Written-trans bytes n k w w';
    }
exit_lem bytes copied n (cancelled r total) running some_n fits w (k, most, c, w', stopped) =
    cc stopped
exit_lem {p} {q} bytes copied n (threw r) running some_n fits w (k, most, w', e) =
    let same : is_any_completed r ≡ is_any_completed p =
      ap is_any_completed w'.fixed ∙ ap is_any_completed w.fixed in
    let never : true ≡ false = sym e ∙ same ∙ running in cc never
exit_lem bytes copied n out_of_fuel running some_n fits w e = absurd e

module _ (allocate : Pipeline → List ℕ)
    (blocks : (q : Pipeline) → length (allocate q) ≡ q.buffer_size) where
  -- The first round of the loop.
  round_lem :
      (fuel : ℕ) (p : Pipeline) (bytes : List ℕ) (copied : ℕ) (notify : Bool)
      → 0 < length bytes
      → p.writer_paused ≡ false
      → is_any_completed p ≡ false
      → 0 < writer_available_capacity p
      → let out = copy_chunk allocate p bytes (min (length bytes) (writer_available_capacity p)) in
        inner_loop allocate (λ _. false) (suc fuel) p bytes copied notify
        ≡ inner_loop allocate
            (λ _. false)
            fuel
            (account out.1 out.0)
            (drop out.0 bytes)
            (add_size copied out.0)
            (notify || p.reader_waiting)
  unfolding inner_loop
  round_lem fuel p bytes copied notify more free running room =
      let open_test : ((length bytes == 0) || p.writer_paused) ≡ false =
        ground (arith, more, free) in
      let wide : (writer_available_capacity p == 0) ≡ false =
        ne→== (writer_available_capacity p) 0 (omega (arith, room)) in
      if_cases Same ((length bytes == 0) || p.writer_paused) _ _ (λ t. cc (sym t ∙ open_test))
        λ _.
          if_cases Same (is_any_completed p) _ _ (λ t. cc (sym t ∙ running))
            λ _.
              if_cases Same (writer_available_capacity p == 0) _ _ (λ t. cc (sym t ∙ wide))
                λ _. refl
    where
      out : ℕ × Pipeline
      out = copy_chunk allocate p bytes (min (length bytes) (writer_available_capacity p))

      Same : WriteExit → Type 0
      Same e =
          e
          ≡ inner_loop allocate (λ _. false) fuel (account out.1 out.0) (drop out.0 bytes)
              (add_size copied out.0) (notify || p.reader_waiting)

  -- The first round copies, and the rest of the loop ends as it should.
  waited_lem :
      {p : Pipeline} (bytes : List ℕ) (copied : ℕ)
      → IsIdle p
      → 0 < length bytes
      → copied + length bytes < size_mod
      → Progressed p bytes copied (after_wait allocate (λ _. false) p bytes copied)
  unfolding after_wait
  waited_lem {p} bytes copied idle more small =
      subst (λ o. Progressed p bytes copied (exit_of p o)) (sym first_round)
        (exit_lem bytes copied out.0 _ idle.running some_copied fits w (
          inner_loop-Ends allocate (λ _. false) blocks (length bytes) q (drop out.0 bytes)
            (copied + out.0) (false || p.reader_waiting) w.live
            (omega (arith, length-drop out.0 bytes, some_copied, fits))
            (omega (arith, length-drop out.0 bytes, fits))))
    where
      out : ℕ × Pipeline
      out = copy_chunk allocate p bytes (min (length bytes) (writer_available_capacity p))

      q : Pipeline
      q = account out.1 out.0

      chunk : Chunked p bytes (min (length bytes) (writer_available_capacity p)) out
      chunk = round_copies allocate bytes idle.live (blocks p) more (room_lem idle)

      w : Written p bytes out.0 q
      w =
          subst (λ k. Written p bytes k q) (sym chunk.count)
            (account-Written idle.live bytes (min (length bytes) (writer_available_capacity p))
              (omega arith) out chunk)

      some_copied : 0 < out.0
      some_copied = omega (arith, chunk.count, room_lem idle, more)

      fits : out.0 ≤ length bytes
      fits = omega (arith, chunk.count)

      one_more : length bytes + 1 ≡ suc (length bytes)
      one_more = omega arith

      first_round :
          inner_loop allocate (λ _. false) (length bytes + 1) p bytes copied false
          ≡ inner_loop allocate
              (λ _. false)
              (length bytes)
              q
              (drop out.0 bytes)
              (copied + out.0)
              (false || p.reader_waiting)
      first_round =
          ap (λ fuel. inner_loop allocate (λ _. false) fuel p bytes copied false) one_more
          ∙ round_lem (length bytes) p bytes copied false more idle.unpaused idle.running
              (room_lem idle)
          ∙ ap
              (λ c.
                inner_loop allocate (λ _. false) (length bytes) q (drop out.0 bytes) c
                  (false || p.reader_waiting))
              (add_size_exact copied out.0 (omega (arith, fits)))

  pub progress_lem :
      {p : Pipeline} (bytes : List ℕ) (copied : ℕ)
      → IsIdle p
      → 0 < length bytes
      → copied + length bytes < size_mod
      → Progressed p bytes copied (write_step allocate (λ _. false) p (entering bytes copied))
  unfolding write_step
  progress_lem [] copied idle more small = absurd (omega arith)
  progress_lem {p} (b ∷ bytes) copied idle more small =
      subst (Progressed p (b ∷ bytes) copied) (sym entered)
        (waited_lem (b ∷ bytes) copied idle more small)
    where
      entered :
          write_step allocate (λ _. false) p (entering (b ∷ bytes) copied)
          ≡ after_wait allocate (λ _. false) p (b ∷ bytes) copied
      entered = ground (arith, idle.running, idle.unpaused)
