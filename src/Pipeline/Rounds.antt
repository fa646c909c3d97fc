-- ===== src/Pipeline/Rounds.antt =====
-- src/pipeline/pipeline_impl.h: a round of the inner loop of `write` keeps the invariant.
use xtd.Base.{
  ℕ, ◌+◌, ◌-◌, ◌*◌, ◌≤◌, ◌<◌, min, ◌≡◌, refl, sym, ap, ap₂, subst, ◌∙◌, inl, inr, Bool, true, List,
  ◌++◌, append-nil, append_assoc, arith, dec_lt, lt→ltb, le→ltb, le→leb, lt→leb, Bool-cases, length,
  take, drop, length-take, take-add, add_size, add_size_exact,
}
use xtd.Segment.{Segment}
use xtd.Pipeline.State.{
  Pipeline, segment_allocation_capacity, writer_available_capacity, should_pause_writer,
}
use xtd.Pipeline.Write.{copy_chunk, account}
use xtd.Pipeline.Invariant.{contents, total, total-le, IsLive}
use xtd.Pipeline.Deque.{Grown}
use xtd.Pipeline.Chunk.{Chunked, tail_cases, chunk_in_tail, chunk_in_new}

-- What putting the first `n` of the bytes into the pipeline leaves: only the stored bytes, their
-- counters and the pause have changed.
pub record Written (p : Pipeline) (bytes : List ℕ) (n : ℕ) (q : Pipeline) : Type 0 where
  pub live : IsLive q
  pub appended : contents q ≡ contents p ++ take n bytes
  pub fixed : q ≡ record p {
    segments = q.segments;
    buffered_size = q.buffered_size;
    actual_buffered_size = q.actual_buffered_size;
    writer_paused = q.writer_paused;
  }

pub allocation_capacity_lem :
    {p : Pipeline}
    → IsLive p
    → segment_allocation_capacity p ≡ p.pause_writer_threshold - p.actual_buffered_size
unfolding segment_allocation_capacity
allocation_capacity_lem {p} live = elim (dec_lt p.actual_buffered_size p.pause_writer_threshold) [
  | yes h ↦
      rw (lt→ltb p.actual_buffered_size p.pause_writer_threshold h) (omega (arith, live.small))
  | no h ↦ rw (le→ltb p.actual_buffered_size p.pause_writer_threshold (omega arith)) (omega arith)
]

-- A round copies as much of the data as the room allows.
pub round_copies :
    (allocate : Pipeline → List ℕ) {p : Pipeline} (bytes : List ℕ)
    → IsLive p
    → length (allocate p) ≡ p.buffer_size
    → 0 < length bytes
    → 0 < writer_available_capacity p
    → let n = min (length bytes) (writer_available_capacity p) in
      Chunked p bytes n (copy_chunk allocate p bytes n)
round_copies allocate {p} bytes live block some_bytes room = elim (tail_cases p) [
  | inl (s, e, wide, has_tail, capacity) ↦
      chunk_in_tail allocate p live bytes s (min (length bytes) (writer_available_capacity p)) e
        has_tail (omega (arith, capacity)) (omega arith)
  | inr (shut, capacity) ↦ elim (dec_lt (segment_allocation_capacity p) p.buffer_size) [
    | yes short ↦
        let none_left : writer_available_capacity p ≡ 0 =
          rw (lt→leb p.buffer_size (segment_allocation_capacity p) short) at capacity in
        absurd (omega arith)
    | no fits ↦
        let whole : writer_available_capacity p ≡ p.buffer_size =
          rw (le→leb p.buffer_size (segment_allocation_capacity p) (omega arith)) at capacity in
        let known = allocation_capacity_lem live in
        chunk_in_new allocate p live bytes (min (length bytes) (writer_available_capacity p)) block
          shut (omega (arith, known, live.positive)) (omega arith) (omega arith) (omega arith)
  ]
]

account_cases :
    (q : Pipeline) (n : ℕ)
    → (paused : Bool) × (account q n
        ≡ record q { buffered_size = add_size q.buffered_size n; writer_paused = paused })
unfolding account
account_cases q n =
    elim (Bool-cases
      (should_pause_writer (record q { buffered_size = add_size q.buffered_size n }))) [
        | inl e ↦ (true, rw e)
        | inr e ↦ (q.writer_paused, rw e)
      ]

module _ {p : Pipeline} (live : IsLive p) (bytes : List ℕ) (n : ℕ) (fits : n ≤ length bytes) where
  -- The state before the pause is decided, and either state after it.
  counted :
      (segments : List Segment) (actual : ℕ) (paused : Bool)
      → Grown p.buffer_size p.segments (take n bytes) segments
      → actual ≡ length segments * p.buffer_size
      → actual ≤ p.pause_writer_threshold
      → Written p bytes n (record p {
        segments = segments;
        buffered_size = add_size p.buffered_size n;
        actual_buffered_size = actual;
        writer_paused = paused;
      })
  counted segments actual paused grown held bounded = record {
    live = record {
      used = grown.used;
      buffered = sum;
      actual = held;
      bounded = bounded;
      positive = live.positive;
      small = live.small;
      narrow = live.narrow;
      pending = omega (arith, live.pending, exact);
      examined = omega (arith, live.examined, exact);
    };
    appended = grown.appended;
    fixed = refl;
  }
    where
      more : total segments ≡ p.buffered_size + n
      more = omega (arith, grown.counted, live.buffered, length-take n bytes, fits)

      exact : add_size p.buffered_size n ≡ p.buffered_size + n
      exact = add_size_exact p.buffered_size n (
          omega
            (arith, more, total-le p.buffer_size segments grown.used, held, bounded, live.small))

      sum : add_size p.buffered_size n ≡ total segments
      sum = exact ∙ sym more

  pub account-Written :
      (out : ℕ × Pipeline) → Chunked p bytes n out → Written p bytes n (account out.1 out.0)
  account-Written out chunk =
      let (paused, e) = account_cases out.1 out.0 in
      subst (Written p bytes n)
        (sym (
          e
          ∙ ap₂
              (λ (r : Pipeline) (k : ℕ). record r {
                buffered_size = add_size r.buffered_size k;
                writer_paused = paused;
              })
              chunk.frame chunk.count))
        (counted out.1.segments out.1.actual_buffered_size paused chunk.grown chunk.held
          chunk.bounded)

pub Written-refl : {p : Pipeline} (bytes : List ℕ) → IsLive p → Written p bytes 0 p
Written-refl {p} bytes live = record {
  live = live;
  appended = sym (append-nil (contents p));
  fixed = refl;
}

-- Two stretches of writing one after the other are one.
pub Written-trans :
    {p q r : Pipeline} (bytes : List ℕ) (m n : ℕ)
    → Written p bytes m q
    → Written q (drop m bytes) n r
    → Written p bytes (m + n) r
Written-trans {p} {q} {r} bytes m n first second = record {
  live = second.live;
  appended =
      second.appended
      ∙ ap (λ k. k ++ take n (drop m bytes)) first.appended
      ∙ append_assoc (contents p) (take m bytes) (take n (drop m bytes))
      ∙ ap (◌++◌ (contents p)) (sym (take-add m n bytes));
  fixed =
      second.fixed
      ∙ ap
          (λ (k : Pipeline). record k {
            segments = r.segments;
            buffered_size = r.buffered_size;
            actual_buffered_size = r.actual_buffered_size;
            writer_paused = r.writer_paused;
          })
          first.fixed;
}

-- The pause at the end of a round, or of the loop, changes no stored byte.
pub Written-paused :
    {p q : Pipeline} (bytes : List ℕ) (n : ℕ)
    → Written p bytes n q
    → Written p bytes n (record q { writer_paused = true })
Written-paused bytes n w = record {
  live = record {
    used = w.live.used;
    buffered = w.live.buffered;
    actual = w.live.actual;
    bounded = w.live.bounded;
    positive = w.live.positive;
    small = w.live.small;
    narrow = w.live.narrow;
    pending = w.live.pending;
    examined = w.live.examined;
  };
  appended = w.appended;
  fixed = ap (λ (k : Pipeline). record k { writer_paused = true }) w.fixed;
}
