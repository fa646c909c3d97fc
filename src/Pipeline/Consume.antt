-- ===== src/Pipeline/Consume.antt =====
-- src/pipeline/pipeline_impl.h: what `advance` leaves.
use xtd.Base.{
  ℕ, ◌+◌, ◌-◌, ◌*◌, ◌≤◌, ◌<◌, ◌≡◌, sym, ap, ap₂, ◌∙◌, List, [], ◌∷◌, ◌++◌, arith, dec_lt,
  ℕ_discrete, lt→ltb, le→ltb, ==_iff, ne→==, length, drop, drop_all, drop-zero, drop-append,
  size_mod, sub_size, sub_size_exact, ok,
}
use xtd.Segment.{Segment, readable_bytes}
use xtd.Segment.Bounds
use xtd.Pipeline.Advance.{consume_loop}
use xtd.Pipeline.Invariant.{stored, total, AllUsed}

-- The deque and its counters after `n` bytes were consumed.
pub record Consumed (size : ℕ) (before : List Segment) (n : ℕ) (out : List Segment × ℕ × ℕ)
    : Type 0 where
  pub used : AllUsed size out.0
  pub dropped : stored out.0 ≡ drop n (stored before)
  pub buffered : out.1 ≡ total out.0
  pub held : out.2 ≡ length out.0 * size
  pub counted : total out.0 + n ≡ total before
  pub fewer : length out.0 ≤ length before

Consumed-here :
    (size : ℕ) (segments : List Segment) (n buffered actual : ℕ)
    → AllUsed size segments
    → n ≡ 0
    → buffered ≡ total segments
    → actual ≡ length segments * size
    → Consumed size segments n (segments, buffered, actual)
Consumed-here size segments n buffered actual u e b a = record {
  used = u;
  dropped = sym (drop-zero n (stored segments) e);
  buffered = b;
  held = a;
  counted = omega arith;
  fewer = omega arith;
}

-- Part of the front segment is consumed.
Consumed-part :
    (size : ℕ) (head head' : Segment) (rest : List Segment) (n buffered actual : ℕ)
    → AllUsed size (head ∷ rest)
    → n < head.readable_size
    → Bounds.Advanced head n head'
    → buffered ≡ total (head ∷ rest)
    → buffered < size_mod
    → actual ≡ length (head ∷ rest) * size
    → Consumed size (head ∷ rest) n (head' ∷ rest, sub_size buffered n, actual)
Consumed-part size head head' rest n buffered actual u h step b small a = record {
  used = (step.valid, step.same ∙ u.1, omega (arith, step.shrunk, h), u.3);
  dropped =
      ap (λ k. k ++ stored rest) step.bytes
      ∙ sym (
          drop-append n (readable_bytes head) (stored rest)
          ∙ ap (λ k. drop n (readable_bytes head) ++ k)
              (drop-zero (n - length (readable_bytes head)) (stored rest)
                (omega (arith, Bounds.length-readable_bytes u.0, h))));
  buffered = omega (arith, step.shrunk);
  held = a;
  counted = omega (arith, step.shrunk);
  fewer = omega arith;
}

-- The whole front segment is consumed.
Consumed-whole :
    (size : ℕ) (head : Segment) (rest : List Segment) (n : ℕ) (out : List Segment × ℕ × ℕ)
    → AllUsed size (head ∷ rest)
    → head.readable_size ≤ n
    → Consumed size rest (n - head.readable_size) out
    → Consumed size (head ∷ rest) n out
Consumed-whole size head rest n out u h c = record {
  used = c.used;
  dropped =
      c.dropped
      ∙ sym (
          drop-append n (readable_bytes head) (stored rest)
          ∙ ap₂ ◌++◌ (drop_all n (readable_bytes head) (omega (arith, sized)))
              (ap (λ k. drop k (stored rest)) (omega (arith, sized))));
  buffered = c.buffered;
  held = c.held;
  counted = omega (arith, c.counted);
  fewer = omega (arith, c.fewer);
}
  where
    sized : length (readable_bytes head) ≡ head.readable_size
    sized = Bounds.length-readable_bytes u.0

-- The loop consumes exactly the bytes asked for, and finds a segment as long as bytes are left.
pub consume_loop_lem :
    (size : ℕ) (segments : List Segment) (n buffered actual : ℕ)
    → AllUsed size segments
    → n ≤ total segments
    → buffered ≡ total segments
    → buffered < size_mod
    → actual ≡ length segments * size
    → actual < size_mod
    → (out : List Segment × ℕ × ℕ) × (consume_loop size segments n buffered actual ≡ ok out)
      × Consumed size segments n out
unfolding consume_loop
consume_loop_lem size [] n buffered actual u h b sb a sa = (
  ([], buffered, actual),
  rw ((==_iff n 0).1 (omega arith)),
  Consumed-here size [] n buffered actual u (omega arith) b a,
)
consume_loop_lem size (head ∷ rest) n buffered actual u h b sb a sa = elim (ℕ_discrete n 0) [
  | yes e ↦ (
    (head ∷ rest, buffered, actual),
    rw ((==_iff n 0).1 e),
    Consumed-here size (head ∷ rest) n buffered actual u e b a,
  )
  | no e ↦ elim (dec_lt n head.readable_size) [
    | yes part ↦
        let (head', found, step) = Bounds.advance_read-ok n u.0 (omega arith) in
        (
          (head' ∷ rest, sub_size buffered n, actual),
          rw (ne→== n 0 e, lt→ltb n head.readable_size part, found),
          Consumed-part size head head' rest n buffered actual u part step b sb a,
        )
    | no whole ↦
        let (out, found, c) =
          consume_loop_lem size rest (n - head.readable_size) (sub_size buffered head.readable_size)
            (sub_size actual size) u.3 (omega arith) (omega arith) (omega arith) (omega arith)
            (omega arith) in
        (
          out,
          rw
              (
                ne→== n 0 e,
                le→ltb n head.readable_size (omega arith),
                sub_size_exact n head.readable_size (omega arith) (omega arith),
              )
              found,
          Consumed-whole size head rest n out u (omega arith) c,
        )
  ]
]
