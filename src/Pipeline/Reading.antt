-- ===== src/Pipeline/Reading.antt =====
-- src/pipeline/pipeline_impl.h, read_result.h: what a read gives.
use xtd.Base.{
  ℕ, ◌+◌, ◌≤◌, ◌<◌, ◌≡◌, refl, sym, ap, ◌∙◌, ◌⊎◌, inl, inr, Bool, true, false, ◌||◌, List, [], ◌∷◌,
  ◌++◌, append-nil, append_assoc, arith, ◌==◌, if◌then◌else◌, ne→==, if_cases, length, flatten,
  push_back, size_mod, add_size, add_size_exact, logic_error,
}
use xtd.Segment.{Segment, readable_bytes}
use xtd.View.{of_segments, empty_view}
use xtd.View.Slices.{bytes, IsValid}
use xtd.Pipeline.State.{Pipeline, data_available}
use xtd.Pipeline.Read.{
  collect, make_readable_view, ReaderPc, reading, waiting, got, refused, cancelled_result, snapshot,
  wait_for_data, read_step,
}
use xtd.Pipeline.Invariant.{stored, contents, total, total-le, AllUsed, IsLive, contents_bounds}

flatten-push_back : (xs : List (List ℕ)) (x : List ℕ) → flatten (push_back xs x) ≡ flatten xs ++ x
flatten-push_back [] x = append-nil x
flatten-push_back (y ∷ ys) x =
    ap (◌++◌ y) (flatten-push_back ys x) ∙ sym (append_assoc y (flatten ys) x)

-- The loop collects every byte that is stored, in order.
collect_lem :
    (size : ℕ) (segments : List Segment) (found : List (List ℕ)) (n : ℕ)
    → AllUsed size segments
    → n + total segments < size_mod
    → (flatten (collect segments found n).0 ≡ flatten found ++ stored segments)
      × ((collect segments found n).1 ≡ n + total segments)
unfolding collect
collect_lem size [] found n used small = (sym (append-nil (flatten found)), omega arith)
collect_lem size (s ∷ rest) found n used small =
    let some_bytes : (s.readable_size == 0) ≡ false =
      ne→== s.readable_size 0 (omega (arith, used.2)) in
    let e : add_size n s.readable_size ≡ n + s.readable_size =
      add_size_exact n s.readable_size (omega arith) in
    let (shown, counted) =
      collect_lem size rest (push_back found (readable_bytes s)) (n + s.readable_size) used.3
        (omega arith) in
    rw (some_bytes, e)
      (
        shown
            ∙ ap (λ l. l ++ stored rest) (flatten-push_back found (readable_bytes s))
            ∙ append_assoc (flatten found) (readable_bytes s) (stored rest),
        omega (arith, counted),
      )

-- The view that a read makes of a live pipeline is valid and shows exactly what is buffered.
pub make_readable_view_lem :
    {p : Pipeline}
    → IsLive p
    → (bytes (make_readable_view p.segments) ≡ contents p)
      × ((make_readable_view p.segments).size ≡ p.buffered_size)
      × IsValid (make_readable_view p.segments)
unfolding make_readable_view of_segments
make_readable_view_lem {p} live =
    (all.0, exact, record { sized = sized; small = omega (arith, exact, narrow, live.buffered) })
  where
    narrow : 0 + total p.segments < size_mod
    narrow =
        omega (
          arith,
          live.actual,
          live.bounded,
          live.small,
          total-le p.buffer_size p.segments live.used,
        )

    all :
        (flatten (collect p.segments [] 0).0 ≡ contents p)
        × ((collect p.segments [] 0).1 ≡ 0 + total p.segments)
    all = collect_lem p.buffer_size p.segments [] 0 live.used narrow

    exact : (collect p.segments [] 0).1 ≡ p.buffered_size
    exact = omega (arith, all.1, live.buffered)

    sized : length (flatten (collect p.segments [] 0).0) ≡ (collect p.segments [] 0).1
    sized = ap length all.0 ∙ (contents_bounds live).0 ∙ sym exact

-- Whether a read that asks for so many bytes has what it waits for.
abbrev pub HasData : Pipeline → ℕ → Type 0
HasData p min_size =
    (p.writer_completed ≡ true)
    ⊎ ((p.examined_size < p.buffered_size) × (min_size ≤ p.buffered_size))

abbrev pub LacksData : Pipeline → ℕ → Type 0
LacksData p min_size =
    (p.writer_completed ≡ false)
    × ((p.buffered_size ≤ p.examined_size) ⊎ (p.buffered_size < min_size))

data_available-HasData :
    (p : Pipeline) (min_size : ℕ) → data_available p min_size ≡ true → HasData p min_size
unfolding data_available
data_available-HasData p min_size e = ground (arith, e)

data_available-LacksData :
    (p : Pipeline) (min_size : ℕ) → data_available p min_size ≡ false → LacksData p min_size
unfolding data_available
data_available-LacksData p min_size e = ground (arith, e)

-- What a read that is not refused leaves: a result, or the reader in the wait.
abbrev pub Answered : Pipeline → ℕ → Bool → Pipeline × ReaderPc → Type 0
Answered p min_size stopped (q, reading m) = ⊥
Answered p min_size stopped (q, waiting m) =
    (m ≡ min_size)
    × (stopped ≡ false)
    × LacksData p min_size
    × (q ≡ record p { reader_waiting = true })
Answered p min_size stopped (q, got r) =
    IsLive q
    × (contents q ≡ contents p)
    × (((stopped ≡ true)
          × (r.cancelled ≡ true)
          × (bytes r.buffer ≡ [])
          × (q.has_pending_read ≡ p.has_pending_read))
        ⊎ ((stopped ≡ false)
            × HasData p min_size
            × (r.cancelled ≡ false)
            × (r.completed ≡ p.writer_completed)
            × (bytes r.buffer ≡ contents p)
            × IsValid r.buffer
            × (q.has_pending_read ≡ true)
            × (q.pending_read_size ≡ r.buffer.size)))
Answered p min_size stopped (q, refused e) = ⊥

-- A live pipeline stays so under the changes that a read makes.
pub IsLive-read :
    {p : Pipeline} (awaited pending : Bool) (n : ℕ)
    → IsLive p
    → n ≤ p.buffered_size
    → IsLive
        (record p { reader_waiting = awaited; has_pending_read = pending; pending_read_size = n })
IsLive-read awaited pending n live h = record {
  used = live.used;
  buffered = live.buffered;
  actual = live.actual;
  bounded = live.bounded;
  positive = live.positive;
  small = live.small;
  narrow = live.narrow;
  pending = h;
  examined = live.examined;
}

snapshot-Answered :
    {p : Pipeline} (awaited : Bool) (min_size : ℕ) (stopped : Bool)
    → IsLive p
    → (data_available p min_size || stopped) ≡ true
    → Answered p min_size stopped (snapshot (record p { reader_waiting = awaited }) stopped)
unfolding snapshot cancelled_result empty_view
snapshot-Answered {p} awaited min_size true live test = (
  IsLive-read awaited p.has_pending_read p.pending_read_size live live.pending,
  refl,
  inl (refl, refl, refl, refl),
)
snapshot-Answered {p} awaited min_size false live test =
    let (shown, counted, valid) = make_readable_view_lem live in
    (
      IsLive-read awaited true _ live (omega (arith, counted)),
      refl,
      inr (
        refl,
        data_available-HasData p min_size (ground (arith, test)),
        refl,
        refl,
        shown,
        valid,
        refl,
        refl,
      ),
    )

wait_for_data-Answered :
    {p : Pipeline} (min_size : ℕ) (stopped : Bool)
    → IsLive p
    → Answered p min_size stopped (wait_for_data p min_size stopped)
unfolding wait_for_data
wait_for_data-Answered {p} min_size stopped live =
    if_cases (Answered p min_size stopped) (data_available p min_size || stopped) _ _
      (λ test. snapshot-Answered false min_size stopped live test)
      λ test. (
        refl,
        ground (arith, test),
        data_available-LacksData p min_size (ground (arith, test)),
        refl,
      )

-- A read throws `std::logic_error` if a read is still pending or the reader is completed. Any
-- other read of a live pipeline, and any waiting reader that wakes, either waits (the writer is not
-- completed, no stop is requested, and nothing is unexamined or fewer bytes are buffered than asked
-- for), or gives a cancelled empty result if a stop is requested, or else, since the writer is
-- completed or enough bytes are buffered and some are unexamined, gives a valid view of exactly the
-- bytes written and not consumed, with whether the writer is completed, and opens the pending read
-- with the view's size.
pub read_step_lem :
    {p : Pipeline} (min_size : ℕ) (stopped : Bool)
    → IsLive p
    → ((((p.has_pending_read || p.reader_completed) ≡ true)
          × (read_step p (reading min_size) stopped ≡ (p, refused logic_error)))
        ⊎ (((p.has_pending_read || p.reader_completed) ≡ false)
            × Answered p min_size stopped (read_step p (reading min_size) stopped)))
      × Answered p min_size stopped (read_step p (waiting min_size) stopped)
unfolding read_step data_available
read_step_lem {p} min_size stopped live = (first, wait_for_data-Answered min_size stopped live)
  where
    entered :
        Answered p min_size stopped
          (if p.writer_completed then snapshot p stopped else wait_for_data p min_size stopped)
    entered =
        if_cases (Answered p min_size stopped) p.writer_completed _ _
          (λ completed.
            snapshot-Answered p.reader_waiting min_size stopped live (rw completed refl))
          λ _. wait_for_data-Answered min_size stopped live

    Q : Pipeline × ReaderPc → Type 0
    Q out =
        (((p.has_pending_read || p.reader_completed) ≡ true) × (out ≡ (p, refused logic_error)))
        ⊎ (((p.has_pending_read || p.reader_completed) ≡ false) × Answered p min_size stopped out)

    first : Q (read_step p (reading min_size) stopped)
    first =
        if_cases Q p.has_pending_read _ _ (λ a. inl (ground (arith, a), refl))
          λ a.
            if_cases Q p.reader_completed _ _ (λ b. inl (ground (arith, b), refl))
              λ b. inr (ground (arith, a, b), entered)
