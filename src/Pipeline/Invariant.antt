-- ===== src/Pipeline/Invariant.antt =====
-- src/pipeline/pipeline_impl.h: what holds of a pipeline whose reader is not completed.
use xtd.Base.{
  ℕ, ◌+◌, ◌*◌, ◌/◌, ◌%◌, ◌≤◌, ◌<◌, ◌≡◌, refl, sym, ◌∙◌, ◌⊎◌, inl, inr, not, List, [], ◌∷◌, ◌++◌,
  arith, dec_lt, ℕ_discrete, ◌==◌, ==_iff, ne→==, length, length-append, size_mod, add_size,
  add_size_exact, ok, err, invalid_argument,
}
use xtd.Segment.{Segment, readable_bytes}
use xtd.Segment.Bounds
use native.Mathlib.Nat.{div-add-mod, mod-lt, div-le_self}
use xtd.Pipeline.Options.{PipeOptions, count_of, ValidatedOptions, validate_options}
use xtd.Pipeline.State.{Pipeline, create}

-- The bytes that were written and not yet consumed, oldest first.
abbrev pub stored : List Segment → List ℕ
stored [] = []
stored (s ∷ rest) = readable_bytes s ++ stored rest

abbrev pub contents : Pipeline → List ℕ
contents p = stored p.segments

abbrev pub total : List Segment → ℕ
total [] = 0
total (s ∷ rest) = s.readable_size + total rest

-- Each segment has its spans inside its buffer, is of the pipeline's segment size and holds bytes.
abbrev pub AllUsed : ℕ → List Segment → Type 0
AllUsed size [] = Unit {0}
AllUsed size (s ∷ rest) =
    Bounds.IsValid s × (s.capacity ≡ size) × (0 < s.readable_size) × AllUsed size rest

pub record IsLive (p : Pipeline) : Type 0 where
  pub used : AllUsed p.buffer_size p.segments
  pub buffered : p.buffered_size ≡ total p.segments
  pub actual : p.actual_buffered_size ≡ length p.segments * p.buffer_size
  pub bounded : p.actual_buffered_size ≤ p.pause_writer_threshold
  pub positive : 0 < p.buffer_size
  pub small : p.pause_writer_threshold < size_mod
  pub narrow : p.buffer_size < size_mod
  pub pending : p.pending_read_size ≤ p.buffered_size
  pub examined : p.examined_size ≤ p.buffered_size

pub total-le :
    (size : ℕ) (segments : List Segment)
    → AllUsed size segments
    → total segments ≤ length segments * size
total-le size [] u = omega arith
total-le size (s ∷ rest) u =
    let room : s.readable_size ≤ size = omega (arith, u.0, u.1) in
    omega (arith, total-le size rest u.3)

pub length-stored :
    (size : ℕ) (segments : List Segment)
    → AllUsed size segments
    → length (stored segments) ≡ total segments
length-stored size [] u = refl
length-stored size (s ∷ rest) u = omega (
  arith,
  length-append (readable_bytes s) (stored rest),
  Bounds.length-readable_bytes u.0,
  length-stored size rest u.3,
)

-- The buffered bytes are counted right, fit the memory that is held, and that stays within the
-- pause threshold.
pub contents_bounds :
    {p : Pipeline}
    → IsLive p
    → (length (contents p) ≡ p.buffered_size)
      × (p.buffered_size ≤ p.actual_buffered_size)
      × (p.actual_buffered_size ≤ p.pause_writer_threshold)
contents_bounds {p} live = (
  length-stored p.buffer_size p.segments live.used ∙ sym live.buffered,
  omega (arith, live.buffered, live.actual, total-le p.buffer_size p.segments live.used),
  live.bounded,
)

-- A quotient rounded up, by the remainder's test.
rounded_up :
    (a b : ℕ)
    → 0 < b
    → a < size_mod
    → let m = add_size (a / b) (count_of (not (a % b == 0))) in (a ≤ m * b) × (m * b < a + b)
rounded_up a b h small =
    let split : b * (a / b) + a % b ≡ a = div-add-mod a b in
    let rest : a % b < b = mod-lt a h in
    elim (ℕ_discrete (a % b) 0) [
      | yes e ↦
          let q : a / b < size_mod = omega (arith, div-le_self a b) in
          rw ((==_iff (a % b) 0).1 e, add_size_exact (a / b) 0 (omega arith)) (grind arith)
      | no e ↦
          let q : a / b + 1 < size_mod = grind arith in
          rw (ne→== (a % b) 0 e, add_size_exact (a / b) 1 q) (grind arith)
    ]

-- The options that are accepted are those with positive sizes and the resume threshold at most the
-- pause threshold, and the number of pooled segments is the pause threshold over the segment size,
-- rounded up; any other options are refused with `std::invalid_argument`.
pub validate_options_lem :
    (o : PipeOptions)
    → o.pause_writer_threshold < size_mod
    → (((0 < o.buffer_size)
          × (0 < o.pause_writer_threshold)
          × (o.resume_writer_threshold ≤ o.pause_writer_threshold))
        × ((v : ValidatedOptions) × (validate_options o ≡ ok v)
            × (v.buffer_size ≡ o.buffer_size)
            × (v.pause_writer_threshold ≡ o.pause_writer_threshold)
            × (v.resume_writer_threshold ≡ o.resume_writer_threshold)
            × (o.pause_writer_threshold ≤ v.max_pooled_segments * o.buffer_size)
            × (v.max_pooled_segments * o.buffer_size < o.pause_writer_threshold + o.buffer_size)))
      ⊎ ((¬ (
            (0 < o.buffer_size)
            × (0 < o.pause_writer_threshold)
            × (o.resume_writer_threshold ≤ o.pause_writer_threshold)))
          × (validate_options o ≡ err invalid_argument))
unfolding validate_options
validate_options_lem o small = elim (dec_lt 0 o.buffer_size) [
  | no a ↦ inr (λ r. omega (arith, r), ground arith)
  | yes a ↦ elim (dec_lt 0 o.pause_writer_threshold) [
    | no b ↦ inr (λ r. omega (arith, r), ground arith)
    | yes b ↦ elim (dec_lt o.pause_writer_threshold o.resume_writer_threshold) [
      | yes c ↦ inr (λ r. omega (arith, r), ground arith)
      | no c ↦
          let (enough, least) = rounded_up o.pause_writer_threshold o.buffer_size a small in
          inl (
            (a, b, omega arith),
            (
              record {
                buffer_size = o.buffer_size;
                pause_writer_threshold = o.pause_writer_threshold;
                resume_writer_threshold = o.resume_writer_threshold;
                max_pooled_segments =
                    add_size (o.pause_writer_threshold / o.buffer_size)
                      (count_of (not (o.pause_writer_threshold % o.buffer_size == 0)));
                allocator = o.allocator;
              },
              ground arith,
              refl,
              refl,
              refl,
              enough,
              least,
            ),
          )
    ]
  ]
]

-- A pipeline starts out live and empty.
pub create-IsLive :
    (o : PipeOptions) (v : ValidatedOptions)
    → o.pause_writer_threshold < size_mod
    → o.buffer_size < size_mod
    → validate_options o ≡ ok v
    → IsLive (create v) × (contents (create v) ≡ [])
unfolding create validate_options
create-IsLive o v small narrow e = (ground (arith, e), refl)
