-- ===== src/View/Access/Laws.antt =====
-- src/pipeline/segmented_byte_view.h: the subscript operators read the byte that the index names.
use xtd.Base.{
  ℕ, ◌+◌, ◌-◌, ◌≤◌, ◌<◌, ◌≡◌, ap, subst, ◌∙◌, ◌⊎◌, inl, inr, some, List, [], ◌∷◌, ◌++◌, append-nil,
  arith, dec_lt, lt→ltb, le→ltb, le→leb, length, get_elem?, flatten, length-append,
  get_elem?-append, get_elem?-append_left, get_elem?-is_some, flatten-append, size_mod, sub_size,
  add_size_exact, sub_size_exact, Result, ok, err, out_of_range,
}
use mathlib.Core.List.{reverse, reverse-cons, reverse-reverse}
use xtd.Position.{Position}
use xtd.View.{View}
use xtd.View.Slices.{IsValid, bytes}
use xtd.View.Access.{read_byte, from_end_loop, get_from_end, index_loop, get_index, get_position}

-- What reading the byte at `i` of `xs` must return.
abbrev pub Reads : List ℕ → ℕ → Result ℕ → Type 0
Reads xs i out = (b : ℕ) × (get_elem? xs i ≡ some b) × (out ≡ ok b)

read_byte-some : (s : List ℕ) (i b : ℕ) → get_elem? s i ≡ some b → read_byte s i ≡ ok b
read_byte-some s i b e = rw (e, read_byte)

read_byte-Reads : (s : List ℕ) (i : ℕ) → i < length s → Reads s i (read_byte s i)
read_byte-Reads s i h =
    let (b, found) = get_elem?-is_some s i h in (b, found, read_byte-some s i b found)

index_loop-Reads :
    (segments : List (List ℕ)) (base i : ℕ)
    → base ≤ i
    → i < base + length (flatten segments)
    → base + length (flatten segments) < size_mod
    → Reads (flatten segments) (i - base) (index_loop segments base i)
unfolding index_loop
index_loop-Reads [] base i h k small = absurd (omega arith)
index_loop-Reads (s ∷ rest) base i h k small =
    let total : length (s ++ flatten rest) ≡ length s + length (flatten rest) =
      length-append s (flatten rest) in
    elim (dec_lt i (base + length s)) [
      | yes here ↦
          rw
            (
              add_size_exact base (length s) (omega arith),
              lt→ltb i (base + length s) here,
              sub_size_exact i base h (omega arith),
              get_elem?-append_left s (flatten rest) (i - base) (omega arith),
            )
            (read_byte-Reads s (i - base) (omega arith))
      | no past ↦
          let same : i - base - length s ≡ i - (base + length s) = omega arith in
          rw
            (
              add_size_exact base (length s) (omega arith),
              le→ltb i (base + length s) (omega arith),
              get_elem?-append s (flatten rest) (i - base) (omega arith),
              same,
            )
            (index_loop-Reads rest (base + length s) i (omega arith) (omega arith) (omega arith))
    ]

flatten-reverse-cons :
    (s : List ℕ) (rest : List (List ℕ)) → flatten (reverse (s ∷ rest)) ≡ flatten (reverse rest) ++ s
flatten-reverse-cons s rest =
    ap flatten (reverse-cons s rest)
    ∙ flatten-append (reverse rest) (s ∷ [])
    ∙ ap (◌++◌ (flatten (reverse rest))) (append-nil s)

from_end_loop-Reads :
    (backwards : List (List ℕ)) (i : ℕ)
    → i < length (flatten (reverse backwards))
    → length (flatten (reverse backwards)) < size_mod
    → Reads
        (flatten (reverse backwards))
        (length (flatten (reverse backwards)) - 1 - i)
        (from_end_loop backwards i)
unfolding from_end_loop
from_end_loop-Reads [] i h small = absurd (omega arith)
from_end_loop-Reads (s ∷ rest) i h small =
    let ahead : List ℕ = flatten (reverse rest) in
    let split : flatten (reverse (s ∷ rest)) ≡ ahead ++ s = flatten-reverse-cons s rest in
    let total : length (flatten (reverse (s ∷ rest))) ≡ length ahead + length s =
      ap length split ∙ length-append ahead s in
    elim (dec_lt i (length s)) [
      | yes here ↦
          let place : length ahead + length s - 1 - i - length ahead ≡ length s - 1 - i =
            omega arith in
          let index : sub_size (sub_size (length s) 1) i ≡ length s - 1 - i = omega arith in
          rw
            (
              total,
              split,
              lt→ltb i (length s) here,
              get_elem?-append ahead s (length ahead + length s - 1 - i) (omega arith),
              place,
              index,
            )
            (read_byte-Reads s (length s - 1 - i) (omega arith))
      | no past ↦
          let place : length ahead + length s - 1 - i ≡ length ahead - 1 - (i - length s) =
            omega arith in
          rw
            (
              total,
              split,
              le→ltb i (length s) (omega arith),
              sub_size_exact i (length s) (omega arith) (omega arith),
              place,
              get_elem?-append_left ahead s (length ahead - 1 - (i - length s)) (omega arith),
            )
            (from_end_loop-Reads rest (i - length s) (omega arith) (omega arith))
    ]

index_lem :
    (v : View) (i : ℕ)
    → IsValid v
    → ((i < v.size) × Reads (bytes v) i (get_index v i))
      ⊎ ((v.size ≤ i) × (get_index v i ≡ err out_of_range))
unfolding get_index
index_lem v i valid = elim (dec_lt i v.size) [
  | yes h ↦ inl (
    h,
    let same : i - 0 ≡ i = omega arith in
        rw (lt→ltb i v.size h) (
          subst (λ k. Reads (bytes v) k (index_loop v.segments 0 i)) same
            (index_loop-Reads v.segments 0 i (omega arith) (omega (arith, valid))
              (omega (arith, valid)))),
  )
  | no h ↦ inr (omega arith, rw (le→ltb i v.size (omega arith)))
]

get_index-Reads : (v : View) (i : ℕ) → IsValid v → i < v.size → Reads (bytes v) i (get_index v i)
get_index-Reads v i valid h = elim (index_lem v i valid) [
  | inl (_, r) ↦ r
  | inr (k, _) ↦ absurd (omega arith)
]

position_lem :
    (v : View) (p : Position)
    → IsValid v
    → ((v.begin_offset ≤ p.offset)
        × (p.offset < v.begin_offset + v.size)
        × Reads (bytes v) (p.offset - v.begin_offset) (get_position v p))
      ⊎ ((¬ ((v.begin_offset ≤ p.offset) × (p.offset < v.begin_offset + v.size)))
          × (get_position v p ≡ err out_of_range))
unfolding get_position
position_lem v p valid = elim (dec_lt p.offset v.begin_offset) [
  | yes under ↦ inr (λ r. omega (arith, r), ground (arith, valid))
  | no above ↦ elim (dec_lt p.offset (v.begin_offset + v.size)) [
    | no over ↦ inr (λ r. omega (arith, r), ground (arith, valid))
    | yes h ↦ inl (
      omega arith,
      h,
      rw
          (
            le→leb v.begin_offset p.offset (omega arith),
            add_size_exact v.begin_offset v.size valid.small,
            lt→ltb p.offset (v.begin_offset + v.size) h,
            sub_size_exact p.offset v.begin_offset (omega arith) (omega (arith, valid)),
          )
          (get_index-Reads v (p.offset - v.begin_offset) valid (omega arith)),
    )
  ]
]

from_end_loop-reverse :
    (segments : List (List ℕ)) (i : ℕ)
    → i < length (flatten segments)
    → length (flatten segments) < size_mod
    → Reads
        (flatten segments)
        (length (flatten segments) - 1 - i)
        (from_end_loop (reverse segments) i)
from_end_loop-reverse segments i =
    subst
      (λ xs.
        i < length (flatten xs)
        → length (flatten xs) < size_mod
        → Reads (flatten xs) (length (flatten xs) - 1 - i) (from_end_loop (reverse segments) i))
      (reverse-reverse segments) (from_end_loop-Reads (reverse segments) i)

from_end_lem :
    (v : View) (n : ℕ)
    → IsValid v
    → ((0 < n) × (n ≤ v.size) × Reads (bytes v) (v.size - n) (get_from_end v n))
      ⊎ ((¬ ((0 < n) × (n ≤ v.size))) × (get_from_end v n ≡ err out_of_range))
unfolding get_from_end
from_end_lem v n valid = elim (dec_lt 0 n) [
  | no zero_offset ↦ inr (λ r. omega (arith, r), ground arith)
  | yes positive ↦ elim (dec_lt v.size n) [
    | yes over ↦ inr (λ r. omega (arith, r), ground arith)
    | no fits ↦
        let same : length (bytes v) - 1 - (n - 1) ≡ v.size - n = omega (arith, valid) in
        inl (
          positive,
          omega arith,
          rw
              (
                lt→ltb 0 n positive,
                le→leb n v.size (omega arith),
                sub_size_exact n 1 positive (omega (arith, valid)),
              )
              (subst (λ k. Reads (bytes v) k (from_end_loop (reverse v.segments) (n - 1))) same
                (from_end_loop-reverse v.segments (n - 1) (omega (arith, valid))
                  (omega (arith, valid)))),
        )
  ]
]

-- Each subscript operator reads one byte of the view or throws `std::out_of_range`, and no input
-- reaches `std::unreachable()`: an index below the size reads the byte of that index, a position
-- inside the view reads the byte at its distance from the begin, and `from_end{n}` with n from 1 to
-- the size reads the n-th byte from the end. Every other index, position or offset throws.
pub subscripts_lem :
    (v : View) (i : ℕ) (p : Position)
    → IsValid v
    → (((i < v.size) × Reads (bytes v) i (get_index v i))
        ⊎ ((v.size ≤ i) × (get_index v i ≡ err out_of_range)))
      × (((v.begin_offset ≤ p.offset)
            × (p.offset < v.begin_offset + v.size)
            × Reads (bytes v) (p.offset - v.begin_offset) (get_position v p))
          ⊎ ((¬ ((v.begin_offset ≤ p.offset) × (p.offset < v.begin_offset + v.size)))
              × (get_position v p ≡ err out_of_range)))
      × (((0 < i) × (i ≤ v.size) × Reads (bytes v) (v.size - i) (get_from_end v i))
          ⊎ ((¬ ((0 < i) × (i ≤ v.size))) × (get_from_end v i ≡ err out_of_range)))
subscripts_lem v i p valid = (index_lem v i valid, position_lem v p valid, from_end_lem v i valid)
