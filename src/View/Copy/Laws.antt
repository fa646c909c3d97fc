-- ===== src/View/Copy/Laws.antt =====
-- src/pipeline/segmented_byte_view.h: what the copies and the conversions hold.
use xtd.Base.{
  ℕ, ◌+◌, ◌-◌, ◌≤◌, ◌<◌, min, ◌≡◌, refl, sym, ap, subst, ◌∙◌, ◌⊎◌, inl, inr, true, false, List, [],
  ◌∷◌, ◌++◌, append-nil, append_assoc, arith, ℕ_discrete, ◌==◌, if◌then◌else◌, ==_iff, ne→==,
  length, take, drop, flatten, length-append, length-take, take_all, eq_nil, take-zero, take-nil,
  take-append, take-min, size_mod, add_size_exact, sub_size_exact, ok, err, logic_error,
}
use xtd.Base.Memory.{overwrite, length-overwrite, overwrite-nil, overwrite-overwrite}
use xtd.View.{View, empty, is_single_segment}
use xtd.View.Slices.{IsValid, bytes}
use xtd.View.Copy.{copy_loop, first_segment, copy_to, as_string_view, append_loop, to_string}

append_loop_lem :
    (segments : List (List ℕ)) (result : List ℕ)
    → append_loop segments result ≡ result ++ flatten segments
unfolding append_loop
append_loop_lem [] result = sym (append-nil result)
append_loop_lem (s ∷ rest) result =
    append_loop_lem rest (result ++ s) ∙ append_assoc result s (flatten rest)

-- The destination with its first `n` bytes replaced by those of `source`.
abbrev pub filled : List ℕ → ℕ → List ℕ → List ℕ
filled source n destination = take n source ++ drop n destination

-- The first `n` bytes of two runs: what fits of the first, and then of the second.
copied_bytes :
    (s r : List ℕ) (n m : ℕ)
    → m ≡ n - min (length s) n
    → take (min (length s) n) s ++ take m r ≡ take n (s ++ r)
copied_bytes s r n m h =
    ground (arith, take-append n s r, take-min n s, take-zero (n - length s) r, take-zero m r)

copy_loop-step :
    (s : List ℕ) (rest : List (List ℕ)) (target copied : ℕ) (destination : List ℕ)
    → ¬ (copied ≡ target)
    → copied ≤ target
    → target < size_mod
    → copy_loop (s ∷ rest) target copied destination
      ≡ copy_loop rest target
          (copied + min (length s) (target - copied))
          (overwrite destination copied (take (min (length s) (target - copied)) s))
unfolding copy_loop
copy_loop-step s rest target copied destination more h t = rw (
  ne→== copied target more,
  sub_size_exact target copied h t,
  add_size_exact copied (min (length s) (target - copied)) (omega arith),
)

-- The loop writes the bytes of the segments from the index `copied` on, as far as the target goes.
copy_loop_lem :
    (segments : List (List ℕ)) (target copied : ℕ) (destination : List ℕ)
    → copied ≤ target
    → target ≤ length destination
    → target < size_mod
    → target ≤ copied + length (flatten segments)
    → copy_loop segments target copied destination
      ≡ (target, overwrite destination copied (take (target - copied) (flatten segments)))
unfolding copy_loop
copy_loop_lem [] target copied destination h k t m =
    let done : copied ≡ target = omega arith in
    rw (take-nil {A = ℕ} (target - copied), overwrite-nil destination copied) (ground arith)
copy_loop_lem (s ∷ rest) target copied destination h k t m = elim (ℕ_discrete copied target) [
  | yes done ↦
      rw
        (
          (==_iff copied target).1 done,
          take-zero (target - copied) (s ++ flatten rest) (omega arith),
          overwrite-nil destination copied,
        )
        (ground arith)
  | no more ↦
      let n : ℕ = min (length s) (target - copied) in
      let chunk : List ℕ = take n s in
      let sized : length chunk ≡ n = omega (arith, length-take n s) in
      let total : length (s ++ flatten rest) ≡ length s + length (flatten rest) =
        length-append s (flatten rest) in
      let others : List ℕ = take (target - (copied + n)) (flatten rest) in
      let further : copy_loop rest target (copied + n) (overwrite destination copied chunk)
          ≡ (target, overwrite (overwrite destination copied chunk) (copied + n) others) =
        copy_loop_lem rest target (copied + n) (overwrite destination copied chunk) (omega arith)
          (omega (arith, length-overwrite destination chunk copied)) t (omega arith) in
      let joined : overwrite (overwrite destination copied chunk) (copied + n) others
          ≡ overwrite destination copied (chunk ++ others) =
        subst
          (λ k.
            overwrite (overwrite destination copied chunk) (copied + k) others
            ≡ overwrite destination copied (chunk ++ others))
          sized (overwrite-overwrite destination chunk others copied (omega arith)) in
      let bytes_so_far : chunk ++ others ≡ take (target - copied) (s ++ flatten rest) =
        copied_bytes s (flatten rest) (target - copied) (target - (copied + n)) (omega arith) in
      copy_loop-step s rest target copied destination more h t
      ∙ further
      ∙ ap (λ d. (target, d)) (joined ∙ ap (overwrite destination copied) bytes_so_far)
]

overwrite-front :
    (source destination : List ℕ) (n : ℕ)
    → n ≤ length source
    → overwrite destination 0 (take n source) ≡ filled source n destination
overwrite-front source destination n h =
    ap (λ k. take n source ++ drop k destination) {y = n} (omega (arith, length-take n source))

-- A view of one segment has the bytes of that segment.
single_front :
    (v : View)
    → (is_single_segment v ≡ false)
      ⊎ ((front : List ℕ) × (is_single_segment v ≡ true)
          × (first_segment v ≡ ok front)
          × (bytes v ≡ front))
unfolding first_segment
single_front v = cases v.segments refl
  where
    cases :
        (segments : List (List ℕ))
        → v.segments ≡ segments
        → (is_single_segment v ≡ false)
          ⊎ ((front : List ℕ) × (is_single_segment v ≡ true)
              × (first_segment v ≡ ok front)
              × (bytes v ≡ front))
    cases [] e = inl (ap (λ xs. length xs == 1) e)
    cases (s ∷ []) e = inr (s, ap (λ xs. length xs == 1) e, rw e, rw e (append-nil s))
    cases (s ∷ s' ∷ rest) e = inl (ap (λ xs. length xs == 1) e ∙ many)
      where
        many : (length (s ∷ s' ∷ rest) == 1) ≡ false
        many = ground arith

-- `copy_to` into a span copies as many bytes as the view has and the span takes, from the first on,
-- returns their number and leaves the rest of the span as it was, whether the view has no segment,
-- one or several.
pub copy_to_lem :
    (v : View) (destination : List ℕ)
    → IsValid v
    → let n = min (length destination) v.size in
      copy_to v destination ≡ ok (n, filled (bytes v) n destination)
unfolding copy_to
copy_to_lem v destination valid = elim (ℕ_discrete (min (length destination) v.size) 0) [
  | yes nothing ↦ rw ((==_iff (min (length destination) v.size) 0).1 nothing) (rw nothing refl)
  | no more ↦ rw (ne→== (min (length destination) v.size) 0 more) (elim (single_front v) [
    | inl several ↦
        let whole : min (length destination) v.size - 0 ≡ min (length destination) v.size =
          omega arith in
        rw
          (
            several,
            copy_loop_lem v.segments (min (length destination) v.size) 0 destination (omega arith)
                (omega arith) (omega (arith, valid)) (omega (arith, valid)),
            whole,
          )
          (ap (λ d. ok (min (length destination) v.size, d))
            (overwrite-front (bytes v) destination (min (length destination) v.size)
              (omega (arith, valid))))
    | inr (front, one, found, same) ↦
        rw (one, found)
          (ap (λ d. ok (min (length destination) v.size, d))
            (subst
              (λ xs.
                overwrite destination 0 (take (min (length destination) v.size) xs)
                ≡ filled (bytes v) (min (length destination) v.size) destination)
              same
              (overwrite-front (bytes v) destination (min (length destination) v.size)
                (omega (arith, valid)))))
  ])
]

-- The bytes that `m_size` counts from the start of the only segment.
whole_front :
    (v : View) (front : List ℕ) → IsValid v → bytes v ≡ front → take v.size front ≡ bytes v
whole_front v front valid same =
    ap (take v.size) (sym same) ∙ take_all v.size (bytes v) (omega (arith, valid))

to_string-bytes : (v : View) → IsValid v → to_string v ≡ ok (bytes v)
unfolding to_string empty
to_string-bytes v valid = elim (ℕ_discrete v.size 0) [
  | yes nothing ↦
      rw ((==_iff v.size 0).1 nothing) (ap ok (sym (eq_nil (bytes v) (omega (arith, valid)))))
  | no more ↦ rw (ne→== v.size 0 more) (elim (single_front v) [
    | inl several ↦ rw several (ap ok (append_loop_lem v.segments []))
    | inr (front, one, found, same) ↦ rw (one, found) (ap ok (whole_front v front valid same))
  ])
]

-- `to_string` returns all the bytes of the view in order, for any number of segments.
-- `as_string_view` returns the same bytes where the view has exactly one segment, and throws
-- `std::logic_error` for any other number, also for an empty view that has none.
pub to_string_lem :
    (v : View)
    → IsValid v
    → (to_string v ≡ ok (bytes v))
      × (as_string_view v ≡ (if is_single_segment v then ok (bytes v) else err logic_error))
unfolding as_string_view
to_string_lem v valid = (
  to_string-bytes v valid,
  elim (single_front v) [
    | inl several ↦ rw several
    | inr (front, one, found, same) ↦ rw (one, found) (ap ok (whole_front v front valid same))
  ],
)
