-- ===== src/View/Search/Laws.antt =====
-- src/pipeline/segmented_byte_view.h: each search finds what a search of the joined bytes finds.
use xtd.Base.{
  ℕ, ◌+◌, ◌<◌, ◌≡◌, refl, ap, ◌∙◌, inl, inr, Bool, true, false, Option, none, some, List, [], ◌∷◌,
  ◌++◌, arith, ℕ_discrete, ◌==◌, ==_iff, Bool-cases, Option-cases, length, flatten, length-append,
  size_mod, add_size_exact,
}
use xtd.Position.{Position}
use xtd.View.{View}
use xtd.View.Slices.{IsValid, bytes}
use xtd.View.Search.{
  find_index, starts_with, search_index, one_of, find_loop, position_of, position_of_any,
}
use xtd.View.Search.Patterns.{shift, find_index-append, find_index-lt}

-- The position of an index into a view that begins at `base`.
abbrev pub locate : ℕ → Option ℕ → Position
locate base none = record { offset = 0; found = false }
locate base (some i) = record { offset = base + i; found = true }

pub locate-shift : (base k : ℕ) (o : Option ℕ) → locate base (shift k o) ≡ locate (base + k) o
locate-shift base k none = refl
locate-shift base k (some i) = ap (λ n. record { offset = n; found = true }) (omega arith)

find_loop-locate :
    (p : ℕ → Bool) (segments : List (List ℕ)) (base : ℕ)
    → base + length (flatten segments) < size_mod
    → find_loop (find_index p) segments base ≡ locate base (find_index p (flatten segments))
unfolding find_loop find_index
find_loop-locate p [] base h = refl
find_loop-locate p (s ∷ rest) base h =
    let total : length (s ++ flatten rest) ≡ length s + length (flatten rest) =
      length-append s (flatten rest) in
    elim (Option-cases (find_index p s)) [
      | inl miss ↦
          rw
            (
              find_index-append p s (flatten rest),
              miss,
              find_loop,
              add_size_exact base (length s) (omega arith),
              locate-shift base (length s) (find_index p (flatten rest)),
            )
            (find_loop-locate p rest (base + length s) (omega arith))
      | inr (i, hit) ↦
          let inside : i < length s = find_index-lt p s i hit in
          rw (
            find_index-append p s (flatten rest),
            hit,
            find_loop,
            add_size_exact base i (omega arith),
          )
    ]

find_index-ext :
    (p q : ℕ → Bool) (xs : List ℕ) → ((b : ℕ) → p b ≡ q b) → find_index p xs ≡ find_index q xs
unfolding find_index
find_index-ext p q [] h = refl
find_index-ext p q (x ∷ xs) h = rw (h x, find_index-ext p q xs h)

find_index-nil : (p : ℕ → Bool) (xs : List ℕ) → length xs ≡ 0 → find_index p xs ≡ none
unfolding find_index
find_index-nil p [] h = refl
find_index-nil p (x ∷ xs) h = absurd (omega arith)

-- A search for one byte is a search for a pattern of one byte.
pub search_index-one :
    (b : ℕ) (xs : List ℕ) → search_index (b ∷ []) xs ≡ find_index (λ x. x == b) xs
unfolding search_index starts_with find_index
search_index-one b [] = refl
search_index-one b (x ∷ xs) = ground (arith, search_index-one b xs)

-- `position_of` gives the position of the first byte of the view that equals the value, and no
-- position if there is none, across the segments' borders.
pub position_of_lem :
    (v : View) (value : ℕ)
    → IsValid v
    → position_of v value ≡ locate v.begin_offset (find_index (λ b. b == value) (bytes v))
unfolding position_of
position_of_lem v value valid = elim (ℕ_discrete v.size 0) [
  | yes none_left ↦ rw (
    (==_iff v.size 0).1 none_left,
    find_index-nil (λ b. b == value) (bytes v) (omega (arith, valid)),
  )
  | no more ↦ elim (Bool-cases (v.size == 0)) [
    | inl e ↦ absurd (more ((==_iff v.size 0).0 e))
    | inr e ↦
        rw e (find_loop-locate (λ b. b == value) v.segments v.begin_offset (omega (arith, valid)))
  ]
]

find_index-never : (p : ℕ → Bool) (xs : List ℕ) → ((b : ℕ) → p b ≡ false) → find_index p xs ≡ none
unfolding find_index
find_index-never p [] h = refl
find_index-never p (x ∷ xs) h = rw (h x, find_index-never p xs h)

one_of-nil : (b : ℕ) → one_of [] b ≡ false
unfolding one_of
one_of-nil b = refl

one_of-one : (value b : ℕ) → (b == value) ≡ one_of (value ∷ []) b
unfolding one_of
one_of-one value b = ground arith

-- `position_of_any` gives the position of the first byte of the view that is one of the values, and
-- no position if there is none or no value is given.
pub position_of_any_lem :
    (v : View) (values : List ℕ)
    → IsValid v
    → position_of_any v values ≡ locate v.begin_offset (find_index (one_of values) (bytes v))
unfolding position_of_any
position_of_any_lem v [] valid = rw (find_index-never (one_of []) (bytes v) one_of-nil)
position_of_any_lem v (value ∷ []) valid =
    position_of_lem v value valid
    ∙ ap (locate v.begin_offset)
        (find_index-ext (λ b. b == value) (one_of (value ∷ [])) (bytes v) (one_of-one value))
position_of_any_lem v (value ∷ other ∷ others) valid =
    find_loop-locate (one_of (value ∷ other ∷ others)) v.segments v.begin_offset
      (omega (arith, valid))
