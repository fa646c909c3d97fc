-- ===== src/View/Search/First.antt =====
-- src/pipeline/segmented_byte_view.h: the position that a search returns is the first one.
use xtd.Base.{
  ℕ, zero, suc, ◌^◌, ◌≤◌, ◌<◌, ◌≡◌, refl, sym, ap, ◌∙◌, inl, inr, Bool, true, Option, none, some,
  List, [], ◌∷◌, arith, ◌==◌, Bool-cases, length, get_elem?, take, drop, drop-nil,
}
use mathlib.Core.Option
use xtd.Position.{Position}
use xtd.View.{View}
use xtd.View.Slices.{IsValid, bytes}
use xtd.View.Search.{
  find_index, starts_with, search_index, one_of, position_of, position_of_any, position_of_sequence,
}
use xtd.View.Search.Patterns.{starts_with-short}
use xtd.View.Search.Laws.{locate, position_of_lem, position_of_any_lem}
use xtd.View.Search.Sequence.{position_of_sequence_lem}

-- The result of a search for the first index with the property, among all indices.
abbrev pub First {ℓ} : (ℕ → Type ℓ) → Option ℕ → Type ℓ
First P none = (j : ℕ) → ¬ P j
First P (some i) = P i × ((j : ℕ) → j < i → ¬ P j)

First-suc {ℓ} :
    (P : ℕ → Type ℓ) (o : Option ℕ) → ¬ P 0 → First (λ j. P (suc j)) o → First P (Option.map suc o)
First-suc P none h f = λ j. before j
  where
    before : (j : ℕ) → ¬ P j
    before zero = h
    before (suc j) = f j
First-suc P (some i) h f = (f.0, λ j. before j)
  where
    before : (j : ℕ) → j < suc i → ¬ P j
    before zero k = h
    before (suc j) k = f.1 j (omega arith)

-- The pattern stands at the index.
abbrev pub Stands : List ℕ → List ℕ → ℕ → Type 0
Stands pattern xs i = take (length pattern) (drop i xs) ≡ pattern

starts_with_sound :
    (pattern xs : List ℕ) → starts_with pattern xs ≡ true → take (length pattern) xs ≡ pattern
unfolding starts_with
starts_with_sound [] xs e = refl
starts_with_sound (p ∷ ps) [] e = cc
starts_with_sound (p ∷ ps) (x ∷ xs) e = ground (arith, starts_with_sound ps xs)

starts_with_complete :
    (pattern xs : List ℕ) → take (length pattern) xs ≡ pattern → starts_with pattern xs ≡ true
unfolding starts_with
starts_with_complete [] xs e = refl
starts_with_complete (p ∷ ps) [] e = cc
starts_with_complete (p ∷ ps) (x ∷ xs) e = ground (arith, starts_with_complete ps xs)

nil-Stands : (p : ℕ) (ps : List ℕ) (j : ℕ) → ¬ Stands (p ∷ ps) [] j
nil-Stands p ps j s = let e : [] ≡ p ∷ ps = sym (ap (take (length (p ∷ ps))) (drop-nil j)) ∙ s in cc

search_index-First :
    (pattern xs : List ℕ) → 0 < length pattern → First (Stands pattern xs) (search_index pattern xs)
unfolding search_index
search_index-First [] xs h = absurd (omega arith)
search_index-First (p ∷ ps) [] h =
    rw (starts_with-short (p ∷ ps) [] (omega arith)) (λ j s. nil-Stands p ps j s)
search_index-First (p ∷ ps) (x ∷ xs) h = elim (Bool-cases (starts_with (p ∷ ps) (x ∷ xs))) [
  | inl e ↦ rw e (starts_with_sound (p ∷ ps) (x ∷ xs) e, λ j k. absurd (omega arith))
  | inr e ↦ rw e (
      First-suc (Stands (p ∷ ps) (x ∷ xs)) (search_index (p ∷ ps) xs)
        (λ s. cc (starts_with_complete (p ∷ ps) (x ∷ xs) s)) (search_index-First (p ∷ ps) xs h))
]

-- The byte at the index passes the test.
abbrev pub Hits : (ℕ → Bool) → List ℕ → ℕ → Type 0
Hits p xs i = (b : ℕ) × (get_elem? xs i ≡ some b) × (p b ≡ true)

find_index-First : (p : ℕ → Bool) (xs : List ℕ) → First (Hits p xs) (find_index p xs)
unfolding find_index
find_index-First p [] = λ j h. cc (h.1)
find_index-First p (x ∷ xs) = elim (Bool-cases (p x)) [
  | inl e ↦ rw e ((x, refl, e), λ j k. absurd (omega arith))
  | inr e ↦
      rw e
        (First-suc (Hits p (x ∷ xs)) (find_index p xs) (λ h. ground arith) (find_index-First p xs))
]

-- What a search for the first index with the property must return in a view: the position of that
-- index, or the position that is not found if no index has the property.
abbrev pub FindsFirst : View → (ℕ → Type 0) → Position → Type 0
FindsFirst v P out = (o : Option ℕ) × (out ≡ locate v.begin_offset o) × First P o

-- `position_of_sequence`, for a sequence of 1 to 2^63 bytes, returns the position where the sequence
-- first stands in the bytes of the view, and a position that is not found exactly if the sequence
-- stands nowhere, wherever the borders of the segments fall.
pub position_of_sequence-FindsFirst :
    (v : View) (pattern : List ℕ)
    → IsValid v
    → 0 < length pattern
    → length pattern ≤ 2 ^ 63
    → FindsFirst v (Stands pattern (bytes v)) (position_of_sequence v pattern)
position_of_sequence-FindsFirst v pattern valid h fits =
    elim (position_of_sequence_lem v pattern valid fits) [
      | inl (e, _) ↦ absurd (omega (arith, ap length e))
      | inr (_, found) ↦
          (search_index pattern (bytes v), found, search_index-First pattern (bytes v) h)
    ]

-- `position_of` and `position_of_any` return the position of the first byte of the view that equals
-- the value, or one of the values, and a position that is not found exactly if there is none.
pub position_of-FindsFirst :
    (v : View) (value : ℕ) (values : List ℕ)
    → IsValid v
    → FindsFirst v (Hits (λ b. b == value) (bytes v)) (position_of v value)
      × FindsFirst v (Hits (one_of values) (bytes v)) (position_of_any v values)
position_of-FindsFirst v value values valid = (
  (
    find_index (λ b. b == value) (bytes v),
    position_of_lem v value valid,
    find_index-First (λ b. b == value) (bytes v),
  ),
  (
    find_index (one_of values) (bytes v),
    position_of_any_lem v values valid,
    find_index-First (one_of values) (bytes v),
  ),
)
