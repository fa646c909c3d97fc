-- ===== src/View/Search/Patterns.antt =====
-- The searches that the standard library makes in one run of bytes, split at a border.
use xtd.Base.{
  ℕ, suc, ◌+◌, ◌-◌, ◌≤◌, ◌<◌, ◌≡◌, refl, sym, ap, inl, inr, Bool, true, false, ◌&&◌, Option, none,
  some, List, [], ◌∷◌, ◌++◌, arith, ◌==◌, Bool-cases, length,
}
use mathlib.Core.Option
use xtd.View.Search.{find_index, starts_with, search_index}

abbrev pub or_else : Option ℕ → Option ℕ → Option ℕ
or_else none later = later
or_else (some i) later = some i

-- An index into what follows `k` bytes, as an index into the whole.
abbrev pub shift : ℕ → Option ℕ → Option ℕ
shift k o = Option.map (λ i. k + i) o

pub shift-suc : (k : ℕ) (o : Option ℕ) → Option.map suc (shift k o) ≡ shift (suc k) o
shift-suc k none = refl
shift-suc k (some i) = ap some (omega arith)

pub shift-zero : (o : Option ℕ) → shift 0 o ≡ o
shift-zero none = refl
shift-zero (some i) = ap some (omega arith)

pub shift-shift : (j k : ℕ) (o : Option ℕ) → shift j (shift k o) ≡ shift (j + k) o
shift-shift j k none = refl
shift-shift j k (some i) = ap some (omega arith)

suc-or_else :
    (o later : Option ℕ)
    → Option.map suc (or_else o later) ≡ or_else (Option.map suc o) (Option.map suc later)
suc-or_else none later = refl
suc-or_else (some i) later = refl

-- The first hit in a concatenation is the first hit in its left part, or else in its right part.
pub find_index-append :
    (p : ℕ → Bool) (xs ys : List ℕ)
    → find_index p (xs ++ ys) ≡ or_else (find_index p xs) (shift (length xs) (find_index p ys))
unfolding find_index
find_index-append p [] ys = sym (shift-zero (find_index p ys))
find_index-append p (x ∷ xs) ys = elim (Bool-cases (p x)) [
  | inl hit ↦ rw hit
  | inr miss ↦ rw (
    miss,
    find_index-append p xs ys,
    suc-or_else (find_index p xs) (shift (length xs) (find_index p ys)),
    shift-suc (length xs) (find_index p ys),
  )
]

pub find_index-lt : (p : ℕ → Bool) (xs : List ℕ) (i : ℕ) → find_index p xs ≡ some i → i < length xs
unfolding find_index
find_index-lt p [] i e = cc
find_index-lt p (x ∷ xs) i e = ground (arith, find_index-lt p xs (i - 1))

pub starts_with-le :
    (pattern xs : List ℕ) → starts_with pattern xs ≡ true → length pattern ≤ length xs
unfolding starts_with
starts_with-le [] xs e = omega arith
starts_with-le (p ∷ ps) [] e = cc
starts_with-le (p ∷ ps) (x ∷ xs) e = ground (arith, starts_with-le ps xs)

-- Whether a pattern stands at the front depends on no byte past the pattern's length.
pub starts_with-append :
    (pattern xs ys : List ℕ)
    → length pattern ≤ length xs
    → starts_with pattern (xs ++ ys) ≡ starts_with pattern xs
unfolding starts_with
starts_with-append [] xs ys h = refl
starts_with-append (p ∷ ps) [] ys h = absurd (omega arith)
starts_with-append (p ∷ ps) (x ∷ xs) ys h =
    ap (λ b. (p == x) && b) (starts_with-append ps xs ys (omega arith))

pub starts_with-short :
    (pattern xs : List ℕ) → length xs < length pattern → starts_with pattern xs ≡ false
starts_with-short pattern xs h = elim (Bool-cases (starts_with pattern xs)) [
  | inl e ↦ absurd (omega (arith, starts_with-le pattern xs e))
  | inr e ↦ e
]

pub search_index-short :
    (pattern xs : List ℕ) → length xs < length pattern → search_index pattern xs ≡ none
unfolding search_index
search_index-short pattern [] h = rw (starts_with-short pattern [] h)
search_index-short pattern (x ∷ xs) h =
    rw (starts_with-short pattern (x ∷ xs) h, search_index-short pattern xs (omega arith))

-- The steps of a search.
module _ (pattern : List ℕ) (x : ℕ) (xs : List ℕ) where
  pub search_index-hit :
      starts_with pattern (x ∷ xs) ≡ true → search_index pattern (x ∷ xs) ≡ some 0
  unfolding search_index
  search_index-hit e = rw e

  pub search_index-miss :
      starts_with pattern (x ∷ xs) ≡ false
      → search_index pattern (x ∷ xs) ≡ Option.map suc (search_index pattern xs)
  unfolding search_index
  search_index-miss e = rw e

-- An index that was found leaves room for the whole pattern.
pub search_index-le :
    (pattern xs : List ℕ) (i : ℕ)
    → search_index pattern xs ≡ some i
    → i + length pattern ≤ length xs
unfolding search_index
search_index-le pattern [] i e = ground (arith, starts_with-le pattern [])
search_index-le pattern (x ∷ xs) i e =
    ground (arith, starts_with-le pattern (x ∷ xs), search_index-le pattern xs (i - 1))
