-- ===== src/Base/Lists.antt =====
-- Lists measured, cut and indexed by native numbers, under the library's names.
use Prim.Native.Nat.{ℕ, zero, suc, ◌+◌, ◌-◌, ◌≤◌, ◌<◌, min}
use mathlib.Core.Path.{◌≡◌, refl, ap, sym, ◌∙◌}
use mathlib.Core.List.{List, [], ◌∷◌, ◌++◌, append-nil, append_assoc}
use mathlib.Core.Option.{Option, none, some}
use native.Mathlib.Omega.{arith}

module _ {ℓ} {A : Type ℓ} where
  abbrev pub length : List A → ℕ
  length [] = 0
  length (x ∷ xs) = suc (length xs)

  abbrev pub get_elem? : List A → ℕ → Option A
  get_elem? [] i = none
  get_elem? (x ∷ xs) zero = some x
  get_elem? (x ∷ xs) (suc i) = get_elem? xs i

  abbrev pub take : ℕ → List A → List A
  take zero xs = []
  take (suc n) [] = []
  take (suc n) (x ∷ xs) = x ∷ take n xs

  abbrev pub drop : ℕ → List A → List A
  drop zero xs = xs
  drop (suc n) [] = []
  drop (suc n) (x ∷ xs) = drop n xs

  -- All the bytes of a sequence of segments.
  abbrev pub flatten : List (List A) → List A
  flatten [] = []
  flatten (x ∷ xs) = x ++ flatten xs

  -- The concatenation of `xs`, with `a` last: a deque's `emplace_back`.
  abbrev pub push_back : List A → A → List A
  push_back [] a = a ∷ []
  push_back (x ∷ xs) a = x ∷ push_back xs a

  pub length-append : (xs ys : List A) → length (xs ++ ys) ≡ length xs + length ys
  length-append [] ys = omega arith
  length-append (x ∷ xs) ys = omega (arith, length-append xs ys)

module _ {ℓ} {A : Type ℓ} where
  pub length-push_back : (xs : List A) (a : A) → length (push_back xs a) ≡ length xs + 1
  length-push_back [] a = omega arith
  length-push_back (x ∷ xs) a = omega (arith, length-push_back xs a)

  pub length-take : (n : ℕ) (xs : List A) → length (take n xs) ≡ min n (length xs)
  length-take zero xs = omega arith
  length-take (suc n) [] = omega arith
  length-take (suc n) (x ∷ xs) = omega (arith, length-take n xs)

  pub length-drop : (n : ℕ) (xs : List A) → length (drop n xs) ≡ length xs - n
  length-drop zero xs = omega arith
  length-drop (suc n) [] = omega arith
  length-drop (suc n) (x ∷ xs) = omega (arith, length-drop n xs)

  pub take-append-drop : (n : ℕ) (xs : List A) → take n xs ++ drop n xs ≡ xs
  take-append-drop zero xs = refl
  take-append-drop (suc n) [] = refl
  take-append-drop (suc n) (x ∷ xs) = ap (◌∷◌ x) (take-append-drop n xs)

  pub take_all : (n : ℕ) (xs : List A) → length xs ≤ n → take n xs ≡ xs
  take_all zero [] h = refl
  take_all zero (x ∷ xs) h = absurd (omega arith)
  take_all (suc n) [] h = refl
  take_all (suc n) (x ∷ xs) h = ap (◌∷◌ x) (take_all n xs (omega arith))

  pub drop_all : (n : ℕ) (xs : List A) → length xs ≤ n → drop n xs ≡ []
  drop_all zero [] h = refl
  drop_all zero (x ∷ xs) h = absurd (omega arith)
  drop_all (suc n) [] h = refl
  drop_all (suc n) (x ∷ xs) h = drop_all n xs (omega arith)

  pub eq_nil : (xs : List A) → length xs ≡ 0 → xs ≡ []
  eq_nil [] h = refl
  eq_nil (x ∷ xs) h = absurd (omega arith)

  pub take-zero : (n : ℕ) (xs : List A) → n ≡ 0 → take n xs ≡ []
  take-zero n xs h = ap (λ k. take k xs) h

  pub drop-zero : (n : ℕ) (xs : List A) → n ≡ 0 → drop n xs ≡ xs
  drop-zero n xs h = ap (λ k. drop k xs) h

  pub take-nil : (n : ℕ) → take {A = A} n [] ≡ []
  take-nil zero = refl
  take-nil (suc n) = refl

  pub drop-nil : (n : ℕ) → drop {A = A} n [] ≡ []
  drop-nil zero = refl
  drop-nil (suc n) = refl

module _ {ℓ} {A : Type ℓ} where
  -- A prefix or a suffix of a concatenation, cut on either side of the seam.
  pub take-append :
      (n : ℕ) (xs ys : List A) → take n (xs ++ ys) ≡ take n xs ++ take (n - length xs) ys
  take-append zero xs ys = ground (arith, take-zero (0 - length xs) ys)
  take-append (suc n) [] ys = ap (λ k. take k ys) {x = suc n} (omega arith)
  take-append (suc n) (x ∷ xs) ys = ground (arith, take-append n xs ys)

  pub drop-append :
      (n : ℕ) (xs ys : List A) → drop n (xs ++ ys) ≡ drop n xs ++ drop (n - length xs) ys
  drop-append zero xs ys = ground (arith, drop-zero (0 - length xs) ys)
  drop-append (suc n) [] ys = ap (λ k. drop k ys) {x = suc n} (omega arith)
  drop-append (suc n) (x ∷ xs) ys = ground (arith, drop-append n xs ys)

  pub drop-drop : (m n : ℕ) (xs : List A) → drop m (drop n xs) ≡ drop (n + m) xs
  drop-drop m zero xs = ap (λ k. drop k xs) (omega arith)
  drop-drop m (suc n) [] = ground (arith, drop-nil {A = A} m, drop-nil {A = A} (suc n + m))
  drop-drop m (suc n) (x ∷ xs) =
      drop-drop m n xs ∙ ap (λ k. drop k (x ∷ xs)) {x = suc (n + m)} (omega arith)

  -- A prefix is not changed by bounding its length by that of the list.
  pub take-min : (n : ℕ) (xs : List A) → take (min n (length xs)) xs ≡ take n xs
  take-min zero xs = take-zero (min 0 (length xs)) xs (omega arith)
  take-min (suc n) [] = take-nil (min (suc n) 0)
  take-min (suc n) (x ∷ xs) =
      ap (λ k. take k (x ∷ xs)) {y = suc (min n (length xs))} (omega arith)
      ∙ ap (◌∷◌ x) (take-min n xs)

  pub take-take : (m n : ℕ) (xs : List A) → take m (take n xs) ≡ take (min m n) xs
  take-take zero n xs = sym (take-zero (min 0 n) xs (omega arith))
  take-take (suc m) zero xs = sym (take-zero (min (suc m) 0) xs (omega arith))
  take-take (suc m) (suc n) [] = sym (take-nil (min (suc m) (suc n)))
  take-take (suc m) (suc n) (x ∷ xs) =
      ap (◌∷◌ x) (take-take m n xs) ∙ ap (λ k. take k (x ∷ xs)) {x = suc (min m n)} (omega arith)

  -- A prefix is the shorter prefix, and a prefix of what comes after that.
  pub take-add : (m n : ℕ) (xs : List A) → take (m + n) xs ≡ take m xs ++ take n (drop m xs)
  take-add zero n xs = ap (λ k. take k xs) (omega arith)
  take-add (suc m) n [] = take-nil (suc m + n) ∙ sym (take-nil n)
  take-add (suc m) n (x ∷ xs) =
      ap (λ k. take k (x ∷ xs)) {y = suc (m + n)} (omega arith) ∙ ap (◌∷◌ x) (take-add m n xs)

  pub drop-take : (m n : ℕ) (xs : List A) → drop m (take n xs) ≡ take (n - m) (drop m xs)
  drop-take zero n xs = ap (λ k. take k xs) (omega arith)
  drop-take (suc m) zero xs = sym (take-zero (0 - suc m) (drop (suc m) xs) (omega arith))
  drop-take (suc m) (suc n) [] = sym (take-nil (suc n - suc m))
  drop-take (suc m) (suc n) (x ∷ xs) =
      drop-take m n xs ∙ ap (λ k. take k (drop m xs)) {x = n - m} (omega arith)

  pub take_prefix : (n : ℕ) (xs ys : List A) → length xs ≡ n → take n (xs ++ ys) ≡ xs
  take_prefix n xs ys h =
      ground
        (arith, take-append n xs ys, take-zero (n - length xs) ys, append-nil xs, take_all n xs)

  pub drop_prefix : (n : ℕ) (xs ys : List A) → length xs ≡ n → drop n (xs ++ ys) ≡ ys
  drop_prefix n xs ys h =
      ground (arith, drop-append n xs ys, drop-zero (n - length xs) ys, drop_all n xs)

  pub get_elem?-append :
      (xs ys : List A) (i : ℕ)
      → length xs ≤ i
      → get_elem? (xs ++ ys) i ≡ get_elem? ys (i - length xs)
  get_elem?-append [] ys i h = ap (get_elem? ys) (omega arith)
  get_elem?-append (x ∷ xs) ys zero h = absurd (omega arith)
  get_elem?-append (x ∷ xs) ys (suc i) h =
      get_elem?-append xs ys i (omega arith) ∙ ap (get_elem? ys) (omega arith)

  pub get_elem?-append_left :
      (xs ys : List A) (i : ℕ) → i < length xs → get_elem? (xs ++ ys) i ≡ get_elem? xs i
  get_elem?-append_left [] ys i h = absurd (omega arith)
  get_elem?-append_left (x ∷ xs) ys zero h = refl
  get_elem?-append_left (x ∷ xs) ys (suc i) h = get_elem?-append_left xs ys i (omega arith)

  pub get_elem?-is_some :
      (xs : List A) (i : ℕ) → i < length xs → (a : A) × (get_elem? xs i ≡ some a)
  get_elem?-is_some [] i h = absurd (omega arith)
  get_elem?-is_some (x ∷ xs) zero h = (x, refl)
  get_elem?-is_some (x ∷ xs) (suc i) h = get_elem?-is_some xs i (omega arith)

  pub flatten-append : (xs ys : List (List A)) → flatten (xs ++ ys) ≡ flatten xs ++ flatten ys
  flatten-append [] ys = refl
  flatten-append (x ∷ xs) ys =
      ap (◌++◌ x) (flatten-append xs ys) ∙ sym (append_assoc x (flatten xs) (flatten ys))
