-- ===== src/Cache/Tables.antt =====
-- src/cache/concurrent_cache.h: the maps of a shard.
use xtd.Base.{
  ℕ, ◌≡◌, refl, subst, ◌∙◌, inl, inr, false, none, some, List, [], ◌∷◌, arith, ◌==◌, ==_iff,
  Bool-cases,
}
use xtd.Cache.{find, extract, assign}

module _ {ℓ} {A : Type ℓ} where
  -- No key stands in a map twice.
  abbrev pub IsFunctional : List (ℕ × A) → Type ℓ
  IsFunctional [] = Unit {ℓ}
  IsFunctional ((k, a) ∷ rest) = (find k rest ≡ none) × IsFunctional rest

  pub find-assign_same : (key : ℕ) (a : A) (m : List (ℕ × A)) → find key (assign key a m) ≡ some a
  find-assign_same key a [] = rw ((==_iff key key).1 refl) refl
  find-assign_same key a ((k, b) ∷ rest) = elim (Bool-cases (k == key)) [
    | inl e ↦ rw e (rw e refl)
    | inr e ↦ rw e (rw e (find-assign_same key a rest))
  ]

  pub find-assign_other :
      (key other : ℕ) (a : A) (m : List (ℕ × A))
      → (key == other) ≡ false
      → find other (assign key a m) ≡ find other m
  find-assign_other key other a [] h = rw h refl
  find-assign_other key other a ((k, b) ∷ rest) h = elim (Bool-cases (k == key)) [
    | inl e ↦ let f : (k == other) ≡ false = ground (arith, e, h) in rw e (rw f refl)
    | inr e ↦ elim (Bool-cases (k == other)) [
      | inl f ↦ rw e (rw f refl)
      | inr f ↦ rw e (rw f (find-assign_other key other a rest h))
    ]
  ]

  pub find-extract_other :
      (key other : ℕ) (m : List (ℕ × A))
      → (key == other) ≡ false
      → find other (extract key m) ≡ find other m
  find-extract_other key other [] h = refl
  find-extract_other key other ((k, b) ∷ rest) h = elim (Bool-cases (k == key)) [
    | inl e ↦ let f : (k == other) ≡ false = ground (arith, e, h) in rw e (rw f refl)
    | inr e ↦ elim (Bool-cases (k == other)) [
      | inl f ↦ rw e (rw f refl)
      | inr f ↦ rw e (rw f (find-extract_other key other rest h))
    ]
  ]

  pub find-extract_same :
      (key : ℕ) (m : List (ℕ × A)) → IsFunctional m → find key (extract key m) ≡ none
  find-extract_same key [] u = refl
  find-extract_same key ((k, b) ∷ rest) u = elim (Bool-cases (k == key)) [
    | inl e ↦
        let same : k ≡ key = (==_iff k key).0 e in rw e (subst (λ n. find n rest ≡ none) same u.0)
    | inr e ↦ rw e (rw e (find-extract_same key rest u.1))
  ]

  pub assign-IsFunctional :
      (key : ℕ) (a : A) (m : List (ℕ × A)) → IsFunctional m → IsFunctional (assign key a m)
  assign-IsFunctional key a [] u = (refl, tt)
  assign-IsFunctional key a ((k, b) ∷ rest) u = elim (Bool-cases (k == key)) [
    | inl e ↦ rw e u
    | inr e ↦
        let f : (key == k) ≡ false = ground (arith, e) in
        rw e (find-assign_other key k a rest f ∙ u.0, assign-IsFunctional key a rest u.1)
  ]

  pub extract-IsFunctional :
      (key : ℕ) (m : List (ℕ × A)) → IsFunctional m → IsFunctional (extract key m)
  extract-IsFunctional key [] u = tt
  extract-IsFunctional key ((k, b) ∷ rest) u = elim (Bool-cases (k == key)) [
    | inl e ↦ rw e u.1
    | inr e ↦
        let f : (key == k) ≡ false = ground (arith, e) in
        rw e (find-extract_other key k rest f ∙ u.0, extract-IsFunctional key rest u.1)
  ]
