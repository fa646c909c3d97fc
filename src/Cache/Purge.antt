-- ===== src/Cache/Purge.antt =====
-- src/cache/concurrent_cache.h: the operations that visit every shard.
use xtd.Base.{
  ℕ, ◌+◌, ◌≡◌, refl, sym, ap, ◌∙◌, inl, inr, Option, none, some, List, [], ◌∷◌, arith, ◌==◌,
  if◌then◌else◌, ==_iff, Bool-cases, length,
}
use xtd.Cache.{
  Entry, Shard, is_expired, purge_values, count_values, no_values, purge_expired, size, empty,
}
use xtd.Cache.{find}
use xtd.Cache.Tables.{IsFunctional}
use xtd.Cache.Laws.{IsWellFormed}

module _ {ℓ} {V : Type ℓ} where
  -- The number of entries, expired or not.
  abbrev pub entries : List (Shard V) → ℕ
  entries [] = 0
  entries (s ∷ shards) = length s.values + entries shards

  purge_values_lem :
      (now : ℕ) (m : List (ℕ × Entry V))
      → (length (purge_values now m).0 ≡ count_values now m)
        × ((purge_values now m).1 + count_values now m ≡ length m)
  unfolding purge_values count_values
  purge_values_lem now [] = (refl, refl)
  purge_values_lem now ((k, e) ∷ rest) =
      let (kept, removed) = purge_values_lem now rest in
      elim (Bool-cases (is_expired e now)) [
        | inl f ↦ rw f (kept, omega arith)
        | inr f ↦ rw f (omega arith, omega arith)
      ]

  no_values_lem : (now : ℕ) (m : List (ℕ × Entry V)) → no_values now m ≡ (count_values now m == 0)
  unfolding count_values no_values
  no_values_lem now [] = refl
  no_values_lem now ((k, e) ∷ rest) = elim (Bool-cases (is_expired e now)) [
    | inl f ↦ rw f (no_values_lem now rest)
    | inr f ↦ rw f (ground arith)
  ]

  -- What of an entry is there after a purge.
  abbrev pub unexpired : ℕ → Option (Entry V) → Option (Entry V)
  unexpired now none = none
  unexpired now (some e) = if is_expired e now then none else some e

  find-purge_values :
      (now key : ℕ) (m : List (ℕ × Entry V))
      → IsFunctional m
      → find key (purge_values now m).0 ≡ unexpired now (find key m)
  unfolding purge_values
  find-purge_values now key [] u = refl
  find-purge_values now key ((k, e) ∷ rest) u =
      let later = find-purge_values now key rest u.1 in
      elim (Bool-cases (k == key)) [
        | inl same ↦
            let gone : find key rest ≡ none =
              ap (λ n. find n rest) (sym ((==_iff k key).0 same)) ∙ u.0 in
            elim (Bool-cases (is_expired e now)) [
              | inl f ↦ ground (arith, same, f, later, gone)
              | inr f ↦ ground (arith, same, f)
            ]
        | inr apart ↦ elim (Bool-cases (is_expired e now)) [
          | inl f ↦ ground (arith, apart, f, later)
          | inr f ↦ ground (arith, apart, f, later)
        ]
      ]

  purge_values-IsFunctional :
      (now : ℕ) (m : List (ℕ × Entry V)) → IsFunctional m → IsFunctional (purge_values now m).0
  unfolding purge_values
  purge_values-IsFunctional now [] u = tt
  purge_values-IsFunctional now ((k, e) ∷ rest) u =
      let later = purge_values-IsFunctional now rest u.1 in
      let absent : find k (purge_values now rest).0 ≡ none =
        find-purge_values now k rest u.1 ∙ ap (unexpired now) u.0 in
      elim (Bool-cases (is_expired e now)) [ inl f ↦ rw f later | inr f ↦ rw f (absent, later) ]

  abbrev pub AreWellFormed : List (Shard V) → Type ℓ
  AreWellFormed [] = Unit {ℓ}
  AreWellFormed (s ∷ shards) = IsWellFormed s × AreWellFormed shards

  -- The second list has the shards of the first one with their unexpired entries.
  abbrev pub Purged : ℕ → List (Shard V) → List (Shard V) → Type ℓ
  Purged now [] [] = Unit {ℓ}
  Purged now (s ∷ shards) (t ∷ others) =
      (((key : ℕ) → find key t.values ≡ unexpired now (find key s.values))
        × (t.in_flight ≡ s.in_flight)
        × IsWellFormed t)
      × Purged now shards others
  Purged now [] (t ∷ others) = Unit {ℓ} × ⊥
  Purged now (s ∷ shards) [] = Unit {ℓ} × ⊥

  purge_expired-Purged :
      (shards : List (Shard V)) (now : ℕ)
      → AreWellFormed shards
      → Purged now shards (purge_expired shards now).0
  unfolding purge_expired
  purge_expired-Purged [] now w = tt
  purge_expired-Purged (s ∷ shards) now w = (
    (
      λ key. find-purge_values now key s.values w.0.values,
      refl,
      record {
        values = purge_values-IsFunctional now s.values w.0.values;
        in_flight = w.0.in_flight;
      },
    ),
    purge_expired-Purged shards now w.1,
  )

  counts_lem :
      (shards : List (Shard V)) (now : ℕ)
      → (entries (purge_expired shards now).0 ≡ size shards now)
        × ((purge_expired shards now).1 + size shards now ≡ entries shards)
  unfolding purge_expired size
  counts_lem [] now = (refl, refl)
  counts_lem (s ∷ shards) now =
      let (kept, removed) = purge_values_lem now s.values in
      let (kept', removed') = counts_lem shards now in
      (omega (arith, kept, kept'), omega (arith, removed, removed'))

  -- `purge_expired` keeps the shards in their order, and in each of them, where no key stands twice,
  -- every unexpired entry under its key, and drops every expired one; what is in flight stays. The
  -- number that it gives and that of the unexpired entries make up the number of all entries before,
  -- and the entries that stay are as many as the unexpired ones.
  pub purge_expired_lem :
      (shards : List (Shard V)) (now : ℕ)
      → AreWellFormed shards
      → Purged now shards (purge_expired shards now).0
        × ((purge_expired shards now).1 + size shards now ≡ entries shards)
        × (entries (purge_expired shards now).0 ≡ size shards now)
  purge_expired_lem shards now w =
      let (kept, removed) = counts_lem shards now in
      (purge_expired-Purged shards now w, removed, kept)

  -- `empty` holds exactly when `size` is zero.
  pub empty_lem : (shards : List (Shard V)) (now : ℕ) → empty shards now ≡ (size shards now == 0)
  unfolding empty size
  empty_lem [] now = refl
  empty_lem (s ∷ shards) now =
      let head = no_values_lem now s.values in
      let tail = empty_lem shards now in ground (arith, head, tail)
