-- ===== src/Cache/Laws.antt =====
-- src/cache/concurrent_cache.h: the operations against a map from keys to unexpired values.
use xtd.Base.{
  ℕ, ◌≡◌, refl, sym, subst, ◌⊎◌, inl, inr, Bool, true, false, Option, none, some, arith, ◌==◌,
  if◌then◌else◌, Bool-cases, Option-cases,
}
use xtd.Cache.{
  Entry, Shard, find, extract, is_expired, internal_fast_get, get_expired, get, contains,
  insert_or_assign, erase,
}
use xtd.Cache.Tables.{
  IsFunctional, find-assign_same, find-assign_other, find-extract_other, find-extract_same,
  assign-IsFunctional, extract-IsFunctional,
}

module _ {ℓ} {V : Type ℓ} where
  -- The abstract map: a key's value while it is not expired.
  unfoldable pub value_at : Shard V → ℕ → ℕ → Option V
  unfolding is_expired
  value_at s key now = elim (find key s.values) [
    | none ↦ none
    | some e ↦ if is_expired e now then none else some e.content
  ]

  abbrev pub is_some : Option V → Bool
  is_some none = false
  is_some (some v) = true

  pub record IsWellFormed (s : Shard V) : Type ℓ where
    pub values : IsFunctional s.values
    pub in_flight : IsFunctional s.in_flight

  -- `get` gives a key's value exactly while it is not expired, null otherwise, and `contains` says
  -- whether it would.
  pub get_lem :
      (s : Shard V) (key now later : ℕ)
      → ((get s key now later).0 ≡ value_at s key now)
        × (contains s key now ≡ is_some (value_at s key now))
  unfolding get internal_fast_get contains value_at
  get_lem s key now later = elim (Option-cases (find key s.values)) [
    | inl e ↦ ground (arith, e)
    | inr (x, e) ↦ elim (Bool-cases (is_expired x now)) [
      | inl f ↦ ground (arith, e, f)
      | inr f ↦ ground (arith, e, f)
    ]
  ]

  -- The section of `get` that follows an expired lookup removes the entry that it finds if and only
  -- if that entry is not expired, such as one that another thread has assigned in between.
  pub get_expired-drops_fresh :
      (s : Shard V) (key later : ℕ) (e : Entry V)
      → IsWellFormed s
      → find key s.values ≡ some e
      → ((is_expired e later ≡ false) × (find key (get_expired s key later).values ≡ none))
        ⊎ ((is_expired e later ≡ true) × (get_expired s key later ≡ s))
  unfolding get_expired
  get_expired-drops_fresh s key later e w known = elim (Bool-cases (is_expired e later)) [
    | inl f ↦ inr (f, ground (arith, known, f))
    | inr f ↦
        let gone = find-extract_same key s.values w.values in
        inl (f, ground (arith, known, f, gone))
  ]

  -- `insert_or_assign` gives the new value, and from then on the key has it until the new entry
  -- expires; no other key is touched, and no running factory.
  pub insert_or_assign_lem :
      (s : Shard V) (key other now : ℕ) (e : Entry V)
      → IsWellFormed s
      → (key == other) ≡ false
      → let out = insert_or_assign s key e in
        (out.0 ≡ e.content)
        × (value_at out.1 key now ≡ (if is_expired e now then none else some e.content))
        × (value_at out.1 other now ≡ value_at s other now)
        × (out.1.in_flight ≡ s.in_flight)
        × IsWellFormed out.1
  unfolding insert_or_assign value_at
  insert_or_assign_lem s key other now e w apart =
      let here = find-assign_same key e s.values in
      let there = find-assign_other key other e s.values apart in
      (
        refl,
        ground (arith, here),
        ground (arith, there),
        refl,
        record { values = assign-IsFunctional key e s.values w.values; in_flight = w.in_flight },
      )

  -- What `erase` may leave.
  abbrev pub Erased : Shard V → ℕ → ℕ → Bool × Shard V → Type ℓ
  Erased s key other out =
      (((out.0 ≡ true) × ((e : Entry V) × (find key s.values ≡ some e)))
        ⊎ ((out.0 ≡ false) × (find key s.values ≡ none)))
      × (find key out.1.values ≡ none)
      × (find other out.1.values ≡ find other s.values)
      × IsWellFormed out.1

  -- `erase` says whether the key had an entry, expired or not; afterwards it has none, and no other
  -- key is touched.
  pub erase_lem :
      (s : Shard V) (key other : ℕ)
      → IsWellFormed s
      → (key == other) ≡ false
      → Erased s key other (erase s key)
  unfolding erase
  erase_lem s key other w apart = elim (Option-cases (find key s.values)) [
    | inl e ↦
        let same : erase s key ≡ (false, s) = ground (arith, e) in
        subst (Erased s key other) (sym same) (inr (refl, e), e, refl, w)
    | inr (x, e) ↦
        let same : erase s key ≡ (true, record s { values = extract key s.values }) =
          ground (arith, e) in
        subst (Erased s key other) (sym same) (
          inl (refl, (x, e)),
          find-extract_same key s.values w.values,
          find-extract_other key other s.values apart,
          record { values = extract-IsFunctional key s.values w.values; in_flight = w.in_flight },
        )
  ]
