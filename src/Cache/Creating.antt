-- ===== src/Cache/Creating.antt =====
-- src/cache/concurrent_cache.h: the two sections of `get_or_create`.
use xtd.Base.{
  ℕ, ◌≡◌, refl, sym, subst, ◌⊎◌, inl, inr, false, none, some, arith, ◌==◌, Bool-cases, Option-cases,
}
use xtd.Cache.{
  Entry, FactoryState, Shard, Claim, present, awaited, owner, find, extract, assign, is_expired,
  claim, publish,
}
use xtd.Cache.Tables.{
  find-assign_same, find-assign_other, find-extract_same, assign-IsFunctional, extract-IsFunctional,
}
use xtd.Cache.Laws.{value_at, IsWellFormed}

module _ {ℓ} {V : Type ℓ} where
  -- What the section of `get_or_create` ahead of the factory may leave.
  abbrev pub Claimed : Shard V → ℕ → ℕ → FactoryState → Claim V × Shard V → Type ℓ
  Claimed s key now new (present v, t) = (value_at s key now ≡ some v) × (t ≡ s)
  Claimed s key now new (awaited state, t) =
      (value_at s key now ≡ none) × (find key s.in_flight ≡ some state) × (t ≡ s)
  Claimed s key now new (owner state, t) =
      (value_at s key now ≡ none)
      × (find key s.in_flight ≡ none)
      × (state ≡ new)
      × (find key t.in_flight ≡ some new)
      × (t.values ≡ s.values)

  join-Claimed :
      (s : Shard V) (key now : ℕ) (new : FactoryState)
      → value_at s key now ≡ none
      → Claimed s key now new (elim (find key s.in_flight) [
        | some state ↦ (awaited state, s)
        | none ↦ (owner new, record s { in_flight = assign key new s.in_flight })
      ])
  join-Claimed s key now new absent = elim (Option-cases (find key s.in_flight)) [
    | inl e ↦ rw e (absent, e, refl, find-assign_same key new s.in_flight, refl)
    | inr (state, e) ↦ rw e (absent, e, refl)
  ]

  claim_join :
      (s : Shard V) (key now : ℕ) (new : FactoryState)
      → value_at s key now ≡ none
      → claim s key now new ≡ elim (find key s.in_flight) [
        | some state ↦ (awaited state, s)
        | none ↦ (owner new, record s { in_flight = assign key new s.in_flight })
      ]
  unfolding claim value_at
  claim_join s key now new absent = elim (Option-cases (find key s.values)) [
    | inl e ↦ ground (arith, e)
    | inr (x, e) ↦ elim (Bool-cases (is_expired x now)) [
      | inl f ↦ ground (arith, e, f)
      | inr f ↦ absurd (ground (arith, e, f, absent))
    ]
  ]

  -- A caller of `get_or_create` gets the value that is there if it is not expired; else it waits for
  -- the factory that runs for its key, if one does; else, and only then, it becomes the one that
  -- runs the factory, and its state is the one that later callers find.
  pub claim_lem :
      (s : Shard V) (key now : ℕ) (new : FactoryState) → Claimed s key now new (claim s key now new)
  unfolding claim value_at
  claim_lem s key now new = elim (Option-cases (find key s.values)) [
    | inl e ↦
        let absent : value_at s key now ≡ none = ground (arith, e) in
        let same = claim_join s key now new absent in
        subst (Claimed s key now new) (sym same) (join-Claimed s key now new absent)
    | inr (x, e) ↦ elim (Bool-cases (is_expired x now)) [
      | inl f ↦
          let absent : value_at s key now ≡ none = ground (arith, e, f) in
          let same = claim_join s key now new absent in
          subst (Claimed s key now new) (sym same) (join-Claimed s key now new absent)
      | inr f ↦
          let same : claim s key now new ≡ (present x.content, s) = ground (arith, e, f) in
          subst (Claimed s key now new) (sym same) (ground (arith, e, f), refl)
    ]
  ]

  -- What the publishing section may leave.
  abbrev pub Published : Shard V → ℕ → ℕ → ℕ → Entry V → V × Shard V → Type ℓ
  Published s key other now e out =
      (((value_at s key now ≡ some out.0) × (out.1.values ≡ s.values))
        ⊎ ((value_at s key now ≡ none) × (out.0 ≡ e.content) × (find key out.1.values ≡ some e)))
      × (find other out.1.values ≡ find other s.values)
      × (find key out.1.in_flight ≡ none)
      × IsWellFormed out.1

  -- The publishing section gives the unexpired value that it finds, and keeps it, or else puts in
  -- and gives what the factory made; either way the key is no longer in flight, and no other key's
  -- entry is touched.
  pub publish_lem :
      (s : Shard V) (key other now : ℕ) (e : Entry V)
      → IsWellFormed s
      → (key == other) ≡ false
      → Published s key other now e (publish s key now e)
  unfolding publish value_at
  publish_lem s key other now e w apart = elim (Option-cases (find key s.values)) [
    | inl f ↦ put (ground (arith, f)) (ground (arith, f))
    | inr (x, f) ↦ elim (Bool-cases (is_expired x now)) [
      | inl g ↦ put (ground (arith, f, g)) (ground (arith, f, g))
      | inr g ↦
          let same : publish s key now e
              ≡ (x.content, record s { in_flight = extract key s.in_flight }) =
            ground (arith, f, g) in
          subst (Published s key other now e) (sym same) (
            inl (ground (arith, f, g), refl),
            refl,
            find-extract_same key s.in_flight w.in_flight,
            record {
              values = w.values;
              in_flight = extract-IsFunctional key s.in_flight w.in_flight;
            },
          )
    ]
  ]
    where
      done : Shard V
      done = record s { values = assign key e s.values; in_flight = extract key s.in_flight }

      put :
          value_at s key now ≡ none
          → publish s key now e ≡ (e.content, done)
          → Published s key other now e (publish s key now e)
      put absent same = subst (Published s key other now e) (sym same) (
        inr (absent, refl, find-assign_same key e s.values),
        find-assign_other key other e s.values apart,
        find-extract_same key s.in_flight w.in_flight,
        record {
          values = assign-IsFunctional key e s.values w.values;
          in_flight = extract-IsFunctional key s.in_flight w.in_flight;
        },
      )
