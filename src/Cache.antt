-- ===== src/Cache.antt =====
-- src/cache/concurrent_cache.h: the shards, their tables, and the operations, one function for each
-- stretch that runs under a shard's lock. The hash and the clock's readings are parameters.
pub mod Tables
pub mod Laws
pub mod Creating
pub mod Purge
pub mod Callers
use xtd.Base.{
  ℕ, zero, suc, ◌+◌, ◌-◌, ◌*◌, ◌/◌, ◌%◌, ◌^◌, ◌≤◌, ◌<◌, min, max, ◌≡◌, refl, sym, ap, ap₂, subst,
  ◌∙◌, ◌≡⟨◌⟩◌, ◌∎, ◌≢◌, ◌↔◌, ◌⊎◌, inl, inr, Bool, true, false, not, ◌&&◌, ◌||◌, Option, none, some,
  List, [], ◌∷◌, ◌++◌, map, append-nil, append_assoc, arith, dec_lt, ℕ_discrete, ltb, leb, ◌==◌,
  if◌then◌else◌, lt→ltb, le→ltb, le→leb, lt→leb, ltb→lt, ltb→le, ==_iff, ne→==, Bool-cases,
  Option-cases, if_cases, length, get_elem?, take, drop, flatten, push_back, length-append,
  length-push_back, length-take, length-drop, take-append-drop, take_all, drop_all, eq_nil,
  take-zero, drop-zero, take-nil, drop-nil, take-append, drop-append, drop-drop, take-min,
  take-take, take-add, drop-take, take_prefix, drop_prefix, get_elem?-append, get_elem?-append_left,
  get_elem?-is_some, flatten-append, size_mod, add_size, sub_size, add_size_exact, sub_size_exact,
  Error, Result, ok, err, out_of_range, invalid_argument, logic_error, undefined, ◌>>=◌, ◌>>◌,
  mul_size, require, count, remove, count-remove, length-remove,
}

-- `entry`; an expiration time of `none` is `no_expiration_time`.
pub record Entry {ℓ} (V : Type ℓ) : Type ℓ where
  pub content : V
  pub expires_at : Option ℕ

-- `factory_state`: the number that tells it from others, and what its promise holds once it is set.
pub record FactoryState : Type 0 where
  pub id : ℕ

-- `shard_t`, its two maps as association lists of keys, which are numbers here.
pub record Shard {ℓ} (V : Type ℓ) : Type ℓ where
  pub values : List (ℕ × Entry V)
  pub in_flight : List (ℕ × FactoryState)

pub data LookupResult {ℓ} (V : Type ℓ) : Type ℓ where
  missing : LookupResult V
  expired : LookupResult V
  found : V → LookupResult V

-- How the critical section ahead of the factory ends.
pub data Claim {ℓ} (V : Type ℓ) : Type ℓ where
  present : V → Claim V
  awaited : FactoryState → Claim V
  owner : FactoryState → Claim V

module _ {ℓ} {A : Type ℓ} where
  -- `find`, `extract` at what `find` gave, and the assignment of a key, in a map.
  abbrev pub find : ℕ → List (ℕ × A) → Option A
  find key [] = none
  find key ((k, a) ∷ rest) = if k == key then some a else find key rest

  abbrev pub extract : ℕ → List (ℕ × A) → List (ℕ × A)
  extract key [] = []
  extract key ((k, a) ∷ rest) = if k == key then rest else (k, a) ∷ extract key rest

  abbrev pub assign : ℕ → A → List (ℕ × A) → List (ℕ × A)
  assign key a [] = (key, a) ∷ []
  assign key a ((k, b) ∷ rest) = if k == key then (k, a) ∷ rest else (k, b) ∷ assign key a rest

module _ {ℓ} {V : Type ℓ} where
  -- `entry::expired`
  unfoldable pub is_expired : Entry V → ℕ → Bool
  is_expired e now = elim e.expires_at [ none ↦ false | some t ↦ leb t now ]

  -- `internal_fast_get`
  unfoldable pub internal_fast_get : Shard V → ℕ → ℕ → LookupResult V
  unfolding is_expired
  internal_fast_get s key now = elim (find key s.values) [
    | none ↦ missing
    | some e ↦ if is_expired e now then expired else found e.content
  ]

  -- The section of `get` that follows an expired lookup.
  unfoldable pub get_expired : Shard V → ℕ → ℕ → Shard V
  unfolding is_expired
  get_expired s key now = elim (find key s.values) [
    | none ↦ s
    | some e ↦ if not (is_expired e now) then record s { values = extract key s.values } else s
  ]

  -- `get` with no other thread at work between its two sections, the clock read in each.
  unfoldable pub get : Shard V → ℕ → ℕ → ℕ → Option V × Shard V
  unfolding internal_fast_get get_expired
  get s key now later = elim (internal_fast_get s key now) [
    | found v ↦ (some v, s)
    | expired ↦ (none, get_expired s key later)
    | missing ↦ (none, s)
  ]

  unfoldable pub contains : Shard V → ℕ → ℕ → Bool
  unfolding is_expired
  contains s key now = elim (find key s.values) [ none ↦ false | some e ↦ not (is_expired e now) ]

  unfoldable pub insert_or_assign : Shard V → ℕ → Entry V → V × Shard V
  insert_or_assign s key new_entry =
      (new_entry.content, record s { values = assign key new_entry s.values })

  unfoldable pub erase : Shard V → ℕ → Bool × Shard V
  erase s key = elim (find key s.values) [
    | none ↦ (false, s)
    | some _ ↦ (true, record s { values = extract key s.values })
  ]

  -- The section of `get_or_create` ahead of the factory. `fresh` is the new factory state.
  unfoldable pub claim : Shard V → ℕ → ℕ → FactoryState → Claim V × Shard V
  unfolding is_expired
  claim s key now fresh =
      let join : Claim V × Shard V = elim (find key s.in_flight) [
        | some state ↦ (awaited state, s)
        | none ↦ (owner fresh, record s { in_flight = assign key fresh s.in_flight })
      ] in
      elim (find key s.values) [
        | none ↦ join
        | some e ↦ if not (is_expired e now) then (present e.content, s) else join
      ]

  -- The section that publishes what the factory made.
  unfoldable pub publish : Shard V → ℕ → ℕ → Entry V → V × Shard V
  unfolding is_expired
  publish s key now new_entry =
      let put : V × Shard V = (
        new_entry.content,
        record s { values = assign key new_entry s.values; in_flight = extract key s.in_flight },
      ) in
      elim (find key s.values) [
        | none ↦ put
        | some e ↦
            if not (is_expired e now)
            then (e.content, record s { in_flight = extract key s.in_flight })
            else put
      ]

  unfoldable pub remove_in_flight : Shard V → ℕ → FactoryState → Shard V
  remove_in_flight s key expected_state = elim (find key s.in_flight) [
    | none ↦ s
    | some state ↦
        if state.id == expected_state.id
        then record s { in_flight = extract key s.in_flight }
        else s
  ]

  -- The loop of `purge_expired` over one shard: what stays, and how many went.
  unfoldable pub purge_values : ℕ → List (ℕ × Entry V) → List (ℕ × Entry V) × ℕ
  unfolding is_expired
  purge_values now [] = ([], 0)
  purge_values now ((k, e) ∷ rest) =
      let (kept, removed) = purge_values now rest in
      if not (is_expired e now) then ((k, e) ∷ kept, removed) else (kept, removed + 1)

  unfoldable pub count_values : ℕ → List (ℕ × Entry V) → ℕ
  unfolding is_expired
  count_values now [] = 0
  count_values now ((k, e) ∷ rest) =
      if not (is_expired e now) then count_values now rest + 1 else count_values now rest

  unfoldable pub no_values : ℕ → List (ℕ × Entry V) → Bool
  unfolding is_expired
  no_values now [] = true
  no_values now ((k, e) ∷ rest) = if not (is_expired e now) then false else no_values now rest

  -- The three operations that visit every shard.
  unfoldable pub purge_expired : List (Shard V) → ℕ → List (Shard V) × ℕ
  unfolding purge_values
  purge_expired [] now = ([], 0)
  purge_expired (s ∷ shards) now =
      let (kept, removed) = purge_values now s.values in
      let (others, more) = purge_expired shards now in
      (record s { values = kept } ∷ others, removed + more)

  unfoldable pub size : List (Shard V) → ℕ → ℕ
  unfolding count_values
  size [] now = 0
  size (s ∷ shards) now = count_values now s.values + size shards now

  unfoldable pub empty : List (Shard V) → ℕ → Bool
  unfolding no_values
  empty [] now = true
  empty (s ∷ shards) now = if no_values now s.values then empty shards now else false

  -- The constructor: so many empty shards.
  unfoldable pub create : ℕ → List (Shard V)
  create zero = []
  create (suc shard_count) = record { values = []; in_flight = [] } ∷ create shard_count

  -- The index of `shard_for`, by the key's hash.
  unfoldable pub shard_for : (ℕ → ℕ) → List (Shard V) → ℕ → ℕ
  shard_for hash shards key = hash key % length shards
