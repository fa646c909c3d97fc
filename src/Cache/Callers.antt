-- ===== src/Cache/Callers.antt =====
-- src/cache/concurrent_cache.h: any number of callers of `get_or_create` on one shard, each going
-- from one section under the lock to the next, and the promises that they wait for.
pub mod Sharing
pub mod Moves
pub mod Settling
pub mod Sections
pub mod Stampede
use xtd.Base.{
  ℕ, zero, suc, ◌+◌, ◌-◌, ◌*◌, ◌/◌, ◌%◌, ◌^◌, ◌≤◌, ◌<◌, min, max, ◌≡◌, refl, sym, ap, ap₂, subst,
  ◌∙◌, ◌≡⟨◌⟩◌, ◌∎, ◌≢◌, ◌↔◌, ◌⊎◌, inl, inr, Bool, true, false, not, ◌&&◌, ◌||◌, Option, none, some,
  List, [], ◌∷◌, ◌++◌, map, append-nil, append_assoc, arith, dec_lt, ℕ_discrete, ltb, leb, ◌==◌,
  if◌then◌else◌, lt→ltb, le→ltb, le→leb, lt→leb, ltb→lt, ltb→le, ==_iff, ne→==, Bool-cases,
  Option-cases, if_cases, length, get_elem?, take, drop, flatten, push_back, length-append,
  length-push_back, length-take, length-drop, take-append-drop, take_all, drop_all, eq_nil,
  take-zero, drop-zero, take-nil, drop-nil, take-append, drop-append, drop-drop, take-min,
  take-take, take-add, drop-take, take_prefix, drop_prefix, get_elem?-append, get_elem?-append_left,
  get_elem?-is_some, flatten-append, size_mod, add_size, sub_size, add_size_exact, sub_size_exact,
  Error, Result, ok, err, out_of_range, invalid_argument, logic_error, undefined, ◌>>=◌, ◌>>◌,
  mul_size, require, count, remove, count-remove, length-remove,
}
use xtd.Cache.{
  Entry, FactoryState, Shard, Claim, LookupResult, missing, expired, found, present, awaited, owner,
  internal_fast_get, get_expired, insert_or_assign, erase, claim, publish, remove_in_flight,
  purge_values,
}

-- What the promise of a factory state holds.
pub data Promise {ℓ} (V : Type ℓ) : Type ℓ where
  pending : Promise V
  value : V → Promise V
  exception : Promise V

-- Where a caller of `get_or_create` stands: ahead of the fast path, of the first section, in
-- `future.get`, in the factory, ahead of the publishing section, of `set_value`, of
-- `remove_in_flight`, or at the end.
pub data Caller {ℓ} (V : Type ℓ) : Type ℓ where
  started : ℕ → Caller V
  missed : ℕ → Caller V
  waiting : FactoryState → Caller V
  running : ℕ → FactoryState → Caller V
  created : ℕ → FactoryState → Entry V → Caller V
  fulfilling : FactoryState → V → Caller V
  broken : ℕ → FactoryState → Caller V
  returned : V → Caller V
  threw : Caller V

-- What the callers share: the shard, and the promise of every factory state by its number. Numbers
-- from `next` on have not been given to a factory state.
pub record Shared {ℓ} (V : Type ℓ) : Type ℓ where
  pub shard : Shard V
  pub promises : ℕ → Promise V
  pub next : ℕ

module _ {ℓ} {A : Type ℓ} where
  abbrev pub put : ℕ → A → (ℕ → A) → ℕ → A
  put i a f j = if j == i then a else f j

module _ {ℓ} {V : Type ℓ} where
  -- After the fast path, after the first section, and in `future.get`.
  abbrev pub after_lookup : Shared V → ℕ → LookupResult V → Shared V × Caller V
  after_lookup r key (found v) = (r, returned v)
  after_lookup r key expired = (r, missed key)
  after_lookup r key missing = (r, missed key)

  abbrev pub after_claim : Shared V → ℕ → Claim V × Shard V → Shared V × Caller V
  after_claim r key (present v, s) = (record r { shard = s }, returned v)
  after_claim r key (awaited state, s) = (record r { shard = s }, waiting state)
  after_claim r key (owner state, s) = (
    record r { shard = s; promises = put state.id pending r.promises; next = r.next + 1 },
    running key state,
  )

  abbrev pub future_get : Shared V → FactoryState → Promise V → Shared V × Caller V
  future_get r state pending = (r, waiting state)
  future_get r state (value v) = (r, returned v)
  future_get r state exception = (r, threw)

  -- What a caller does next, where the clock reads `now` and its factory throws or makes an entry.
  unfoldable pub get_or_create : Shared V → Caller V → ℕ → Option (Entry V) → Shared V × Caller V
  get_or_create r (started key) now outcome = after_lookup r key (internal_fast_get r.shard key now)
  get_or_create r (missed key) now outcome =
      after_claim r key (claim r.shard key now (record { id = r.next }))
  get_or_create r (waiting state) now outcome = future_get r state (r.promises state.id)
  get_or_create r (running key state) now none =
      (record r { promises = put state.id exception r.promises }, broken key state)
  get_or_create r (running key state) now (some new_entry) = (r, created key state new_entry)
  get_or_create r (created key state new_entry) now outcome =
      let out = publish r.shard key now new_entry in
      (record r { shard = out.1 }, fulfilling state out.0)
  get_or_create r (fulfilling state published) now outcome =
      (record r { promises = put state.id (value published) r.promises }, returned published)
  get_or_create r (broken key state) now outcome =
      (record r { shard = remove_in_flight r.shard key state }, threw)
  get_or_create r (returned v) now outcome = (r, returned v)
  get_or_create r threw now outcome = (r, threw)
